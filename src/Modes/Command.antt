-- ===== src/Modes/Command.antt =====
-- src/modes/command.rs: the command line and its commands.
pub mod Safety
pub mod Line
pub mod Typing
pub mod Saving
use text.Mathlib.Text
use teehee.Common.{
  same_codes, ℕ, ◌+◌, ◌-◌, Bool, true, false, ◌&&◌, ◌||◌, not, Option, none, some, List, [], ◌∷◌,
  ◌==◌, ltb, if◌then◌else◌, ◌>>=◌,
}
use teehee.Rope.{XiRope}
use teehee.Buffer.{Buffer, FilePath, update_path_if_missing}
use teehee.Buffers
use teehee.Buffers.{Buffers, current, set_current, switch_buffer, delete_current}
use teehee.Dirty.{change_length}
use teehee.Files.{FileSystem, Result, ok, err}
use teehee.Keymap.{
  KeyCode, KeyModifiers, Event, key, resize, mouse, KeyMap, special, keys, event_to_action,
  beyond_shift,
}
use teehee.Modes.{
  Mode, ModeTransition, no_change, new_mode, mode_and_dirty_bytes, mode_and_info, normal_mode, Info,
  unsaved_changes, no_path, dirty_buffer, write_failed, io_error, unknown_command,
}
use teehee.Modes.Text.{codes, text_len, remove, insert, split_at_space}

pub data Action : Type 0 where
  remove_last remove_this cursor_left cursor_right finish_action cancel : Action

unfoldable pub default_maps : KeyMap Action
default_maps = keys (
    (special KeyCode.backspace, remove_last)
    ∷ (special KeyCode.delete, remove_this)
    ∷ (special KeyCode.enter, finish_action)
    ∷ (special KeyCode.esc, cancel)
    ∷ (special KeyCode.left, cursor_left)
    ∷ (special KeyCode.right, cursor_right)
    ∷ [])

pub data Handler : Type 0 where
  quit force_quit write write_quit write_all edit delete_buffer force_delete_buffer : Handler

unfoldable pub default_commands : List (List ℕ × Handler)
default_commands =
    (codes "q", quit)
    ∷ (codes "quit", quit)
    ∷ (codes "q!", force_quit)
    ∷ (codes "quit!", force_quit)
    ∷ (codes "w", write)
    ∷ (codes "write", write)
    ∷ (codes "wq", write_quit)
    ∷ (codes "wa", write_all)
    ∷ (codes "write-all", write_all)
    ∷ (codes "e", edit)
    ∷ (codes "edit", edit)
    ∷ (codes "db", delete_buffer)
    ∷ (codes "delete-buffer", delete_buffer)
    ∷ (codes "db!", force_delete_buffer)
    ∷ (codes "delete-buffer!", force_delete_buffer)
    ∷ []

unfoldable pub find_command : List ℕ → List (List ℕ × Handler) → Option Handler
find_command name [] = none
find_command name ((name', handler) ∷ rest) =
    if same_codes name' name then some handler else find_command name rest

abbrev pub has_path : {X : XiRope} → Buffer X → Bool
has_path buf = elim buf.path [ none ↦ false | some path ↦ true ]

-- `iter().any(|x| x.dirty && x.path.is_some())`
unfoldable pub any_unsaved : {X : XiRope} → List (Buffer X) → Bool
any_unsaved [] = false
any_unsaved (buf ∷ rest) = (buf.dirty && has_path buf) || any_unsaved rest

-- What a command leaves: the buffers, the files and the transition; `none` is a panic.
abbrev pub Ran : XiRope → FileSystem → Type 0
Ran X F = Option (Buffers X × F.Files × ModeTransition)

-- What an event leaves; an inner `none` is an event that the mode leaves to the view.
abbrev pub Outcome : XiRope → FileSystem → Type 0
Outcome X F = Option (Buffers X × F.Files × Option ModeTransition)

module _ {X : XiRope} (F : FileSystem) where
  -- After the file of the current buffer is written: it is clean, and keeps a path it had.
  unfoldable pub written : Buffers X → Buffer X → FilePath → F.Files × Option (List ℕ) → Ran X F
  written b buf path (files, some e) = some (b, files, mode_and_info normal_mode (write_failed e))
  written b buf path (files, none) = some (
    set_current b (update_path_if_missing X (record buf { dirty = false }) path),
    files,
    new_mode normal_mode,
  )

  write_path : Buffers X → F.Files → Buffer X → Option FilePath → Ran X F
  unfolding written
  write_path b files buf none = some (b, files, mode_and_info normal_mode no_path)
  write_path b files buf (some path) = written b buf path (F.write files path buf.contents)

  abbrev pub target : List ℕ → Buffer X → Option FilePath
  target [] buf = buf.path
  target (c ∷ filename) buf = some (c ∷ filename)

  unfoldable pub write_current : Buffers X → F.Files → List ℕ → Ran X F
  unfolding write_path
  write_current b files filename = current b >>= λ buf. write_path b files buf (target filename buf)

  -- The loop of `write_all` and `write_quit`, which ends at a failure.
  unfoldable pub save_all : F.Files → List (Buffer X) → List (Buffer X) × F.Files × Option (List ℕ)
  save_all files [] = ([], files, none)
  save_all files (buf ∷ rest) = elim buf.path [
    | none ↦ let (rest', files', e) = save_all files rest in (buf ∷ rest', files', e)
    | some path ↦
        let (files', failed) = F.write files path buf.contents in
        elim failed [
          | some e ↦ (buf ∷ rest, files', some e)
          | none ↦
              let (rest', files'', e) = save_all files' rest in
              (record buf { dirty = false } ∷ rest', files'', e)
        ]
  ]

  saved : Buffers X → ModeTransition → List (Buffer X) × F.Files × Option (List ℕ) → Ran X F
  saved b transition (bufs, files, none) = some (record b { buffers = bufs }, files, transition)
  saved b transition (bufs, files, some e) =
      some (record b { buffers = bufs }, files, mode_and_info normal_mode (write_failed e))

  edited : Buffers X → F.Files → Result (Buffers X) → Ran X F
  edited b files (ok b') = some (b', files, mode_and_dirty_bytes normal_mode change_length)
  edited b files (err e) = some (b, files, mode_and_info normal_mode (io_error e))

  deleted : Buffers X → F.Files → Ran X F
  deleted b files =
      delete_current b >>= λ b'. some (b', files, mode_and_dirty_bytes normal_mode change_length)

  -- The functions of `mod cmd`.
  unfoldable pub run : Handler → Buffers X → F.Files → List ℕ → Ran X F
  unfolding write_current saved edited deleted
  run quit b files arg = some (
    b,
    files,
    if any_unsaved b.buffers
        then mode_and_info normal_mode unsaved_changes
        else new_mode Mode.quitting,
  )
  run force_quit b files arg = some (b, files, new_mode Mode.quitting)
  run write b files arg = write_current b files arg
  run write_quit b files arg = saved b (new_mode Mode.quitting) (save_all files b.buffers)
  run write_all b files arg = saved b (new_mode normal_mode) (save_all files b.buffers)
  run edit b files arg = edited b files (switch_buffer F files b arg)
  run delete_buffer b files arg = current b >>= λ buf.
      if buf.dirty && has_path buf
      then some (b, files, mode_and_info normal_mode dirty_buffer)
      else deleted b files
  run force_delete_buffer b files arg = deleted b files

  -- `Command::finish`: the command before the first space, run on what is behind it.
  run_named : List ℕ → Option Handler → Buffers X → F.Files → List ℕ → Ran X F
  run_named name (some handler) b files arg = run handler b files arg
  run_named name none b files arg =
      some (b, files, mode_and_info normal_mode (unknown_command name))

  unfoldable pub finish : List ℕ → Buffers X → F.Files → Ran X F
  unfolding run_named
  finish text b files =
      let (name, arg) = split_at_space text in
      run_named name (find_command name default_commands) b files arg

  abbrev typing : List ℕ → ℕ → Buffers X → F.Files → Outcome X F
  typing text cursor b files = some (b, files, some (new_mode (Mode.command text cursor)))

  -- The `match` on the action.
  unfoldable pub act : List ℕ → ℕ → Action → Buffers X → F.Files → Outcome X F
  act text cursor remove_last b files =
      if cursor == 0
      then some (b, files, some no_change)
      else (remove text (cursor - 1) >>= λ text'. typing text' (cursor - 1) b files)
  act text cursor remove_this b files = remove text cursor >>= λ text'. typing text' cursor b files
  act text cursor cursor_left b files =
      typing text (if cursor == 0 then cursor else cursor - 1) b files
  act text cursor cursor_right b files =
      typing text (if ltb cursor (text_len text) then cursor + 1 else cursor) b files
  act text cursor cancel b files = some (b, files, some (new_mode normal_mode))
  act text cursor finish_action b files =
      finish text b files >>= λ (b', files', transition). some (b', files', some transition)

  unfoldable pub char_key : List ℕ → ℕ → KeyCode → KeyModifiers → Buffers X → F.Files → Outcome X F
  char_key text cursor (KeyCode.char ch) modifiers b files =
      if beyond_shift modifiers
      then some (b, files, none)
      else (insert text cursor ch >>= λ text'. typing text' (cursor + 1) b files)
  char_key text cursor _ modifiers b files = some (b, files, none)

  no_action : List ℕ → ℕ → Event → Buffers X → F.Files → Outcome X F
  unfolding char_key
  no_action text cursor (key evt) b files = char_key text cursor evt.code evt.modifiers b files
  no_action text cursor (resize x y) b files = some (b, files, none)
  no_action text cursor mouse b files = some (b, files, none)

  unfoldable pub transition : List ℕ → ℕ → Event → Buffers X → F.Files → Outcome X F
  unfolding no_action
  transition text cursor evt b files = elim (event_to_action default_maps evt) [
    | some action ↦ act text cursor action b files
    | none ↦ no_action text cursor evt b files
  ]
