-- ===== src/Modes/Command/Safety.antt =====
-- A command, however it is typed and whatever the files are, returns and leaves a current buffer.
use teehee.Common.{
  ℕ, ◌≡◌, refl, ◌&&◌, Option, none, some, List, [], ◌∷◌, length, inl, inr, Bool-cases, Option-cases,
  arith,
}
use teehee.Rope.{XiRope}
use teehee.Buffer.{Buffer, FilePath}
use teehee.Buffers.{Buffers, switch_buffer}
use teehee.Buffers.InRange.{
  InRange, current-InRange, set_current-InRange, delete_current-InRange, switch_buffer-InRange,
}
use teehee.Files.{FileSystem, Result, ok, err}
use teehee.Modes.{ModeTransition}
use teehee.Modes.Text.{split_at_space}
use teehee.Modes.Command.{
  Handler, quit, force_quit, write, write_quit, write_all, edit, delete_buffer, force_delete_buffer,
  Ran, written, write_path, write_current, target, save_all, saved, edited, deleted, run, run_named,
  finish, has_path, find_command, default_commands,
}

-- The command returns, and there is a current buffer.
pub record Runs (X : XiRope) (F : FileSystem) (result : Ran X F) : Type 0 where
  pub buffers : Buffers X
  pub files : F.Files
  pub transition : ModeTransition
  pub returns : result ≡ some (buffers, files, transition)
  pub in_range : InRange buffers

module _ {X : XiRope} (F : FileSystem) where
  length-save_all :
      (files : F.Files) (bufs : List (Buffer X)) → length (save_all F files bufs).0 ≡ length bufs
  unfolding save_all
  length-save_all files [] = refl
  length-save_all files (buf ∷ rest) = elim (Option-cases buf.path) [
    | inl e ↦ ground (arith, length-save_all files rest)
    | inr (path, e) ↦ ground (arith, length-save_all (F.write files path buf.contents).0 rest)
  ]

  stays-Runs :
      (b : Buffers X) (files : F.Files) (t : ModeTransition)
      → InRange b
      → Runs X F (some (b, files, t))
  stays-Runs b files t h = record {
    buffers = b;
    files = files;
    transition = t;
    returns = refl;
    in_range = h;
  }

  written-Runs :
      (b : Buffers X) (buf : Buffer X) (path : FilePath) (r : F.Files × Option (List ℕ))
      → InRange b
      → Runs X F (written F b buf path r)
  unfolding written
  written-Runs b buf path (files, some e) h = stays-Runs b files _ h
  written-Runs b buf path (files, none) h = stays-Runs _ files _ (set_current-InRange b _ h)

  write_path-Runs :
      (b : Buffers X) (files : F.Files) (buf : Buffer X) (path : Option FilePath)
      → InRange b
      → Runs X F (write_path F b files buf path)
  unfolding write_path
  write_path-Runs b files buf none h = stays-Runs b files _ h
  write_path-Runs b files buf (some path) h =
      written-Runs b buf path (F.write files path buf.contents) h

  write_current-Runs :
      (b : Buffers X) (files : F.Files) (filename : List ℕ)
      → InRange b
      → Runs X F (write_current F b files filename)
  unfolding write_current
  write_current-Runs b files filename h =
      let (buf, e) = current-InRange b h in
      rw e (write_path-Runs b files buf (target F filename buf) h)

  saved-Runs :
      (b : Buffers X) (t : ModeTransition) (r : List (Buffer X) × F.Files × Option (List ℕ))
      → length r.0 ≡ length b.buffers
      → InRange b
      → Runs X F (saved F b t r)
  unfolding saved
  saved-Runs b t (bufs, files, none) e h = stays-Runs _ files t (omega arith)
  saved-Runs b t (bufs, files, some error) e h = stays-Runs _ files _ (omega arith)

  edited-Runs :
      (b : Buffers X) (files : F.Files) (r : Result (Buffers X))
      → ((b' : Buffers X) → r ≡ ok b' → InRange b')
      → InRange b
      → Runs X F (edited F b files r)
  unfolding edited
  edited-Runs b files (ok b') k h = stays-Runs b' files _ (k b' refl)
  edited-Runs b files (err e) k h = stays-Runs b files _ h

  deleted-Runs : (b : Buffers X) (files : F.Files) → InRange b → Runs X F (deleted F b files)
  unfolding deleted
  deleted-Runs b files h =
      let (b', e, k) = delete_current-InRange b h in rw e (stays-Runs b' files _ k)

  -- Every command of the command line returns, whatever its argument and the files are, where the
  -- index of the current buffer is in range; and it stays in range.
  pub run-Runs :
      (handler : Handler) (b : Buffers X) (files : F.Files) (arg : List ℕ)
      → InRange b
      → Runs X F (run F handler b files arg)
  unfolding run
  run-Runs quit b files arg h = stays-Runs b files _ h
  run-Runs force_quit b files arg h = stays-Runs b files _ h
  run-Runs write b files arg h = write_current-Runs b files arg h
  run-Runs write_quit b files arg h =
      saved-Runs b _ (save_all F files b.buffers) (length-save_all files b.buffers) h
  run-Runs write_all b files arg h =
      saved-Runs b _ (save_all F files b.buffers) (length-save_all files b.buffers) h
  run-Runs edit b files arg h =
      edited-Runs b files (switch_buffer F files b arg)
        (λ b' e. switch_buffer-InRange F files b arg e) h
  run-Runs delete_buffer b files arg h =
      let (buf, e) = current-InRange b h in
      elim (Bool-cases (buf.dirty && has_path buf)) [
        | inl dirty ↦ rw (e, dirty) (stays-Runs b files _ h)
        | inr clean ↦ rw (e, clean) (deleted-Runs b files h)
      ]
  run-Runs force_delete_buffer b files arg h = deleted-Runs b files h

  run_named-Runs :
      (name : List ℕ) (handler : Option Handler) (b : Buffers X) (files : F.Files) (arg : List ℕ)
      → InRange b
      → Runs X F (run_named F name handler b files arg)
  unfolding run_named
  run_named-Runs name (some handler) b files arg h = run-Runs handler b files arg h
  run_named-Runs name none b files arg h = stays-Runs b files _ h

  -- Whatever is typed on the command line, `Command::finish` returns, where the index of the current
  -- buffer is in range; and it stays in range.
  pub finish-Runs :
      (text : List ℕ) (b : Buffers X) (files : F.Files)
      → InRange b
      → Runs X F (finish F text b files)
  unfolding finish
  finish-Runs text b files h =
      run_named-Runs (split_at_space text).0 (find_command (split_at_space text).0 default_commands)
        b files (split_at_space text).1 h
