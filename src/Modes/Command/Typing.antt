-- ===== src/Modes/Command/Typing.antt =====
-- What a key press makes of the command line.
use teehee.Common.{
  ℕ, suc, ◌+◌, ◌-◌, ◌<◌, ◌≤◌, ◌≡◌, refl, false, length-take, drop_all, none, some, List, ◌∷◌, ◌++◌,
  ◌==◌, length, take, drop, arith, Bool-cases, inl, inr,
}
use teehee.Rope.{XiRope}
use teehee.Buffers.{Buffers}
use teehee.Files.{FileSystem}
use teehee.Modes.{
  Mode, ModeTransition, no_change, new_mode, dirty_bytes, mode_and_dirty_bytes, mode_and_info,
  normal_mode,
}
use teehee.Modes.Text.{remove, insert}
use teehee.Modes.Command.{
  Action, remove_last, remove_this, cursor_left, cursor_right, cancel, Outcome, act, char_key,
}
use teehee.Keymap.{KeyCode, KeyModifiers, beyond_shift}
use teehee.Modes.Command.Line.{
  Ascii, IsLine, text_len-Ascii, split_at-Ascii, Ascii-take, insert-IsLine, remove-Ascii,
  remove-inserted, split_at_inside,
}

-- The command line after an event: a line again, or another mode.
abbrev pub LineAfter : ModeTransition → Type 0
LineAfter no_change = Unit
LineAfter (new_mode (Mode.command text cursor)) = IsLine text cursor
LineAfter (new_mode _) = Unit
LineAfter (dirty_bytes d) = Unit
LineAfter (mode_and_dirty_bytes m d) = Unit
LineAfter (mode_and_info m i) = Unit

-- The event returns, and changes no more than the command line.
pub record Types (X : XiRope) (F : FileSystem) (b : Buffers X) (files : F.Files)
    (result : Outcome X F) : Type 0 where
  pub transition : ModeTransition
  pub returns : result ≡ some (b, files, some transition)
  pub line : LineAfter transition

-- The actions that edit the line, where there is something to edit.
pub data IsEdit (text : List ℕ) (cursor : ℕ) : Action → Type 0 where
  removes_last : IsEdit text cursor remove_last
  removes_this : cursor < length text → IsEdit text cursor remove_this
  goes_left : IsEdit text cursor cursor_left
  goes_right : IsEdit text cursor cursor_right
  cancels : IsEdit text cursor cancel

module _ {X : XiRope} (F : FileSystem) (b : Buffers X) (files : F.Files) where
  -- On a command line of ASCII characters with the cursor in it, backspace, the arrow keys, escape, and
  -- delete with a character at the cursor return, change neither the buffers nor the files, and leave
  -- such a line or another mode.
  pub act-Types :
      (text : List ℕ) (cursor : ℕ) (action : Action)
      → IsLine text cursor
      → IsEdit text cursor action
      → Types X F b files (act F text cursor action b files)
  unfolding act
  act-Types text cursor _ l removes_last = elim (Bool-cases (cursor == 0)) [
    | inl e ↦ rw e (record { transition = no_change; returns = refl; line = tt })
    | inr e ↦
        let (text', r, a, n) = remove-Ascii text (cursor - 1) l.ascii (ground (arith, l.within)) in
        rw (e, r)
          (record {
            transition = new_mode (Mode.command text' (cursor - 1));
            returns = refl;
            line = record { ascii = a; within = omega (arith, l.within) };
          })
  ]
  act-Types text cursor _ l (removes_this h) =
      let (text', r, a, n) = remove-Ascii text cursor l.ascii h in
      rw r (record {
        transition = new_mode (Mode.command text' cursor);
        returns = refl;
        line = record { ascii = a; within = omega arith };
      })
  act-Types text cursor _ l goes_left = record {
    transition = _;
    returns = refl;
    line = record { ascii = l.ascii; within = ground (arith, l.within) };
  }
  act-Types text cursor _ l goes_right = record {
    transition = _;
    returns = refl;
    line = record {
      ascii = l.ascii;
      within = ground (arith, l.within, text_len-Ascii text l.ascii);
    };
  }
  act-Types text cursor _ l cancels = record {
    transition = new_mode normal_mode;
    returns = refl;
    line = tt;
  }

  -- Delete with the cursor at the end of the command line panics.
  pub remove_this-end :
      (text : List ℕ) → Ascii text → act F text (length text) remove_this b files ≡ none
  unfolding act remove
  remove_this-end text h =
      rw (split_at-Ascii (length text) text h (omega arith), drop_all text) refl

  -- On a command line of ASCII characters with the cursor in it, a typed ASCII character, without a
  -- modifier but shift, goes in between the characters before the cursor and those from it on, the
  -- cursor goes on by one, and backspace takes the character out again.
  pub remove_last-char_key :
      (text : List ℕ) (cursor ch : ℕ) (modifiers : KeyModifiers)
      → IsLine text cursor
      → ch < 128
      → beyond_shift modifiers ≡ false
      → (text' : List ℕ) × (text' ≡ take cursor text ++ (ch ∷ drop cursor text))
        × (char_key F text cursor (KeyCode.char ch) modifiers b files
            ≡ some (b, files, some (new_mode (Mode.command text' (cursor + 1)))))
        × (act F text' (cursor + 1) remove_last b files
            ≡ some (b, files, some (new_mode (Mode.command text cursor))))
  unfolding act char_key
  remove_last-char_key text cursor ch modifiers l h m =
      let back : cursor + 1 - 1 ≡ cursor = omega arith in
      let some_char : (cursor + 1 == 0) ≡ false = ground arith in
      (
        take cursor text ++ (ch ∷ drop cursor text),
        refl,
        rw (m, insert-IsLine text cursor ch l) refl,
        rw (some_char, back, remove-inserted text cursor ch h l) refl,
      )

  -- A typed character beyond ASCII goes in at the cursor, and leaves the cursor inside it: the next
  -- typed character panics.
  pub char_key_wide-panics :
      (text : List ℕ) (cursor ch next : ℕ) (modifiers : KeyModifiers)
      → IsLine text cursor
      → 128 ≤ ch
      → beyond_shift modifiers ≡ false
      → (text' : List ℕ) × (char_key F text cursor (KeyCode.char ch) modifiers b files
          ≡ some (b, files, some (new_mode (Mode.command text' (cursor + 1)))))
        × (char_key F text' (cursor + 1) (KeyCode.char next) modifiers b files ≡ none)
  unfolding char_key insert
  char_key_wide-panics text cursor ch next modifiers l h m =
      let n = length-take cursor text l.within in
      let at : cursor + 1 ≡ suc (length (take cursor text)) = omega arith in
      let inside =
        split_at_inside (take cursor text) (drop cursor text) ch (Ascii-take cursor text l.ascii)
          h in
      (
        take cursor text ++ (ch ∷ drop cursor text),
        rw (m, split_at-Ascii cursor text l.ascii l.within) refl,
        rw (m, at, inside) refl,
      )
