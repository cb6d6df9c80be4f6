-- ===== src/Modes/Insert/Actions.antt =====
-- Every action of insert mode but `exit` goes on with the insertion.
use teehee.Common.{
  ℕ, ◌*◌, ◌%◌, ◌≡◌, refl, Bool, true, Option, none, some, [], ◌∷◌, ◌==◌, if◌then◌else◌, length,
}
use teehee.Rope.{XiRope}
use teehee.Rope.Laws.{DeltaLaws}
use teehee.Modes.Chars.{encode_utf8, is_ascii_hexdigit, hex_digit}
use teehee.Keymap.{Event, key, resize, mouse, KeyCode, KeyModifiers, beyond_shift}
use teehee.Operations.Fits.{
  Fits, insert-Fits, change-Fits, overwrite_half-Fits, backspace-Fits, delete_cursor-Fits,
}
use teehee.Buffer.{Buffer}
use teehee.Modes.{Mode, InsertionMode, no_change, stays, dirty, mode_and_dirty}
use teehee.Modes.Insert
use teehee.Modes.Insert.Open.{
  Open, OutcomeOpen, OpenAll, incomplete-OpenAll, incomplete_back-OpenAll, dirty-Open,
  mode_and_dirty-Open, BufferOpen, BufferOpen-of, moved-Open, both,
}

module _ {X : XiRope} (laws : DeltaLaws X) (b c : Buffer X) (o : Open b c) where
  transition_ascii_insertion-Open :
      (ch : ℕ) (mode : InsertionMode)
      → OutcomeOpen b (Insert.transition_ascii_insertion X ch c mode)
  unfolding Insert.transition_ascii_insertion Insert.incomplete
  transition_ascii_insertion-Open ch mode =
      both (OutcomeOpen b) (Insert.overwrites X mode)
        (dirty-Open b _
          (incomplete-OpenAll b c _ o (change-Fits laws c.contents c.selection (encode_utf8 ch))))
        (dirty-Open b _
          (incomplete-OpenAll b c _ o (insert-Fits laws c.contents c.selection (encode_utf8 ch))))

  insert_digit-Open :
      (digit : ℕ) (mode : InsertionMode) (half : Option ℕ)
      → OutcomeOpen b (Insert.insert_digit X digit c mode half)
  unfolding Insert.insert_digit Insert.incomplete Insert.incomplete_back
  insert_digit-Open digit mode none = mode_and_dirty-Open b mode true (some (digit * 16 % 256)) _ (
      both (OpenAll b) (Insert.overwrites X mode)
        (incomplete_back-OpenAll b c _ o (overwrite_half-Fits laws c.contents c.selection _))
        (incomplete_back-OpenAll b c _ o (insert-Fits laws c.contents c.selection _)))
  insert_digit-Open digit mode (some half) =
      mode_and_dirty-Open b mode true none _
        (incomplete-OpenAll b c _ o (change-Fits laws c.contents c.selection _))

  transition_hex_insertion-Open :
      (ch : ℕ) (mode : InsertionMode) (half : Option ℕ)
      → OutcomeOpen b (Insert.transition_hex_insertion X ch c mode half)
  unfolding Insert.transition_hex_insertion
  transition_hex_insertion-Open ch mode half =
      both (OutcomeOpen b) (is_ascii_hexdigit ch) (insert_digit-Open (hex_digit ch) mode half)
        (o, tt)

  remove-Open :
      (mode : InsertionMode) (hex : Bool) (is_half : Bool) (half other : Option X.Delta)
      → Fits X c.contents half
      → Fits X c.contents other
      → OutcomeOpen b (
          if length c.contents == 0
          then stays c no_change
          else (if is_half
              then mode_and_dirty (Mode.insert mode hex none) (Insert.incomplete X c half)
              else dirty (Insert.incomplete X c other)))
  remove-Open mode hex is_half half other fits fits' =
      both (OutcomeOpen b) (length c.contents == 0) (o, tt)
        (both (OutcomeOpen b) is_half
          (mode_and_dirty-Open b mode hex none _ (incomplete-OpenAll b c half o fits))
          (dirty-Open b _ (incomplete-OpenAll b c other o fits')))

  completed-Open :
      (mode : InsertionMode) (half : Option ℕ) → BufferOpen b (Insert.completed X c mode half)
  unfolding Insert.completed
  completed-Open mode none = o
  completed-Open mode (some half) =
      BufferOpen-of b _ (transition_hex_insertion-Open b'0' mode (some half))

  pub act-Open :
      (mode : InsertionMode) (hex : Bool) (half : Option ℕ) (action : Insert.Action)
      (bytes_per_line : ℕ)
      → ¬ (action ≡ Insert.exit)
      → OutcomeOpen b (Insert.act X mode hex half action c bytes_per_line)
  unfolding Insert.act Insert.incomplete
  act-Open mode hex half Insert.exit bytes_per_line stays = absurd (stays refl)
  act-Open mode hex half Insert.insert_null bytes_per_line stays =
      mode_and_dirty-Open b mode hex none _
        (incomplete-OpenAll b c _ o (insert-Fits laws c.contents c.selection (0 ∷ [])))
  act-Open mode hex half Insert.switch_input_mode bytes_per_line stays = (o, tt)
  act-Open mode hex half Insert.remove_last bytes_per_line stays =
      remove-Open mode hex (Insert.is_half X half) _ _
        (delete_cursor-Fits laws c.contents c.selection)
        (backspace-Fits laws c.contents c.selection)
  act-Open mode hex half Insert.remove_this bytes_per_line stays =
      remove-Open mode hex (Insert.is_half X half) _ _
        (delete_cursor-Fits laws c.contents c.selection)
        (delete_cursor-Fits laws c.contents c.selection)
  act-Open mode hex half (Insert.move direction) bytes_per_line stays =
      moved-Open b mode hex
        (λ d region.
          Insert.moved_region X (Insert.is_half X half) direction bytes_per_line (length d.contents)
            region
          ∷ [])
        (Insert.completed X c mode half) (completed-Open mode half)

  char_key-Open :
      (mode : InsertionMode) (hex : Bool) (half : Option ℕ) (code : KeyCode)
      (modifiers : KeyModifiers)
      → OutcomeOpen b (Insert.char_key X mode hex half code modifiers c)
  unfolding Insert.char_key
  char_key-Open mode hex half (KeyCode.char ch) modifiers =
      both (OutcomeOpen b) (beyond_shift modifiers) (o, tt)
        (both (OutcomeOpen b) hex (transition_hex_insertion-Open ch mode half)
          (transition_ascii_insertion-Open ch mode))
  char_key-Open mode hex half _ modifiers = (o, tt)

  pub no_action-Open :
      (mode : InsertionMode) (hex : Bool) (half : Option ℕ) (evt : Event)
      → OutcomeOpen b (Insert.no_action X mode hex half evt c)
  unfolding Insert.no_action Insert.char_key
  no_action-Open mode hex half (key evt) = char_key-Open mode hex half evt.code evt.modifiers
  no_action-Open mode hex half (resize x y) = (o, tt)
  no_action-Open mode hex half mouse = (o, tt)
