-- ===== src/Modes/Insert.antt =====
-- src/modes/insert.rs
pub mod Ascii
pub mod Open
pub mod Actions
pub mod Typing
use Prim.Native.Nat.{bit_or}
use teehee.Common.{
  ℕ, ◌*◌, ◌%◌, Bool, true, false, not, Option, none, some, [], ◌∷◌, ◌==◌, if◌then◌else◌, ◌>>=◌,
  length, pos, negsuc,
}
use teehee.Region.{SelRegion, Direction, left, down, up, right, simple_move}
use teehee.Rope.{XiRope}
use teehee.Operations
use teehee.Buffer
use teehee.Buffer.{Buffer}
use teehee.Dirty.{DirtyBytes}
use teehee.Keymap.{
  KeyCode, KeyModifiers, Event, key, resize, mouse, KeyMap, ctrl, special, keys, event_to_action,
  beyond_shift,
}
use teehee.Modes.{
  Mode, InsertionMode, insertion, append, overwrite, Outcome, stays, unhandled, dirty,
  mode_and_dirty, new_mode, no_change, normal_mode,
}
use teehee.Modes.Chars.{is_ascii_hexdigit, hex_digit, encode_utf8}

pub data Action : Type 0 where
  insert_null switch_input_mode remove_last remove_this exit : Action
  move : Direction → Action

unfoldable pub default_maps : KeyMap Action
default_maps = keys (
    (ctrl b'n', insert_null)
    ∷ (ctrl b'o', switch_input_mode)
    ∷ (special KeyCode.backspace, remove_last)
    ∷ (special KeyCode.delete, remove_this)
    ∷ (special KeyCode.esc, exit)
    ∷ (special KeyCode.right, move right)
    ∷ (special KeyCode.left, move left)
    ∷ (special KeyCode.up, move up)
    ∷ (special KeyCode.down, move down)
    ∷ [])

module _ (X : XiRope) where
  -- A step of an insertion that is not committed yet.
  pub incomplete : Buffer X → Option X.Delta → Option (Buffer X × DirtyBytes)
  incomplete b delta = delta >>= λ d. Buffer.apply_incomplete_delta X b d

  -- The same, with the carets one byte back.
  pub incomplete_back : Buffer X → Option X.Delta → Option (Buffer X × DirtyBytes)
  incomplete_back b delta =
      delta >>= λ d. Buffer.apply_incomplete_delta_offset_carets X b d (negsuc 0) (pos 0)

  abbrev overwrites : InsertionMode → Bool
  overwrites insertion = false
  overwrites append = false
  overwrites overwrite = true

  unfoldable pub transition_ascii_insertion : ℕ → Buffer X → InsertionMode → Outcome X
  unfolding incomplete
  transition_ascii_insertion ch b mode =
      let inserted_bytes = encode_utf8 ch in
      if overwrites mode
      then dirty (incomplete b (Operations.change X b.contents b.selection inserted_bytes))
      else dirty (incomplete b (Operations.insert X b.contents b.selection inserted_bytes))

  -- By `hex_half`: the first digit inserts or overwrites the upper half and stays on the byte, the
  -- second completes it.
  insert_digit : ℕ → Buffer X → InsertionMode → Option ℕ → Outcome X
  unfolding incomplete incomplete_back
  insert_digit digit b mode none =
      let to_insert = digit * 16 % 256 in
      mode_and_dirty (Mode.insert mode true (some to_insert)) (
        if overwrites mode
        then incomplete_back b (Operations.overwrite_half X b.contents b.selection to_insert)
        else incomplete_back b (Operations.insert X b.contents b.selection (to_insert ∷ [])))
  insert_digit digit b mode (some half) =
      let to_insert = bit_or half digit in
      mode_and_dirty (Mode.insert mode true none)
        (incomplete b (Operations.change X b.contents b.selection (to_insert ∷ [])))

  unfoldable pub transition_hex_insertion : ℕ → Buffer X → InsertionMode → Option ℕ → Outcome X
  unfolding insert_digit
  transition_hex_insertion ch b mode hex_half =
      if is_ascii_hexdigit ch then insert_digit (hex_digit ch) b mode hex_half else unhandled b

  abbrev is_half : Option ℕ → Bool
  is_half none = false
  is_half (some half) = true

  -- Where the arrow keys take a region: the caret of a half byte has moved on, and goes back.
  unfoldable pub moved_region : Bool → Direction → ℕ → ℕ → SelRegion → SelRegion
  moved_region is_hex_half direction bytes_per_line max_bytes region =
      let moved = simple_move region direction bytes_per_line max_bytes 1 in
      if is_hex_half then simple_move moved left bytes_per_line max_bytes 1 else moved

  -- An arrow key completes a half byte by the digit 0.
  completed : Buffer X → InsertionMode → Option ℕ → Option (Buffer X)
  completed b mode none = some b
  completed b mode (some half) =
      transition_hex_insertion b'0' b mode (some half) >>= λ (b', _). some b'

  -- With `new_state`, where `hex_half` is reset.
  unfoldable pub act : InsertionMode → Bool → Option ℕ → Action → Buffer X → ℕ → Outcome X
  unfolding incomplete completed
  act mode hex hex_half exit b bytes_per_line =
      stays (Buffer.commit_delta X b) (new_mode normal_mode)
  act mode hex hex_half insert_null b bytes_per_line =
      mode_and_dirty (Mode.insert mode hex none)
        (incomplete b (Operations.insert X b.contents b.selection (0 ∷ [])))
  act mode hex hex_half switch_input_mode b bytes_per_line =
      stays b (new_mode (Mode.insert mode (not hex) none))
  act mode hex hex_half remove_last b bytes_per_line =
      if length b.contents == 0
      then stays b no_change
      else (if is_half hex_half
          then mode_and_dirty (Mode.insert mode hex none)
              (incomplete b (Operations.delete_cursor X b.contents b.selection))
          else dirty (incomplete b (Operations.backspace X b.contents b.selection)))
  act mode hex hex_half remove_this b bytes_per_line =
      if length b.contents == 0
      then stays b no_change
      else (if is_half hex_half
          then mode_and_dirty (Mode.insert mode hex none)
              (incomplete b (Operations.delete_cursor X b.contents b.selection))
          else dirty (incomplete b (Operations.delete_cursor X b.contents b.selection)))
  act mode hex hex_half (move direction) b bytes_per_line = completed b mode hex_half >>= λ b'.
      mode_and_dirty (Mode.insert mode hex none) (
        Buffer.map_selections X b' (λ region.
          moved_region (is_half hex_half) direction bytes_per_line (length b'.contents) region
          ∷ []))

  char_key : InsertionMode → Bool → Option ℕ → KeyCode → KeyModifiers → Buffer X → Outcome X
  char_key mode hex hex_half (KeyCode.char ch) modifiers b =
      if beyond_shift modifiers
      then unhandled b
      else (if hex
          then transition_hex_insertion ch b mode hex_half
          else transition_ascii_insertion ch b mode)
  char_key mode hex hex_half _ modifiers b = unhandled b

  pub no_action : InsertionMode → Bool → Option ℕ → Event → Buffer X → Outcome X
  unfolding char_key
  no_action mode hex hex_half (key evt) b = char_key mode hex hex_half evt.code evt.modifiers b
  no_action mode hex hex_half (resize x y) b = unhandled b
  no_action mode hex hex_half mouse b = unhandled b

  unfoldable pub transition : InsertionMode → Bool → Option ℕ → Event → Buffer X → ℕ → Outcome X
  unfolding no_action
  transition mode hex hex_half evt b bytes_per_line = elim (event_to_action default_maps evt) [
    | some action ↦ act mode hex hex_half action b bytes_per_line
    | none ↦ no_action mode hex hex_half evt b
  ]
