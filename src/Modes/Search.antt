-- ===== src/Modes/Search.antt =====
-- src/modes/search.rs: the mode in which a pattern is typed.
use Prim.Native.Nat.{bit_or}
use teehee.Common.{
  ℕ, suc, ◌-◌, ◌*◌, Bool, true, false, not, ◌||◌, Option, none, some, List, [], ◌∷◌, ltb, ◌==◌,
  if◌then◌else◌, ◌>>=◌, length,
}
use teehee.Rope.{XiRope}
use teehee.Buffer.{Buffer}
use teehee.Keymap.{
  KeyCode, KeyModifiers, Event, key, resize, mouse, KeyMap, ctrl, special, keys, event_to_action,
}
use teehee.Modes.{
  Mode, PatternPiece, SearchAcceptor, Outcome, stays, unhandled, new_mode, no_change, normal_mode,
}
use teehee.Modes.Chars.{as_u8, is_ascii_hexdigit, hex_digit}
use teehee.Modes.Pattern.{Matchers, insert_literal, insert_half_literal, insert_wildcard, remove}
use teehee.Modes.Split
use teehee.Modes.Collapse

pub data Action : Type 0 where
  insert_null insert_wildcard_action remove_last remove_this cursor_left cursor_right : Action
  switch_input_mode finish cancel : Action

unfoldable pub default_maps : KeyMap Action
default_maps = keys (
    (special KeyCode.backspace, remove_last)
    ∷ (special KeyCode.delete, remove_this)
    ∷ (special KeyCode.enter, finish)
    ∷ (special KeyCode.esc, cancel)
    ∷ (special KeyCode.left, cursor_left)
    ∷ (special KeyCode.right, cursor_right)
    ∷ (ctrl b'o', switch_input_mode)
    ∷ (ctrl b'n', insert_null)
    ∷ (ctrl b'w', insert_wildcard_action)
    ∷ [])

-- The fields of the struct `Search`.
pub record Search : Type 0 where
  pub pattern : List PatternPiece
  pub cursor : ℕ
  pub hex : Bool
  pub hex_half : Option ℕ
  pub next : SearchAcceptor

-- `Search::new`
abbrev pub new : SearchAcceptor → Bool → Search
new next hex = record { pattern = []; cursor = 0; hex = hex; hex_half = none; next = next }

abbrev pub to_mode : Search → Mode
to_mode s = Mode.search s.pattern s.cursor s.hex s.hex_half s.next

abbrev is_half : Option ℕ → Bool
is_half none = false
is_half (some half) = true

module _ (X : XiRope) (m : Matchers) where
  apply_search : SearchAcceptor → List PatternPiece → Buffer X → Outcome X
  apply_search SearchAcceptor.collapse pattern b = Collapse.apply_search X m pattern b
  apply_search (SearchAcceptor.split count_state) pattern b = Split.apply_search X m pattern b

  abbrev edited : Search → List PatternPiece → ℕ → Search
  edited s pattern cursor = record s { pattern = pattern; cursor = cursor; hex_half = none }

  -- The `match` on the action, where `cursor` has skipped a half byte.
  unfoldable pub act : Search → ℕ → Action → Buffer X → Outcome X
  unfolding apply_search
  act s cursor insert_null b = insert_literal s.pattern cursor 0 >>= λ (pattern, cursor').
      stays b (new_mode (to_mode (edited s pattern cursor')))
  act s cursor insert_wildcard_action b = insert_wildcard s.pattern cursor >>= λ (pattern, cursor').
      stays b (new_mode (to_mode (edited s pattern cursor')))
  act s cursor remove_last b =
      if cursor == 0
      then stays b no_change
      else stays b (new_mode (to_mode (edited s (remove s.pattern (cursor - 1)).0 (cursor - 1))))
  act s cursor remove_this b =
      stays b (new_mode (to_mode (edited s (remove s.pattern cursor).0 cursor)))
  act s cursor cursor_left b =
      stays b (new_mode (to_mode (edited s s.pattern (if cursor == 0 then cursor else cursor - 1))))
  act s cursor cursor_right b = stays b (
      new_mode (
        to_mode
          (edited s s.pattern (if ltb cursor (length s.pattern) then suc cursor else cursor))))
  act s cursor switch_input_mode b =
      stays b (new_mode (to_mode (record (edited s s.pattern cursor) { hex = not s.hex })))
  act s cursor cancel b = stays b (new_mode normal_mode)
  act s cursor finish b = apply_search s.next s.pattern b

  -- A hexadecimal digit: the first inserts the upper half, the second completes it.
  unfoldable pub hex_key : Search → Option ℕ → ℕ → Buffer X → Outcome X
  hex_key s (some half) digit b =
      insert_half_literal s.pattern s.cursor (bit_or half digit) >>= λ (pattern, cursor).
      stays b (new_mode (to_mode (edited s pattern cursor)))
  hex_key s none digit b = insert_literal s.pattern s.cursor (digit * 16) >>= λ (pattern, _).
      stays b (new_mode (to_mode (record s { pattern = pattern; hex_half = some (digit * 16) })))

  -- An ASCII character leaves `hex_half` as it is.
  char_key : Search → KeyCode → KeyModifiers → Buffer X → Outcome X
  unfolding hex_key
  char_key s (KeyCode.char ch) modifiers b =
      if modifiers.shift || (modifiers.control || modifiers.alt)
      then unhandled b
      else (if not s.hex
          then (insert_literal s.pattern s.cursor (as_u8 ch) >>= λ (pattern, cursor).
              stays b (new_mode (to_mode (record s { pattern = pattern; cursor = cursor }))))
          else (if is_ascii_hexdigit ch
              then hex_key s s.hex_half (hex_digit ch) b
              else unhandled b))
  char_key s _ modifiers b = unhandled b

  no_action : Search → Event → Buffer X → Outcome X
  unfolding char_key
  no_action s (key evt) b = char_key s evt.code evt.modifiers b
  no_action s (resize x y) b = unhandled b
  no_action s mouse b = unhandled b

  unfoldable pub transition : Search → Event → Buffer X → Outcome X
  unfolding no_action
  transition s evt b = elim (event_to_action default_maps evt) [
    | some action ↦ act s (if is_half s.hex_half then suc s.cursor else s.cursor) action b
    | none ↦ no_action s evt b
  ]
