-- ===== src/Modes/Replace.antt =====
-- src/modes/replace.rs
use Prim.Native.Nat.{bit_or}
use teehee.Common.{ℕ, ◌*◌, Bool, true, not, Option, none, some, [], ◌∷◌, if◌then◌else◌, ◌>>=◌}
use teehee.Rope.{XiRope}
use teehee.Operations
use teehee.Buffer
use teehee.Buffer.{Buffer}
use teehee.Keymap.{
  KeyCode, KeyModifiers, Event, key, resize, mouse, KeyMap, ctrl, keys, event_to_action,
  beyond_shift,
}
use teehee.Modes.{Mode, Outcome, stays, unhandled, mode_and_dirty, new_mode, normal_mode}
use teehee.Modes.Chars.{as_u8, is_ascii_hexdigit, hex_digit}

pub data Action : Type 0 where
  null : Action

unfoldable pub default_maps : KeyMap Action
default_maps = keys ((ctrl b'n', null) ∷ [])

module _ (X : XiRope) where
  -- The selection filled with `ch`.
  fill : ℕ → Buffer X → Outcome X
  fill ch b =
      mode_and_dirty normal_mode
        (Operations.replace X b.contents b.selection ch >>= λ delta. Buffer.apply_delta X b delta)

  -- A hexadecimal digit: the first is kept as the upper half, the second completes the byte.
  hex_key : Option ℕ → ℕ → Buffer X → Outcome X
  unfolding fill
  hex_key none ch b = stays b (new_mode (Mode.replace true (some (hex_digit ch * 16))))
  hex_key (some half) ch b = fill (bit_or (hex_digit ch) half) b

  char_key : Bool → Option ℕ → ℕ → KeyModifiers → Buffer X → Outcome X
  unfolding fill hex_key
  char_key hex hex_half ch modifiers b =
      if beyond_shift modifiers
      then stays b (new_mode normal_mode)
      else (if not hex
          then fill (as_u8 ch) b
          else (if is_ascii_hexdigit ch
              then hex_key hex_half ch b
              else stays b (new_mode normal_mode)))

  code_key : Bool → Option ℕ → KeyCode → KeyModifiers → Buffer X → Outcome X
  unfolding char_key
  code_key hex hex_half (KeyCode.char ch) modifiers b =
      elim (event_to_action default_maps
        (key (record { code = KeyCode.char ch; modifiers = modifiers }))) [
          | some null ↦ fill 0 b
          | none ↦ char_key hex hex_half ch modifiers b
        ]
  code_key hex hex_half _ modifiers b = stays b (new_mode normal_mode)

  unfoldable pub transition : Bool → Option ℕ → Event → Buffer X → Outcome X
  unfolding code_key
  transition hex hex_half (key evt) b = code_key hex hex_half evt.code evt.modifiers b
  transition hex hex_half (resize x y) b = unhandled b
  transition hex hex_half mouse b = unhandled b
