-- ===== src/Modes/JumpTo.antt =====
-- src/modes/jumpto.rs
use teehee.Common.{ℕ, Bool, none, some, [], ◌∷◌, if◌then◌else◌, length}
use teehee.Region.{Direction, left, down, up, right, jump_to_boundary, extend_to_boundary}
use teehee.Rope.{XiRope}
use teehee.Buffer.{Buffer, map_selections}
use teehee.Keymap.{
  KeyCode, Event, key, resize, mouse, KeyMap, plain, special, keys, event_to_action,
}
use teehee.Modes.{Outcome, stays, unhandled, mode_and_dirty, new_mode, normal_mode}

unfoldable pub default_maps : KeyMap Direction
default_maps = keys (
    (special KeyCode.left, left)
    ∷ (plain b'h', left)
    ∷ (special KeyCode.down, down)
    ∷ (plain b'j', down)
    ∷ (special KeyCode.up, up)
    ∷ (plain b'k', up)
    ∷ (special KeyCode.right, right)
    ∷ (plain b'l', right)
    ∷ [])

module _ (X : XiRope) where
  jump : Bool → Direction → ℕ → Buffer X → Outcome X
  jump extend direction bytes_per_line b =
      let max_bytes = length b.contents in
      mode_and_dirty normal_mode (
        if extend
        then map_selections X b
            (λ region. extend_to_boundary region direction bytes_per_line max_bytes ∷ [])
        else map_selections X b
            (λ region. jump_to_boundary region direction bytes_per_line max_bytes ∷ []))

  -- Without a direction, a key leaves the mode, and any other event is left to the view.
  no_direction : Event → Buffer X → Outcome X
  no_direction (key evt) b = stays b (new_mode normal_mode)
  no_direction (resize x y) b = unhandled b
  no_direction mouse b = unhandled b

  unfoldable pub transition : Bool → Event → Buffer X → ℕ → Outcome X
  unfolding jump no_direction
  transition extend evt b bytes_per_line = elim (event_to_action default_maps evt) [
    | some direction ↦ jump extend direction bytes_per_line b
    | none ↦ no_direction evt b
  ]
