-- ===== src/CmdCount.antt =====
-- src/cmd_count.rs: the count typed before a command. The file's `State` is `CountState` here, and
-- its constructors `None` and `Some` are `empty` and `counting`.
pub mod Digits
use teehee.Common.{
  ℕ, ◌+◌, ◌*◌, ◌/◌, ◌%◌, Bool, true, false, not, Option, none, some, List, [], ◌∷◌, ltb, leb,
  if◌then◌else◌, usize_mod,
}
use teehee.Keymap.{KeyCode, Event, KeyMap, plain, special, keys, event_to_action}

pub data CountState : Type 0 where
  empty : CountState
  counting : (hex : Bool) → (count : ℕ) → CountState

pub data Action : Type 0 where
  append_digit : ℕ → Action
  cancel_entry switch_hex_entry remove_last : Action

pub data Transition : Type 0 where
  not_handled : Transition
  update : CountState → Transition

unfoldable pub default_maps : KeyMap Action
default_maps = keys (
    (special KeyCode.esc, cancel_entry)
    ∷ (special KeyCode.backspace, remove_last)
    ∷ (plain b'x', switch_hex_entry)
    ∷ (plain b'0', append_digit 0)
    ∷ (plain b'1', append_digit 1)
    ∷ (plain b'2', append_digit 2)
    ∷ (plain b'3', append_digit 3)
    ∷ (plain b'4', append_digit 4)
    ∷ (plain b'5', append_digit 5)
    ∷ (plain b'6', append_digit 6)
    ∷ (plain b'7', append_digit 7)
    ∷ (plain b'8', append_digit 8)
    ∷ (plain b'9', append_digit 9)
    ∷ (plain b'a', append_digit 10)
    ∷ (plain b'b', append_digit 11)
    ∷ (plain b'c', append_digit 12)
    ∷ (plain b'd', append_digit 13)
    ∷ (plain b'e', append_digit 14)
    ∷ (plain b'f', append_digit 15)
    ∷ [])

-- `count << 4 | d`: the shift drops the high bits, and leaves the low four bits free for `d`.
abbrev shift_in : ℕ → ℕ → ℕ
shift_in count d = count * 16 % usize_mod + d

-- The `match` of `State::transition`.
unfoldable pub act : CountState → Action → Transition
act empty (append_digit d) = if ltb 9 d then not_handled else update (counting false d)
act empty cancel_entry = not_handled
act empty switch_hex_entry = update (counting true 0)
act empty remove_last = not_handled
act (counting true count) (append_digit d) = update (counting true (shift_in count d))
act (counting false count) (append_digit d) =
    if ltb 9 d then not_handled else update (counting false ((count * 10 + d) % usize_mod))
act (counting true count) remove_last =
    if leb 16 count then update (counting true (count / 16)) else update empty
act (counting false count) remove_last =
    if leb 10 count then update (counting false (count / 10)) else update empty
act (counting hex count) cancel_entry = update empty
act (counting hex count) switch_hex_entry = update (counting (not hex) count)

unfoldable pub transition : CountState → Event → Transition
unfolding act default_maps
transition s event = elim (event_to_action default_maps event) [
  | none ↦ not_handled
  | some action ↦ act s action
]

unfoldable pub to_count : CountState → ℕ
to_count (counting hex count) = count
to_count empty = 1
