-- ===== src/Modes/Normal.antt =====
-- src/modes/normal.rs
pub mod Moves
use teehee.Common.{
  ℕ, ◌-◌, Bool, true, false, Option, none, some, List, [], ◌∷◌, ltb, ◌==◌, if◌then◌else◌, ◌>>=◌,
  length,
}
use teehee.Region
use teehee.Region.{
  Direction, left, down, up, right, simple_move, simple_extend, jump_to, extend_to, swap_caret,
  collapse, to_backward, to_forward,
}
use teehee.Rope.{Rope, XiRope}
use teehee.Selection
use teehee.Operations
use teehee.Buffer
use teehee.Buffer.{Buffer}
use teehee.CmdCount
use teehee.CmdCount.{CountState, empty, counting, to_count}
use teehee.Dirty.{DirtyBytes, change_in_place}
use teehee.Keymap.{KeyCode, Event, KeyMap, plain, alt, special, keys, event_to_action}
use teehee.Modes.{
  Mode, Outcome, stays, unhandled, dirty, mode_and_dirty, new_mode, mode_and_info, dirty_bytes,
  mode_and_dirty_bytes, no_change, SearchAcceptor, normal_mode, insertion, append, overwrite,
  measured, nothing_to_undo, nothing_to_redo,
}

pub data Action : Type 0 where
  move extend : Direction → Action
  split_mode jump_to_mode extend_to_mode : Action
  collapse_mode : (hex : Bool) → Action
  command_mode swap_caret_action collapse_selection : Action
  delete yank : (register : ℕ) → Action
  paste : (after : Bool) → (register : ℕ) → Action
  change : (hex : Bool) → (register : ℕ) → Action
  insert_action append_action overwrite_action : (hex : Bool) → Action
  remove_main retain_main select_prev select_next select_all : Action
  replace_mode : (hex : Bool) → Action
  measure undo redo : Action

unfoldable pub default_maps : KeyMap Action
default_maps = keys (
    (plain b'h', move left)
    ∷ (special KeyCode.left, move left)
    ∷ (plain b'j', move down)
    ∷ (special KeyCode.down, move down)
    ∷ (plain b'k', move up)
    ∷ (special KeyCode.up, move up)
    ∷ (plain b'l', move right)
    ∷ (special KeyCode.right, move right)
    ∷ (plain b'H', extend left)
    ∷ (plain b'J', extend down)
    ∷ (plain b'K', extend up)
    ∷ (plain b'L', extend right)
    ∷ (plain b'g', jump_to_mode)
    ∷ (plain b'G', extend_to_mode)
    ∷ (alt b's', split_mode)
    ∷ (plain b':', command_mode)
    ∷ (plain b';', collapse_selection)
    ∷ (alt b';', swap_caret_action)
    ∷ (plain b'%', select_all)
    ∷ (plain 0x20, retain_main)
    ∷ (alt 0x20, remove_main)
    ∷ (plain b'(', select_prev)
    ∷ (plain b')', select_next)
    ∷ (plain b'M', measure)
    ∷ (plain b'u', undo)
    ∷ (plain b'U', redo)
    ∷ (plain b'p', paste true 0x22)
    ∷ (plain b'P', paste false 0x22)
    ∷ (plain b'd', delete 0x22)
    ∷ (plain b'y', yank 0x22)
    ∷ (plain b'c', change false 0x22)
    ∷ (plain b'C', change true 0x22)
    ∷ (plain b'i', insert_action false)
    ∷ (plain b'I', insert_action true)
    ∷ (plain b'a', append_action false)
    ∷ (plain b'A', append_action true)
    ∷ (plain b'r', replace_mode false)
    ∷ (plain b'R', replace_mode true)
    ∷ (plain b'o', overwrite_action false)
    ∷ (plain b'O', overwrite_action true)
    ∷ (plain b's', collapse_mode false)
    ∷ (plain b'S', collapse_mode true)
    ∷ [])

module _ (X : XiRope) where
  -- A count that names a region by its number from 1.
  abbrev counted : CountState → Option ℕ
  counted empty = none
  counted (counting hex count) = if ltb 0 count then some (count - 1) else none

  -- The deletion of the selection, in a document that is not empty.
  deleted : Buffer X → Option (Buffer X × DirtyBytes)
  deleted b = Operations.deletion X b.contents b.selection >>= λ delta. Buffer.apply_delta X b delta

  -- `unwrap_or(&vec![vec![]])`
  register_contents : Buffer X → ℕ → List Rope
  register_contents b register = elim (Buffer.get_register register b.registers) [
    | none ↦ [] ∷ []
    | some values ↦ values
  ]

  jump_to_offset : CountState → Bool → Buffer X → Outcome X
  jump_to_offset empty extended b = stays b (new_mode (Mode.jump_to extended))
  jump_to_offset (counting hex offset) extended b = mode_and_dirty normal_mode (
      if extended
      then Buffer.map_selections X b (λ region. extend_to region offset ∷ [])
      else Buffer.map_selections X b (λ region. jump_to region offset ∷ []))

  remove_counted : Option ℕ → Buffer X → Outcome X
  remove_counted (some index) b = mode_and_dirty normal_mode (Buffer.remove_selection X b index)
  remove_counted none b = dirty (Buffer.remove_selection X b b.selection.main_selection)

  retain_counted : Option ℕ → Buffer X → Outcome X
  retain_counted (some index) b = mode_and_dirty normal_mode (Buffer.retain_selection X b index)
  retain_counted none b = dirty (Buffer.retain_selection X b b.selection.main_selection)

  undone : Buffer X × Option DirtyBytes → Outcome X
  undone (b, none) = stays b (mode_and_info normal_mode nothing_to_undo)
  undone (b, some d) = stays b (mode_and_dirty_bytes normal_mode d)

  redone : Buffer X × Option DirtyBytes → Outcome X
  redone (b, none) = stays b (mode_and_info normal_mode nothing_to_redo)
  redone (b, some d) = stays b (mode_and_dirty_bytes normal_mode d)

  -- The `match` on the action.
  unfoldable pub act : CountState → Action → Buffer X → ℕ → Outcome X
  unfolding deleted register_contents jump_to_offset remove_counted retain_counted undone redone
  act count_state jump_to_mode b bytes_per_line = jump_to_offset count_state false b
  act count_state extend_to_mode b bytes_per_line = jump_to_offset count_state true b
  act count_state split_mode b bytes_per_line = stays b (new_mode (Mode.split empty))
  act count_state (insert_action hex) b bytes_per_line =
      mode_and_dirty (Mode.insert insertion hex none)
        (Buffer.map_selections X b (λ region. to_backward region ∷ []))
  act count_state (append_action hex) b bytes_per_line =
      let max_size = length b.contents in
      mode_and_dirty (Mode.insert append hex none) (
        Buffer.map_selections X b
          (λ region. simple_extend (to_forward region) right bytes_per_line max_size 1 ∷ []))
  act count_state (replace_mode hex) b bytes_per_line = stays b (new_mode (Mode.replace hex none))
  act count_state (overwrite_action hex) b bytes_per_line =
      stays b (new_mode (Mode.insert overwrite hex none))
  act count_state (move direction) b bytes_per_line =
      let max_bytes = length b.contents in
      mode_and_dirty normal_mode (
        Buffer.map_selections X b (λ region.
          simple_move region direction bytes_per_line max_bytes (to_count count_state) ∷ []))
  act count_state (extend direction) b bytes_per_line =
      let max_bytes = length b.contents in
      mode_and_dirty normal_mode (
        Buffer.map_selections X b (λ region.
          simple_extend region direction bytes_per_line max_bytes (to_count count_state) ∷ []))
  act count_state swap_caret_action b bytes_per_line =
      dirty (Buffer.map_selections X b (λ region. swap_caret region ∷ []))
  act count_state collapse_selection b bytes_per_line =
      dirty (Buffer.map_selections X b (λ region. collapse region ∷ []))
  act count_state (delete register) b bytes_per_line =
      let yanked = Buffer.yank_selections X b register in
      if length b.contents == 0 then stays yanked no_change else dirty (deleted yanked)
  act count_state (change hex register) b bytes_per_line =
      let yanked = Buffer.yank_selections X b register in
      let mode = Mode.insert insertion hex none in
      if length b.contents == 0
      then stays yanked (new_mode mode)
      else mode_and_dirty mode (deleted yanked)
  act count_state (yank register) b bytes_per_line =
      stays (Buffer.yank_selections X b register) no_change
  act count_state (paste after register) b bytes_per_line = dirty (
      Operations.paste X b.contents b.selection (register_contents b register) after
        (to_count count_state)
      >>= λ delta. Buffer.apply_delta X b delta)
  act count_state remove_main b bytes_per_line = remove_counted (counted count_state) b
  act count_state retain_main b bytes_per_line = retain_counted (counted count_state) b
  act count_state select_next b bytes_per_line =
      mode_and_dirty normal_mode (Buffer.select_next X b (to_count count_state))
  act count_state select_prev b bytes_per_line =
      mode_and_dirty normal_mode (Buffer.select_prev X b (to_count count_state))
  act count_state select_all b bytes_per_line =
      stays (record b { selection = Selection.select_all b.selection (length b.contents) })
        (dirty_bytes (change_in_place (record { start = 0; end = length b.contents } ∷ [])))
  act count_state (collapse_mode hex) b bytes_per_line =
      stays b (new_mode (Mode.search [] 0 hex none SearchAcceptor.collapse))
  act count_state measure b bytes_per_line = Selection.main b.selection >>= λ r.
      stays b (mode_and_info normal_mode (measured (Region.len r)))
  act count_state command_mode b bytes_per_line = stays b (new_mode (Mode.command [] 0))
  act count_state undo b bytes_per_line = undone (Buffer.perform_undo X b)
  act count_state redo b bytes_per_line = redone (Buffer.perform_redo X b)

  on_action : CountState → Option Action → Buffer X → ℕ → Outcome X
  on_action count_state none b bytes_per_line = unhandled b
  on_action count_state (some action) b bytes_per_line = act count_state action b bytes_per_line

  unfoldable pub transition : CountState → Event → Buffer X → ℕ → Outcome X
  unfolding on_action
  transition count_state event b bytes_per_line = elim (CmdCount.transition count_state event) [
    | CmdCount.Transition.update new_state ↦ stays b (new_mode (Mode.normal new_state))
    | CmdCount.Transition.not_handled ↦
        on_action count_state (event_to_action default_maps event) b bytes_per_line
  ]
