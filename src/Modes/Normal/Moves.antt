-- ===== src/Modes/Normal/Moves.antt =====
-- The actions of the normal mode that only change the selection.
use teehee.Common.{Bool, ℕ, ◌≡◌, arith, refl, some, none, List, length, map}
use teehee.Region.{SelRegion, Direction}
use teehee.Region.Caret.{Exact}
use teehee.Rope.{XiRope}
use teehee.Selection.{Selection}
use teehee.Selection
use teehee.Selection.Valid.{Valid, InDocument}
use teehee.Selection.Single.{Returns, map_selections-MapsInOrder}
use teehee.Selection.Moves.{
  simple_move-Returns, simple_extend-Returns, append-Returns, swap_caret-MapsInOrder,
  collapse-MapsInOrder, to_backward-MapsInOrder,
}
use teehee.Buffer
use teehee.Buffer.{Buffer}
use teehee.CmdCount.{CountState, to_count}
use teehee.Dirty.{DirtyBytes, change_in_place, disjoint, sort_by_start, invalidated}
use teehee.Modes.{
  Mode, ModeTransition, dirty_bytes, mode_and_dirty_bytes, normal_mode, insertion, append, Outcome,
  dirty, mode_and_dirty,
}
use teehee.Modes.Normal.{
  Action, move, extend, swap_caret_action, collapse_selection, insert_action, append_action, act,
}

-- The action returns, the selection stays valid and within the document, and the rest of the buffer
-- stays as it is.
pub record Reselects (X : XiRope) (b : Buffer X) (result : Outcome X) : Type 0 where
  pub selection : Selection
  pub transition : ModeTransition
  pub returns : result ≡ some (record b { selection = selection }, some transition)
  pub valid : Valid selection
  pub within : InDocument (length b.contents) selection

-- Moves and extensions, the swap and the collapse of carets, and the starts of insertions.
pub data IsMove : Action → Type 0 where
  moves : (direction : Direction) → IsMove (move direction)
  extends : (direction : Direction) → IsMove (extend direction)
  swaps : IsMove swap_caret_action
  collapses : IsMove collapse_selection
  inserts : (hex : Bool) → IsMove (insert_action hex)
  appends : (hex : Bool) → IsMove (append_action hex)

module _ {X : XiRope} (b : Buffer X) (f : SelRegion → List SelRegion)
    (r : Returns (length b.contents) b.selection f) where
  abbrev reported : DirtyBytes
  reported =
      change_in_place
        (disjoint (sort_by_start (invalidated b.selection.regions (map f b.selection.regions))))

  dirty-Reselects : Reselects X b (dirty (Buffer.map_selections X b f))
  unfolding Buffer.map_selections Buffer.map_selections_to Selection.map_selections
  dirty-Reselects = record {
    selection = r.made;
    transition = dirty_bytes reported;
    returns = rw r.returns refl;
    valid = r.valid;
    within = r.within;
  }

  mode_and_dirty-Reselects :
      (mode : Mode) → Reselects X b (mode_and_dirty mode (Buffer.map_selections X b f))
  unfolding Buffer.map_selections Buffer.map_selections_to Selection.map_selections
  mode_and_dirty-Reselects mode = record {
    selection = r.made;
    transition = mode_and_dirty_bytes mode reported;
    returns = rw r.returns refl;
    valid = r.valid;
    within = r.within;
  }

-- In the normal mode, each move or extension, the swap and the collapse of carets, and the start of
-- an insertion before or behind the regions return, where the selection of the buffer is valid and
-- within the document, and the document, the line, the count and their product are below 2 ^ 63:
-- the new selection is valid and within the document, and the rest of the buffer stays as it is.
pub act-Reselects :
    {X : XiRope} (count_state : CountState) (action : Action) (b : Buffer X) (bytes_per_line : ℕ)
    → IsMove action
    → Exact (length b.contents) bytes_per_line (to_count count_state)
    → Valid b.selection
    → InDocument (length b.contents) b.selection
    → Reselects X b (act X count_state action b bytes_per_line)
unfolding act
act-Reselects count_state _ b bytes_per_line (moves direction) e v d =
    mode_and_dirty-Reselects b _
      (simple_move-Returns direction bytes_per_line (length b.contents) (to_count count_state)
        b.selection e v d)
      normal_mode
act-Reselects count_state _ b bytes_per_line (extends direction) e v d =
    mode_and_dirty-Reselects b _
      (simple_extend-Returns direction bytes_per_line (length b.contents) (to_count count_state)
        b.selection e v d)
      normal_mode
act-Reselects count_state _ b bytes_per_line swaps e v d =
    dirty-Reselects b _
      (map_selections-MapsInOrder (swap_caret-MapsInOrder (length b.contents)) b.selection v d)
act-Reselects count_state _ b bytes_per_line collapses e v d =
    dirty-Reselects b _
      (map_selections-MapsInOrder (collapse-MapsInOrder (length b.contents)) b.selection v d)
act-Reselects count_state _ b bytes_per_line (inserts hex) e v d =
    mode_and_dirty-Reselects b _
      (map_selections-MapsInOrder (to_backward-MapsInOrder (length b.contents)) b.selection v d)
      (Mode.insert insertion hex none)
act-Reselects count_state _ b bytes_per_line (appends hex) e v d =
    mode_and_dirty-Reselects b _
      (append-Returns bytes_per_line (length b.contents) b.selection
        (record {
          size_lt = e.size_lt;
          line_lt = e.line_lt;
          count_lt = omega arith;
          distance_lt = omega (arith, e.line_lt);
        })
        v d)
      (Mode.insert append hex none)
