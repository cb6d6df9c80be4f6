-- ===== src/Modes/Split.antt =====
-- src/modes/split.rs
pub mod Widths
pub mod Searches
use Prim.Native.Nat.{min as cmp_min}
use teehee.Common.{
  ℕ, zero, suc, ◌+◌, ◌-◌, ◌*◌, ◌%◌, Bool, true, false, Option, none, some, List, [], ◌∷◌, leb, ◌==◌,
  if◌then◌else◌, ◌>>=◌, replicate, wrapping_add, usize_mod,
}
use teehee.Region
use teehee.Region.{SelRegion, new, backward, with_direction, split_at_region}
use teehee.Rope.{XiRope}
use teehee.Selection
use teehee.Buffer
use teehee.Buffer.{Buffer}
use teehee.CmdCount
use teehee.CmdCount.{CountState, empty, to_count}
use teehee.Dirty.{Interval}
use teehee.Keymap.{Event, key, resize, mouse, KeyMap, plain, keys, event_to_action}
use teehee.Modes.{
  Mode, PatternPiece, literal, SearchAcceptor, Outcome, stays, unhandled, mode_and_dirty, new_mode,
  normal_mode,
}
use teehee.Modes.Pattern.{Matchers, map_selections_to_matches, matched_len}

pub data Action : Type 0 where
  width : ℕ → Action
  null : Action
  search : (hex : Bool) → Action

unfoldable pub default_maps : KeyMap Action
default_maps = keys (
    (plain b'b', width 1)
    ∷ (plain b'w', width 2)
    ∷ (plain b'd', width 4)
    ∷ (plain b'q', width 8)
    ∷ (plain b'o', width 16)
    ∷ (plain b'n', null)
    ∷ (plain b'/', search false)
    ∷ (plain b'?', search true)
    ∷ [])

-- The parts before and behind a match; `f` goes on with the part behind.
abbrev pub kept_parts :
    (SelRegion → List SelRegion) → Option SelRegion × Option SelRegion → List SelRegion
kept_parts f (none, none) = []
kept_parts f (none, some right) = f right
kept_parts f (some left, none) = left ∷ []
kept_parts f (some left, some right) = left ∷ f right

-- One region without the matched ranges: what is left of them, and what is behind the last.
unfoldable pub split_ranges : SelRegion → List Interval → List SelRegion
split_ranges base_region [] = base_region ∷ []
split_ranges base_region (range ∷ ranges) =
    kept_parts (λ right. split_ranges right ranges)
      (split_at_region base_region range.start (range.end - 1))

unfoldable pub split_all : List SelRegion → List (List Interval) → List (List SelRegion)
split_all [] matched = []
split_all (r ∷ rs) [] = []
split_all (r ∷ rs) (ranges ∷ matched) = split_ranges r ranges ∷ split_all rs matched

-- `(pos..=max).step_by(step)` as regions, with the rounds left; `step` is not 0.
unfoldable pub pieces : ℕ → Bool → ℕ → ℕ → ℕ → List SelRegion
pieces zero back pos max step = []
pieces (suc fuel) back pos max step =
    let rest = pieces fuel back (pos + step) max step in
    if leb pos max
    then with_direction (new pos (cmp_min max (wrapping_add pos step - 1))) back ∷ rest
    else []

-- There are at most as many pieces as offsets.
unfoldable pub split_width : ℕ → SelRegion → List SelRegion
unfolding pieces
split_width step region =
    pieces (suc (Region.max region - Region.min region)) (backward region) (Region.min region)
      (Region.max region) step

module _ (X : XiRope) (m : Matchers) where
  split_matched : Buffer X → List (List Interval) → Outcome X
  split_matched b matched =
      if matched_len matched == Selection.len_bytes b.selection
      then stays b (new_mode normal_mode)
      else mode_and_dirty normal_mode
          (Buffer.map_selections_to X b (split_all b.selection.regions matched))

  unfoldable pub apply_search : List PatternPiece → Buffer X → Outcome X
  unfolding split_matched
  apply_search [] b = stays b (new_mode normal_mode)
  apply_search (p ∷ ps) b =
      map_selections_to_matches m (p ∷ ps) b >>= λ matched. split_matched b matched

  -- `step_by(0)` panics.
  unfoldable pub by_width : ℕ → Buffer X → Outcome X
  by_width step b =
      if step == 0
      then none
      else mode_and_dirty normal_mode (Buffer.map_selections X b (split_width step))

  unfoldable pub act : CountState → Action → Buffer X → Outcome X
  unfolding by_width
  act count_state (width w) b = by_width (w * to_count count_state % usize_mod) b
  act count_state null b = apply_search (replicate (to_count count_state) (literal 0)) b
  act count_state (search hex) b =
      stays b (new_mode (Mode.search [] 0 hex none (SearchAcceptor.split count_state)))

  no_action : Event → Buffer X → Outcome X
  no_action (key evt) b = stays b (new_mode normal_mode)
  no_action (resize x y) b = unhandled b
  no_action mouse b = unhandled b

  on_action : CountState → Option Action → Event → Buffer X → Outcome X
  unfolding act no_action
  on_action count_state (some action) evt b = act count_state action b
  on_action count_state none evt b = no_action evt b

  unfoldable pub transition : CountState → Event → Buffer X → Outcome X
  unfolding on_action
  transition count_state evt b = elim (CmdCount.transition count_state evt) [
    | CmdCount.Transition.update new_state ↦ stays b (new_mode (Mode.split new_state))
    | CmdCount.Transition.not_handled ↦
        on_action count_state (event_to_action default_maps evt) evt b
  ]
