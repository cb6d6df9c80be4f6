-- ===== src/Modes/Collapse.antt =====
-- src/modes/collapse.rs
use teehee.Common.{◌-◌, List, [], ◌∷◌, map, ◌==◌, if◌then◌else◌, ◌>>=◌}
use teehee.Region.{SelRegion, new, inherit_direction}
use teehee.Rope.{XiRope}
use teehee.Buffer
use teehee.Buffer.{Buffer}
use teehee.Dirty.{Interval}
use teehee.Modes.{PatternPiece, Outcome, stays, mode_and_dirty, new_mode, normal_mode}
use teehee.Modes.Pattern.{Matchers, map_selections_to_matches, matched_len}

-- The matched ranges of each region, as regions in its direction.
unfoldable pub collapse_all : List SelRegion → List (List Interval) → List (List SelRegion)
collapse_all [] matched = []
collapse_all (r ∷ rs) [] = []
collapse_all (r ∷ rs) (ranges ∷ matched) =
    map (λ x. inherit_direction (new x.start (x.end - 1)) r) ranges ∷ collapse_all rs matched

module _ (X : XiRope) (m : Matchers) where
  collapse_matched : Buffer X → List (List Interval) → Outcome X
  collapse_matched b matched =
      if matched_len matched == 0
      then stays b (new_mode normal_mode)
      else mode_and_dirty normal_mode
          (Buffer.map_selections_to X b (collapse_all b.selection.regions matched))

  unfoldable pub apply_search : List PatternPiece → Buffer X → Outcome X
  unfolding collapse_matched
  apply_search [] b = stays b (new_mode normal_mode)
  apply_search (p ∷ ps) b =
      map_selections_to_matches m (p ∷ ps) b >>= λ matched. collapse_matched b matched
