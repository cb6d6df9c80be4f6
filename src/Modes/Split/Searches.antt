-- ===== src/Modes/Split/Searches.antt =====
-- A split by a search: what is left of a region.
use teehee.Common.{
  ℕ, ◌+◌, ◌-◌, ◌≤◌, ◌<◌, ◌≡◌, refl, ap, ◌∙◌, Bool, false, not, ◌&&◌, Option, none, some, List, [],
  ◌∷◌, leb, usize_mod, wrapping_add, arith,
}
use teehee.Region
use teehee.Region.{SelRegion, split_at_region, inherit_direction, to_forward, to_backward, new}
use teehee.Dirty.{Interval}
use teehee.Dirty.Ranges.{holds}
use teehee.Operations.Outside.{covers, covered}
use teehee.Modes.Split.{split_ranges, kept_parts}
use native.Mathlib.Decide.{dec_le}

-- Matches that are not empty, in order and apart, from `pos` on and no further than `max`.
abbrev pub Matches : ℕ → ℕ → List Interval → Type 0
Matches pos max [] = Unit
Matches pos max (range ∷ ranges) =
    (pos ≤ range.start)
    × (range.start < range.end)
    × (range.end ≤ max + 1)
    × Matches range.end max ranges

holds-before :
    (pos max i : ℕ) (ranges : List Interval)
    → Matches pos max ranges
    → i < pos
    → holds i ranges ≡ false
holds-before pos max i [] m h = refl
holds-before pos max i (range ∷ ranges) (p, q, r, m) h =
    ground (arith, holds-before range.end max i ranges m (omega arith))

-- What lies behind a match.
module _ (r : SelRegion) (range : Interval) (small : Region.max r + 1 < usize_mod)
    (filled : range.start < range.end) (ends : range.end ≤ Region.max r) where
  abbrev bare : SelRegion
  bare = new (wrapping_add (range.end - 1) 1) (Region.max r)

  min-bare : Region.min bare ≡ range.end
  min-bare = omega arith

  max-bare : Region.max bare ≡ Region.max r
  max-bare = omega arith

  min-inherited : Region.min (inherit_direction bare r) ≡ range.end
  unfolding inherit_direction to_forward to_backward
  min-inherited = ground arith

  max-inherited : Region.max (inherit_direction bare r) ≡ Region.max r
  unfolding inherit_direction to_forward to_backward
  max-inherited = ground arith

  -- The two parts of `split_at_region`, by where the match begins and ends.
  behind_only :
      range.start ≤ Region.min r
      → split_at_region r range.start (range.end - 1) ≡ (none, some (inherit_direction bare r))
  unfolding split_at_region
  behind_only h = ground arith

  both_sides :
      Region.min r < range.start
      → split_at_region r range.start (range.end - 1)
        ≡ (some (new (Region.min r) (range.start - 1)), some bare)
  unfolding split_at_region
  both_sides h = ground arith

module _ (r : SelRegion) (range : Interval) (filled : range.start < range.end)
    (to_end : range.end ≡ Region.max r + 1) where
  no_side :
      range.start ≤ Region.min r → split_at_region r range.start (range.end - 1) ≡ (none, none)
  unfolding split_at_region
  no_side h = ground arith

  before_only :
      Region.min r < range.start
      → split_at_region r range.start (range.end - 1)
        ≡ (some (inherit_direction (new (Region.min r) (range.start - 1)) r), none)
  unfolding split_at_region
  before_only h = ground arith

covers-before :
    (r : SelRegion) (start i : ℕ)
    → Region.min r < start
    → covers (inherit_direction (new (Region.min r) (start - 1)) r) i
      ≡ (leb (Region.min r) i && not (leb start i))
unfolding inherit_direction to_forward to_backward
covers-before r start i h = ground arith

-- What a search leaves of a region, by `split_ranges`, covers exactly the offsets of the region that
-- no match holds, where the matches are not empty, lie in the region, and are in order and apart,
-- and the end of the region plus 1 fits `usize`.
pub covered-split_ranges :
    (r : SelRegion) (ranges : List Interval) (i : ℕ)
    → Region.max r + 1 < usize_mod
    → Matches (Region.min r) (Region.max r) ranges
    → covered (split_ranges r ranges) i ≡ (covers r i && not (holds i ranges))
unfolding split_ranges
covered-split_ranges r [] i small m = ground arith
covered-split_ranges r (range ∷ ranges) i small (p, q, o, m) =
    let go : Option SelRegion × Option SelRegion → Bool =
      λ parts. covered (kept_parts (λ right. split_ranges right ranges) parts) i in
    let before : i < range.end → holds i ranges ≡ false =
      λ h. holds-before range.end (Region.max r) i ranges m h in
    elim (dec_le range.start (Region.min r)) [
      | yes at_start ↦ elim (dec_le range.end (Region.max r)) [
        | no to_end ↦ ap go (no_side r range q (omega arith) at_start) ∙ ground arith
        | yes ends ↦
            let low = min-inherited r range small q ends in
            let high = max-inherited r range small q ends in
            let rest =
              covered-split_ranges (inherit_direction (bare r range small q ends) r) ranges i
                (omega (arith, high)) (rw (low, high) m) in
            ap go (behind_only r range small q ends at_start)
            ∙ rest
            ∙ rw (low, high) (ground (arith, before))
      ]
      | no inside ↦ elim (dec_le range.end (Region.max r)) [
        | no to_end ↦
            ap go (before_only r range q (omega arith) (omega arith))
            ∙ rw (covers-before r range.start i (omega arith)) (ground (arith, before))
        | yes ends ↦
            let low = min-bare r range small q ends in
            let high = max-bare r range small q ends in
            let rest =
              covered-split_ranges (bare r range small q ends) ranges i (omega (arith, high))
                (rw (low, high) m) in
            ap go (both_sides r range small q ends (omega arith))
            ∙ rw (rest, low, high) (ground (arith, before))
      ]
    ]
