-- ===== src/Dirty.antt =====
-- src/modes/mode.rs: `DirtyBytes`, and the ranges that `Buffer::map_selections`,
-- src/buffer.rs, reports as dirty. `Interval` is that of xi-rope, a range start..end.
pub mod Ranges
use Prim.Native.Nat.{max as cmp_max, min as cmp_min}
use teehee.Common.{
  ℕ, ◌+◌, Bool, ◌&&◌, List, [], ◌∷◌, ◌++◌, map, ltb, leb, if◌then◌else◌, wrapping_add,
}
use teehee.Region
use teehee.Region.{SelRegion}

pub record Interval : Type 0 where
  pub start : ℕ
  pub end : ℕ

pub data DirtyBytes : Type 0 where
  change_in_place : List Interval → DirtyBytes
  change_length : DirtyBytes

-- `From<SelRegion> for Interval`
abbrev pub interval_of : SelRegion → Interval
interval_of r = record { start = Region.min r; end = wrapping_add (Region.max r) 1 }

abbrev pub contains : Interval → ℕ → Bool
contains iv offset = leb iv.start offset && ltb offset iv.end

abbrev pub union : Interval → Interval → Interval
union a b = record { start = cmp_min a.start b.start; end = cmp_max a.end b.end }

-- Each region, then what the closure makes of it.
unfoldable pub invalidated : List SelRegion → List (List SelRegion) → List Interval
invalidated [] results = []
invalidated (r ∷ rs) [] = []
invalidated (r ∷ rs) (new ∷ results) =
    interval_of r ∷ (map interval_of new ++ invalidated rs results)

-- `sort_by` on the starts, which keeps the order of equal ones.
unfoldable pub insert_sorted : Interval → List Interval → List Interval
insert_sorted iv [] = iv ∷ []
insert_sorted iv (x ∷ xs) =
    let rest = insert_sorted iv xs in if leb iv.start x.start then iv ∷ x ∷ xs else x ∷ rest

unfoldable pub sort_by_start : List Interval → List Interval
sort_by_start [] = []
sort_by_start (iv ∷ ivs) = insert_sorted iv (sort_by_start ivs)

-- The loop over the sorted ranges, behind its last range so far.
unfoldable pub disjoint_from : Interval → List Interval → List Interval
disjoint_from last [] = last ∷ []
disjoint_from last (r ∷ rest) =
    if contains last r.start then disjoint_from (union last r) rest else last ∷ disjoint_from r rest

unfoldable pub disjoint : List Interval → List Interval
unfolding disjoint_from
disjoint [] = []
disjoint (r ∷ rest) = disjoint_from r rest
