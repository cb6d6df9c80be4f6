-- ===== src/Modes/Split/Widths.antt =====
-- A split by width: the pieces of a region are in order, and cover it.
use Prim.Native.Nat.{min as cmp_min}
use teehee.Common.{
  ℕ, zero, suc, ◌+◌, ◌-◌, ◌≤◌, ◌<◌, ◌≡◌, ◌≢◌, inl, inr, Bool, ◌&&◌, List, [], ◌∷◌, All, Bool-cases,
  leb, wrapping_add, usize_mod, arith,
}
use teehee.Region
use teehee.Region.{SelRegion, with_direction, backward}
use teehee.Selection.{Selection}
use teehee.Selection.Valid.{Sorted, NoMain, Valid, InDocument}
use teehee.Selection.Single.{Returns}
use teehee.Selection.Inside.{MakesParts, map_selections-MakesParts}
use teehee.Operations.Outside.{covers, covered}
use teehee.Modes.Split.{pieces, split_width}

-- Behind `low`, and no further than `max`.
abbrev Between : ℕ → ℕ → SelRegion → Type 0
Between low max r = (low ≤ Region.min r) × (Region.max r ≤ max)

module _ (step : ℕ) (some_step : 0 < step) (back : Bool) (max : ℕ)
    (small : max + step < usize_mod) where
  pieces-Between :
      (fuel pos low : ℕ) → low ≤ pos → All (Between low max) (pieces fuel back pos max step)
  unfolding pieces with_direction
  pieces-Between zero pos low h = tt
  pieces-Between (suc fuel) pos low h = elim (Bool-cases (leb pos max)) [
    | inl e ↦ rw e (ground arith, pieces-Between fuel (pos + step) low (omega arith))
    | inr e ↦ rw e tt
  ]

  Sorted-pieces : (fuel pos : ℕ) → Sorted (pieces fuel back pos max step)
  unfolding pieces with_direction
  Sorted-pieces zero pos = tt
  Sorted-pieces (suc fuel) pos = elim (Bool-cases (leb pos max)) [
    | inl e ↦ rw e (
      behind (with_direction (Region.new pos (cmp_min max (wrapping_add pos step - 1))) back)
          (pieces fuel back (pos + step) max step) (ground arith)
          (pieces-Between fuel (pos + step) (pos + step) (omega arith)),
      Sorted-pieces fuel (pos + step),
    )
    | inr e ↦ rw e tt
  ]
    where
      behind :
          (r : SelRegion) (rs : List SelRegion)
          → Region.max r < pos + step
          → All (Between (pos + step) max) rs
          → All (λ r'. Region.max r < Region.min r') rs
      behind r [] h k = tt
      behind r (x ∷ xs) h k = (omega (arith, k.0.0), behind r xs h k.1)

  NoMain-pieces : (fuel pos : ℕ) → NoMain (pieces fuel back pos max step)
  unfolding pieces with_direction
  NoMain-pieces zero pos = tt
  NoMain-pieces (suc fuel) pos = elim (Bool-cases (leb pos max)) [
    | inl e ↦ rw e (ground arith, NoMain-pieces fuel (pos + step))
    | inr e ↦ rw e tt
  ]

  covered-pieces :
      (fuel pos i : ℕ)
      → max < pos + fuel
      → covered (pieces fuel back pos max step) i ≡ (leb pos i && leb i max)
  unfolding pieces with_direction
  covered-pieces zero pos i h = ground arith
  covered-pieces (suc fuel) pos i h = elim (Bool-cases (leb pos max)) [
    | inl e ↦ rw (e, covered-pieces fuel (pos + step) i (omega arith)) (ground arith)
    | inr e ↦ rw e (ground arith)
  ]

-- At most one piece for each offset.
abbrev rounds : SelRegion → ℕ
rounds r = suc (Region.max r - Region.min r)

split_width-MakesParts :
    (step size : ℕ) → 0 < step → size + step < usize_mod → MakesParts size (split_width step)
unfolding split_width pieces
split_width-MakesParts step size some_step small = record {
  sorted = λ r h.
      Sorted-pieces step some_step (backward r) (Region.max r) (omega arith) (rounds r)
        (Region.min r);
  inside = λ r h.
      pieces-Between step some_step (backward r) (Region.max r) (omega arith) (rounds r)
        (Region.min r) (Region.min r) (omega arith);
  some_part = λ r h. first r;
  unmarked = λ r h.
      NoMain-pieces step some_step (backward r) (Region.max r) (omega arith) (rounds r)
        (Region.min r);
}
  where
    first : (r : SelRegion) → split_width step r ≢ []
    first r = λ e. ground arith

-- `map_selections` with a split by a width of at least one byte: for a valid selection within the
-- document, where the length of the document plus the width fits `usize`, it returns without a
-- panic, and the new selection is valid and within the document.
pub split_width-Returns :
    (step size : ℕ) (s : Selection)
    → 0 < step
    → size + step < usize_mod
    → Valid s
    → InDocument size s
    → Returns size s (split_width step)
split_width-Returns step size s some_step small v d =
    map_selections-MakesParts (split_width-MakesParts step size some_step small) s v d

-- The pieces of a region by a width of at least one byte cover exactly the offsets of the region,
-- where the last of them plus the width fits `usize`.
pub covered-split_width :
    (step : ℕ) (r : SelRegion) (i : ℕ)
    → 0 < step
    → Region.max r + step < usize_mod
    → covered (split_width step r) i ≡ covers r i
unfolding split_width
covered-split_width step r i some_step small =
    covered-pieces step some_step (backward r) (Region.max r) small (rounds r) (Region.min r) i
      (omega arith)
