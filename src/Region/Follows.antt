-- ===== src/Region/Follows.antt =====
-- When one new region may come after another in `map_selections`: merging them cannot panic, and
-- the result keeps the order.
use teehee.Common.{◌≤◌, ◌≡◌, ◌⊎◌, ◌&&◌, ◌||◌, some, if◌then◌else◌, arith}
use teehee.Region.{SelRegion, max, min, forward, merge}

-- Both run forward, or both run backward.
abbrev pub SameWay : SelRegion → SelRegion → Type 0
SameWay a b = ((a.tail ≤ a.caret) × (b.tail ≤ b.caret)) ⊎ ((a.caret ≤ a.tail) × (b.caret ≤ b.tail))

pub record Follows (a b : SelRegion) : Type 0 where
  pub carets : a.caret ≤ b.caret
  pub tails : a.tail ≤ b.tail
  pub coherent : min b ≤ max a → SameWay a b

-- What merging `a` with a following, overlapping `b` gives.
abbrev pub joined : SelRegion → SelRegion → SelRegion
joined a b = record {
  caret = if forward a && forward b then b.caret else a.caret;
  tail = if forward a && forward b then a.tail else b.tail;
  main = a.main || b.main;
}

pub merge-joined : (a b : SelRegion) → Follows a b → min b ≤ max a → merge a b ≡ some (joined a b)
unfolding merge
merge-joined a b f o = ground (arith, f.coherent o)

pub min-joined : (a b : SelRegion) → Follows a b → min b ≤ max a → min (joined a b) ≡ min a
min-joined a b f o = ground (arith, f.coherent o)

pub joined-Follows :
    (a b c : SelRegion)
    → Follows a b
    → min b ≤ max a
    → Follows a c
    → Follows b c
    → Follows (joined a b) c
joined-Follows a b c ab o ac bc = record {
  carets = ground (arith, ab.coherent o);
  tails = ground (arith, ab.coherent o);
  coherent = λ h. ground (arith, ab.coherent o, ac.coherent, bc.coherent);
}
