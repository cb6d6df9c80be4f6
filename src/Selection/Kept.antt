-- ===== src/Selection/Kept.antt =====
-- What the loop of `map_selections` keeps of its regions, through merging.
use teehee.Common.{ℕ, ◌≤◌, inl, inr, List, [], ◌∷◌, ◌++◌, All, Bool-cases, leb→le, arith, true}
use teehee.Region
use teehee.Region.{SelRegion, with_main, overlaps}
use teehee.Region.Follows.{Follows, joined}
use teehee.Selection.{in_order}
use teehee.Selection.Valid.{Within}
use teehee.Selection.Push.{pushed_all, Ready, Ready-pushed}

-- What all regions keep, where all results have it: that they are within a document, or run one way.
pub data Kind : Type 0 where
  inside : ℕ → Kind
  forwards backwards : Kind

abbrev pub Is : Kind → SelRegion → Type 0
Is (inside size) r = Within size r
Is forwards r = r.tail ≤ r.caret
Is backwards r = r.caret ≤ r.tail

joined-Is :
    (k : Kind) (a b : SelRegion)
    → Follows a b
    → Region.min b ≤ Region.max a
    → Is k a
    → Is k b
    → Is k (joined a b)
joined-Is (inside size) a b f o h g = ground arith
joined-Is forwards a b f o h g = ground (arith, f.tails)
joined-Is backwards a b f o h g = ground (arith, f.tails)

pub flagged-Is : (k : Kind) (a : SelRegion) → Is k a → Is k (with_main true a)
flagged-Is (inside size) a h = h
flagged-Is forwards a h = h
flagged-Is backwards a h = h

pub pushed_all-Is :
    (k : Kind) (out bs cs : List SelRegion)
    → Ready out (bs ++ cs)
    → All (Is k) out
    → All (Is k) bs
    → All (Is k) (pushed_all out bs)
pushed_all-Is k out [] cs r h g = h
pushed_all-Is k [] (b ∷ bs) cs r h g =
    pushed_all-Is k (b ∷ []) bs cs (Ready-pushed [] b (bs ++ cs) r) (g.0, tt) g.1
pushed_all-Is k (l ∷ out) (b ∷ bs) cs r h g =
    let ready = Ready-pushed (l ∷ out) b (bs ++ cs) r in
    elim (Bool-cases (overlaps l b)) [
      | inl o ↦ rw o (
          pushed_all-Is k (joined l b ∷ out) bs cs (rw o at ready)
            (joined-Is k l b r.top.0 (leb→le _ _ o) h.0 g.0, h.1) g.1)
      | inr n ↦ rw n (pushed_all-Is k (b ∷ l ∷ out) bs cs (rw n at ready) (g.0, h) g.1)
    ]

pub in_order-Is :
    (k : Kind) (out acc : List SelRegion)
    → All (Is k) out
    → All (Is k) acc
    → All (Is k) (in_order out acc)
in_order-Is k [] acc h g = g
in_order-Is k (l ∷ out) acc h g = in_order-Is k out (l ∷ acc) h.1 (h.0, g)
