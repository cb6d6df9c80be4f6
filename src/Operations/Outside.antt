-- ===== src/Operations/Outside.antt =====
-- Deletion, byte by byte: what lies outside the regions stays, in order, and nothing else does.
use teehee.Common.{
  ℕ, zero, suc, ◌+◌, ◌-◌, ◌≤◌, ◌<◌, ◌≡◌, refl, sym, ◌∙◌, ap, Bool, true, false, ◌&&◌, ◌||◌, List,
  [], ◌∷◌, ◌++◌, some, leb, if◌then◌else◌, length, All, take, drop, usize_mod, arith,
}
use native.Mathlib.Decide.{dec_le}
use teehee.Region
use teehee.Region.{SelRegion}
use teehee.Rope.{Rope, XiRope}
use teehee.Rope.Script.{splice}
use teehee.Rope.Laws.{DeltaLaws}
use teehee.Selection.{Selection}
use teehee.Selection.Valid.{Sorted, Valid, InDocument}
use teehee.Operations.{deletion}
use teehee.Operations.Calls.{calls_of}
use teehee.Operations.Edits.{delete_region, deletion-Edits}

abbrev pub covers : SelRegion → ℕ → Bool
covers r i = leb (Region.min r) i && leb i (Region.max r)

abbrev pub covered : List SelRegion → ℕ → Bool
covered [] i = false
covered (r ∷ rs) i = covers r i || covered rs i

-- The bytes from offset `i` on that no region covers.
abbrev pub outside : List SelRegion → ℕ → Rope → Rope
outside rs i [] = []
outside rs i (b ∷ bs) = let rest = outside rs (suc i) bs in if covered rs i then rest else b ∷ rest

covered-before :
    (rs : List SelRegion) (i : ℕ) → All (λ r. i < Region.min r) rs → covered rs i ≡ false
covered-before [] i h = refl
covered-before (r ∷ rs) i h = ground (arith, covered-before rs i h.1)

outside-nil : (i : ℕ) (bs : Rope) → outside [] i bs ≡ bs
outside-nil i [] = refl
outside-nil i (b ∷ bs) = ap (b ∷◌) (outside-nil (suc i) bs)

-- A region that ends before `i` no longer counts.
outside-past :
    (r : SelRegion) (rs : List SelRegion) (i : ℕ) (bs : Rope)
    → Region.max r < i
    → outside (r ∷ rs) i bs ≡ outside rs i bs
outside-past r rs i [] h = refl
outside-past r rs i (b ∷ bs) h = ground (arith, outside-past r rs (suc i) bs (omega arith))

All-lt_trans :
    (j k : ℕ) (rs : List SelRegion)
    → j ≤ k
    → All (λ r. k < Region.min r) rs
    → All (λ r. j < Region.min r) rs
All-lt_trans j k [] h a = tt
All-lt_trans j k (r ∷ rs) h a = (omega arith, All-lt_trans j k rs h a.1)

-- At `i`, outside or inside the first region, or just behind it.
module _ (r : SelRegion) (rs : List SelRegion) where
  here : ℕ → Rope → Rope
  here i bs =
      take (Region.min r - i) bs
      ++ splice (Region.max r + 1) (calls_of delete_region rs) (drop (Region.max r + 1 - i) bs)

  here-before :
      (i : ℕ) (b : ℕ) (bs : Rope) → i < Region.min r → here i (b ∷ bs) ≡ b ∷ here (suc i) bs
  unfolding here
  here-before i b bs h =
      let m : Region.min r - i ≡ suc (Region.min r - suc i) = omega arith in
      let n : Region.max r + 1 - i ≡ suc (Region.max r + 1 - suc i) = omega arith in rw (m, n) refl

  here-inside :
      (i : ℕ) (b : ℕ) (bs : Rope)
      → Region.min r ≤ i
      → i ≤ Region.max r
      → here i (b ∷ bs) ≡ here (suc i) bs
  unfolding here
  here-inside i b bs h k =
      let m : Region.min r - i ≡ 0 = omega arith in
      let m' : Region.min r - suc i ≡ 0 = omega arith in
      let n : Region.max r + 1 - i ≡ suc (Region.max r + 1 - suc i) = omega arith in
      rw (m, m', n) refl

  here-behind :
      (bs : Rope)
      → here (Region.max r + 1) bs ≡ splice (Region.max r + 1) (calls_of delete_region rs) bs
  unfolding here
  here-behind bs =
      let m : Region.min r - (Region.max r + 1) ≡ 0 = omega arith in
      let n : Region.max r + 1 - (Region.max r + 1) ≡ 0 = omega arith in rw (m, n) refl

take-nil : (n : ℕ) → take {A = ℕ} n [] ≡ []
take-nil zero = refl
take-nil (suc n) = refl

drop-nil : (n : ℕ) → drop {A = ℕ} n [] ≡ []
drop-nil zero = refl
drop-nil (suc n) = refl

here-outside :
    (r : SelRegion) (rs : List SelRegion)
    → All (λ r'. Region.max r < Region.min r') rs
    → ((bs : Rope)
        → splice (Region.max r + 1) (calls_of delete_region rs) bs
          ≡ outside rs (Region.max r + 1) bs)
    → (i : ℕ) (bs : Rope) → i ≤ Region.max r + 1
    → here r rs i bs ≡ outside (r ∷ rs) i bs
here-outside r rs l ih i [] h =
    unfold here in rw (take-nil (Region.min r - i), drop-nil (Region.max r + 1 - i)) (ih [])
here-outside r rs l ih i (b ∷ bs) h = elim (dec_le i (Region.max r)) [
  | no behind ↦
      let e : i ≡ Region.max r + 1 = omega arith in
      rw (e, here-behind r rs (b ∷ bs), ih (b ∷ bs))
        (sym (outside-past r rs (Region.max r + 1) (b ∷ bs) (omega arith)))
  | yes within ↦
      let rest = here-outside r rs l ih (suc i) bs (omega arith) in
      elim (dec_le (Region.min r) i) [
        | yes inside ↦
            let c : covered (r ∷ rs) i ≡ true = ground arith in
            rw (here-inside r rs i b bs inside within, rest, c) refl
        | no before ↦
            let c : covered (r ∷ rs) i ≡ false =
              covered-before (r ∷ rs) i (omega arith, All-lt_trans i (Region.max r) rs within l) in
            rw (here-before r rs i b bs (omega arith), rest, c) refl
      ]
]

splice-outside :
    (rs : List SelRegion) (i : ℕ) (bs : Rope)
    → Sorted rs
    → All (λ r. i ≤ Region.min r) rs
    → splice i (calls_of delete_region rs) bs ≡ outside rs i bs
unfolding here
splice-outside [] i bs s h = sym (outside-nil i bs)
splice-outside (r ∷ rs) i bs s h =
    here-outside r rs s.0
      (λ bs'. splice-outside rs (Region.max r + 1) bs' s.1 (All-lt-le (Region.max r) rs s.0)) i bs
      (omega (arith, h.0))
  where
    All-lt-le :
        (k : ℕ) (rs : List SelRegion)
        → All (λ r. k < Region.min r) rs
        → All (λ r. k + 1 ≤ Region.min r) rs
    All-lt-le k [] a = tt
    All-lt-le k (r ∷ rs) a = (omega arith, All-lt-le k rs a.1)

-- `deletion` of a valid selection within the document returns a delta, and applied to the document
-- it leaves exactly the bytes that no region covers, in order, by the documented laws of deltas
-- and where the document is shorter than 2 ^ 64 - 1 bytes.
pub deletion-outside :
    {X : XiRope} (laws : DeltaLaws X) (base : Rope) (s : Selection)
    → Valid s
    → InDocument (length base) s
    → length base + 1 < usize_mod
    → (delta : X.Delta) × (deletion X base s ≡ some delta)
      × (X.apply delta base ≡ outside s.regions 0 base)
deletion-outside laws base s v d small =
    let edits = deletion-Edits laws base s v d small in
    (
      edits.delta,
      edits.returns,
      edits.applied ∙ splice-outside s.regions 0 base v.sorted (All-zero s.regions),
    )
  where
    All-zero : (rs : List SelRegion) → All (λ r. 0 ≤ Region.min r) rs
    All-zero [] = tt
    All-zero (r ∷ rs) = (omega arith, All-zero rs)
