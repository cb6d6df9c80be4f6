-- ===== src/Dirty/Ranges.antt =====
-- The dirty ranges cover what they are made from, and are in order.
use Prim.Native.Nat.{min as cmp_min}
use teehee.Common.{
  ℕ, ◌≤◌, ◌≡◌, refl, ◌∙◌, inl, inr, Bool, true, false, ◌||◌, List, [], ◌∷◌, leb, Bool-cases, All,
  arith,
}
use teehee.Dirty.{Interval, contains, union, insert_sorted, sort_by_start, disjoint_from, disjoint}

abbrev pub holds : ℕ → List Interval → Bool
holds offset [] = false
holds offset (iv ∷ ivs) = contains iv offset || holds offset ivs

abbrev pub Starts : List Interval → Type 0
Starts [] = Unit
Starts (iv ∷ ivs) = All (λ x. iv.start ≤ x.start) ivs × Starts ivs

-- Every range ends before the next begins.
abbrev pub Disjoint : List Interval → Type 0
Disjoint [] = Unit
Disjoint (iv ∷ ivs) = All (λ x. iv.end ≤ x.start) ivs × Disjoint ivs

holds-insert_sorted :
    (offset : ℕ) (iv : Interval) (ivs : List Interval)
    → holds offset (insert_sorted iv ivs) ≡ (contains iv offset || holds offset ivs)
unfolding insert_sorted
holds-insert_sorted offset iv [] = refl
holds-insert_sorted offset iv (x ∷ xs) = ground (arith, holds-insert_sorted offset iv xs)

holds-sort_by_start :
    (offset : ℕ) (ivs : List Interval) → holds offset (sort_by_start ivs) ≡ holds offset ivs
unfolding sort_by_start
holds-sort_by_start offset [] = refl
holds-sort_by_start offset (iv ∷ ivs) =
    rw (holds-insert_sorted offset iv (sort_by_start ivs), holds-sort_by_start offset ivs) refl

All-insert_sorted :
    (n : ℕ) (iv : Interval) (ivs : List Interval)
    → n ≤ iv.start
    → All (λ x. n ≤ x.start) ivs
    → All (λ x. n ≤ x.start) (insert_sorted iv ivs)
unfolding insert_sorted
All-insert_sorted n iv [] h a = (h, tt)
All-insert_sorted n iv (x ∷ xs) h a = elim (Bool-cases (leb iv.start x.start)) [
  | inl e ↦ rw e (h, a)
  | inr e ↦ rw e (a.0, All-insert_sorted n iv xs h a.1)
]

All-le_trans :
    (m n : ℕ) (ivs : List Interval)
    → m ≤ n
    → All (λ x. n ≤ x.start) ivs
    → All (λ x. m ≤ x.start) ivs
All-le_trans m n [] h a = tt
All-le_trans m n (x ∷ xs) h a = (omega arith, All-le_trans m n xs h a.1)

Starts-insert_sorted :
    (iv : Interval) (ivs : List Interval) → Starts ivs → Starts (insert_sorted iv ivs)
unfolding insert_sorted
Starts-insert_sorted iv [] s = (tt, tt)
Starts-insert_sorted iv (x ∷ xs) s = elim (Bool-cases (leb iv.start x.start)) [
  | inl e ↦ rw e ((ground arith, All-le_trans iv.start x.start xs (ground arith) s.0), s)
  | inr e ↦
      rw e (All-insert_sorted x.start iv xs (ground arith) s.0, Starts-insert_sorted iv xs s.1)
]

Starts-sort_by_start : (ivs : List Interval) → Starts (sort_by_start ivs)
unfolding sort_by_start
Starts-sort_by_start [] = tt
Starts-sort_by_start (iv ∷ ivs) =
    Starts-insert_sorted iv (sort_by_start ivs) (Starts-sort_by_start ivs)

contains-union :
    (offset : ℕ) (last r : Interval)
    → last.start ≤ r.start
    → contains last r.start ≡ true
    → contains (union last r) offset ≡ (contains last offset || contains r offset)
contains-union offset last r h e = ground arith

-- Merging loses no offset and adds none.
holds-disjoint_from :
    (offset : ℕ) (last : Interval) (ivs : List Interval)
    → All (λ x. last.start ≤ x.start) ivs
    → Starts ivs
    → holds offset (disjoint_from last ivs) ≡ (contains last offset || holds offset ivs)
unfolding disjoint_from
holds-disjoint_from offset last [] a s = refl
holds-disjoint_from offset last (r ∷ rest) a s = elim (Bool-cases (contains last r.start)) [
  | inl e ↦
      let start : cmp_min last.start r.start ≡ last.start = ground arith in
      rw
        (
          e,
          holds-disjoint_from offset (union last r) rest (rw start a.1) s.1,
          contains-union offset last r a.0 e,
        )
        (or_assoc (contains last offset) (contains r offset) (holds offset rest))
  | inr e ↦ rw (e, holds-disjoint_from offset r rest s.0 s.1) refl
]
  where
    or_assoc : (a b c : Bool) → ((a || b) || c) ≡ (a || (b || c))
    or_assoc true b c = refl
    or_assoc false b c = refl

Disjoint-disjoint_from :
    (last : Interval) (ivs : List Interval)
    → All (λ x. last.start ≤ x.start) ivs
    → Starts ivs
    → Disjoint (disjoint_from last ivs)
      × ((n : ℕ) → n ≤ last.start → All (λ x. n ≤ x.start) (disjoint_from last ivs))
unfolding disjoint_from
Disjoint-disjoint_from last [] a s = ((tt, tt), λ n h. (h, tt))
Disjoint-disjoint_from last (r ∷ rest) a s = elim (Bool-cases (contains last r.start)) [
  | inl e ↦
      let start : cmp_min last.start r.start ≡ last.start = ground arith in
      let (d, b) = Disjoint-disjoint_from (union last r) rest (rw start a.1) s.1 in
      rw e (d, λ n h. b n (rw start h))
  | inr e ↦
      let (d, b) = Disjoint-disjoint_from r rest s.0 s.1 in
      rw e ((b last.end (ground arith), d), λ n h. (h, b n (omega arith)))
]

-- What `Buffer::map_selections` makes of any list of invalidated ranges holds exactly the offsets
-- that these hold, and each of its ranges ends before the next begins.
pub disjoint-sort_by_start :
    (ivs : List Interval)
    → Disjoint (disjoint (sort_by_start ivs))
      × ((offset : ℕ) → holds offset (disjoint (sort_by_start ivs)) ≡ holds offset ivs)
disjoint-sort_by_start ivs =
    on_sorted (sort_by_start ivs) (Starts-sort_by_start ivs) (λ n. holds-sort_by_start n ivs)
  where
    on_sorted :
        (sorted : List Interval)
        → Starts sorted
        → ((n : ℕ) → holds n sorted ≡ holds n ivs)
        → Disjoint (disjoint sorted) × ((n : ℕ) → holds n (disjoint sorted) ≡ holds n ivs)
    on_sorted [] s h = unfold disjoint in (tt, h)
    on_sorted (r ∷ rest) s h =
        unfold disjoint in
        ((Disjoint-disjoint_from r rest s.0 s.1).0, λ n. holds-disjoint_from n r rest s.0 s.1 ∙ h n)
