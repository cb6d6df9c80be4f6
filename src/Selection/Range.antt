-- ===== src/Selection/Range.antt =====
-- `regions_in_range` finds by binary search the regions that meet a range, which the view draws.
use teehee.Common.{
  ℕ, suc, ◌-◌, ◌≤◌, ◌<◌, ◌≡◌, refl, ap, inl, inr, Bool, true, false, ◌&&◌, some, List, [], ◌∷◌,
  length, take, drop, All, ltb, leb, if◌then◌else◌, Bool-cases, ltb→lt, le→leb, arith,
}
use teehee.Region
use teehee.Region.{SelRegion}
use teehee.Selection.{Selection, search_from, last, search, reaches, regions_in_range}
use teehee.Selection.Valid.{Sorted, Valid}

-- The regions that share an offset with start..=end.
abbrev pub meeting : ℕ → ℕ → List SelRegion → List SelRegion
meeting start end [] = []
meeting start end (r ∷ rs) =
    let rest = meeting start end rs in
    if leb start (Region.max r) && leb (Region.min r) end then r ∷ rest else rest

All-trans :
    (j k : ℕ) (rs : List SelRegion)
    → j ≤ k
    → All (λ r. k < Region.min r) rs
    → All (λ r. j < Region.min r) rs
All-trans j k [] h a = tt
All-trans j k (r ∷ rs) h a = (omega arith, All-trans j k rs h a.1)

meeting-behind :
    (start end : ℕ) (rs : List SelRegion)
    → All (λ r. end < Region.min r) rs
    → meeting start end rs ≡ []
meeting-behind start end [] a = refl
meeting-behind start end (r ∷ rs) a = ground (arith, meeting-behind start end rs a.1)

search_from-behind :
    (offset : ℕ) (rs : List SelRegion)
    → All (λ r. offset < Region.min r) rs
    → search_from rs offset ≡ 0
unfolding search_from
search_from-behind offset [] a = refl
search_from-behind offset (r ∷ rs) a = ground arith

-- With `last` as the source computes it from the two searches.
abbrev bound : List SelRegion → ℕ → ℕ
bound rs end =
    if reaches rs (search_from rs end) end then suc (search_from rs end) else search_from rs end

abbrev slice : List SelRegion → ℕ → ℕ → List SelRegion
slice rs start end = take (bound rs end - search_from rs start) (drop (search_from rs start) rs)

module _ (r : SelRegion) (rs : List SelRegion) (o : ℕ) where
  search_from-before : Region.max r < o → search_from (r ∷ rs) o ≡ suc (search_from rs o)
  unfolding search_from
  search_from-before h = ground arith

  search_from-at : o ≤ Region.max r → search_from (r ∷ rs) o ≡ 0
  unfolding search_from
  search_from-at h = ground arith

  bound-before : Region.max r < o → bound (r ∷ rs) o ≡ suc (bound rs o)
  unfolding search_from reaches
  bound-before h = ground arith

  bound-at : o ≤ Region.max r → bound (r ∷ rs) o ≡ (if leb (Region.min r) o then 1 else 0)
  unfolding search_from reaches
  bound-at h = ground arith

suc-sub-suc : (a b : ℕ) → suc a - suc b ≡ a - b
suc-sub-suc a b = omega arith

sub-zero : (a : ℕ) → a - 0 ≡ a
sub-zero a = omega arith

slice-meeting :
    (rs : List SelRegion) (start end : ℕ)
    → start ≤ end
    → Sorted rs
    → (search_from rs start ≤ bound rs end) × (slice rs start end ≡ meeting start end rs)
slice-meeting [] start end h s = unfold search_from reaches in (omega arith, refl)
slice-meeting (r ∷ rs) start end h s = elim (Bool-cases (ltb (Region.max r) start)) [
  | inl before ↦
      let (le, e) = slice-meeting rs start end h s.1 in
      let out : leb start (Region.max r) ≡ false = ground arith in
      rw
        (
          search_from-before r rs start (ltb→lt _ _ before),
          bound-before r rs end (ground arith),
          suc-sub-suc,
          out,
        )
        (omega arith, e)
  | inr at ↦ elim (Bool-cases (ltb (Region.max r) end)) [
    | inl inside ↦
        let (le, e) = slice-meeting rs start end h s.1 in
        let zero_first =
          search_from-behind start rs (All-trans start (Region.max r) rs (ground arith) s.0) in
        let ends : leb start (Region.max r) ≡ true = ground arith in
        let starts : leb (Region.min r) end ≡ true = ground arith in
        rw
          (
            search_from-at r rs start (ground arith),
            bound-before r rs end (ltb→lt _ _ inside),
            sub-zero,
            ends,
            starts,
          )
          (omega arith, ap (r ∷◌) (rw (zero_first, sub-zero) at e))
    | inr across ↦
        let ends : leb start (Region.max r) ≡ true = ground arith in
        let none_behind =
          meeting-behind start end rs (All-trans end (Region.max r) rs (ground arith) s.0) in
        rw
          (
            search_from-at r rs start (ground arith),
            bound-at r rs end (ground arith),
            sub-zero,
            ends,
            none_behind,
          )
          (omega arith, only (leb (Region.min r) end))
  ]
]
  where
    only : (b : Bool) → take (if b then 1 else 0) (r ∷ rs) ≡ (if b then r ∷ [] else [])
    only true = refl
    only false = refl

-- Where the last region ends before the offset, all do.
search_from-past :
    (r : SelRegion) (rs : List SelRegion) (o : ℕ)
    → Sorted (r ∷ rs)
    → Region.max (last r rs) < o
    → search_from (r ∷ rs) o ≡ length (r ∷ rs)
unfolding last
search_from-past r [] o s h = unfold search_from in ground arith
search_from-past r (r' ∷ rs) o s h =
    let rest = search_from-past r' rs o s.1 h in
    let e = search_from-before r (r' ∷ rs) o (omega (arith, max-le-last r' rs o s.1 h, s.0.0)) in
    rw (e, rest) refl
  where
    max-le-last :
        (r : SelRegion) (rs : List SelRegion) (o : ℕ)
        → Sorted (r ∷ rs)
        → Region.max (last r rs) < o
        → Region.max r < o
    max-le-last r [] o s h = h
    max-le-last r (r' ∷ rs) o s h = omega (arith, max-le-last r' rs o s.1 h, s.0.0)

search-search_from :
    (r : SelRegion) (rs : List SelRegion) (main o : ℕ)
    → Sorted (r ∷ rs)
    → search (record { regions = r ∷ rs; main_selection = main }) o ≡ some (search_from (r ∷ rs) o)
unfolding search
search-search_from r rs main o s = elim (Bool-cases (ltb (Region.max (last r rs)) o)) [
  | inl past ↦ rw (past, search_from-past r rs o s (ltb→lt _ _ past)) refl
  | inr not_past ↦ rw not_past refl
]

regions_in_range-nonempty :
    (r : SelRegion) (rs : List SelRegion) (main start end : ℕ)
    → start ≤ end
    → Sorted (r ∷ rs)
    → regions_in_range (record { regions = r ∷ rs; main_selection = main }) start end
      ≡ some (meeting start end (r ∷ rs))
unfolding regions_in_range
regions_in_range-nonempty r rs main start end h s =
    let (le, e) = slice-meeting (r ∷ rs) start end h s in
    rw (search-search_from r rs main start s, search-search_from r rs main end s, le→leb _ _ le, e)
      refl

-- For a valid selection and a range that is in order, `regions_in_range` does not panic, and
-- returns exactly the regions that share an offset with start..=end, in order.
pub regions_in_range-meeting :
    (s : Selection) (start end : ℕ)
    → Valid s
    → start ≤ end
    → regions_in_range s start end ≡ some (meeting start end s.regions)
regions_in_range-meeting s start end v h = on_regions s.regions s.main_selection v
  where
    on_regions :
        (rs : List SelRegion) (main : ℕ)
        → Valid (record { regions = rs; main_selection = main })
        → regions_in_range (record { regions = rs; main_selection = main }) start end
          ≡ some (meeting start end rs)
    on_regions [] main v = absurd v.main_at
    on_regions (r ∷ rs) main v = regions_in_range-nonempty r rs main start end h v.sorted
