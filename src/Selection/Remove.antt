-- ===== src/Selection/Remove.antt =====
-- `retain` keeps one region, `remove` drops it.
use Prim.Native.Nat.{min as cmp_min}
use native.Mathlib.Decide.{dec_lt, ℕ_discrete}
use teehee.Common.{
  ℕ, zero, suc, ◌-◌, ◌≤◌, ◌<◌, ◌≡◌, refl, ◌⊎◌, true, some, List, [], ◌∷◌, length, modify, erase_idx,
  ◌+◌, if◌then◌else◌, get_elem?, All, length-erase_idx, get_elem?_lt, arith,
}
use teehee.Region
use teehee.Region.{SelRegion, with_main}
use teehee.Selection.{Selection, retain, remove, remove_region}
use teehee.Operations.Outside.{covers}
use teehee.Selection.Valid.{Sorted, NoMain, MainAt, Valid}
use teehee.Selection.Main.{Sorted-modify, MainAt-mark}

All-erase_idx :
    (k : ℕ) (rs : List SelRegion) (i : ℕ)
    → All (λ r. k < Region.min r) rs
    → All (λ r. k < Region.min r) (erase_idx rs i)
All-erase_idx k [] i h = tt
All-erase_idx k (r ∷ rs) zero h = h.1
All-erase_idx k (r ∷ rs) (suc i) h = (h.0, All-erase_idx k rs i h.1)

Sorted-erase_idx : (rs : List SelRegion) (i : ℕ) → Sorted rs → Sorted (erase_idx rs i)
Sorted-erase_idx [] i h = tt
Sorted-erase_idx (r ∷ rs) zero h = h.1
Sorted-erase_idx (r ∷ rs) (suc i) h =
    (All-erase_idx (Region.max r) rs i h.0, Sorted-erase_idx rs i h.1)

-- Where the flag stands after the region `i` is gone.
NoMain-erase_main : (i : ℕ) (rs : List SelRegion) → MainAt i rs → NoMain (erase_idx rs i)
NoMain-erase_main i [] m = absurd m
NoMain-erase_main zero (r ∷ rs) m = m.1
NoMain-erase_main (suc i) (r ∷ rs) m = (m.0, NoMain-erase_main i rs m.1)

NoMain-erase_idx : (i : ℕ) (rs : List SelRegion) → NoMain rs → NoMain (erase_idx rs i)
NoMain-erase_idx i [] u = tt
NoMain-erase_idx zero (r ∷ rs) u = u.1
NoMain-erase_idx (suc i) (r ∷ rs) u = (u.0, NoMain-erase_idx i rs u.1)

MainAt-erase_behind :
    (i k : ℕ) (rs : List SelRegion) → k < i → MainAt k rs → MainAt k (erase_idx rs i)
MainAt-erase_behind i k [] h m = absurd m
MainAt-erase_behind zero k (r ∷ rs) h m = absurd (omega arith)
MainAt-erase_behind (suc i) zero (r ∷ rs) h m = (m.0, NoMain-erase_idx i rs m.1)
MainAt-erase_behind (suc i) (suc k) (r ∷ rs) h m =
    (m.0, MainAt-erase_behind i k rs (omega arith) m.1)

MainAt-erase_before :
    (i k : ℕ) (rs : List SelRegion) → i ≤ k → MainAt (suc k) rs → MainAt k (erase_idx rs i)
MainAt-erase_before i k [] h m = absurd m
MainAt-erase_before zero k (r ∷ rs) h m = m.1
MainAt-erase_before (suc i) zero (r ∷ rs) h m = absurd (omega arith)
MainAt-erase_before (suc i) (suc k) (r ∷ rs) h m =
    (m.0, MainAt-erase_before i k rs (omega arith) m.1)

MainAt-mark_again :
    (k : ℕ) (rs : List SelRegion) → MainAt k rs → MainAt k (modify rs k (with_main true))
MainAt-mark_again k [] m = absurd m
MainAt-mark_again zero (r ∷ rs) m = (refl, m.1)
MainAt-mark_again (suc k) (r ∷ rs) m = (m.0, MainAt-mark_again k rs m.1)

-- Two regions are main once the one behind the main one is marked too.
not-MainAt-mark_behind :
    (k : ℕ) (rs : List SelRegion)
    → MainAt k rs
    → ¬ MainAt (suc k) (modify rs (suc k) (with_main true))
not-MainAt-mark_behind k [] m = λ n. absurd m
not-MainAt-mark_behind zero (r ∷ rs) m = λ n. cc (m.0, n.0)
not-MainAt-mark_behind (suc k) (r ∷ rs) m = λ n. not-MainAt-mark_behind k rs m.1 n.1

remove-remove_region :
    (s : Selection) (index : ℕ)
    → index < length s.regions
    → 2 ≤ length s.regions
    → remove s index ≡ some (remove_region s index)
unfolding remove
remove-remove_region s index h k = ground arith

MainAt-removed :
    (regions : List SelRegion) (main index j : ℕ)
    → j ≡ cmp_min (length (erase_idx regions index) - 1) main
    → index < length regions
    → 2 ≤ length regions
    → MainAt main regions
    → (main ≤ index) ⊎ (suc main ≡ length regions)
    → MainAt j (modify (erase_idx regions index) j (with_main true))
MainAt-removed regions main index j e h k m ok =
    let n = length-erase_idx regions index h in
    elim (dec_lt main index) [
      | yes before ↦
          let at : j ≡ main = omega (arith, n) in
          rw at (MainAt-mark_again main _ (MainAt-erase_behind index main regions before m))
      | no not_before ↦ elim (ℕ_discrete main index) [
        | yes same ↦
            MainAt-mark j _ (omega (arith, n)) (NoMain-erase_main index regions (rw same at m))
        | no differ ↦
            let at : main ≡ suc j = omega (arith, n) in
            MainAt-mark_again j _ (MainAt-erase_before index j regions (omega arith) (rw at at m))
      ]
    ]

-- `remove` by the index of one of several regions of a valid selection returns, and the selection
-- stays valid where the main region is the removed one, stands before it, or is the last.
pub remove-Valid :
    (s : Selection) (index : ℕ)
    → Valid s
    → index < length s.regions
    → 2 ≤ length s.regions
    → (s.main_selection ≤ index) ⊎ (suc s.main_selection ≡ length s.regions)
    → (remove s index ≡ some (remove_region s index)) × Valid (remove_region s index)
unfolding remove_region
remove-Valid s index v h k ok = (
  remove-remove_region s index h k,
  record {
    sorted = Sorted-modify true _ _ (Sorted-erase_idx s.regions index v.sorted);
    main_at = MainAt-removed s.regions s.main_selection index _ refl h k v.main_at ok;
  },
)

-- How many of the regions hold an offset.
abbrev pub holders : List SelRegion → ℕ → ℕ
holders [] i = 0
holders (r ∷ rs) i = (if covers r i then 1 else 0) + holders rs i

holders-modify :
    (rs : List SelRegion) (j i : ℕ) → holders (modify rs j (with_main true)) i ≡ holders rs i
holders-modify [] j i = refl
holders-modify (r ∷ rs) zero i = refl
holders-modify (r ∷ rs) (suc j) i = rw (holders-modify rs j i) refl

holders-erase_idx :
    (rs : List SelRegion) (index i : ℕ) (r : SelRegion)
    → get_elem? rs index ≡ some r
    → holders rs i ≡ (if covers r i then 1 else 0) + holders (erase_idx rs index) i
holders-erase_idx [] index i r e = cc
holders-erase_idx (q ∷ rs) zero i r e = let same : q ≡ r = cc in rw same refl
holders-erase_idx (q ∷ rs) (suc index) i r e = omega (arith, holders-erase_idx rs index i r e)

-- By the index of one of several regions of a selection, `retain` and `remove` return, what `retain`
-- keeps is valid, and the two divide the selection: every offset is held by as many regions of the
-- selection as of the two results together, and the result of `retain` has one region.
pub retain-remove :
    (s : Selection) (index : ℕ)
    → index < length s.regions
    → 2 ≤ length s.regions
    → (kept : Selection) × (left : Selection) × (retain s index ≡ some kept)
      × (remove s index ≡ some left)
      × Valid kept
      × (length kept.regions ≡ 1)
      × ((i : ℕ) → holders s.regions i ≡ holders kept.regions i + holders left.regions i)
unfolding retain remove_region
retain-remove s index h k =
    let (r, e) = get_elem?_lt s.regions index h in
    (
      record { regions = with_main true r ∷ []; main_selection = 0 },
      remove_region s index,
      rw e refl,
      remove-remove_region s index h k,
      record { sorted = (tt, tt); main_at = (refl, tt) },
      refl,
      λ i. omega (
        arith,
        holders-erase_idx s.regions index i r e,
        holders-modify (erase_idx s.regions index)
            (cmp_min (length (erase_idx s.regions index) - 1) s.main_selection) i,
      ),
    )

-- `remove` by the index of a region before the main one, where the main one is not the last,
-- returns a selection that is not valid.
pub remove_before_main :
    (s : Selection) (index main : ℕ)
    → Valid s
    → s.main_selection ≡ suc main
    → index ≤ main
    → suc (suc main) < length s.regions
    → (remove s index ≡ some (remove_region s index)) × (¬ Valid (remove_region s index))
unfolding remove_region
remove_before_main s index main v e h k =
    let n = length-erase_idx s.regions index (omega arith) in
    let same : cmp_min (length (erase_idx s.regions index) - 1) s.main_selection ≡ suc main =
      omega (arith, n) in
    (
      remove-remove_region s index (omega arith) (omega arith),
      λ w.
          not-MainAt-mark_behind main (erase_idx s.regions index)
            (MainAt-erase_before index main s.regions h (rw e at v.main_at)) (rw same at w.main_at),
    )
