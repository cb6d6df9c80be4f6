-- ===== src/Selection/Main.antt =====
-- Which region is the main one: `select_next`, `select_prev`, `retain` and `remove`.
use teehee.Common.{
  ℕ, zero, suc, ◌+◌, ◌-◌, ◌%◌, ◌<◌, ◌≡◌, refl, ap, ◌∙◌, Bool, true, false, some, List, [], ◌∷◌,
  length, modify, All, ◌>>=◌, usize_mod, wrapping_add, length-modify, get_elem?_lt, arith,
}
use native.Mathlib.Nat.{mod-eq_of_lt, mod-eq-sub-mod, add-mod-mod}
use teehee.Region
use teehee.Region.{SelRegion, with_main}
use teehee.Selection.{Selection, select_next, select_prev}
use teehee.Selection.Valid.{Sorted, NoMain, MainAt, Within, Valid}

MainAt-lt : (i : ℕ) (rs : List SelRegion) → MainAt i rs → i < length rs
MainAt-lt i [] m = absurd m
MainAt-lt zero (r ∷ rs) m = omega arith
MainAt-lt (suc i) (r ∷ rs) m = omega (arith, MainAt-lt i rs m.1)

pub main_lt : {s : Selection} → Valid s → s.main_selection < length s.regions
main_lt {s} v = MainAt-lt s.main_selection s.regions v.main_at

-- The flag has no part in the order.
pub All-modify :
    (k : ℕ) (b : Bool) (rs : List SelRegion) (i : ℕ)
    → All (λ r. k < Region.min r) rs
    → All (λ r. k < Region.min r) (modify rs i (with_main b))
All-modify k b [] i h = tt
All-modify k b (r ∷ rs) zero h = h
All-modify k b (r ∷ rs) (suc i) h = (h.0, All-modify k b rs i h.1)

pub Sorted-modify :
    (b : Bool) (rs : List SelRegion) (i : ℕ) → Sorted rs → Sorted (modify rs i (with_main b))
Sorted-modify b [] i h = tt
Sorted-modify b (r ∷ rs) zero h = h
Sorted-modify b (r ∷ rs) (suc i) h =
    (All-modify (Region.max r) b rs i h.0, Sorted-modify b rs i h.1)

pub Within-modify :
    (size : ℕ) (b : Bool) (rs : List SelRegion) (i : ℕ)
    → All (Within size) rs
    → All (Within size) (modify rs i (with_main b))
Within-modify size b [] i h = tt
Within-modify size b (r ∷ rs) zero h = h
Within-modify size b (r ∷ rs) (suc i) h = (h.0, Within-modify size b rs i h.1)

NoMain-unmark : (i : ℕ) (rs : List SelRegion) → MainAt i rs → NoMain (modify rs i (with_main false))
NoMain-unmark i [] m = absurd m
NoMain-unmark zero (r ∷ rs) m = (refl, m.1)
NoMain-unmark (suc i) (r ∷ rs) m = (m.0, NoMain-unmark i rs m.1)

pub MainAt-mark :
    (i : ℕ) (rs : List SelRegion)
    → i < length rs
    → NoMain rs
    → MainAt i (modify rs i (with_main true))
MainAt-mark i [] h u = absurd (omega arith)
MainAt-mark zero (r ∷ rs) h u = (refl, u.1)
MainAt-mark (suc i) (r ∷ rs) h u = (u.0, MainAt-mark i rs (omega arith) u.1)

-- Moving the flag from `i` to `j`, as both `select_next` and `select_prev` do.
abbrev pub reselect : Selection → ℕ → Selection
reselect s j = record {
  regions = modify (modify s.regions s.main_selection (with_main false)) j (with_main true);
  main_selection = j;
}

pub reselect-Valid : (s : Selection) (j : ℕ) → Valid s → j < length s.regions → Valid (reselect s j)
reselect-Valid s j v h = record {
  sorted = Sorted-modify true _ j (Sorted-modify false s.regions s.main_selection v.sorted);
  main_at =
      MainAt-mark j _ (omega (arith, length-modify s.regions s.main_selection (with_main false)))
        (NoMain-unmark s.main_selection s.regions v.main_at);
}

unmark-mark :
    (i : ℕ) (rs : List SelRegion)
    → NoMain rs
    → modify (modify rs i (with_main true)) i (with_main false) ≡ rs
unmark-mark i [] u = refl
unmark-mark zero (r ∷ rs) u = ground arith
unmark-mark (suc i) (r ∷ rs) u = ap (r ∷◌) (unmark-mark i rs u.1)

mark-unmark :
    (i : ℕ) (rs : List SelRegion)
    → MainAt i rs
    → modify (modify rs i (with_main false)) i (with_main true) ≡ rs
mark-unmark i [] m = refl
mark-unmark zero (r ∷ rs) m = ground arith
mark-unmark (suc i) (r ∷ rs) m = ap (r ∷◌) (mark-unmark i rs m.1)

reselect-reselect : (s : Selection) (j : ℕ) → Valid s → reselect (reselect s j) s.main_selection ≡ s
reselect-reselect s j v =
    let e : modify (modify (reselect s j).regions j (with_main false)) s.main_selection
          (with_main true)
        ≡ s.regions =
      rw (unmark-mark j _ (NoMain-unmark s.main_selection s.regions v.main_at))
        (mark-unmark s.main_selection s.regions v.main_at) in
    λ i. record { regions = e i; main_selection = s.main_selection }

next_index : (m c n : ℕ) → m < n → m + c < usize_mod → wrapping_add m c % n < n
next_index m c n h k = grind arith

prev_next_below : (m d n : ℕ) → m < n → d < n → ((m + d) % n + n - d) % n ≡ m
prev_next_below m d n h k = grind (arith, mod-eq_of_lt, mod-eq-sub-mod)

prev_next : (m c n : ℕ) → m < n → ((m + c) % n + n - c % n) % n ≡ m
prev_next m c n h = rw (← add-mod-mod m c n) (prev_next_below m (c % n) n h (omega arith))

-- The index that `select_prev` computes, with and without wrapping.
prev_index : (m c n : ℕ) → m < n → m + n < usize_mod → (wrapping_add m n - c % n) % n < n
prev_index m c n h k = grind arith

module _ {s : Selection} (count : ℕ) (v : Valid s) where
  -- The next main region is the `count`th behind, round the end; nothing else changes.
  pub select_next-reselect :
      s.main_selection + count < usize_mod
      → select_next s count ≡ some (reselect s ((s.main_selection + count) % length s.regions))
  unfolding select_next
  select_next-reselect h =
      let (r, e) = get_elem?_lt s.regions s.main_selection (main_lt v) in
      let exact : wrapping_add s.main_selection count ≡ s.main_selection + count = omega arith in
      rw (e, exact) refl

  pub select_prev-reselect :
      s.main_selection + length s.regions < usize_mod
      → select_prev s count
        ≡ some (
            reselect s
              ((s.main_selection + length s.regions - count % length s.regions) % length s.regions))
  unfolding select_prev
  select_prev-reselect h =
      let (r, e) = get_elem?_lt s.regions s.main_selection (main_lt v) in
      let exact : wrapping_add s.main_selection (length s.regions)
          ≡ s.main_selection + length s.regions =
        omega arith in
      rw (e, exact) refl

-- `select_next` and then `select_prev` by one count gives back the whole selection, for a valid
-- selection where the index plus the count and twice the number of regions fit `usize`.
select_prev-select_next :
    (s : Selection) (count : ℕ)
    → Valid s
    → s.main_selection + count < usize_mod
    → length s.regions + length s.regions < usize_mod
    → (select_next s count >>= λ s'. select_prev s' count) ≡ some s
select_prev-select_next s count v h k =
    let j : ℕ = (s.main_selection + count) % length s.regions in
    let lt : j < length s.regions = grind (arith, main_lt v) in
    let same : length (reselect s j).regions ≡ length s.regions =
      length-modify _ j (with_main true)
      ∙ length-modify s.regions s.main_selection (with_main false) in
    let e =
      select_prev-reselect {s = reselect s j} count (reselect-Valid s j v lt)
        (omega (arith, same)) in
    rw
      (
        select_next-reselect count v h,
        e,
        same,
        prev_next s.main_selection count (length s.regions) (main_lt v),
      )
      (ap some (reselect-reselect s j v))
