-- ===== src/Selection/Loop.antt =====
-- The loop of `map_selections`: it ends without a panic, in order and with one main region, where
-- the new regions follow one another and the main selection keeps a region.
use teehee.Common.{
  ℕ, zero, suc, ◌+◌, ◌<◌, ◌≡◌, refl, ◌≢◌, inl, inr, true, false, some, List, [], ◌∷◌, ◌++◌, ◌==◌,
  length, All, arith,
}
use teehee.Region
use teehee.Region.{SelRegion, with_main, overlaps}
use teehee.Selection.{Selection, in_order, note_main, map_loop, map_selections_to}
use teehee.Selection.Valid.{Sorted, NoMain, MainAt, Valid}
use teehee.Selection.Kept.{Kind, Is, flagged-Is, pushed_all-Is, in_order-Is}
use teehee.Selection.Push.{
  Stacked, TopFollows, AllFollow, MainRev, pushed, pushed_all, Ready, Ready-pushed_all,
  push_regions-pushed_all, pushed_all-NoMain, pushed_all-MainRev,
}

abbrev pub concat : List (List SelRegion) → List SelRegion
concat [] = []
concat (bs ∷ rest) = bs ++ concat rest

-- The main selection, `k` rounds from now, gets at least one region.
abbrev pub KeepsMain : ℕ → List (List SelRegion) → Type 0
KeepsMain k [] = ⊥
KeepsMain zero (bs ∷ rest) = bs ≢ []
KeepsMain (suc k) (bs ∷ rest) = KeepsMain k rest

-- What the loop leaves.
pub record Looped (main i : ℕ) (out : List SelRegion) (n : ℕ) (rest : List (List SelRegion))
    : Type 0 where
  pub out' : List SelRegion
  pub n' : ℕ
  pub returns : map_loop main i out n rest ≡ some (out', n')
  pub stacked : Stacked out'
  pub main_rev : MainRev n' out'
  pub kept : (k : Kind) → All (Is k) out → All (All (Is k)) rest → All (Is k) out'

-- After the main selection.
map_loop-after :
    (main i : ℕ) (out : List SelRegion) (n : ℕ) (rest : List (List SelRegion))
    → main < i
    → Ready out (concat rest)
    → All NoMain rest
    → MainRev n out
    → Looped main i out n rest
unfolding map_loop note_main
map_loop-after main i out n [] lt r u m = record {
  out' = out;
  n' = n;
  returns = refl;
  stacked = r.stacked;
  main_rev = m;
  kept = λ k a b. a;
}
map_loop-after main i out n (bs ∷ rest) lt r u m =
    let open_rest =
      map_loop-after main (suc i) (pushed_all out bs) n rest (omega arith)
        (Ready-pushed_all out bs (concat rest) r) u.1 (pushed_all-MainRev n out bs u.0 m) in
    let ne : (i == main) ≡ false = ground arith in
    record {
      out' = open_rest.out';
      n' = open_rest.n';
      returns = rw (push_regions-pushed_all out bs (concat rest) r, ne) open_rest.returns;
      stacked = open_rest.stacked;
      main_rev = open_rest.main_rev;
      kept = λ k a b. open_rest.kept k (pushed_all-Is k out bs (concat rest) r a b.0) b.1;
    }

TopFollows-with_main :
    (l : SelRegion) (out cs : List SelRegion)
    → All (TopFollows (l ∷ out)) cs
    → All (TopFollows (with_main true l ∷ out)) cs
TopFollows-with_main l out [] f = tt
TopFollows-with_main l out (c ∷ cs) f = (
  record { carets = f.0.carets; tails = f.0.tails; coherent = λ h. f.0.coherent h },
  TopFollows-with_main l out cs f.1,
)

-- The round of the main selection, and what comes after.
Looped-at_main :
    (main n : ℕ) (out : List SelRegion) (bs : List SelRegion) (rest : List (List SelRegion))
    (all : List SelRegion)
    → pushed_all out bs ≡ all
    → all ≢ []
    → Ready out (bs ++ concat rest)
    → NoMain all
    → All NoMain rest
    → Looped main main out n (bs ∷ rest)
unfolding map_loop note_main
Looped-at_main main n out bs rest [] e ne r u v = absurd (ne refl)
Looped-at_main main n out bs rest (l ∷ all) e ne r u v =
    let ready = rw e at (Ready-pushed_all out bs (concat rest) r) in
    let later =
      map_loop-after main (suc main) (with_main true l ∷ all) (length all) rest (omega arith)
        (record {
          stacked = ready.stacked;
          top = TopFollows-with_main l all (concat rest) ready.top;
          follow = ready.follow;
        })
        v (inl (refl, refl, u.1)) in
    let eq : (main == main) ≡ true = ground arith in
    record {
      out' = later.out';
      n' = later.n';
      returns = rw (push_regions-pushed_all out bs (concat rest) r, e, eq) later.returns;
      stacked = later.stacked;
      main_rev = later.main_rev;
      kept = λ k a b.
          let (top, below) = rw e at (pushed_all-Is k out bs (concat rest) r a b.0) in
          later.kept k (flagged-Is k l top, below) b.1;
    }

pushed-ne_nil : (out : List SelRegion) (b : SelRegion) → pushed out b ≢ []
pushed-ne_nil [] b = λ e. cc
pushed-ne_nil (l ∷ out) b = ground arith

pushed_all-ne_nil_of_ne : (out bs : List SelRegion) → out ≢ [] → pushed_all out bs ≢ []
pushed_all-ne_nil_of_ne out [] ne = ne
pushed_all-ne_nil_of_ne out (b ∷ bs) ne =
    pushed_all-ne_nil_of_ne (pushed out b) bs (pushed-ne_nil out b)

pushed_all-ne_nil : (out bs : List SelRegion) → bs ≢ [] → pushed_all out bs ≢ []
pushed_all-ne_nil out [] ne = absurd (ne refl)
pushed_all-ne_nil out (b ∷ bs) ne = pushed_all-ne_nil_of_ne (pushed out b) bs (pushed-ne_nil out b)

-- Up to the main selection.
map_loop-before :
    (k main i : ℕ) (out : List SelRegion) (n : ℕ) (rest : List (List SelRegion))
    → i + k ≡ main
    → Ready out (concat rest)
    → NoMain out
    → All NoMain rest
    → KeepsMain k rest
    → Looped main i out n rest
unfolding map_loop note_main
map_loop-before k main i out n [] at r u v keep = absurd keep
map_loop-before zero main i out n (bs ∷ rest) at r u v keep =
    let e : i ≡ main = omega arith in
    rw e (
      Looped-at_main main n out bs rest (pushed_all out bs) refl (pushed_all-ne_nil out bs keep) r
        (pushed_all-NoMain out bs v.0 u) v.1)
map_loop-before (suc k) main i out n (bs ∷ rest) at r u v keep =
    let later =
      map_loop-before k main (suc i) (pushed_all out bs) n rest (omega arith)
        (Ready-pushed_all out bs (concat rest) r) (pushed_all-NoMain out bs v.0 u) v.1 keep in
    let ne : (i == main) ≡ false = ground arith in
    record {
      out' = later.out';
      n' = later.n';
      returns = rw (push_regions-pushed_all out bs (concat rest) r, ne) later.returns;
      stacked = later.stacked;
      main_rev = later.main_rev;
      kept = λ k a b. later.kept k (pushed_all-Is k out bs (concat rest) r a b.0) b.1;
    }

Sorted-in_order :
    (out acc : List SelRegion)
    → Stacked out
    → Sorted acc
    → All (λ p. All (λ r. Region.max p < Region.min r) acc) out
    → Sorted (in_order out acc)
Sorted-in_order [] acc s t h = t
Sorted-in_order (l ∷ out) acc s t h =
    Sorted-in_order out (l ∷ acc) s.1 (h.0, t) (All-zip out s.0 h.1)
  where
    All-zip :
        (ps : List SelRegion)
        → All (λ p. Region.max p < Region.min l) ps
        → All (λ p. All (λ r. Region.max p < Region.min r) acc) ps
        → All (λ p. All (λ r. Region.max p < Region.min r) (l ∷ acc)) ps
    All-zip [] a b = tt
    All-zip (p ∷ ps) a b = ((a.0, b.0), All-zip ps a.1 b.1)

MainAt-NoMain :
    (out acc : List SelRegion) (n : ℕ)
    → NoMain out
    → MainAt n acc
    → MainAt (length out + n) (in_order out acc)
MainAt-NoMain [] acc n u m = let e : 0 + n ≡ n = omega arith in rw e m
MainAt-NoMain (l ∷ out) acc n u m =
    let e : suc (length out) + n ≡ length out + suc n = omega arith in
    rw e (MainAt-NoMain out (l ∷ acc) (suc n) u.1 (u.0, m))

MainAt-in_order :
    (n : ℕ) (out acc : List SelRegion) → MainRev n out → NoMain acc → MainAt n (in_order out acc)
MainAt-in_order n [] acc m u = absurd m
MainAt-in_order n (l ∷ out) acc (inl (at, top, below)) u =
    let e : n ≡ length out + 0 = omega arith in rw e (MainAt-NoMain out (l ∷ acc) 0 below (top, u))
MainAt-in_order n (l ∷ out) acc (inr (lt, top, below)) u =
    MainAt-in_order n out (l ∷ acc) below (top, u)

-- What `map_selections` makes of these results.
pub record Made (s : Selection) (results : List (List SelRegion)) : Type 0 where
  pub made : Selection
  pub returns : map_selections_to s results ≡ some made
  pub valid : Valid made
  pub kept : (k : Kind) → All (All (Is k)) results → All (Is k) made.regions

-- `map_selections` for a closure that returned `results`: where its regions follow one another and
-- have no flag, and the main selection keeps at least one region, it returns without a panic; the
-- regions of the new selection are in order and apart, its index names the only region with the
-- flag, and it stays within any document that the results are within, and forward or
-- backward where all results are.
pub map_selections_to-Valid :
    (s : Selection) (results : List (List SelRegion))
    → AllFollow (concat results)
    → All NoMain results
    → KeepsMain s.main_selection results
    → Made s results
unfolding map_selections_to
map_selections_to-Valid s results f u keep =
    let done =
      map_loop-before s.main_selection s.main_selection 0 [] 0 results (omega arith)
        (record { stacked = tt; top = TopFollows-nil (concat results); follow = f }) tt u keep in
    record {
      made = record { regions = in_order done.out' []; main_selection = done.n' };
      returns = rw done.returns;
      valid = record {
        sorted = Sorted-in_order done.out' [] done.stacked tt (All-nil done.out');
        main_at = MainAt-in_order done.n' done.out' [] done.main_rev tt;
      };
      kept = λ k h. in_order-Is k done.out' [] (done.kept k tt h) tt;
    }
  where
    TopFollows-nil : (cs : List SelRegion) → All (TopFollows []) cs
    TopFollows-nil [] = tt
    TopFollows-nil (c ∷ cs) = (tt, TopFollows-nil cs)

    All-nil : (out : List SelRegion) → All (λ p. All (λ r. Region.max p < Region.min r) []) out
    All-nil [] = tt
    All-nil (l ∷ out) = (tt, All-nil out)
