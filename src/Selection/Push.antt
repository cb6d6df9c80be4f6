-- ===== src/Selection/Push.antt =====
-- One result of the closure in the loop of `map_selections`: regions that follow one another are
-- pushed without a panic, and the regions so far stay in order, with at most one main region.
use teehee.Common.{
  ℕ, ◌≤◌, ◌<◌, ◌≡◌, refl, ◌⊎◌, inl, inr, true, false, some, List, [], ◌∷◌, ◌++◌, leb→le,
  if◌then◌else◌, length, All, Bool-cases, arith,
}
use teehee.Region
use teehee.Region.{SelRegion, overlaps}
use teehee.Region.Follows.{Follows, joined, merge-joined, min-joined, joined-Follows}
use teehee.Selection.{push_region, push_regions}
use teehee.Selection.Valid.{NoMain}

-- `regions_out`, last region first, is in order.
abbrev pub Stacked : List SelRegion → Type 0
Stacked [] = Unit
Stacked (l ∷ out) = All (λ p. Region.max p < Region.min l) out × Stacked out

abbrev pub TopFollows : List SelRegion → SelRegion → Type 0
TopFollows [] c = Unit
TopFollows (l ∷ out) c = Follows l c

abbrev pub AllFollow : List SelRegion → Type 0
AllFollow [] = Unit
AllFollow (b ∷ bs) = All (Follows b) bs × AllFollow bs

-- The one main region stands `n` places from the bottom.
abbrev pub MainRev : ℕ → List SelRegion → Type 0
MainRev n [] = ⊥
MainRev n (r ∷ out) =
    ((length out ≡ n) × (r.main ≡ true) × NoMain out)
    ⊎ ((n < length out) × (r.main ≡ false) × MainRev n out)

abbrev pub pushed : List SelRegion → SelRegion → List SelRegion
pushed [] b = b ∷ []
pushed (l ∷ out) b = if overlaps l b then joined l b ∷ out else b ∷ l ∷ out

push_region-pushed :
    (out : List SelRegion) (b : SelRegion)
    → TopFollows out b
    → push_region out b ≡ some (pushed out b)
unfolding push_region
push_region-pushed [] b f = refl
push_region-pushed (l ∷ out) b f = elim (Bool-cases (overlaps l b)) [
  | inl o ↦ rw (o, merge-joined l b f (leb→le _ _ o)) refl
  | inr n ↦ rw n refl
]

All-lt :
    (out : List SelRegion) {m n : ℕ}
    → m ≤ n
    → All (λ p. Region.max p < m) out
    → All (λ p. Region.max p < n) out
All-lt [] h a = tt
All-lt (p ∷ out) h a = (omega arith, All-lt out h a.1)

pushed-Stacked :
    (out : List SelRegion) (b : SelRegion) → TopFollows out b → Stacked out → Stacked (pushed out b)
pushed-Stacked [] b f s = (tt, tt)
pushed-Stacked (l ∷ out) b f s = elim (Bool-cases (overlaps l b)) [
  | inl o ↦ rw o (All-lt out (omega (arith, min-joined l b f (leb→le _ _ o))) s.0, s.1)
  | inr n ↦ rw n ((ground arith, All-lt out (ground arith) s.0), s)
]

pushed-TopFollows :
    (out : List SelRegion) (b c : SelRegion)
    → TopFollows out b
    → TopFollows out c
    → Follows b c
    → TopFollows (pushed out b) c
pushed-TopFollows [] b c f g h = h
pushed-TopFollows (l ∷ out) b c f g h = elim (Bool-cases (overlaps l b)) [
  | inl o ↦ rw o (joined-Follows l b c f (leb→le _ _ o) g h)
  | inr n ↦ rw n h
]

pushed-NoMain :
    (out : List SelRegion) (b : SelRegion) → b.main ≡ false → NoMain out → NoMain (pushed out b)
pushed-NoMain [] b e s = (e, tt)
pushed-NoMain (l ∷ out) b e s = ground arith

pushed-MainRev :
    (n : ℕ) (out : List SelRegion) (b : SelRegion)
    → b.main ≡ false
    → MainRev n out
    → MainRev n (pushed out b)
pushed-MainRev n [] b e s = absurd s
pushed-MainRev n (l ∷ out) b e (inl (at, top, below)) = ground arith
pushed-MainRev n (l ∷ out) b e (inr (lt, top, below)) = ground arith

abbrev pub pushed_all : List SelRegion → List SelRegion → List SelRegion
pushed_all out [] = out
pushed_all out (b ∷ bs) = pushed_all (pushed out b) bs

-- What the regions so far must be for the new ones to come.
pub record Ready (out cs : List SelRegion) : Type 0 where
  pub stacked : Stacked out
  pub top : All (TopFollows out) cs
  pub follow : AllFollow cs

TopFollows-All :
    (out : List SelRegion) (b : SelRegion) (cs : List SelRegion)
    → TopFollows out b
    → All (TopFollows out) cs
    → All (Follows b) cs
    → All (TopFollows (pushed out b)) cs
TopFollows-All out b [] f t h = tt
TopFollows-All out b (c ∷ cs) f t h =
    (pushed-TopFollows out b c f t.0 h.0, TopFollows-All out b cs f t.1 h.1)

pub Ready-pushed :
    (out : List SelRegion) (b : SelRegion) (cs : List SelRegion)
    → Ready out (b ∷ cs)
    → Ready (pushed out b) cs
Ready-pushed out b cs r = record {
  stacked = pushed-Stacked out b r.top.0 r.stacked;
  top = TopFollows-All out b cs r.top.0 r.top.1 r.follow.0;
  follow = r.follow.1;
}

pub Ready-pushed_all :
    (out bs cs : List SelRegion) → Ready out (bs ++ cs) → Ready (pushed_all out bs) cs
Ready-pushed_all out [] cs r = r
Ready-pushed_all out (b ∷ bs) cs r =
    Ready-pushed_all (pushed out b) bs cs (Ready-pushed out b (bs ++ cs) r)

pub push_regions-pushed_all :
    (out bs cs : List SelRegion)
    → Ready out (bs ++ cs)
    → push_regions out bs ≡ some (pushed_all out bs)
unfolding push_regions
push_regions-pushed_all out [] cs r = refl
push_regions-pushed_all out (b ∷ bs) cs r =
    rw (push_region-pushed out b r.top.0)
      (push_regions-pushed_all (pushed out b) bs cs (Ready-pushed out b (bs ++ cs) r))

pub pushed_all-NoMain :
    (out bs : List SelRegion) → NoMain bs → NoMain out → NoMain (pushed_all out bs)
pushed_all-NoMain out [] e s = s
pushed_all-NoMain out (b ∷ bs) e s =
    pushed_all-NoMain (pushed out b) bs e.1 (pushed-NoMain out b e.0 s)

pub pushed_all-MainRev :
    (n : ℕ) (out bs : List SelRegion) → NoMain bs → MainRev n out → MainRev n (pushed_all out bs)
pushed_all-MainRev n out [] e s = s
pushed_all-MainRev n out (b ∷ bs) e s =
    pushed_all-MainRev n (pushed out b) bs e.1 (pushed-MainRev n out b e.0 s)
