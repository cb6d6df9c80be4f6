-- ===== src/Selection/Inside.antt =====
-- `map_selections` for a closure that makes parts of each region, as a split does.
use teehee.Common.{ℕ, zero, suc, ◌≤◌, ◌<◌, ◌≢◌, List, [], ◌∷◌, ◌++◌, map, All, arith}
use teehee.Region
use teehee.Region.{SelRegion}
use teehee.Region.Follows.{Follows}
use teehee.Selection.{Selection, map_selections}
use teehee.Selection.Valid.{Sorted, NoMain, MainAt, Within, Valid, InDocument}
use teehee.Selection.Push.{AllFollow}
use teehee.Selection.Kept.{inside}
use teehee.Selection.Loop.{concat, KeepsMain, map_selections_to-Valid}
use teehee.Selection.Single.{Returns}

-- A part keeps within the offsets of its region.
abbrev pub Inside : SelRegion → SelRegion → Type 0
Inside r part = (Region.min r ≤ Region.min part) × (Region.max part ≤ Region.max r)

-- At least one part of each region in a document of `size` bytes, in order and apart.
pub record MakesParts (size : ℕ) (f : SelRegion → List SelRegion) : Type 0 where
  pub sorted : (r : SelRegion) → Within size r → Sorted (f r)
  pub inside : (r : SelRegion) → Within size r → All (Inside r) (f r)
  pub some_part : (r : SelRegion) → Within size r → f r ≢ []
  pub unmarked : (r : SelRegion) → Within size r → NoMain (f r)

abbrev Before : SelRegion → List SelRegion → Type 0
Before p = All (λ r. Region.max p < Region.min r)

Before-append :
    (p : SelRegion) (xs ys : List SelRegion) → Before p xs → Before p ys → Before p (xs ++ ys)
Before-append p [] ys h k = k
Before-append p (x ∷ xs) ys h k = (h.0, Before-append p xs ys h.1 k)

Sorted-append :
    (xs ys : List SelRegion) → Sorted xs → Sorted ys → All (λ x. Before x ys) xs → Sorted (xs ++ ys)
Sorted-append [] ys s t h = t
Sorted-append (x ∷ xs) ys s t h = (Before-append x xs ys s.0 h.0, Sorted-append xs ys s.1 t h.1)

AllFollow-Sorted : (rs : List SelRegion) → Sorted rs → AllFollow rs
AllFollow-Sorted [] s = tt
AllFollow-Sorted (r ∷ rs) s = (each r rs s.0, AllFollow-Sorted rs s.1)
  where
    each : (r : SelRegion) (rs : List SelRegion) → Before r rs → All (Follows r) rs
    each r [] h = tt
    each r (r' ∷ rs) h = (
      record {
        carets = omega (arith, h.0);
        tails = omega (arith, h.0);
        coherent = λ o. absurd (omega (arith, h.0));
      },
      each r rs h.1,
    )

-- What lies before a region lies before its parts, and before those of the regions behind it.
Before-parts :
    (p r : SelRegion) (parts : List SelRegion)
    → Region.max p < Region.min r
    → All (Inside r) parts
    → Before p parts
Before-parts p r [] h k = tt
Before-parts p r (x ∷ xs) h k = (omega (arith, k.0.0), Before-parts p r xs h k.1)

module _ {size : ℕ} {f : SelRegion → List SelRegion} (m : MakesParts size f) where
  Before-concat :
      (p : SelRegion) (rs : List SelRegion)
      → All (Within size) rs
      → Before p rs
      → Before p (concat (map f rs))
  Before-concat p [] d h = tt
  Before-concat p (r ∷ rs) d h =
      Before-append p (f r) (concat (map f rs)) (Before-parts p r (f r) h.0 (m.inside r d.0))
        (Before-concat p rs d.1 h.1)

  parts-Before :
      (r : SelRegion) (parts : List SelRegion) (rs : List SelRegion)
      → All (Within size) rs
      → All (Inside r) parts
      → Before r rs
      → All (λ x. Before x (concat (map f rs))) parts
  parts-Before r [] rs d k h = tt
  parts-Before r (x ∷ xs) rs d k h =
      (Before-concat x rs d (earlier rs h), parts-Before r xs rs d k.1 h)
    where
      earlier : (rs : List SelRegion) → Before r rs → Before x rs
      earlier [] h = tt
      earlier (r' ∷ rs) h = (omega (arith, k.0.1, h.0), earlier rs h.1)

  Sorted-concat :
      (rs : List SelRegion) → All (Within size) rs → Sorted rs → Sorted (concat (map f rs))
  Sorted-concat [] d s = tt
  Sorted-concat (r ∷ rs) d s =
      Sorted-append (f r) (concat (map f rs)) (m.sorted r d.0) (Sorted-concat rs d.1 s.1)
        (parts-Before r (f r) rs d.1 (m.inside r d.0) s.0)

  KeepsMain-parts :
      (k : ℕ) (rs : List SelRegion) → All (Within size) rs → MainAt k rs → KeepsMain k (map f rs)
  KeepsMain-parts k [] d h = absurd h
  KeepsMain-parts zero (r ∷ rs) d h = m.some_part r d.0
  KeepsMain-parts (suc k) (r ∷ rs) d h = KeepsMain-parts k rs d.1 h.1

  NoMain-parts : (rs : List SelRegion) → All (Within size) rs → All NoMain (map f rs)
  NoMain-parts [] d = tt
  NoMain-parts (r ∷ rs) d = (m.unmarked r d.0, NoMain-parts rs d.1)

  Within-parts : (rs : List SelRegion) → All (Within size) rs → All (All (Within size)) (map f rs)
  Within-parts [] h = tt
  Within-parts (r ∷ rs) h = (part r (f r) h.0 (m.inside r h.0), Within-parts rs h.1)
    where
      part :
          (r : SelRegion) (parts : List SelRegion)
          → Within size r
          → All (Inside r) parts
          → All (Within size) parts
      part r [] h k = tt
      part r (x ∷ xs) h k = (omega (arith, k.0.1, h), part r xs h k.1)

  pub map_selections-MakesParts : (s : Selection) → Valid s → InDocument size s → Returns size s f
  unfolding map_selections
  map_selections-MakesParts s v d =
      let done =
        map_selections_to-Valid s (map f s.regions)
          (AllFollow-Sorted _ (Sorted-concat s.regions d v.sorted)) (NoMain-parts s.regions d)
          (KeepsMain-parts s.main_selection s.regions d v.main_at) in
      record {
        made = done.made;
        returns = done.returns;
        valid = done.valid;
        within = done.kept (inside size) (Within-parts s.regions d);
      }
