-- ===== src/Selection/Single.antt =====
-- `map_selections` for a closure that makes one region of each: what the moves, jumps and
-- extensions of the modes use.
use teehee.Common.{ℕ, zero, suc, ◌<◌, ◌≡◌, false, some, List, [], ◌∷◌, map, All}
use teehee.Region
use teehee.Region.{SelRegion, with_main}
use teehee.Region.Follows.{Follows}
use teehee.Selection.{Selection, map_selections}
use teehee.Selection.Valid.{Sorted, NoMain, MainAt, Within, Valid, InDocument}
use teehee.Selection.Push.{AllFollow}
use teehee.Selection.Kept.{inside}
use teehee.Selection.Loop.{concat, KeepsMain, Made, map_selections_to-Valid}

-- `map_selections` returns, and leaves a valid selection within the document.
pub record Returns (size : ℕ) (s : Selection) (f : SelRegion → List SelRegion) : Type 0 where
  pub made : Selection
  pub returns : map_selections s f ≡ some made
  pub valid : Valid made
  pub within : InDocument size made

-- One region of each that is so, in order and within the document.
pub record Maps (P : SelRegion → Type 0) (size : ℕ) (g : SelRegion → SelRegion) : Type 0 where
  pub follows : (a b : SelRegion) → P a → P b → Region.max a < Region.min b → Follows (g a) (g b)
  pub within : (a : SelRegion) → P a → Within size (g a)
  pub unmarked : (a : SelRegion) → (g a).main ≡ false

abbrev pub MapsInOrder : ℕ → (SelRegion → SelRegion) → Type 0
MapsInOrder size g = Maps (Within size) size g

module _ {P : SelRegion → Type 0} {size : ℕ} {g : SelRegion → SelRegion} (m : Maps P size g) where
  All-Follows :
      (a : SelRegion) (rs : List SelRegion)
      → P a
      → All P rs
      → All (λ r. Region.max a < Region.min r) rs
      → All (Follows (g a)) (concat (map (λ r. g r ∷ []) rs))
  All-Follows a [] h k l = tt
  All-Follows a (r ∷ rs) h k l = (m.follows a r h k.0 l.0, All-Follows a rs h k.1 l.1)

  AllFollow-map :
      (rs : List SelRegion) → All P rs → Sorted rs → AllFollow (concat (map (λ r. g r ∷ []) rs))
  AllFollow-map [] h s = tt
  AllFollow-map (r ∷ rs) h s = (All-Follows r rs h.0 h.1 s.0, AllFollow-map rs h.1 s.1)

  NoMain-map : (rs : List SelRegion) → All NoMain (map (λ r. g r ∷ []) rs)
  NoMain-map [] = tt
  NoMain-map (r ∷ rs) = ((m.unmarked r, tt), NoMain-map rs)

  Within-map : (rs : List SelRegion) → All P rs → All (All (Within size)) (map (λ r. g r ∷ []) rs)
  Within-map [] h = tt
  Within-map (r ∷ rs) h = ((m.within r h.0, tt), Within-map rs h.1)

  KeepsMain-map : (k : ℕ) (rs : List SelRegion) → MainAt k rs → KeepsMain k (map (λ r. g r ∷ []) rs)
  KeepsMain-map k [] h = absurd h
  KeepsMain-map zero (r ∷ rs) h = λ e. cc
  KeepsMain-map (suc k) (r ∷ rs) h = KeepsMain-map k rs h.1

  pub map_selections-Maps :
      (s : Selection) → Valid s → All P s.regions → Made s (map (λ r. g r ∷ []) s.regions)
  map_selections-Maps s v d =
      map_selections_to-Valid s (map (λ r. g r ∷ []) s.regions) (AllFollow-map s.regions d v.sorted)
        (NoMain-map s.regions) (KeepsMain-map s.main_selection s.regions v.main_at)

  pub map_selections-Returns :
      (s : Selection) → Valid s → All P s.regions → Returns size s (λ r. g r ∷ [])
  unfolding map_selections
  map_selections-Returns s v d =
      let done = map_selections-Maps s v d in
      record {
        made = done.made;
        returns = done.returns;
        valid = done.valid;
        within = done.kept (inside size) (Within-map s.regions d);
      }

pub map_selections-MapsInOrder :
    {size : ℕ} {g : SelRegion → SelRegion}
    → MapsInOrder size g
    → (s : Selection) → Valid s
    → InDocument size s
    → Returns size s (λ r. g r ∷ [])
map_selections-MapsInOrder m s v d = map_selections-Returns m s v d
