-- ===== src/Selection/Valid.antt =====
-- The invariant of a selection, src/selection.rs:9-10: the regions are in order and do not overlap.
-- Exactly one region has the flag `main`, the one at the index `main_selection`.
use teehee.Common.{◌≤◌, ℕ, zero, suc, ◌<◌, ◌≡◌, true, false, List, [], ◌∷◌, All}
use teehee.Region
use teehee.Region.{SelRegion}
use teehee.Selection.{Selection}

-- Every region ends before the next begins.
abbrev pub Sorted : List SelRegion → Type 0
Sorted [] = Unit
Sorted (r ∷ rs) = All (λ r'. Region.max r < Region.min r') rs × Sorted rs

abbrev pub NoMain : List SelRegion → Type 0
NoMain = All (λ r. r.main ≡ false)

abbrev pub MainAt : ℕ → List SelRegion → Type 0
MainAt i [] = ⊥
MainAt zero (r ∷ rs) = (r.main ≡ true) × NoMain rs
MainAt (suc i) (r ∷ rs) = (r.main ≡ false) × MainAt i rs

-- Within a document of `size` bytes: the position behind its last byte counts.
abbrev pub Within : ℕ → SelRegion → Type 0
Within size r = (r.caret ≤ size) × (r.tail ≤ size)

pub record Valid (s : Selection) : Type 0 where
  pub sorted : Sorted s.regions
  pub main_at : MainAt s.main_selection s.regions

abbrev pub InDocument : ℕ → Selection → Type 0
InDocument size s = All (Within size) s.regions
