-- ===== src/Tests.antt =====
-- The theorems at concrete inputs: a document of ten bytes with two selected regions.
mod Selections
mod Counts
mod Edits
mod Undo
mod Splits
mod NormalMode
mod Commands
mod Views
mod Screen
mod Matches
mod Typing
use teehee.Common.{refl, true, false, [], ◌∷◌, arith}
use teehee.Region.{SelRegion}
use teehee.Rope.{Rope}
use teehee.Selection.{Selection}
use teehee.Selection.Valid.{Valid, InDocument}

-- Bytes 1 to 3, the caret at 3, and byte 5, which is the main region.
abbrev pub two_regions : Selection
two_regions = record {
  regions =
      record { caret = 3; tail = 1; main = false }
      ∷ record { caret = 5; tail = 5; main = true }
      ∷ [];
  main_selection = 1;
}

pub two_regions-Valid : Valid two_regions
two_regions-Valid = record { sorted = ((omega arith, tt), (tt, tt)); main_at = (refl, (refl, tt)) }

pub two_regions-InDocument : InDocument 10 two_regions
two_regions-InDocument = ((omega arith, omega arith), ((omega arith, omega arith), tt))

abbrev pub document : Rope
document = 0 ∷ 1 ∷ 2 ∷ 3 ∷ 4 ∷ 5 ∷ 6 ∷ 7 ∷ 8 ∷ 9 ∷ []
