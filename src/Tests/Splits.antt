-- ===== src/Tests/Splits.antt =====
-- src/modes/split.rs at concrete regions.
use teehee.Common.{◌≡◌, not, ◌&&◌, List, [], ◌∷◌, arith}
use teehee.Region.{new}
use teehee.Selection.Single.{Returns}
use teehee.Dirty.{Interval}
use teehee.Dirty.Ranges.{holds}
use teehee.Operations.Outside.{covers, covered}
use teehee.Modes.Split.{split_width, split_ranges}
use teehee.Modes.Split.Widths.{split_width-Returns, covered-split_width}
use teehee.Modes.Split.Searches.{covered-split_ranges}
use teehee.Tests.{two_regions, two_regions-Valid, two_regions-InDocument}

split_width-Returns_example : Returns 10 two_regions (split_width 2)
split_width-Returns_example =
    split_width-Returns 2 10 two_regions (omega arith) (omega arith) two_regions-Valid
      two_regions-InDocument

covered-split_width_example : covered (split_width 4 (new 3 12)) 11 ≡ covers (new 3 12) 11
covered-split_width_example = covered-split_width 4 (new 3 12) 11 (omega arith) (omega arith)

-- Two matches in bytes 3 to 12, the second at the end.
abbrev matched : List Interval
matched = record { start = 5; end = 7 } ∷ record { start = 11; end = 13 } ∷ []

covered-split_ranges_example :
    covered (split_ranges (new 12 3) matched) 8 ≡ (covers (new 12 3) 8 && not (holds 8 matched))
covered-split_ranges_example =
    covered-split_ranges (new 12 3) matched 8 (omega arith)
      (omega arith, omega arith, omega arith, (omega arith, omega arith, omega arith, tt))
