-- ===== src/Tests/Counts.antt =====
-- src/cmd_count.rs and the dirty ranges of src/buffer.rs at concrete inputs.
use teehee.Common.{ℕ, ◌≡◌, true, List, [], ◌∷◌, arith}
use teehee.CmdCount.{counting}
use teehee.CmdCount.Digits.{run, typed, base, value, run-typed}
use teehee.Dirty.{Interval, sort_by_start, disjoint}
use teehee.Dirty.Ranges.{Disjoint, holds, disjoint-sort_by_start}

-- 0x2f and then 3.
run-typed_example :
    run (counting true 47) (typed (3 ∷ 15 ∷ []))
    ≡ counting true (value (base true) 47 (3 ∷ 15 ∷ []))
run-typed_example = run-typed true 47 (3 ∷ 15 ∷ []) (omega arith, (omega arith, tt)) (omega arith)

abbrev ranges : List Interval
ranges =
    record { start = 5; end = 7 }
    ∷ record { start = 1; end = 3 }
    ∷ record { start = 2; end = 4 }
    ∷ []

disjoint-sort_by_start_example :
    Disjoint (disjoint (sort_by_start ranges))
    × ((offset : ℕ) → holds offset (disjoint (sort_by_start ranges)) ≡ holds offset ranges)
disjoint-sort_by_start_example = disjoint-sort_by_start ranges
