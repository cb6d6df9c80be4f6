-- ===== src/Tests/NormalMode.antt =====
-- src/modes/normal.rs at a concrete buffer.
use teehee.Common.{none, false, arith}
use teehee.Region.{right}
use teehee.Rope.Model.{model}
use teehee.Buffer.{Buffer, from_data_and_path}
use teehee.CmdCount.{counting, to_count}
use teehee.Modes.Normal.{move, act}
use teehee.Modes.Normal.Moves.{Reselects, moves, act-Reselects}
use teehee.Tests.{two_regions, two_regions-Valid, two_regions-InDocument, document}

abbrev buffer : Buffer model
buffer = record (from_data_and_path model document none) { selection = two_regions }

act-Reselects_example : Reselects model buffer (act model (counting false 4) (move right) buffer 16)
unfolding to_count
act-Reselects_example =
    act-Reselects (counting false 4) (move right) buffer 16 (moves right)
      (record {
        size_lt = omega arith;
        line_lt = omega arith;
        count_lt = omega arith;
        distance_lt = omega arith;
      })
      two_regions-Valid two_regions-InDocument
