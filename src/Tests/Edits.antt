-- ===== src/Tests/Edits.antt =====
-- src/operations.rs at a concrete document, with the model of the deltas.
use teehee.Common.{◌≡◌, some, List, arith}
use teehee.Rope.Model.{model, apply, Piece}
use teehee.Rope.Model.Deltas.{model-DeltaLaws}
use teehee.Operations.{deletion, replace}
use teehee.Operations.Calls.{calls_of, Edits}
use teehee.Operations.Edits.{fill_region, replace-Edits}
use teehee.Operations.Outside.{outside, deletion-outside}
use teehee.Tests.{two_regions, two_regions-Valid, two_regions-InDocument, document}

deletion-outside_example :
    (delta : List Piece) × (deletion model document two_regions ≡ some delta)
    × (apply delta document ≡ outside two_regions.regions 0 document)
deletion-outside_example =
    deletion-outside model-DeltaLaws document two_regions two_regions-Valid two_regions-InDocument
      (omega arith)

replace-Edits_example :
    Edits model document
      (replace model document two_regions 255)
      (calls_of (fill_region 255) two_regions.regions)
replace-Edits_example =
    replace-Edits model-DeltaLaws document two_regions two_regions-Valid two_regions-InDocument
      (omega arith) 255
