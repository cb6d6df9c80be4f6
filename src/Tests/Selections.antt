-- ===== src/Tests/Selections.antt =====
-- src/selection.rs at concrete selections.
use teehee.Common.{ℕ, ◌+◌, ◌≡◌, refl, inl, true, false, none, some, List, [], ◌∷◌, length, arith}
use teehee.Region.{
  SelRegion, right, up, down, new, simple_move, simple_extend, jump_to_boundary, extend_to,
}
use teehee.Region.Caret.{Exact}
use teehee.Selection.{Selection, map_selections, regions_in_range, remove, remove_region, retain}
use teehee.Selection.Valid.{Valid}
use teehee.Selection.Loop.{Made, map_selections_to-Valid}
use teehee.Selection.Single.{Returns}
use teehee.Selection.Moves.{
  simple_move-Returns, simple_extend-Returns, jump_to_boundary-Returns, extend_to-panics,
}
use teehee.Selection.Range.{meeting, regions_in_range-meeting}
use teehee.Selection.Remove.{remove-Valid, holders, retain-remove, remove_before_main}
use teehee.Tests.{two_regions, two_regions-Valid, two_regions-InDocument}

-- What a split makes: two regions of the first, which touch no other, and the second as it is.
abbrev split_in_two : List (List SelRegion)
split_in_two = (new 1 1 ∷ new 3 2 ∷ []) ∷ (new 5 5 ∷ []) ∷ []

map_selections_to-Valid_example : Made two_regions split_in_two
map_selections_to-Valid_example =
    map_selections_to-Valid two_regions split_in_two
      (
        (
          record { carets = omega arith; tails = omega arith; coherent = λ h. inl (omega arith) },
          (
            record { carets = omega arith; tails = omega arith; coherent = λ h. inl (omega arith) },
            tt,
          ),
        ),
        (
          (
            record { carets = omega arith; tails = omega arith; coherent = λ h. inl (omega arith) },
            tt,
          ),
          (tt, tt),
        ),
      )
      ((refl, (refl, tt)), ((refl, tt), tt)) (λ e. cc)

exact : Exact 10 16 4
exact = record {
  size_lt = omega arith;
  line_lt = omega arith;
  count_lt = omega arith;
  distance_lt = omega arith;
}

simple_move-Returns_example : Returns 10 two_regions (λ r. simple_move r right 16 10 4 ∷ [])
simple_move-Returns_example =
    simple_move-Returns right 16 10 4 two_regions exact two_regions-Valid two_regions-InDocument

simple_extend-Returns_example : Returns 10 two_regions (λ r. simple_extend r up 16 10 4 ∷ [])
simple_extend-Returns_example =
    simple_extend-Returns up 16 10 4 two_regions exact two_regions-Valid two_regions-InDocument

jump_to_boundary-Returns_example : Returns 10 two_regions (λ r. jump_to_boundary r down 16 10 ∷ [])
jump_to_boundary-Returns_example =
    jump_to_boundary-Returns down 16 10 two_regions (omega arith) (omega arith) two_regions-Valid
      two_regions-InDocument

regions_in_range-meeting_example :
    regions_in_range two_regions 3 4 ≡ some (meeting 3 4 two_regions.regions)
regions_in_range-meeting_example =
    regions_in_range-meeting two_regions 3 4 two_regions-Valid (omega arith)

remove-Valid_example :
    (remove two_regions 1 ≡ some (remove_region two_regions 1))
    × Valid (remove_region two_regions 1)
remove-Valid_example =
    remove-Valid two_regions 1 two_regions-Valid (omega arith) (omega arith) (inl (omega arith))

retain-remove_example :
    (kept : Selection) × (left : Selection) × (retain two_regions 1 ≡ some kept)
    × (remove two_regions 1 ≡ some left)
    × Valid kept
    × (length kept.regions ≡ 1)
    × ((i : ℕ) → holders two_regions.regions i ≡ holders kept.regions i + holders left.regions i)
retain-remove_example = retain-remove two_regions 1 (omega arith) (omega arith)

-- A third region behind the main one.
abbrev three_regions : Selection
three_regions = record {
  regions = new 3 1 ∷ record { caret = 5; tail = 5; main = true } ∷ new 8 7 ∷ [];
  main_selection = 1;
}

three_regions-Valid : Valid three_regions
three_regions-Valid = record {
  sorted = ((omega arith, (omega arith, tt)), ((omega arith, tt), (tt, tt)));
  main_at = (refl, (refl, (refl, tt)));
}

remove_before_main_example :
    (remove three_regions 0 ≡ some (remove_region three_regions 0))
    × (¬ Valid (remove_region three_regions 0))
remove_before_main_example =
    remove_before_main three_regions 0 0 three_regions-Valid refl (omega arith) (omega arith)

extend_to-panics_example :
    map_selections
      (record {
        regions =
            record { caret = 3; tail = 1; main = false }
            ∷ record { caret = 5; tail = 5; main = true }
            ∷ [];
        main_selection = 1;
      })
      (λ r. extend_to r 4 ∷ [])
    ≡ none
extend_to-panics_example =
    extend_to-panics (record { caret = 3; tail = 1; main = false })
      (record { caret = 5; tail = 5; main = true }) [] 1 4 (omega arith) (omega arith)
