-- ===== src/Tests/Typing.antt =====
-- src/modes/insert.rs at concrete keys, with the model of the deltas.
use teehee.Common.{inl, arith, replicate, true, ◌≡◌, refl, false, none, some, [], ◌∷◌}
use teehee.Selection
use teehee.Selection.Shift
use teehee.Rope.Model.{model, add, copy}
use teehee.Rope.Model.Deltas.{model-DeltaLaws}
use teehee.Rope.Model.Chains.{model-ChainLaws}
use teehee.Operations
use teehee.Dirty.{change_length}
use teehee.Keymap
use teehee.Keymap.{KeyCode, plain, special, event_to_action, keys}
use teehee.Buffer
use teehee.Buffer.{from_data_and_path, Buffer, apply_delta_to_buffer, commit_delta}
use teehee.Modes.{overwrite, insertion, new_mode, dirty_bytes, normal_mode}
use teehee.Modes.Chars
use teehee.Modes.Insert
use teehee.Modes.Insert.Typing.{Typing, enter, OneUndo, undo-Typing}
use teehee.Modes.Insert.Ascii.{Typed, typed_calls, transition_ascii_insertion-Typed}
use teehee.Selection.Shift.Steady.{Steady, Shifted, apply_delta-Shifted}
use teehee.Tests.{document, two_regions, two_regions-Valid, two_regions-InDocument}
use teehee.Tests.Undo.{before}

-- After the key x.
abbrev typed : Buffer model
typed = record (apply_delta_to_buffer model before (add 120 ∷ copy ∷ copy ∷ copy ∷ []) false) {
  selection = record {
    regions = record { caret = 1; tail = 1; main = true } ∷ [];
    main_selection = 0;
  };
}

transition-typed :
    Insert.transition model insertion false none (Keymap.press (plain b'x')) before 16
    ≡ some (typed, some (dirty_bytes change_length))
unfolding Insert.transition Insert.transition_ascii_insertion Insert.default_maps event_to_action
    keys Operations.insert Operations.for_regions Chars.encode_utf8 Buffer.apply_incomplete_delta
    Buffer.with_selection Shift.apply_delta Selection.map_selections Selection.map_selections_to
    Selection.map_loop Selection.push_regions Selection.push_region Selection.note_main
transition-typed = refl

transition-left :
    Insert.transition model insertion false none (Keymap.press (special KeyCode.esc)) typed 16
    ≡ some (commit_delta model typed, some (new_mode normal_mode))
unfolding Insert.transition Insert.default_maps event_to_action keys Insert.act
transition-left = refl

undo-Typing_example :
    ((commit_delta model typed).history.partial ≡ none) × OneUndo before (commit_delta model typed)
undo-Typing_example =
    undo-Typing model-DeltaLaws model-ChainLaws 16 before (commit_delta model typed) refl
      (Typing.press insertion false none typed (commit_delta model typed)
        (Keymap.press (special KeyCode.esc)) (some (new_mode normal_mode))
        (Typing.press insertion false none before typed (Keymap.press (plain b'x'))
          (some (dirty_bytes change_length)) (enter insertion false) transition-typed)
        transition-left)
      refl

-- Two regions, both of which run forward.
abbrev with_regions : Buffer model
with_regions = record (from_data_and_path model document none) { selection = two_regions }

two_regions-Steady : Steady 10 two_regions
two_regions-Steady = record {
  valid = two_regions-Valid;
  within = two_regions-InDocument;
  one_way = inl (omega arith, (omega arith, tt));
}

apply_delta-Shifted_example : Shifted model two_regions (add 7 ∷ replicate 10 copy) 10 11
apply_delta-Shifted_example =
    apply_delta-Shifted model-DeltaLaws (add 7 ∷ replicate 10 copy) document refl two_regions
      two_regions-Steady

-- The letter é, of two bytes, typed over the bytes at the carets.
transition_ascii_insertion-Typed_example :
    Typed model with_regions
      (typed_calls overwrite (Chars.encode_utf8 0xE9) two_regions.regions)
      (Insert.transition_ascii_insertion model 0xE9 with_regions overwrite)
transition_ascii_insertion-Typed_example =
    transition_ascii_insertion-Typed model-DeltaLaws with_regions two_regions-Steady 0xE9 overwrite
      (omega arith)
