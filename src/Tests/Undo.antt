-- ===== src/Tests/Undo.antt =====
-- src/history.rs and the undo of src/buffer.rs at a concrete edit, with the model of the deltas.
use teehee.Common.{false, ◌≡◌, refl, none, some, List, [], ◌∷◌, true}
use teehee.Selection
use teehee.Selection.{Selection}
use teehee.Selection.Shift
use teehee.Rope.{Rope}
use teehee.Rope.Model.{model, Piece, copy, skip, add}
use teehee.Rope.Model.Subsets.{subset_laws}
use teehee.History.{from_delta}
use teehee.History.Invert.{Inverts, invert-Inverts}
use teehee.Dirty.{change_length}
use teehee.Buffer.{
  Buffer, apply_delta, perform_undo, perform_redo, from_data_and_path, apply_delta_to_buffer,
  apply_incomplete_delta, commit_delta, with_selection,
}
use teehee.Buffer.Undo.{incomplete}
use teehee.Buffer.Insertion.{Insertion, first, more, Undone, undo-Insertion}
use teehee.Buffer.Sessions.{start, insertion, SameEdits, undo_times, undo_times-Session}
use teehee.History.Chain.{Chains, chain-Chains}
use teehee.Rope.Model.Chains.{model-ChainLaws}

-- The second of three bytes is replaced by two.
abbrev pub text : Rope
text = 10 ∷ 20 ∷ 30 ∷ []

abbrev pub delta : List Piece
delta = copy ∷ add 7 ∷ add 8 ∷ skip ∷ copy ∷ []

invert-Inverts_example : Inverts model (from_delta model delta) text
invert-Inverts_example = invert-Inverts subset_laws (from_delta model delta) text refl

abbrev pub before : Buffer model
before = from_data_and_path model text none

abbrev after : Buffer model
after = record (apply_delta_to_buffer model before delta true) {
  selection = record {
    regions = record { caret = 0; tail = 0; main = true } ∷ [];
    main_selection = 0;
  };
}

apply_delta-before : apply_delta model before delta ≡ some (after, change_length)
unfolding apply_delta with_selection Shift.apply_delta Selection.map_selections
    Selection.map_selections_to Selection.map_loop Selection.push_regions Selection.push_region
    Selection.note_main
apply_delta-before = refl

-- A second edit, of the edited text.
abbrev pub next_delta : List Piece
next_delta = copy ∷ copy ∷ skip ∷ add 9 ∷ add 5 ∷ copy ∷ []

chain-Chains_example : Chains model (from_delta model delta) text next_delta
chain-Chains_example =
    chain-Chains model-ChainLaws (from_delta model delta) next_delta text refl refl

-- The two edits as the steps of one insertion.
abbrev one_step : Buffer model
one_step = record (apply_delta_to_buffer model before delta false) { selection = after.selection }

abbrev two_steps : Buffer model
two_steps = record (apply_delta_to_buffer model one_step next_delta false) {
  selection = after.selection;
}

apply_incomplete_delta-before :
    apply_incomplete_delta model before delta ≡ some (one_step, change_length)
unfolding apply_incomplete_delta with_selection Shift.apply_delta Selection.map_selections
    Selection.map_selections_to Selection.map_loop Selection.push_regions Selection.push_region
    Selection.note_main
apply_incomplete_delta-before = refl

apply_incomplete_delta-one_step :
    apply_incomplete_delta model one_step next_delta ≡ some (two_steps, change_length)
unfolding apply_incomplete_delta with_selection Shift.apply_delta Selection.map_selections
    Selection.map_selections_to Selection.map_loop Selection.push_regions Selection.push_region
    Selection.note_main apply_delta_to_buffer
apply_incomplete_delta-one_step = refl

steps : Insertion before two_steps
unfolding apply_delta_to_buffer
steps =
    more one_step two_steps next_delta
      (first one_step delta refl refl
        (incomplete one_step change_length apply_incomplete_delta-before))
      refl (incomplete two_steps change_length apply_incomplete_delta-one_step)

undo-Insertion_example :
    let undone = (perform_undo model (commit_delta model two_steps)).0 in
    Undone model before two_steps undone (perform_redo model undone).0
undo-Insertion_example = undo-Insertion model-ChainLaws before two_steps steps

undo_times-Session_example : SameEdits (undo_times 1 (commit_delta model two_steps)) before
undo_times-Session_example =
    undo_times-Session model-ChainLaws before (commit_delta model two_steps)
      (insertion before two_steps start steps)
