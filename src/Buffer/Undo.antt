-- ===== src/Buffer/Undo.antt =====
-- Undo and redo of whole edits.
use teehee.Common.{◌≡◌, refl, sym, ap, ◌∙◌, Bool, true, false, ℤ, Option, none, some, length}
use teehee.Rope.{XiRope}
use teehee.Rope.Laws.{SubsetLaws}
use teehee.Selection.{Selection}
use teehee.History
use teehee.History.{Action, History, invert, from_delta}
use teehee.History.Invert.{invert-Inverts}
use teehee.Dirty.{DirtyBytes}
use teehee.Buffer.{
  Buffer, apply_delta, perform_undo, perform_redo, apply_delta_to_buffer, with_selection,
  apply_delta_offset_carets, apply_incomplete_delta, apply_incomplete_delta_offset_carets,
}

-- The buffer that an edit leaves, with the selection that it computes.
abbrev pub edited : (X : XiRope) → Buffer X → X.Delta → Bool → Selection → Buffer X
edited X b delta is_final selection = record (apply_delta_to_buffer X b delta is_final) {
  selection = selection;
}

-- The four ways to apply a delta; the Boolean says whether the edit is complete.
pub data Applied {X : XiRope} (b : Buffer X) (delta : X.Delta) : Bool → Buffer X → Type 0 where
  complete :
      (c : Buffer X) (dirty : DirtyBytes)
      → apply_delta X b delta ≡ some (c, dirty)
      → Applied b delta true c
  complete_offset :
      (c : Buffer X) (dirty : DirtyBytes) (caret_offset tail_offset : ℤ)
      → apply_delta_offset_carets X b delta caret_offset tail_offset ≡ some (c, dirty)
      → Applied b delta true c
  incomplete :
      (c : Buffer X) (dirty : DirtyBytes)
      → apply_incomplete_delta X b delta ≡ some (c, dirty)
      → Applied b delta false c
  incomplete_offset :
      (c : Buffer X) (dirty : DirtyBytes) (caret_offset tail_offset : ℤ)
      → apply_incomplete_delta_offset_carets X b delta caret_offset tail_offset ≡ some (c, dirty)
      → Applied b delta false c

with_selection-edited :
    {X : XiRope} (b c : Buffer X) (delta : X.Delta) (is_final : Bool) (s : Option Selection)
    {dirty : DirtyBytes}
    → with_selection X (apply_delta_to_buffer X b delta is_final) s ≡ some (c, dirty)
    → (s : Selection) × (c ≡ edited X b delta is_final s)
unfolding with_selection
with_selection-edited b c delta is_final none e = cc
with_selection-edited b c delta is_final (some s) e = (s, cc)

pub Applied-edited :
    {X : XiRope} (b c : Buffer X) (delta : X.Delta) {is_final : Bool}
    → Applied b delta is_final c
    → (s : Selection) × (c ≡ edited X b delta is_final s)
unfolding apply_delta apply_delta_offset_carets apply_incomplete_delta
    apply_incomplete_delta_offset_carets
Applied-edited b _ delta (complete c dirty e) = with_selection-edited b c delta true _ e
Applied-edited b _ delta (complete_offset c dirty i j e) = with_selection-edited b c delta true _ e
Applied-edited b _ delta (incomplete c dirty e) = with_selection-edited b c delta false _ e
Applied-edited b _ delta (incomplete_offset c dirty i j e) =
    with_selection-edited b c delta false _ e

module _ {X : XiRope} (laws : SubsetLaws X) (b : Buffer X) (delta : X.Delta) (s : Selection)
    (fits : X.base_len delta ≡ length b.contents) where
  pub back :
      X.apply (Action.delta (invert X (from_delta X delta) b.contents)) (X.apply delta b.contents)
      ≡ b.contents
  back = (invert-Inverts laws (from_delta X delta) b.contents fits).applied

  -- The inverse of the inverse makes the edit again.
  forth :
      X.apply
        (Action.delta
          (invert X (invert X (from_delta X delta) b.contents) (X.apply delta b.contents)))
        b.contents
      ≡ X.apply delta b.contents
  forth =
      let inverse = invert-Inverts laws (from_delta X delta) b.contents fits in
      ap (X.apply _) (sym back)
      ∙ (invert-Inverts laws (invert X (from_delta X delta) b.contents) (X.apply delta b.contents)
          inverse.base_len).applied

  undo-edited :
      let undone = (perform_undo X (edited X b delta true s)).0 in
      let redone = (perform_redo X undone).0 in
      (undone.contents ≡ b.contents)
      × (undone.selection ≡ b.selection)
      × (redone.contents ≡ X.apply delta b.contents)
      × (redone.selection ≡ s)
  unfolding perform_undo perform_redo apply_delta_to_buffer History.perform_final History.undo
      History.redo
  undo-edited = (back, refl, ap (X.apply _) back ∙ forth, refl)

-- Where `apply_delta` of a delta for documents of this length returns a buffer, `perform_undo`
-- then gives back the document and the selection before, and `perform_redo` after that gives the
-- edited document and its selection, by the documented laws of subsets.
undo-apply_delta :
    {X : XiRope} (laws : SubsetLaws X) (b b' : Buffer X) (delta : X.Delta) {dirty : DirtyBytes}
    → X.base_len delta ≡ length b.contents
    → apply_delta X b delta ≡ some (b', dirty)
    → let undone = (perform_undo X b').0 in
      let redone = (perform_redo X undone).0 in
      (undone.contents ≡ b.contents)
      × (undone.selection ≡ b.selection)
      × (redone.contents ≡ b'.contents)
      × (redone.selection ≡ b'.selection)
unfolding apply_delta_to_buffer
undo-apply_delta laws b b' delta fits e =
    let (s, same) = Applied-edited b b' delta (complete b' _ e) in
    rw same (undo-edited laws b delta s fits)
