-- ===== src/History/Invert.antt =====
-- `Action::invert`: the inverse of a delta takes the edited text back.
use teehee.Common.{◌≡◌, sym, ap, ◌∙◌, not, map, length}
use teehee.Rope.{Rope, XiRope}
use teehee.Rope.Subset.{unmarked, count_unmarked}
use teehee.Rope.Subset.Expand.{length-unmarked, length-expand, length-map-not, unmarked-expand}
use teehee.Rope.Laws.{SubsetLaws}
use teehee.History.{Action, invert}

-- The inverse takes texts of the new length, and gives back the text before the edit.
pub record Inverts (X : XiRope) (action : Action X) (base : Rope) : Type 0 where
  pub base_len :
      X.base_len (Action.delta (invert X action base)) ≡ length (X.apply action.delta base)
  pub applied : X.apply (Action.delta (invert X action base)) (X.apply action.delta base) ≡ base

-- `Action::invert` of a delta for documents of this length is a delta for the edited document, and
-- applied to the edited document it gives back the document before the edit, by the documented
-- laws of subsets.
pub invert-Inverts :
    {X : XiRope} (laws : SubsetLaws X) (action : Action X) (base : Rope)
    → X.base_len action.delta ≡ length base
    → Inverts X action base
unfolding invert
invert-Inverts {X} laws action base fits =
    let d : X.Delta = action.delta in
    let (i_length, i_base, d_length) = laws.factor_insert d base fits in
    let del : X.Subset = (X.factor d).1 in
    let ins : X.Subset = X.inserted_subset (X.factor d).0 in
    let whole : Rope = X.apply_insert (X.factor d).0 base in
    let marks = laws.mask in
    let count : length (marks del) ≡ count_unmarked (marks ins) =
      d_length ∙ sym (ap length i_base) ∙ length-unmarked (marks ins) whole i_length in
    let expanded = laws.transform_expand_mask del ins count in
    let e_length : length (marks (X.transform_expand del ins)) ≡ length whole =
      ap length expanded ∙ length-expand (marks del) (marks ins) ∙ i_length in
    let edited : X.apply d base ≡ unmarked (marks (X.transform_expand del ins)) whole =
      laws.factor_delete d base fits ∙ ap (λ m. unmarked m whole) (sym expanded) in
    let c_length : length (marks (X.complement del)) ≡ length base =
      ap length (laws.complement_mask del) ∙ length-map-not (marks del) ∙ d_length in
    let tombstones : X.delete_from (X.complement del) base
        ≡ unmarked (map not (marks (X.transform_expand del ins))) whole =
      laws.delete_from_mask (X.complement del) base c_length
      ∙ ap (λ m. unmarked m base) (laws.complement_mask del)
      ∙ ap (unmarked (map not (marks del))) (sym i_base)
      ∙ sym (unmarked-expand (marks del) (marks ins) whole)
      ∙ ap (λ m. unmarked (map not m) whole) (sym expanded) in
    let (len, back) =
      laws.synthesized whole (X.delete_from (X.complement del) base) (X.transform_expand del ins)
        ins e_length i_length tombstones in
    record {
      base_len = len ∙ sym (length-unmarked _ whole e_length) ∙ ap length (sym edited);
      applied = ap (X.apply _) edited ∙ back ∙ i_base;
    }
