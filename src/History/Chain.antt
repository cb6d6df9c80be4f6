-- ===== src/History/Chain.antt =====
-- `Action::chain`: two deltas as one.
use teehee.Common.{
  ◌≡◌, List, refl, sym, ap, ◌∙◌, inl, inr, Bool, true, not, map, length, Bool-cases, if◌then◌else◌,
}
use teehee.Rope.{Rope, XiRope}
use teehee.Rope.Subset.{unmarked, expand, either, union_behind, count_unmarked}
use teehee.Rope.Subset.Expand.{
  length-unmarked, length-expand, length-map-not, length-union_behind, expand-unmarked,
}
use teehee.Rope.Laws.{ChainLaws}
use teehee.History.Cut.{Cut, Joined, factor-Cut, join}
use teehee.History.{Action, chain, subsets_for_chain}

-- The two deltas as one: it is for the text that the first is for.
pub record Chains (X : XiRope) (action : Action X) (base : Rope) (next : X.Delta) : Type 0 where
  pub base_len :
      X.base_len (Action.delta (chain X action (X.apply action.delta base) next)) ≡ length base
  pub applied :
      X.apply (Action.delta (chain X action (X.apply action.delta base) next)) base
      ≡ X.apply next (X.apply action.delta base)

module _ {X : XiRope} (laws : ChainLaws X) (action : Action X) (next : X.Delta) (base : Rope)
    (fits : X.base_len action.delta ≡ length base)
    (next_fits : X.base_len next ≡ length (X.apply action.delta base)) where
  abbrev marks : X.Subset → List Bool
  marks = laws.subsets.mask

  abbrev inserts : X.Subset
  inserts = X.inserted_subset (X.factor action.delta).0

  abbrev deletes : X.Subset
  deletes = X.transform_expand (X.factor action.delta).1 inserts

  abbrev whole : Rope
  whole = X.apply_insert (X.factor action.delta).0 base

  abbrev second : X.InsertDelta
  second = X.insert_transform_expand (X.factor next).0 deletes true

  abbrev new : X.Subset
  new = X.inserted_subset second

  abbrev later : X.Subset
  later = (X.factor next).1

  first : Cut (marks inserts) (marks deletes) whole base (X.apply action.delta base)
  first = let (e, c) = factor-Cut laws.subsets action.delta base fits in rw e c

  expanded :
      (length (marks new) ≡ length (X.apply_insert second whole))
      × (unmarked (marks new) (X.apply_insert second whole) ≡ whole)
      × (unmarked (expand (marks deletes) (marks new)) (X.apply_insert second whole)
          ≡ X.apply_insert (X.factor next).0 (X.apply action.delta base))
      × (unmarked (expand (marks deletes) (marks new)) (marks new)
          ≡ marks (X.inserted_subset (X.factor next).0))
  expanded =
      let (p, q, r, t) =
        laws.insert_expand next deletes whole first.del_length
          (next_fits ∙ sym (ap length first.ends)) in
      (p, q, r ∙ ap (X.apply_insert (X.factor next).0) first.ends, t)

  mid : length whole ≡ count_unmarked (marks new)
  mid = sym (ap length expanded.1) ∙ length-unmarked (marks new) _ expanded.0

  transform_expand-new :
      (s : X.Subset)
      → length (marks s) ≡ length whole
      → marks (X.transform_expand s new) ≡ expand (marks s) (marks new)
  transform_expand-new s h = laws.subsets.transform_expand_mask s new (h ∙ mid)

  length-later : length (marks later) ≡ count_unmarked (marks deletes)
  length-later =
      (laws.subsets.factor_insert next (X.apply action.delta base) next_fits).2
      ∙ sym (ap length first.ends)
      ∙ length-unmarked (marks deletes) whole first.del_length

  union-new :
      (s t : X.Subset) (m n : List Bool)
      → marks s ≡ expand m (marks new)
      → marks t ≡ n
      → length n ≡ length (marks new)
      → marks (X.union s t) ≡ either (expand m (marks new)) n
  union-new s t m n e f h =
      laws.union_mask s t (ap length e ∙ length-expand m (marks new) ∙ sym h ∙ sym (ap length f))
      ∙ ap (either (marks s)) f
      ∙ ap (λ k. either k n) e

  abbrev pre_expand : X.Subset
  pre_expand = X.transform_expand later deletes

  pre_expand-marks : marks pre_expand ≡ expand (marks later) (marks deletes)
  pre_expand-marks = laws.subsets.transform_expand_mask later deletes length-later

  pre_length : length (marks pre_expand) ≡ length whole
  pre_length =
      ap length pre_expand-marks ∙ length-expand (marks later) (marks deletes) ∙ first.del_length

  -- The shorter way of the code, where nothing is inserted, is the same.
  marks-deletes_in_union :
      marks (if X.subset_is_empty new then pre_expand else X.transform_expand pre_expand new)
      ≡ expand (expand (marks later) (marks deletes)) (marks new)
  marks-deletes_in_union =
      let long = transform_expand-new pre_expand pre_length in
      let same = ap (λ m. expand m (marks new)) pre_expand-marks in
      elim (Bool-cases (X.subset_is_empty new)) [
        | inl e ↦ rw e (
            sym (
              expand-unmarked (marks pre_expand) (marks new) (laws.is_empty_mask new e)
                (pre_length ∙ mid))
            ∙ same)
        | inr e ↦ rw e (long ∙ same)
      ]

  prefinal-marks :
      marks (
        X.transform_union
          (X.transform_shrink inserts deletes)
          (X.inserted_subset (X.factor next).0))
      ≡ union_behind
          (unmarked (marks deletes) (marks inserts))
          (marks (X.inserted_subset (X.factor next).0))
  prefinal-marks =
      let c = (factor-Cut laws.subsets next (X.apply action.delta base) next_fits).1 in
      let shrunk =
        laws.transform_shrink_mask inserts deletes (first.ins_length ∙ sym first.del_length) in
      let count : length (marks (X.transform_shrink inserts deletes))
          ≡ count_unmarked (marks (X.inserted_subset (X.factor next).0)) =
        ap length shrunk
        ∙ length-unmarked (marks deletes) (marks inserts) (first.del_length ∙ sym first.ins_length)
        ∙ sym (length-unmarked (marks deletes) whole first.del_length)
        ∙ ap length (first.ends ∙ sym c.begins)
        ∙ length-unmarked (marks (X.inserted_subset (X.factor next).0)) _ c.ins_length in
      laws.transform_union_mask _ _ count
      ∙ ap (λ m. union_behind m (marks (X.inserted_subset (X.factor next).0))) shrunk

  subsets_for_chain-marks :
      let (inserted, deleted, prefinal) = subsets_for_chain X action next in
      (marks inserted ≡ either (expand (marks inserts) (marks new)) (marks new))
      × (marks deleted
          ≡ either
              (expand (marks deletes) (marks new))
              (expand (expand (marks later) (marks deletes)) (marks new)))
      × (marks prefinal
          ≡ union_behind
              (unmarked (marks deletes) (marks inserts))
              (marks (X.inserted_subset (X.factor next).0)))
  unfolding subsets_for_chain
  subsets_for_chain-marks = (
    union-new _ new (marks inserts) (marks new) (transform_expand-new inserts first.ins_length) refl
        refl,
    union-new _ _ (marks deletes) _ (transform_expand-new deletes first.del_length)
        marks-deletes_in_union (length-expand (expand (marks later) (marks deletes)) (marks new)),
    prefinal-marks,
  )

  abbrev after_next : Rope
  after_next = X.apply_insert (X.factor next).0 (X.apply action.delta base)

  joined :
      Joined
        (marks inserts)
        (marks deletes)
        (marks new)
        (marks later)
        (X.apply_insert second whole)
        base
        (unmarked
          (expand (marks later) (unmarked (expand (marks deletes) (marks new)) (marks new)))
          (unmarked (expand (marks deletes) (marks new)) (X.apply_insert second whole)))
  joined = join (marks new) (marks later) (X.apply_insert second whole) first expanded.0 expanded.1

  final :
      unmarked
        (expand (marks later) (unmarked (expand (marks deletes) (marks new)) (marks new)))
        (unmarked (expand (marks deletes) (marks new)) (X.apply_insert second whole))
      ≡ X.apply next (X.apply action.delta base)
  final =
      let c = (factor-Cut laws.subsets next (X.apply action.delta base) next_fits).1 in
      ap
        (λ m.
          unmarked (expand (marks later) m)
            (unmarked (expand (marks deletes) (marks new)) (X.apply_insert second whole)))
        expanded.3
      ∙ ap (unmarked (expand (marks later) (marks (X.inserted_subset (X.factor next).0))))
          expanded.2
      ∙ c.ends

  tombstones :
      X.delete_from (X.complement (subsets_for_chain X action next).2) after_next
      ≡ unmarked (map not (marks (subsets_for_chain X action next).0)) (X.apply_insert second whole)
  tombstones =
      let (i, d, p) = subsets_for_chain-marks in
      let c = (factor-Cut laws.subsets next (X.apply action.delta base) next_fits).1 in
      let prefinal : X.Subset = (subsets_for_chain X action next).2 in
      let between : List Bool = unmarked (marks deletes) (marks inserts) in
      let l : length (marks (X.complement prefinal)) ≡ length after_next =
        ap length (laws.subsets.complement_mask prefinal)
        ∙ length-map-not (marks prefinal)
        ∙ ap length p
        ∙ length-union_behind between (marks (X.inserted_subset (X.factor next).0))
        ∙ c.ins_length in
      laws.subsets.delete_from_mask (X.complement prefinal) after_next l
      ∙ ap (λ m. unmarked m after_next) (laws.subsets.complement_mask prefinal ∙ ap (map not) p)
      ∙ sym (
          ap (λ m. unmarked (map not m) (X.apply_insert second whole)) i
          ∙ joined.tombstones
          ∙ ap
              (λ m.
                unmarked (map not (union_behind between m))
                  (unmarked (expand (marks deletes) (marks new)) (X.apply_insert second whole)))
              expanded.3
          ∙ ap
              (unmarked
                (map not (union_behind between (marks (X.inserted_subset (X.factor next).0)))))
              expanded.2)

  -- Where `action` is for documents of this length and `next` for the document after it, the action
  -- that `chain` makes of the two is for the document before both, and applied to it it gives the
  -- document after both, by the documented laws of subsets.
  pub chain-Chains : Chains X action base next
  unfolding chain
  chain-Chains =
      let text : Rope = X.apply_insert second whole in
      let inserted : X.Subset = (subsets_for_chain X action next).0 in
      let deleted : X.Subset = (subsets_for_chain X action next).1 in
      let prefinal : X.Subset = (subsets_for_chain X action next).2 in
      let (i, d, p) = subsets_for_chain-marks in
      let l : length (marks inserted) ≡ length text = ap length i ∙ joined.ins_length in
      let start : unmarked (marks inserted) text ≡ base =
        ap (λ m. unmarked m text) i ∙ joined.begins in
      let (count, applied) =
        laws.subsets.synthesized text (X.delete_from (X.complement prefinal) after_next) inserted
          deleted l (ap length d ∙ joined.del_length) tombstones in
      record {
        base_len = count ∙ sym (length-unmarked _ text l) ∙ ap length start;
        applied =
            ap (X.apply _) (sym start)
            ∙ applied
            ∙ ap (λ m. unmarked m text) d
            ∙ joined.ends
            ∙ final;
      }
