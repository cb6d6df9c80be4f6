-- ===== src/History.antt =====
-- src/history.rs: undo and redo. The last element of a `Vec` there is the head of a list here.
pub mod Invert
pub mod Cut
pub mod Chain
use teehee.Common.{Bool, Option, none, some, List, [], ◌∷◌, if◌then◌else◌, true}
use teehee.Rope.{Rope, XiRope}
use teehee.Selection.{Selection}

pub record Action (X : XiRope) : Type 0 where
  pub delta : X.Delta

pub record History (X : XiRope) : Type 0 where
  pub partial : Option (Action X × Selection)
  pub undos : List (Action X × Selection)
  pub redos : List (Action X × Selection)

module _ (X : XiRope) where
  open X use {
    Delta, Subset, factor, synthesize, inserted_subset, apply_insert, insert_transform_expand,
    subset_is_empty, complement, union, transform_expand, transform_shrink, transform_union,
    delete_from,
  }

  abbrev pub from_delta : Delta → Action X
  from_delta delta = record { delta = delta }

  unfoldable pub invert : Action X → Rope → Action X
  invert action base_rope =
      let (inserts, deletions) = factor action.delta in
      let ins_subset = inserted_subset inserts in
      let deleted_now = delete_from (complement deletions) base_rope in
      let deletions_from_base = transform_expand deletions ins_subset in
      record { delta = synthesize deleted_now deletions_from_base ins_subset }

  unfoldable pub subsets_for_chain : Action X → Delta → Subset × Subset × Subset
  subsets_for_chain action next =
      let (ins1, del1) = factor action.delta in
      let (ins2, del2) = factor next in
      let inserts_in_mid_union = inserted_subset ins1 in
      let deletes_from_mid_union = transform_expand del1 (inserted_subset ins1) in
      let union_ins_delta = insert_transform_expand ins2 deletes_from_mid_union true in
      let new_inserts = inserted_subset union_ins_delta in
      let pre_expand = transform_expand del2 deletes_from_mid_union in
      let new_deletes =
        if subset_is_empty new_inserts
        then pre_expand
        else transform_expand pre_expand new_inserts in
      let rebased_deletes_from_union = transform_expand deletes_from_mid_union new_inserts in
      let deletes_from_union = union rebased_deletes_from_union new_deletes in
      let rebased_inserts_in_union = transform_expand inserts_in_mid_union new_inserts in
      let inserts_in_union = union rebased_inserts_in_union new_inserts in
      let inserts_in_mid_text = transform_shrink inserts_in_mid_union deletes_from_mid_union in
      let prefinal_insertion = inserted_subset ins2 in
      let inserts_in_prefinal = transform_union inserts_in_mid_text prefinal_insertion in
      (inserts_in_union, deletes_from_union, inserts_in_prefinal)

  unfoldable pub chain : Action X → Rope → Delta → Action X
  unfolding subsets_for_chain
  chain action after_self next =
      let after_next = apply_insert (factor next).0 after_self in
      let (inserted, deleted, inserts_in_prefinal) = subsets_for_chain action next in
      let tombstones = delete_from (complement inserts_in_prefinal) after_next in
      record { delta = synthesize tombstones inserted deleted }

  abbrev pub new : History X
  new = record { partial = none; undos = []; redos = [] }

  unfoldable pub perform_final : History X → Rope → Delta → Selection → History X
  perform_final h current_rope delta selection = record h {
    undos = (invert (from_delta delta) current_rope, selection) ∷ h.undos;
    redos = [];
  }

  unfoldable pub perform_partial : History X → Rope → Delta → Selection → History X
  perform_partial h current_rope delta selection =
      let this_inversion = invert (from_delta delta) current_rope in
      record h {
        partial = elim h.partial [
          | none ↦ some (this_inversion, selection)
          | some (action, first_selection) ↦
              some (chain this_inversion current_rope action.delta, first_selection)
        ];
      }

  unfoldable pub commit_partial : History X → History X
  commit_partial h = elim h.partial [
    | none ↦ h
    | some entry ↦ record { partial = none; undos = entry ∷ h.undos; redos = [] }
  ]

  unfoldable pub undo : History X → Rope → Selection → History X × Option (Delta × Selection)
  undo h current_rope selection = elim h.undos [
    | [] ↦ (h, none)
    | (action, old_selection) ∷ undos ↦ (
      record h { undos = undos; redos = (invert action current_rope, selection) ∷ h.redos },
      some (action.delta, old_selection),
    )
  ]

  unfoldable pub redo : History X → Rope → Selection → History X × Option (Delta × Selection)
  redo h current_rope selection = elim h.redos [
    | [] ↦ (h, none)
    | (action, old_selection) ∷ redos ↦ (
      record h { undos = (invert action current_rope, selection) ∷ h.undos; redos = redos },
      some (action.delta, old_selection),
    )
  ]
