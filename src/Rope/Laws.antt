-- ===== src/Rope/Laws.antt =====
-- What the program relies on of xi-rope: what the crate documents of its functions.
use teehee.Common.{ℕ, ◌≤◌, ◌≡◌, Bool, true, false, not, some, List, map, length, All}
use teehee.Rope.{Rope, XiRope}
use teehee.Rope.Script.{Call, InOrder, splice, calls}
use teehee.Rope.Subset.{unmarked, expand, either, union_behind, count_unmarked}

-- Sorted calls do not panic; they give the document that they describe.
pub record Built (X : XiRope) (base : Rope) (cs : List Call) : Type 0 where
  pub built : X.DeltaBuilder
  pub returns : calls X (X.builder (length base)) cs ≡ some built
  pub base_len : X.base_len (X.build built) ≡ length base
  pub applied : X.apply (X.build built) base ≡ splice 0 cs base

pub record DeltaLaws (X : XiRope) : Type 0 where
  -- `DeltaBuilder::delete`, `replace`: "Panics if interval isn't properly sorted."
  pub sorted_calls : (base : Rope) (cs : List Call) → InOrder (length base) 0 cs → Built X base cs
  -- `DeltaBuilder::new`: "Creates a new builder, applying changes on top of a base document of length
  -- base_len."
  pub builder_len :
      (n : ℕ) (cs : List Call) (b : X.DeltaBuilder)
      → calls X (X.builder n) cs ≡ some b
      → X.base_len (X.build b) ≡ n
  -- "d.apply(r).len() == d.new_document_len()"
  pub new_len :
      (d : X.Delta) (base : Rope)
      → X.base_len d ≡ length base
      → X.new_document_len d ≡ length (X.apply d base)
  -- A transformed index keeps its order.
  pub transform_mono : (d : X.Delta) (i j : ℕ) → i ≤ j → X.transform d i true ≤ X.transform d j true

-- `mask` is the meaning of a subset.
pub record SubsetLaws (X : XiRope) : Type 0 where
  pub mask : X.Subset → List Bool
  pub delete_from_mask :
      (s : X.Subset) (text : Rope)
      → length (mask s) ≡ length text
      → X.delete_from s text ≡ unmarked (mask s) text
  pub complement_mask : (s : X.Subset) → mask (X.complement s) ≡ map not (mask s)
  pub transform_expand_mask :
      (s t : X.Subset)
      → length (mask s) ≡ count_unmarked (mask t)
      → mask (X.transform_expand s t) ≡ expand (mask s) (mask t)
  -- "Factor the delta into an insert-only delta and a subset representing deletions. Applying the
  -- insert then the delete yields the same result as the original delta."
  pub factor_insert :
      (d : X.Delta) (base : Rope)
      → X.base_len d ≡ length base
      → let (ins, del) = X.factor d in
        (length (mask (X.inserted_subset ins)) ≡ length (X.apply_insert ins base))
        × (unmarked (mask (X.inserted_subset ins)) (X.apply_insert ins base) ≡ base)
        × (length (mask del) ≡ length base)
  pub factor_delete :
      (d : X.Delta) (base : Rope)
      → X.base_len d ≡ length base
      → let (ins, del) = X.factor d in
        X.apply d base
        ≡ unmarked (expand (mask del) (mask (X.inserted_subset ins))) (X.apply_insert ins base)
  -- "Synthesize a delta from a union string and two subsets: an old set of deletions and a new
  -- set of deletions from the union. The Delta is from text to text, not union to union."
  pub synthesized :
      (union tombstones : Rope) (from_dels to_dels : X.Subset)
      → length (mask from_dels) ≡ length union
      → length (mask to_dels) ≡ length union
      → tombstones ≡ unmarked (map not (mask from_dels)) union
      → let d = X.synthesize tombstones from_dels to_dels in
        (X.base_len d ≡ count_unmarked (mask from_dels))
        × (X.apply d (unmarked (mask from_dels) union) ≡ unmarked (mask to_dels) union)

-- What a chain of deltas needs besides.
pub record ChainLaws (X : XiRope) : Type 0 where
  pub subsets : SubsetLaws X
  pub union_mask :
      (s t : X.Subset)
      → length (subsets.mask s) ≡ length (subsets.mask t)
      → subsets.mask (X.union s t) ≡ either (subsets.mask s) (subsets.mask t)
  pub is_empty_mask : (s : X.Subset) → X.subset_is_empty s ≡ true → All (◌≡ false) (subsets.mask s)
  pub transform_shrink_mask :
      (s t : X.Subset)
      → length (subsets.mask s) ≡ length (subsets.mask t)
      → subsets.mask (X.transform_shrink s t) ≡ unmarked (subsets.mask t) (subsets.mask s)
  pub transform_union_mask :
      (s t : X.Subset)
      → length (subsets.mask s) ≡ count_unmarked (subsets.mask t)
      → subsets.mask (X.transform_union s t) ≡ union_behind (subsets.mask s) (subsets.mask t)
  -- "Do a coordinate transformation on an insert-only delta": it inserts the same into the text
  -- with the marked bytes too.
  pub insert_expand :
      (d : X.Delta) (s : X.Subset) (whole : Rope)
      → length (subsets.mask s) ≡ length whole
      → X.base_len d ≡ length (unmarked (subsets.mask s) whole)
      → let ins = (X.factor d).0 in
        let expanded = X.insert_transform_expand ins s true in
        let new = subsets.mask (X.inserted_subset expanded) in
        let text = X.apply_insert expanded whole in
        (length new ≡ length text)
        × (unmarked new text ≡ whole)
        × (unmarked (expand (subsets.mask s) new) text
            ≡ X.apply_insert ins (unmarked (subsets.mask s) whole))
        × (unmarked (expand (subsets.mask s) new) new ≡ subsets.mask (X.inserted_subset ins))
