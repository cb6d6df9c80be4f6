-- ===== src/Rope/Model/Subsets.antt =====
-- The laws of subsets hold in the model.
use teehee.Common.{suc, ◌≡◌, refl, ap, true, false, not, List, [], ◌∷◌, map, Bool, length, arith}
use teehee.Rope.{Rope}
use teehee.Rope.Subset.{unmarked, expand, count_unmarked}
use teehee.Rope.Laws.{SubsetLaws}
use teehee.Rope.Model.{
  Piece, copy, skip, add, model, apply, base_len, insertions, deletions, inserted, apply_insert,
  synthesize,
}

pub insertions-base :
    (d : List Piece) (base : Rope)
    → base_len d ≡ length base
    → (length (inserted (insertions d)) ≡ length (apply_insert (insertions d) base))
      × (unmarked (inserted (insertions d)) (apply_insert (insertions d) base) ≡ base)
      × (length (deletions d) ≡ length base)
insertions-base [] [] h = (refl, refl, refl)
insertions-base [] (b ∷ bs) h = absurd (omega arith)
insertions-base (copy ∷ ps) [] h = absurd (omega arith)
insertions-base (copy ∷ ps) (b ∷ bs) h =
    let (p, q, r) = insertions-base ps bs (omega arith) in (ap suc p, ap (b ∷◌) q, ap suc r)
insertions-base (skip ∷ ps) [] h = absurd (omega arith)
insertions-base (skip ∷ ps) (b ∷ bs) h =
    let (p, q, r) = insertions-base ps bs (omega arith) in (ap suc p, ap (b ∷◌) q, ap suc r)
insertions-base (add c ∷ ps) base h = let (p, q, r) = insertions-base ps base h in (ap suc p, q, r)

pub apply-insertions :
    (d : List Piece) (base : Rope)
    → base_len d ≡ length base
    → apply d base
      ≡ unmarked (expand (deletions d) (inserted (insertions d))) (apply_insert (insertions d) base)
apply-insertions [] base h = refl
apply-insertions (copy ∷ ps) [] h = absurd (omega arith)
apply-insertions (copy ∷ ps) (b ∷ bs) h = ap (b ∷◌) (apply-insertions ps bs (omega arith))
apply-insertions (skip ∷ ps) [] h = absurd (omega arith)
apply-insertions (skip ∷ ps) (b ∷ bs) h = apply-insertions ps bs (omega arith)
apply-insertions (add c ∷ ps) base h = added (deletions ps) (apply-insertions ps base h)
  where
    added :
        (ms : List Bool)
        → apply ps base
          ≡ unmarked (expand ms (inserted (insertions ps))) (apply_insert (insertions ps) base)
        → c ∷ apply ps base
          ≡ unmarked
              (expand ms (true ∷ inserted (insertions ps)))
              (c ∷ apply_insert (insertions ps) base)
    added [] e = ap (c ∷◌) e
    added (m ∷ ms) e = ap (c ∷◌) e

pub synthesize-unmarked :
    (union : Rope) (from to : List Bool)
    → length from ≡ length union
    → length to ≡ length union
    → let d = synthesize (unmarked (map not from) union) from to in
      (base_len d ≡ count_unmarked from) × (apply d (unmarked from union) ≡ unmarked to union)
synthesize-unmarked [] [] [] h k = (refl, refl)
synthesize-unmarked [] [] (t ∷ to) h k = absurd (omega arith)
synthesize-unmarked [] (m ∷ from) to h k = absurd (omega arith)
synthesize-unmarked (b ∷ bs) [] to h k = absurd (omega arith)
synthesize-unmarked (b ∷ bs) (m ∷ from) [] h k = absurd (omega arith)
synthesize-unmarked (b ∷ bs) (false ∷ from) (false ∷ to) h k =
    let (p, q) = synthesize-unmarked bs from to (omega arith) (omega arith) in
    (ap suc p, ap (b ∷◌) q)
synthesize-unmarked (b ∷ bs) (false ∷ from) (true ∷ to) h k =
    let (p, q) = synthesize-unmarked bs from to (omega arith) (omega arith) in (ap suc p, q)
synthesize-unmarked (b ∷ bs) (true ∷ from) (false ∷ to) h k =
    let (p, q) = synthesize-unmarked bs from to (omega arith) (omega arith) in (p, ap (b ∷◌) q)
synthesize-unmarked (b ∷ bs) (true ∷ from) (true ∷ to) h k =
    synthesize-unmarked bs from to (omega arith) (omega arith)

abbrev pub subset_laws : SubsetLaws model
subset_laws = record {
  mask = λ s. s;
  delete_from_mask = λ s text h. refl;
  complement_mask = λ s. refl;
  transform_expand_mask = λ s t h. refl;
  factor_insert = λ d base h. insertions-base d base h;
  factor_delete = λ d base h. apply-insertions d base h;
  synthesized = λ union tombstones from to h k e. rw e (synthesize-unmarked union from to h k);
}
