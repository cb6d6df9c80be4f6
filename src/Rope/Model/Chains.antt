-- ===== src/Rope/Model/Chains.antt =====
-- The laws of chains hold in the model.
use teehee.Common.{
  ℕ, suc, ◌≡◌, refl, sym, ap, ◌∙◌, true, false, Option, none, some, List, [], ◌∷◌, Bool, length,
  All, arith,
}
use teehee.Rope.{Rope}
use teehee.Rope.Subset.{unmarked, expand, count_unmarked}
use teehee.Rope.Subset.Expand.{length-unmarked}
use teehee.Rope.Laws.{ChainLaws}
use teehee.Rope.Model.{
  Piece, base_len, model, inserted, insertions, apply_insert, expand_insert, all_unmarked,
}
use teehee.Rope.Model.Subsets.{subset_laws, insertions-base}

all_unmarked-All : (s : List Bool) → all_unmarked s ≡ true → All (◌≡ false) s
all_unmarked-All [] e = tt
all_unmarked-All (true ∷ s) e = absurd (cc)
all_unmarked-All (false ∷ s) e = (refl, all_unmarked-All s e)

abbrev Expands : List (Option ℕ) → List Bool → Rope → Type 0
Expands is ms whole =
    let new = inserted (expand_insert is ms) in
    let text = apply_insert (expand_insert is ms) whole in
    (length new ≡ length text)
    × (unmarked new text ≡ whole)
    × (unmarked (expand ms new) text ≡ apply_insert is (unmarked ms whole))
    × (unmarked (expand ms new) new ≡ inserted is)

expand_insert-Expands :
    (is : List (Option ℕ)) (ms : List Bool) (whole : Rope)
    → length ms ≡ length whole
    → count_unmarked (inserted is) ≡ count_unmarked ms
    → Expands is ms whole
expand_insert-Expands is (true ∷ ms) [] h k = absurd (omega arith)
expand_insert-Expands is (true ∷ ms) (x ∷ xs) h k =
    let (p, q, r, s) = expand_insert-Expands is ms xs (omega arith) k in
    (ap suc p, ap (x ∷◌) q, r, s)
expand_insert-Expands (some c ∷ is) [] whole h k =
    let (p, q, r, s) = expand_insert-Expands is [] whole h k in
    (ap suc p, q, ap (c ∷◌) r, ap (true ∷◌) s)
expand_insert-Expands (some c ∷ is) (false ∷ ms) whole h k =
    let (p, q, r, s) = expand_insert-Expands is (false ∷ ms) whole h k in
    (ap suc p, q, ap (c ∷◌) r, ap (true ∷◌) s)
expand_insert-Expands (none ∷ is) (false ∷ ms) [] h k = absurd (omega arith)
expand_insert-Expands (none ∷ is) (false ∷ ms) (x ∷ xs) h k =
    let (p, q, r, s) = expand_insert-Expands is ms xs (omega arith) (omega arith) in
    (ap suc p, ap (x ∷◌) q, ap (x ∷◌) r, ap (false ∷◌) s)
expand_insert-Expands (none ∷ is) [] whole h k = absurd (omega arith)
expand_insert-Expands [] (false ∷ ms) whole h k = absurd (omega arith)
expand_insert-Expands [] [] [] h k = (refl, refl, refl, refl)
expand_insert-Expands [] [] (x ∷ xs) h k = absurd (omega arith)

count-insertions :
    (d : List Piece) (base : Rope)
    → base_len d ≡ length base
    → count_unmarked (inserted (insertions d)) ≡ length base
count-insertions d base h =
    let (p, q, r) = insertions-base d base h in
    sym (length-unmarked (inserted (insertions d)) _ p) ∙ ap length q

pub model-ChainLaws : ChainLaws model
model-ChainLaws = record {
  subsets = subset_laws;
  union_mask = λ s t h. refl;
  is_empty_mask = λ s e. all_unmarked-All s e;
  transform_shrink_mask = λ s t h. refl;
  transform_union_mask = λ s t h. refl;
  insert_expand = λ d s whole h fits.
      expand_insert-Expands (insertions d) s whole h
        (count-insertions d (unmarked s whole) fits ∙ length-unmarked s whole h);
}
