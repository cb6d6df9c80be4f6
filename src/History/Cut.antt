-- ===== src/History/Cut.antt =====
-- An edit by its marks on one text, and two such edits as one.
use teehee.Common.{◌≡◌, List, sym, ap, ◌∙◌, Bool, not, map, length}
use teehee.Rope.{Rope, XiRope}
use teehee.Rope.Subset.{unmarked, expand, either, union_behind, count_unmarked}
use teehee.Rope.Subset.Expand.{
  length-unmarked, length-expand, length-either, unmarked-either, unmarked-either-expand, Apart,
  Apart-expand, Apart-either, picked-Apart, unmarked-inserts, unmarked-deletes,
}
use teehee.Rope.Laws.{SubsetLaws}

-- An edit by its marks on the text with both what it inserts and what it deletes.
pub record Cut (ins del : List Bool) (whole before after : Rope) : Type 0 where
  pub ins_length : length ins ≡ length whole
  pub del_length : length del ≡ length whole
  pub begins : unmarked ins whole ≡ before
  pub ends : unmarked del whole ≡ after
  pub apart : Apart del ins

pub factor-Cut :
    {X : XiRope} (laws : SubsetLaws X) (d : X.Delta) (base : Rope)
    → X.base_len d ≡ length base
    → let ins = X.inserted_subset (X.factor d).0 in
      (laws.mask (X.transform_expand (X.factor d).1 ins)
        ≡ expand (laws.mask (X.factor d).1) (laws.mask ins))
      × Cut
          (laws.mask ins)
          (expand (laws.mask (X.factor d).1) (laws.mask ins))
          (X.apply_insert (X.factor d).0 base)
          base
          (X.apply d base)
factor-Cut {X} laws d base fits =
    let (i_length, i_base, d_length) = laws.factor_insert d base fits in
    let ins : X.Subset = X.inserted_subset (X.factor d).0 in
    let count : length (laws.mask (X.factor d).1) ≡ count_unmarked (laws.mask ins) =
      d_length ∙ sym (ap length i_base) ∙ length-unmarked (laws.mask ins) _ i_length in
    (
      laws.transform_expand_mask (X.factor d).1 ins count,
      record {
        ins_length = i_length;
        del_length = length-expand (laws.mask (X.factor d).1) (laws.mask ins) ∙ i_length;
        begins = i_base;
        ends = sym (laws.factor_delete d base fits);
        apart = Apart-expand (laws.mask (X.factor d).1) (laws.mask ins);
      },
    )

-- A second insertion `new` and a second deletion `later`, in the whole text.
pub record Joined (ins del new later : List Bool) (text before final : Rope) : Type 0 where
  pub ins_length : length (either (expand ins new) new) ≡ length text
  pub del_length : length (either (expand del new) (expand (expand later del) new)) ≡ length text
  pub begins : unmarked (either (expand ins new) new) text ≡ before
  pub ends : unmarked (either (expand del new) (expand (expand later del) new)) text ≡ final
  pub tombstones :
      unmarked (map not (either (expand ins new) new)) text
      ≡ unmarked
          (map not (union_behind (unmarked del ins) (unmarked (expand del new) new)))
          (unmarked (expand del new) text)

pub join :
    {ins del : List Bool} {whole before after : Rope} (new later : List Bool) (text : Rope)
    → Cut ins del whole before after
    → length new ≡ length text
    → unmarked new text ≡ whole
    → Joined ins del new later text before
        (unmarked (expand later (unmarked (expand del new) new)) (unmarked (expand del new) text))
join {ins} {del} {whole} new later text c n_length n_whole =
    let total : length whole ≡ count_unmarked new =
      sym (ap length n_whole) ∙ length-unmarked new text n_length in
    let di : length del ≡ count_unmarked new = c.del_length ∙ total in
    let ii : length ins ≡ count_unmarked new = c.ins_length ∙ total in
    let i_length : length (either (expand ins new) new) ≡ length new =
      length-either (expand ins new) new (length-expand ins new) ∙ length-expand ins new in
    let both : length (expand del new) ≡ length (expand (expand later del) new) =
      length-expand del new ∙ sym (length-expand (expand later del) new) in
    record {
      ins_length = i_length ∙ n_length;
      del_length = length-either (expand del new) _ both ∙ length-expand del new ∙ n_length;
      begins = unmarked-either-expand ins new text ii ∙ ap (unmarked ins) n_whole ∙ c.begins;
      ends =
          unmarked-either (expand del new) (expand (expand later del) new) text both
          ∙ ap (λ m. unmarked m (unmarked (expand del new) text))
              (unmarked-deletes later del new di);
      tombstones =
          picked-Apart (expand del new) (either (expand ins new) new) text
            (Apart-either del ins new c.apart (di ∙ sym ii)) (length-expand del new ∙ sym i_length)
          ∙ ap (λ m. unmarked (map not m) (unmarked (expand del new) text))
              (unmarked-inserts del ins new di ii);
    }
