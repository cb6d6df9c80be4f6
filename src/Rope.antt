-- ===== src/Rope.antt =====
-- src/byte_rope.rs and the part of the xi-rope crate that the program calls. A `Rope` is the
-- sequence of its bytes. The crate's deltas, subsets and builders are parameters of the model.
pub mod Laws
pub mod Subset
pub mod Script
pub mod Model
pub mod Leaves
use teehee.Common.{ℕ, Bool, Option, List, length, ◌==◌}

abbrev pub Rope : Type 0
Rope = List ℕ

unfoldable pub len : Rope → ℕ
len rope = length rope

unfoldable pub is_empty : Rope → Bool
is_empty rope = length rope == 0

-- The crate's types and functions. `delete` and `replace` panic on intervals that are not sorted.
pub record XiRope : Type 1 where
  pub Delta : Type 0
  pub InsertDelta : Type 0
  pub Subset : Type 0
  pub DeltaBuilder : Type 0
  -- `DeltaBuilder`
  pub builder : ℕ → DeltaBuilder
  pub delete : DeltaBuilder → ℕ → ℕ → Option DeltaBuilder
  pub replace : DeltaBuilder → ℕ → ℕ → Rope → Option DeltaBuilder
  pub build : DeltaBuilder → Delta
  -- `Delta` and `Transformer`
  pub base_len : Delta → ℕ
  pub new_document_len : Delta → ℕ
  pub apply : Delta → Rope → Rope
  pub transform : Delta → ℕ → Bool → ℕ
  pub factor : Delta → InsertDelta × Subset
  pub synthesize : Rope → Subset → Subset → Delta
  -- `InsertDelta`
  pub inserted_subset : InsertDelta → Subset
  pub apply_insert : InsertDelta → Rope → Rope
  pub insert_transform_expand : InsertDelta → Subset → Bool → InsertDelta
  -- `Subset`
  pub subset_is_empty : Subset → Bool
  pub complement : Subset → Subset
  pub union : Subset → Subset → Subset
  pub transform_expand : Subset → Subset → Subset
  pub transform_shrink : Subset → Subset → Subset
  pub transform_union : Subset → Subset → Subset
  pub delete_from : Subset → Rope → Rope
