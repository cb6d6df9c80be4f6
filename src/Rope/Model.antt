-- ===== src/Rope/Model.antt =====
-- A small model of the deltas of xi-rope, which shows that the laws can hold: a delta as the list
-- of what becomes of each byte, a subset as the list of its marks.
pub mod Deltas
pub mod Subsets
pub mod Chains
use Prim.Native.Nat.{min as cmp_min}
use teehee.Common.{
  ℕ, zero, suc, ◌+◌, ◌-◌, Bool, true, false, not, ◌&&◌, ◌||◌, Option, none, some, List, [], ◌∷◌,
  ◌++◌, map, leb, if◌then◌else◌, replicate,
}
use teehee.Rope.{Rope, XiRope}
use teehee.Rope.Script.{Call, start_of, end_of, text_of}
use teehee.Rope.Subset.{unmarked, expand, either, union_behind}

pub data Piece : Type 0 where
  copy skip : Piece
  add : ℕ → Piece

abbrev pub apply : List Piece → Rope → Rope
apply [] base = []
apply (copy ∷ ps) [] = apply ps []
apply (copy ∷ ps) (b ∷ bs) = b ∷ apply ps bs
apply (skip ∷ ps) [] = apply ps []
apply (skip ∷ ps) (b ∷ bs) = apply ps bs
apply (add c ∷ ps) base = c ∷ apply ps base

abbrev pub base_len : List Piece → ℕ
base_len [] = 0
base_len (copy ∷ ps) = suc (base_len ps)
base_len (skip ∷ ps) = suc (base_len ps)
base_len (add c ∷ ps) = base_len ps

abbrev pub new_len : List Piece → ℕ
new_len [] = 0
new_len (copy ∷ ps) = suc (new_len ps)
new_len (skip ∷ ps) = new_len ps
new_len (add c ∷ ps) = suc (new_len ps)

-- Where an offset goes: behind what is inserted at it.
abbrev pub transform : List Piece → ℕ → ℕ
transform [] i = i
transform (copy ∷ ps) zero = 0
transform (copy ∷ ps) (suc i) = suc (transform ps i)
transform (skip ∷ ps) zero = 0
transform (skip ∷ ps) (suc i) = transform ps i
transform (add c ∷ ps) i = suc (transform ps i)

-- An insertion on its own: `none` keeps the next byte.
abbrev pub insertions : List Piece → List (Option ℕ)
insertions [] = []
insertions (copy ∷ ps) = none ∷ insertions ps
insertions (skip ∷ ps) = none ∷ insertions ps
insertions (add c ∷ ps) = some c ∷ insertions ps

abbrev pub deletions : List Piece → List Bool
deletions [] = []
deletions (copy ∷ ps) = false ∷ deletions ps
deletions (skip ∷ ps) = true ∷ deletions ps
deletions (add c ∷ ps) = deletions ps

abbrev pub apply_insert : List (Option ℕ) → Rope → Rope
apply_insert [] base = []
apply_insert (none ∷ is) [] = apply_insert is []
apply_insert (none ∷ is) (b ∷ bs) = b ∷ apply_insert is bs
apply_insert (some c ∷ is) base = c ∷ apply_insert is base

abbrev pub inserted : List (Option ℕ) → List Bool
inserted [] = []
inserted (none ∷ is) = false ∷ inserted is
inserted (some c ∷ is) = true ∷ inserted is

-- The same insertion into a text with the marked bytes too, behind them.
abbrev pub expand_insert : List (Option ℕ) → List Bool → List (Option ℕ)
expand_insert is (true ∷ ms) = none ∷ expand_insert is ms
expand_insert (some c ∷ is) [] = some c ∷ expand_insert is []
expand_insert (some c ∷ is) (false ∷ ms) = some c ∷ expand_insert is (false ∷ ms)
expand_insert (none ∷ is) (false ∷ ms) = none ∷ expand_insert is ms
expand_insert (none ∷ is) [] = expand_insert is []
expand_insert [] (false ∷ ms) = none ∷ expand_insert [] ms
expand_insert [] [] = []

-- From the text without `from` to the one without `to`; `tombstones` are the bytes of `from`.
abbrev pub synthesize : Rope → List Bool → List Bool → List Piece
synthesize tombstones [] to = []
synthesize tombstones (m ∷ from) [] = []
synthesize tombstones (false ∷ from) (false ∷ to) = copy ∷ synthesize tombstones from to
synthesize tombstones (false ∷ from) (true ∷ to) = skip ∷ synthesize tombstones from to
synthesize [] (true ∷ from) (t ∷ to) = synthesize [] from to
synthesize (c ∷ tombstones) (true ∷ from) (false ∷ to) = add c ∷ synthesize tombstones from to
synthesize (c ∷ tombstones) (true ∷ from) (true ∷ to) = synthesize tombstones from to

-- The calls so far, and where the last of them ends.
pub record DeltaBuilder : Type 0 where
  pub size : ℕ
  pub pos : ℕ
  pub done : List Call

abbrev pub add_call : DeltaBuilder → Call → Option DeltaBuilder
add_call b c =
    if leb b.pos (start_of c) && leb (start_of c) (end_of c) && leb (start_of c) b.size
    then some (record { size = b.size; pos = end_of c; done = b.done ++ (c ∷ []) })
    else none

abbrev pub pieces : ℕ → ℕ → List Call → List Piece
pieces size pos [] = replicate (size - pos) copy
pieces size pos (c ∷ cs) =
    replicate (start_of c - pos) copy
    ++ (map add (text_of c)
        ++ (replicate (cmp_min (end_of c) size - start_of c) skip ++ pieces size (end_of c) cs))

abbrev pub all_unmarked : List Bool → Bool
all_unmarked [] = true
all_unmarked (m ∷ ms) = not m && all_unmarked ms

abbrev pub model : XiRope
model = record {
  Delta = List Piece;
  InsertDelta = List (Option ℕ);
  Subset = List Bool;
  DeltaBuilder = DeltaBuilder;
  builder = λ size. record { size = size; pos = 0; done = [] };
  delete = λ b start end. add_call b (Call.delete start end);
  replace = λ b start end text. add_call b (Call.replace start end text);
  build = λ b. pieces b.size 0 b.done;
  base_len = base_len;
  new_document_len = new_len;
  apply = apply;
  transform = λ d i after. transform d i;
  factor = λ d. (insertions d, deletions d);
  synthesize = synthesize;
  inserted_subset = inserted;
  apply_insert = apply_insert;
  insert_transform_expand = λ is s after. expand_insert is s;
  subset_is_empty = all_unmarked;
  complement = λ s. map not s;
  union = either;
  transform_expand = expand;
  transform_shrink = λ s other. unmarked other s;
  transform_union = union_behind;
  delete_from = λ s text. unmarked s text;
}
