-- ===== src/Rope/Leaves.antt =====
-- src/byte_rope.rs: the leaves of the tree that xi-rope keeps, the pieces that a new rope is built
-- from, and the bytes of the chunks that a cursor gives. `none` of an outer `Option` is a panic.
pub mod Pieces
use teehee.Common.{
  ℕ, zero, suc, ◌+◌, ◌-◌, ◌<◌, ◌≤◌, ◌≡◌, refl, ap, ◌∙◌, Bool, true, false, ◌&&◌, Option, none, some,
  List, [], ◌∷◌, ◌++◌, length, take, drop, ltb, leb, ◌==◌, if◌then◌else◌, inl, inr, Bool-cases, All,
  arith, length-take, length-drop, take-append-drop,
}

abbrev pub min_leaf : ℕ
min_leaf = 511

abbrev pub max_leaf : ℕ
max_leaf = 1024

abbrev pub Bytes : Type 0
Bytes = List ℕ

abbrev pub is_ok_child : Bytes → Bool
is_ok_child bytes = leb min_leaf (length bytes)

-- What is left in the leaf, and the leaf that is split off.
abbrev split_leaf : Bytes → Bytes × Option Bytes
split_leaf bytes =
    if leb (length bytes) max_leaf
    then (bytes, none)
    else (take max_leaf bytes, some (drop max_leaf bytes))

-- With the bytes of `other` from `start` to `end`.
unfoldable pub push_maybe_split : Bytes → Bytes → ℕ → ℕ → Option (Bytes × Option Bytes)
push_maybe_split bytes other start end =
    if leb start end && leb end (length other)
    then some (split_leaf (bytes ++ take (end - start) (drop start other)))
    else none

-- `BaseMetric`
abbrev pub prev : ℕ → Option ℕ
prev zero = none
prev (suc o) = some o

abbrev pub next : Bytes → ℕ → Option ℕ
next b offset = if offset == length b then none else some (suc offset)

-- `From<Vec<u8>>`: the leaves that are pushed, with fuel for each byte.
unfoldable pub leaves_of : ℕ → Bytes → List Bytes
leaves_of zero source = []
leaves_of (suc fuel) [] = []
leaves_of (suc fuel) (b ∷ source) =
    take max_leaf (b ∷ source) ∷ leaves_of fuel (drop max_leaf (b ∷ source))

unfoldable pub from_vec : Bytes → List Bytes
from_vec [] = []
from_vec (b ∷ vec) =
    if leb (length (b ∷ vec)) max_leaf
    then (b ∷ vec) ∷ []
    else leaves_of (length (b ∷ vec)) (b ∷ vec)

-- `extend_from_slice` of the chunks that are left.
abbrev pub concat : Bytes → List Bytes → Bytes
concat result [] = result
concat result (chunk ∷ chunks) = concat (result ++ chunk) chunks

-- `slice_to_cow`, of the chunks of its range.
unfoldable pub slice_to_cow : List Bytes → Bytes
slice_to_cow [] = []
slice_to_cow (b ∷ []) = b
slice_to_cow (one ∷ two ∷ chunks) = concat (one ++ two) chunks

-- `From<&Rope> for Vec<u8>`, of all chunks.
unfoldable pub to_vec : List Bytes → Bytes
to_vec chunks = concat [] chunks
