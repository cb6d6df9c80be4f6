-- ===== src/Rope/Subset.antt =====
-- What a subset of the offsets of a text means: one mark for each offset.
pub mod Expand
use teehee.Common.{ℕ, suc, Bool, true, false, ◌||◌, List, [], ◌∷◌}

-- The text without what is marked.
abbrev pub unmarked {ℓ} : {A : Type ℓ} → List Bool → List A → List A
unmarked [] xs = []
unmarked (m ∷ ms) [] = []
unmarked (true ∷ ms) (x ∷ xs) = unmarked ms xs
unmarked (false ∷ ms) (x ∷ xs) = x ∷ unmarked ms xs

-- The marks on what `other` leaves, carried to the whole text, where what `other` marks is not.
abbrev pub expand : List Bool → List Bool → List Bool
expand ms [] = []
expand ms (true ∷ other) = false ∷ expand ms other
expand [] (false ∷ other) = false ∷ expand [] other
expand (m ∷ ms) (false ∷ other) = m ∷ expand ms other

abbrev pub either : List Bool → List Bool → List Bool
either [] other = []
either (m ∷ ms) [] = []
either (m ∷ ms) (o ∷ other) = (m || o) ∷ either ms other

-- `ms` marks the text without the bytes that `other` marks.
abbrev pub union_behind : List Bool → List Bool → List Bool
union_behind ms [] = []
union_behind ms (true ∷ other) = true ∷ union_behind ms other
union_behind [] (false ∷ other) = false ∷ union_behind [] other
union_behind (m ∷ ms) (false ∷ other) = m ∷ union_behind ms other

abbrev pub count_unmarked : List Bool → ℕ
count_unmarked [] = 0
count_unmarked (true ∷ ms) = count_unmarked ms
count_unmarked (false ∷ ms) = suc (count_unmarked ms)
