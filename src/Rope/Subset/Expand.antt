-- ===== src/Rope/Subset/Expand.antt =====
-- How marks on a text and on a part of it fit together.
use teehee.Common.{
  ℕ, suc, ◌≡◌, refl, sym, ap, ◌∙◌, Bool, true, false, not, ◌&&◌, List, [], ◌∷◌, map, length, All,
  arith,
}
use teehee.Rope.{Rope}
use teehee.Rope.Subset.{unmarked, expand, either, union_behind, count_unmarked}

pub length-unmarked {ℓ} :
    {A : Type ℓ} (ms : List Bool) (xs : List A)
    → length ms ≡ length xs
    → length (unmarked ms xs) ≡ count_unmarked ms
length-unmarked [] xs h = refl
length-unmarked (m ∷ ms) [] h = absurd (omega arith)
length-unmarked (true ∷ ms) (x ∷ xs) h = length-unmarked ms xs (omega arith)
length-unmarked (false ∷ ms) (x ∷ xs) h = ap suc (length-unmarked ms xs (omega arith))

pub length-expand : (ms other : List Bool) → length (expand ms other) ≡ length other
length-expand ms [] = refl
length-expand ms (true ∷ other) = ap suc (length-expand ms other)
length-expand [] (false ∷ other) = ap suc (length-expand [] other)
length-expand (m ∷ ms) (false ∷ other) = ap suc (length-expand ms other)

pub length-map-not : (ms : List Bool) → length (map not ms) ≡ length ms
length-map-not [] = refl
length-map-not (m ∷ ms) = ap suc (length-map-not ms)

pub unmarked-nil : (ms : List Bool) → unmarked {A = ℕ} ms [] ≡ []
unmarked-nil [] = refl
unmarked-nil (m ∷ ms) = refl

-- What the marks pick from the shorter text, the expanded marks pick from the whole one.
pub unmarked-expand :
    (ms other : List Bool) (xs : Rope)
    → unmarked (map not (expand ms other)) xs ≡ unmarked (map not ms) (unmarked other xs)
unmarked-expand ms other [] =
    unmarked-nil (map not (expand ms other))
    ∙ sym (ap (unmarked (map not ms)) (unmarked-nil other) ∙ unmarked-nil (map not ms))
unmarked-expand [] [] (x ∷ xs) = refl
unmarked-expand (m ∷ ms) [] (x ∷ xs) = sym (unmarked-nil (map not (m ∷ ms)))
unmarked-expand ms (true ∷ other) (x ∷ xs) = unmarked-expand ms other xs
unmarked-expand [] (false ∷ other) (x ∷ xs) = unmarked-expand [] other xs
unmarked-expand (true ∷ ms) (false ∷ other) (x ∷ xs) = ap (x ∷◌) (unmarked-expand ms other xs)
unmarked-expand (false ∷ ms) (false ∷ other) (x ∷ xs) = unmarked-expand ms other xs

-- Marks that are empty leave the others as they are.
pub expand-unmarked :
    (ms other : List Bool)
    → All (◌≡ false) other
    → length ms ≡ count_unmarked other
    → expand ms other ≡ ms
expand-unmarked [] [] h e = refl
expand-unmarked (m ∷ ms) [] h e = absurd (omega arith)
expand-unmarked ms (true ∷ other) (h, hs) e = cc
expand-unmarked [] (false ∷ other) h e = absurd (omega arith)
expand-unmarked (m ∷ ms) (false ∷ other) (h, hs) e =
    ap (m ∷◌) (expand-unmarked ms other hs (omega arith))

pub length-either :
    (ms other : List Bool) → length ms ≡ length other → length (either ms other) ≡ length ms
length-either [] other e = refl
length-either (m ∷ ms) [] e = absurd (omega arith)
length-either (m ∷ ms) (o ∷ other) e = ap suc (length-either ms other (omega arith))

pub length-union_behind : (ms other : List Bool) → length (union_behind ms other) ≡ length other
length-union_behind ms [] = refl
length-union_behind ms (true ∷ other) = ap suc (length-union_behind ms other)
length-union_behind [] (false ∷ other) = ap suc (length-union_behind [] other)
length-union_behind (m ∷ ms) (false ∷ other) = ap suc (length-union_behind ms other)

-- One deletion after the other.
pub unmarked-either :
    (ms other : List Bool) (xs : Rope)
    → length ms ≡ length other
    → unmarked (either ms other) xs ≡ unmarked (unmarked ms other) (unmarked ms xs)
unmarked-either ms other [] e =
    unmarked-nil (either ms other)
    ∙ sym (ap (unmarked (unmarked ms other)) (unmarked-nil ms) ∙ unmarked-nil (unmarked ms other))
unmarked-either [] other (x ∷ xs) e = refl
unmarked-either (m ∷ ms) [] (x ∷ xs) e = absurd (omega arith)
unmarked-either (true ∷ ms) (o ∷ other) (x ∷ xs) e = unmarked-either ms other xs (omega arith)
unmarked-either (false ∷ ms) (true ∷ other) (x ∷ xs) e = unmarked-either ms other xs (omega arith)
unmarked-either (false ∷ ms) (false ∷ other) (x ∷ xs) e =
    ap (x ∷◌) (unmarked-either ms other xs (omega arith))

pub unmarked-either-expand :
    (ms new : List Bool) (xs : Rope)
    → length ms ≡ count_unmarked new
    → unmarked (either (expand ms new) new) xs ≡ unmarked ms (unmarked new xs)
unmarked-either-expand ms new [] e =
    unmarked-nil (either (expand ms new) new)
    ∙ sym (ap (unmarked ms) (unmarked-nil new) ∙ unmarked-nil ms)
unmarked-either-expand [] [] (x ∷ xs) e = refl
unmarked-either-expand (m ∷ ms) [] (x ∷ xs) e = absurd (omega arith)
unmarked-either-expand ms (true ∷ new) (x ∷ xs) e = unmarked-either-expand ms new xs e
unmarked-either-expand [] (false ∷ new) (x ∷ xs) e = absurd (omega arith)
unmarked-either-expand (true ∷ ms) (false ∷ new) (x ∷ xs) e =
    unmarked-either-expand ms new xs (omega arith)
unmarked-either-expand (false ∷ ms) (false ∷ new) (x ∷ xs) e =
    ap (x ∷◌) (unmarked-either-expand ms new xs (omega arith))

-- No place has both marks.
abbrev pub Apart : List Bool → List Bool → Type 0
Apart [] other = Unit
Apart (m ∷ ms) [] = Unit
Apart (m ∷ ms) (o ∷ other) = ((m && o) ≡ false) × Apart ms other

pub Apart-expand : (ms other : List Bool) → Apart (expand ms other) other
Apart-expand ms [] = tt
Apart-expand ms (true ∷ other) = (refl, Apart-expand ms other)
Apart-expand [] (false ∷ other) = (refl, Apart-expand [] other)
Apart-expand (true ∷ ms) (false ∷ other) = (refl, Apart-expand ms other)
Apart-expand (false ∷ ms) (false ∷ other) = (refl, Apart-expand ms other)

pub Apart-either :
    (ms other new : List Bool)
    → Apart ms other
    → length ms ≡ length other
    → Apart (expand ms new) (either (expand other new) new)
Apart-either ms other [] h e = tt
Apart-either ms other (true ∷ new) h e = (refl, Apart-either ms other new h e)
Apart-either [] [] (false ∷ new) h e = (refl, Apart-either [] [] new h e)
Apart-either [] (o ∷ other) (false ∷ new) h e = absurd (omega arith)
Apart-either (m ∷ ms) [] (false ∷ new) h e = absurd (omega arith)
Apart-either (m ∷ ms) (true ∷ other) (false ∷ new) (h, hs) e =
    (h, Apart-either ms other new hs (omega arith))
Apart-either (m ∷ ms) (false ∷ other) (false ∷ new) (h, hs) e =
    (h, Apart-either ms other new hs (omega arith))

-- What one set of marks picks is there without what the other marks.
pub picked-Apart :
    (ms other : List Bool) (xs : Rope)
    → Apart ms other
    → length ms ≡ length other
    → unmarked (map not other) xs ≡ unmarked (map not (unmarked ms other)) (unmarked ms xs)
picked-Apart ms other [] h e =
    unmarked-nil (map not other)
    ∙ sym (
        ap (unmarked (map not (unmarked ms other))) (unmarked-nil ms)
        ∙ unmarked-nil (map not (unmarked ms other)))
picked-Apart [] [] (x ∷ xs) h e = refl
picked-Apart [] (o ∷ other) (x ∷ xs) h e = absurd (omega arith)
picked-Apart (m ∷ ms) [] (x ∷ xs) h e = absurd (omega arith)
picked-Apart (true ∷ ms) (true ∷ other) (x ∷ xs) (h, hs) e = cc
picked-Apart (true ∷ ms) (false ∷ other) (x ∷ xs) (h, hs) e =
    picked-Apart ms other xs hs (omega arith)
picked-Apart (false ∷ ms) (true ∷ other) (x ∷ xs) (h, hs) e =
    ap (x ∷◌) (picked-Apart ms other xs hs (omega arith))
picked-Apart (false ∷ ms) (false ∷ other) (x ∷ xs) (h, hs) e =
    picked-Apart ms other xs hs (omega arith)

-- The marks of two insertions, in the text between the deletions.
pub unmarked-inserts :
    (del ins new : List Bool)
    → length del ≡ count_unmarked new
    → length ins ≡ count_unmarked new
    → unmarked (expand del new) (either (expand ins new) new)
      ≡ union_behind (unmarked del ins) (unmarked (expand del new) new)
unmarked-inserts del ins [] p q = refl
unmarked-inserts del ins (true ∷ new) p q = ap (true ∷◌) (unmarked-inserts del ins new p q)
unmarked-inserts [] ins (false ∷ new) p q = absurd (omega arith)
unmarked-inserts (d ∷ del) [] (false ∷ new) p q = absurd (omega arith)
unmarked-inserts (true ∷ del) (true ∷ ins) (false ∷ new) p q =
    unmarked-inserts del ins new (omega arith) (omega arith)
unmarked-inserts (true ∷ del) (false ∷ ins) (false ∷ new) p q =
    unmarked-inserts del ins new (omega arith) (omega arith)
unmarked-inserts (false ∷ del) (true ∷ ins) (false ∷ new) p q =
    ap (true ∷◌) (unmarked-inserts del ins new (omega arith) (omega arith))
unmarked-inserts (false ∷ del) (false ∷ ins) (false ∷ new) p q =
    ap (false ∷◌) (unmarked-inserts del ins new (omega arith) (omega arith))

-- The marks of a second deletion, in the text after the first.
pub unmarked-deletes :
    (later del new : List Bool)
    → length del ≡ count_unmarked new
    → unmarked (expand del new) (expand (expand later del) new)
      ≡ expand later (unmarked (expand del new) new)
unmarked-deletes later del [] p = refl
unmarked-deletes later del (true ∷ new) p = ap (false ∷◌) (unmarked-deletes later del new p)
unmarked-deletes later [] (false ∷ new) p = absurd (omega arith)
unmarked-deletes later (true ∷ del) (false ∷ new) p = unmarked-deletes later del new (omega arith)
unmarked-deletes [] (false ∷ del) (false ∷ new) p =
    ap (false ∷◌) (unmarked-deletes [] del new (omega arith))
unmarked-deletes (m ∷ later) (false ∷ del) (false ∷ new) p =
    ap (m ∷◌) (unmarked-deletes later del new (omega arith))
