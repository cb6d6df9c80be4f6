-- ===== src/Region/Caret.antt =====
-- Where `simple_move` and `simple_extend` take the caret, against exact arithmetic.
use Prim.Native.Nat.{min as cmp_min}
use teehee.Common.{ℕ, ◌+◌, ◌-◌, ◌*◌, ◌≤◌, ◌<◌, ◌≡◌, ◌⊎◌, ◌%◌, usize_mod, isize_mod, arith}
use teehee.Region.{Direction, up, down, left, right, moved_caret, boundary_caret}

-- The arguments of a move, in the ranges where its casts and products are exact: a document has
-- less than 2 ^ 63 bytes, and a distance is below 2 ^ 63.
pub record Exact (size bytes_per_line count : ℕ) : Type 0 where
  pub size_lt : size < isize_mod
  pub line_lt : bytes_per_line < isize_mod
  pub count_lt : count < isize_mod
  pub distance_lt : bytes_per_line * count < isize_mod

-- The caret of a move in exact arithmetic, clamped to the document.
abbrev pub clamped_caret : ℕ → Direction → ℕ → ℕ → ℕ → ℕ
clamped_caret old up bytes_per_line max_size count = old - bytes_per_line * count
clamped_caret old down bytes_per_line max_size count =
    cmp_min max_size (old + bytes_per_line * count)
clamped_caret old left bytes_per_line max_size count = old - count
clamped_caret old right bytes_per_line max_size count = cmp_min max_size (old + count)

-- In each direction the caret that a move computes with casts, wrapping and saturation is the one
-- of exact arithmetic clamped to the document, where the document, the line, the count and their
-- product are below 2 ^ 63 and the old caret is in the document.
pub moved_caret-clamped :
    (old : ℕ) (direction : Direction) (bytes_per_line max_size count : ℕ)
    → Exact max_size bytes_per_line count
    → old ≤ max_size
    → moved_caret old direction bytes_per_line max_size count
      ≡ clamped_caret old direction bytes_per_line max_size count
unfolding moved_caret
moved_caret-clamped old up bytes_per_line max_size count e h = ground arith
moved_caret-clamped old down bytes_per_line max_size count e h = ground arith
moved_caret-clamped old left bytes_per_line max_size count e h = ground arith
moved_caret-clamped old right bytes_per_line max_size count e h = ground arith

pub moved_caret-le :
    (old : ℕ) (direction : Direction) (bytes_per_line max_size count : ℕ)
    → Exact max_size bytes_per_line count
    → old ≤ max_size
    → moved_caret old direction bytes_per_line max_size count ≤ max_size
moved_caret-le old up bytes_per_line max_size count e h =
    omega (arith, moved_caret-clamped old up bytes_per_line max_size count e h)
moved_caret-le old down bytes_per_line max_size count e h =
    omega (arith, moved_caret-clamped old down bytes_per_line max_size count e h)
moved_caret-le old left bytes_per_line max_size count e h =
    omega (arith, moved_caret-clamped old left bytes_per_line max_size count e h)
moved_caret-le old right bytes_per_line max_size count e h =
    omega (arith, moved_caret-clamped old right bytes_per_line max_size count e h)

-- The carets of two regions keep their order, and meet only at an end of the document.
pub moved_caret_mono :
    (a b : ℕ) (direction : Direction) (bytes_per_line size count : ℕ)
    → Exact size bytes_per_line count
    → a < b
    → b ≤ size
    → let a' = moved_caret a direction bytes_per_line size count in
      let b' = moved_caret b direction bytes_per_line size count in
      (a' ≤ b') × ((a' < b') ⊎ ((a' ≡ 0) × (b' ≡ 0)) ⊎ ((a' ≡ size) × (b' ≡ size)))
unfolding moved_caret
moved_caret_mono a b up bytes_per_line size count e h k = ground arith
moved_caret_mono a b down bytes_per_line size count e h k = ground arith
moved_caret_mono a b left bytes_per_line size count e h k = ground arith
moved_caret_mono a b right bytes_per_line size count e h k = ground arith

pub line_start_mono : (a b l : ℕ) → 0 < l → a ≤ b → a - a % l ≤ b - b % l
line_start_mono a b l p h = grind arith

-- A jump to a boundary keeps the order of the carets and stays before the end of the document.
pub boundary_caret_mono :
    (a b : ℕ) (direction : Direction) (bytes_per_line size : ℕ)
    → 0 < bytes_per_line
    → 0 < size
    → size + bytes_per_line < usize_mod
    → a ≤ b
    → b ≤ size
    → (boundary_caret a direction bytes_per_line size
        ≤ boundary_caret b direction bytes_per_line size)
      × (boundary_caret b direction bytes_per_line size ≤ size)
unfolding boundary_caret
boundary_caret_mono a b up bytes_per_line size l p o h k = omega arith
boundary_caret_mono a b down bytes_per_line size l p o h k = omega arith
boundary_caret_mono a b left bytes_per_line size l p o h k =
    ground (arith, line_start_mono a b bytes_per_line l h)
boundary_caret_mono a b right bytes_per_line size l p o h k =
    ground (arith, line_start_mono a b bytes_per_line l h)
