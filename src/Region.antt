-- ===== src/Region.antt =====
-- src/selection.rs: `SelRegion`, one selected region, and its moves.
pub mod Follows
pub mod Caret
use Prim.Native.Nat.{max as cmp_max, min as cmp_min}
use teehee.Common.{
  ℕ, ◌+◌, ◌-◌, ◌%◌, ◌≤◌, ◌<◌, Bool, true, false, ◌&&◌, ◌||◌, Option, none, some, ltb, leb, ◌==◌,
  if◌then◌else◌, ℤ, pos, wrapping_add, saturating_mul_usize, as_isize, as_usize, ◌-ℤ◌, ◌*ℤ◌,
  wrap_isize, saturate_isize, max_zero,
}

pub record SelRegion : Type 0 where
  pub caret : ℕ
  pub tail : ℕ
  pub main : Bool

pub data Direction : Type 0 where
  up down left right : Direction

abbrev pub new : ℕ → ℕ → SelRegion
new caret tail = record { caret = caret; tail = tail; main = false }

abbrev pub with_main : Bool → SelRegion → SelRegion
with_main b r = record r { main = b }

abbrev pub max : SelRegion → ℕ
max r = cmp_max r.caret r.tail

abbrev pub min : SelRegion → ℕ
min r = cmp_min r.caret r.tail

unfoldable pub len : SelRegion → ℕ
len r = wrapping_add (max r - min r) 1

unfoldable pub with_direction : SelRegion → Bool → SelRegion
with_direction r backward = if backward then new (min r) (max r) else new (max r) (min r)

abbrev pub overlaps : SelRegion → SelRegion → Bool
overlaps r other = leb (min other) (max r)

-- The caret that `simple_move` and `simple_extend` compute.
unfoldable pub moved_caret : ℕ → Direction → ℕ → ℕ → ℕ → ℕ
moved_caret old up bytes_per_line max_size count = as_usize (
    max_zero
      (wrap_isize (as_isize old -ℤ saturate_isize (as_isize bytes_per_line *ℤ as_isize count))))
moved_caret old down bytes_per_line max_size count =
    cmp_min max_size (wrapping_add old (saturating_mul_usize bytes_per_line count))
moved_caret old left bytes_per_line max_size count =
    as_usize (max_zero (wrap_isize (as_isize old -ℤ as_isize count)))
moved_caret old right bytes_per_line max_size count = cmp_min max_size (wrapping_add old count)

unfoldable pub simple_move : SelRegion → Direction → ℕ → ℕ → ℕ → SelRegion
simple_move r direction bytes_per_line max_size count =
    if max_size == 0
    then r
    else let caret_location = moved_caret r.caret direction bytes_per_line max_size count in
      new caret_location caret_location

unfoldable pub simple_extend : SelRegion → Direction → ℕ → ℕ → ℕ → SelRegion
simple_extend r direction bytes_per_line max_size count =
    if max_size == 0
    then r
    else new (moved_caret r.caret direction bytes_per_line max_size count) r.tail

unfoldable pub jump_to : SelRegion → ℕ → SelRegion
jump_to r offset = new offset offset

unfoldable pub extend_to : SelRegion → ℕ → SelRegion
extend_to r offset = new offset r.tail

-- The caret that `jump_to_boundary` and `extend_to_boundary` compute. The source panics where
-- `bytes_per_line` is 0: a number of bytes per line is positive wherever these are used.
unfoldable pub boundary_caret : ℕ → Direction → ℕ → ℕ → ℕ
boundary_caret caret up bytes_per_line max_size = 0
boundary_caret caret down bytes_per_line max_size = max_size - 1
boundary_caret caret left bytes_per_line max_size = caret - caret % bytes_per_line
boundary_caret caret right bytes_per_line max_size =
    cmp_min (wrapping_add caret bytes_per_line - caret % bytes_per_line - 1) (max_size - 1)

unfoldable pub jump_to_boundary : SelRegion → Direction → ℕ → ℕ → SelRegion
jump_to_boundary r direction bytes_per_line max_size =
    if max_size == 0
    then r
    else let caret_location = boundary_caret r.caret direction bytes_per_line max_size in
      new caret_location caret_location

unfoldable pub extend_to_boundary : SelRegion → Direction → ℕ → ℕ → SelRegion
extend_to_boundary r direction bytes_per_line max_size =
    if max_size == 0
    then r
    else new (boundary_caret r.caret direction bytes_per_line max_size) r.tail

unfoldable pub swap_caret : SelRegion → SelRegion
swap_caret r = new r.tail r.caret

unfoldable pub collapse : SelRegion → SelRegion
collapse r = new r.caret r.caret

abbrev pub forward : SelRegion → Bool
forward r = leb r.tail r.caret

abbrev pub backward : SelRegion → Bool
backward r = leb r.caret r.tail

unfoldable pub to_backward : SelRegion → SelRegion
to_backward r = new (min r) (max r)

unfoldable pub to_forward : SelRegion → SelRegion
to_forward r = new (max r) (min r)

-- The `match` on (both_forward, both_backward); `none` is a panic.
abbrev merge_directed : Bool → Bool → SelRegion → SelRegion → Option SelRegion
merge_directed true true r other = if r.caret == other.caret then some r else none
merge_directed true false r other =
    some (new (cmp_max r.caret other.caret) (cmp_min r.tail other.tail))
merge_directed false true r other =
    some (new (cmp_min r.caret other.caret) (cmp_max r.tail other.tail))
merge_directed false false r other = none

abbrev mark_main : Bool → Option SelRegion → Option SelRegion
mark_main b none = none
mark_main b (some merged) = some (if b then with_main true merged else merged)

unfoldable pub merge : SelRegion → SelRegion → Option SelRegion
merge r other =
    let both_forward = forward r && forward other in
    let both_backward = backward r && backward other in
    mark_main (r.main || other.main) (merge_directed both_forward both_backward r other)

unfoldable pub inherit_direction : SelRegion → SelRegion → SelRegion
unfolding to_forward to_backward
inherit_direction r parent = if forward parent then to_forward r else to_backward r

unfoldable pub split_at_region : SelRegion → ℕ → ℕ → Option SelRegion × Option SelRegion
unfolding inherit_direction
split_at_region r start end =
    if leb start (min r)
    then (if leb (max r) end
        then (none, none)
        else (none, some (inherit_direction (new (wrapping_add end 1) (max r)) r)))
    else (if leb (max r) end
        then (some (inherit_direction (new (min r) (start - 1)) r), none)
        else (some (new (min r) (start - 1)), some (new (wrapping_add end 1) (max r))))
