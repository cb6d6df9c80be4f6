-- ===== src/Common/Word.antt =====
-- `usize` and `isize` of a 64-bit machine, in the release profile, where arithmetic wraps.
-- A `usize` is a number below 2 ^ 64; an `isize` is an integer, which a cast takes modulo 2 ^ 64.
use Prim.Native.Nat.{ℕ, suc, ◌+◌, ◌-◌, ◌*◌, ◌%◌}
use teehee.Common.Tests.{ltb, leb, if◌then◌else◌}

-- `negsuc n` is -(n + 1).
pub data ℤ : Type 0 where
  pos : ℕ → ℤ
  negsuc : ℕ → ℤ

abbrev pub usize_mod : ℕ
usize_mod = 18446744073709551616

abbrev pub isize_mod : ℕ
isize_mod = 9223372036854775808

abbrev pub wrapping_add : ℕ → ℕ → ℕ
wrapping_add a b = (a + b) % usize_mod

abbrev pub saturating_mul_usize : ℕ → ℕ → ℕ
saturating_mul_usize a b = if ltb (a * b) usize_mod then a * b else usize_mod - 1

abbrev pub as_isize : ℕ → ℤ
as_isize n = if ltb n isize_mod then pos n else negsuc (usize_mod - 1 - n)

abbrev pub as_usize : ℤ → ℕ
as_usize (pos n) = n % usize_mod
as_usize (negsuc n) = usize_mod - 1 - n % usize_mod

-- a - b, as an integer.
abbrev pub sub_ℕ : ℕ → ℕ → ℤ
sub_ℕ a b = if leb b a then pos (a - b) else negsuc (b - a - 1)

infixl 65 ◌+ℤ◌ ◌-ℤ◌
infixl 70 ◌*ℤ◌
abbrev pub ◌+ℤ◌ : ℤ → ℤ → ℤ
pos a +ℤ pos b = pos (a + b)
pos a +ℤ negsuc b = sub_ℕ a (suc b)
negsuc a +ℤ pos b = sub_ℕ b (suc a)
negsuc a +ℤ negsuc b = negsuc (suc (a + b))

abbrev pub ◌-ℤ◌ : ℤ → ℤ → ℤ
pos a -ℤ pos b = sub_ℕ a b
pos a -ℤ negsuc b = pos (a + suc b)
negsuc a -ℤ pos b = negsuc (a + b)
negsuc a -ℤ negsuc b = sub_ℕ b a

abbrev pub ◌*ℤ◌ : ℤ → ℤ → ℤ
pos a *ℤ pos b = pos (a * b)
pos a *ℤ negsuc b = sub_ℕ 0 (a * suc b)
negsuc a *ℤ pos b = sub_ℕ 0 (suc a * b)
negsuc a *ℤ negsuc b = pos (suc a * suc b)

-- An exact result brought back into the range of `isize`, wrapping.
abbrev pub wrap_isize : ℤ → ℤ
wrap_isize a = as_isize (as_usize a)

abbrev pub saturate_isize : ℤ → ℤ
saturate_isize (pos n) = if ltb n isize_mod then pos n else pos (isize_mod - 1)
saturate_isize (negsuc n) = if ltb n isize_mod then negsuc n else negsuc (isize_mod - 1)

-- `cmp::max(0, a)`
abbrev pub max_zero : ℤ → ℤ
max_zero (pos n) = pos n
max_zero (negsuc n) = pos 0
