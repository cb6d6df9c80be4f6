-- ===== src/HexView/Chars.antt =====
-- src/hex_view/byte_properties.rs: the characters that bytes encode, with the decoders of the standard
-- library that it calls.
pub mod Utf8
use teehee.Common.{
  not, ℕ, zero, suc, ◌+◌, ◌-◌, ◌*◌, ◌/◌, ◌%◌, Bool, true, false, ◌&&◌, ◌||◌, Option, none, some,
  List, [], ◌∷◌, ◌++◌, length, take, ltb, leb, ◌==◌, if◌then◌else◌, ◌>>=◌,
}

-- `Result<char, char>`
pub data Decoded : Type 0 where
  ok err : ℕ → Decoded

abbrev continuation : ℕ → Bool
continuation byte = leb 0x80 byte && leb byte 0xBF

abbrev pub is_surrogate : ℕ → Bool
is_surrogate unit = leb 0xD800 unit && leb unit 0xDFFF

abbrev checked : Bool → ℕ → Option ℕ
checked valid ch = if valid then some ch else none

-- The characters that UTF-8 encodes in two, three and four bytes: not a longer form of another, not a
-- surrogate, and none above 0x10FFFF.
unfoldable pub decode_two : ℕ → ℕ → Option ℕ
decode_two a b =
    checked ((leb 0xC2 a && leb a 0xDF) && continuation b) ((a - 0xC0) * 64 + (b - 0x80))

unfoldable pub decode_three : ℕ → ℕ → ℕ → Option ℕ
decode_three a b c =
    let ch = (a - 0xE0) * 4096 + (b - 0x80) * 64 + (c - 0x80) in
    checked
      ((leb 0xE0 a && leb a 0xEF)
        && ((continuation b && continuation c) && (leb 0x800 ch && not (is_surrogate ch))))
      ch

unfoldable pub decode_four : ℕ → ℕ → ℕ → ℕ → Option ℕ
decode_four a b c d =
    let ch = (a - 0xF0) * 262144 + (b - 0x80) * 4096 + (c - 0x80) * 64 + (d - 0x80) in
    checked
      ((leb 0xF0 a && leb a 0xF4)
        && ((continuation b && (continuation c && continuation d))
            && (leb 0x1_0000 ch && leb ch 0x10_FFFF)))
      ch

abbrev or_else : {A : Type 0} → Option A → Option A → Option A
or_else none o = o
or_else (some a) o = some a

-- A character and the bytes behind it.
abbrev followed : Option ℕ → List ℕ → Option (ℕ × List ℕ)
followed ch rest = ch >>= λ c. some (c, rest)

abbrev four : ℕ → ℕ → ℕ → List ℕ → Option (ℕ × List ℕ)
four a b c [] = none
four a b c (d ∷ rest) = followed (decode_four a b c d) rest

abbrev three : ℕ → ℕ → List ℕ → Option (ℕ × List ℕ)
three a b [] = none
three a b (c ∷ rest) = or_else (followed (decode_three a b c) rest) (four a b c rest)

abbrev two : ℕ → List ℕ → Option (ℕ × List ℕ)
two a [] = none
two a (b ∷ rest) = or_else (followed (decode_two a b) rest) (three a b rest)

unfoldable pub first_char : List ℕ → Option (ℕ × List ℕ)
first_char [] = none
first_char (a ∷ rest) = if ltb a 0x80 then some (a, rest) else two a rest

-- With fuel for each byte.
unfoldable pub chars : ℕ → List ℕ → Option (List ℕ)
chars zero bytes = none
chars (suc fuel) [] = some []
chars (suc fuel) (a ∷ bytes) =
    first_char (a ∷ bytes) >>= λ (ch, rest). chars fuel rest >>= λ cs. some (ch ∷ cs)

-- `String::from_utf8`
unfoldable pub from_utf8 : List ℕ → Option (List ℕ)
from_utf8 bytes = chars (suc (length bytes)) bytes

-- `chars().next().unwrap()`
abbrev next_char : List ℕ → Option Decoded
next_char [] = none
next_char (c ∷ cs) = some (ok c)

-- The prefixes of `i` bytes and more, `n` of them.
unfoldable pub try_prefixes : ℕ → ℕ → List ℕ → Option Decoded
try_prefixes i zero bytes = some (err 0xFFFD)
try_prefixes i (suc n) bytes = elim (from_utf8 (take i bytes)) [
  | none ↦ try_prefixes (suc i) n bytes
  | some s ↦ next_char s
]

-- `none` would be a panic.
unfoldable pub utf8_into_char : List ℕ → Option Decoded
utf8_into_char bytes =
    let max_char_len = if ltb (length bytes) 4 then length bytes else 4 in
    try_prefixes 1 max_char_len bytes

-- `u16::from_be_bytes`
abbrev pub from_be_bytes : ℕ → ℕ → ℕ
from_be_bytes high low = high * 256 + low

abbrev is_high : ℕ → Bool
is_high unit = leb 0xD800 unit && leb unit 0xDBFF

abbrev is_low : ℕ → Bool
is_low unit = leb 0xDC00 unit && leb unit 0xDFFF

-- `String::from_utf16` of one unit, and the first character of that of two.
unfoldable pub from_utf16_one : ℕ → Option ℕ
from_utf16_one unit = if is_surrogate unit then none else some unit

unfoldable pub from_utf16_two : ℕ → ℕ → Option ℕ
from_utf16_two unit next =
    if is_high unit && is_low next
    then some (0x1_0000 + (unit - 0xD800) * 1024 + (next - 0xDC00))
    else (if is_surrogate unit || is_surrogate next then none else some unit)

abbrev or_replacement : Option ℕ → Decoded
or_replacement none = err 0xFFFD
or_replacement (some ch) = ok ch

unfoldable pub utf16_into_char : List ℕ → Decoded
utf16_into_char (a ∷ b ∷ c ∷ d ∷ rest) = or_replacement (
    or_else (from_utf16_one (from_be_bytes a b))
      (from_utf16_two (from_be_bytes a b) (from_be_bytes c d)))
utf16_into_char (a ∷ b ∷ rest) = or_replacement (from_utf16_one (from_be_bytes a b))
utf16_into_char bytes = err 0xFFFD

-- Zeros in front.
abbrev pad_front : ℕ → List ℕ → List ℕ
pad_front zero res = res
pad_front (suc n) res = pad_front n (0 ∷ res)

unfoldable pub bytes_to_4_byte_vec : List ℕ → List ℕ
bytes_to_4_byte_vec bytes =
    if leb 4 (length bytes) then take 4 bytes else pad_front (4 - length bytes) bytes
