-- ===== src/Modes/Text.antt =====
-- The `String` of the command line, as its characters: a position in it is an offset in bytes, as in
-- the standard library, whose `insert` and `remove` panic inside a character.
use Prim.Native.Char.{code}
use Prim.Native.String.{String}
use teehee.Common.{
  ℕ, zero, suc, ◌+◌, ◌-◌, Option, none, some, List, [], ◌∷◌, ◌++◌, leb, ◌==◌, if◌then◌else◌, ◌>>=◌,
  length,
}
use teehee.Modes.Chars.{encode_utf8}

-- The characters of a literal.
abbrev pub codes : String → List ℕ
codes String.[] = []
codes (String.◌∷◌ c s) = code c ∷ codes s

unfoldable pub len_utf8 : ℕ → ℕ
unfolding encode_utf8
len_utf8 ch = length (encode_utf8 ch)

-- `String::len`
unfoldable pub text_len : List ℕ → ℕ
text_len [] = 0
text_len (c ∷ s) = len_utf8 c + text_len s

abbrev before : ℕ → List ℕ × List ℕ → List ℕ × List ℕ
before c (left, right) = (c ∷ left, right)

-- The characters before and from an offset; `none` where it lies in a character or behind the end.
unfoldable pub split_at : ℕ → List ℕ → Option (List ℕ × List ℕ)
split_at zero s = some ([], s)
split_at (suc n) [] = none
split_at (suc n) (c ∷ s) =
    let rest = split_at (suc n - len_utf8 c) s in
    if leb (len_utf8 c) (suc n) then (rest >>= λ parts. some (before c parts)) else none

abbrev without_first : List ℕ × List ℕ → Option (List ℕ)
without_first (left, []) = none
without_first (left, c ∷ right) = some (left ++ right)

unfoldable pub remove : List ℕ → ℕ → Option (List ℕ)
remove s idx = split_at idx s >>= λ parts. without_first parts

unfoldable pub insert : List ℕ → ℕ → ℕ → Option (List ℕ)
insert s idx ch = split_at idx s >>= λ (left, right). some (left ++ (ch ∷ right))

-- The text before the first space, and the one behind it.
unfoldable pub split_at_space : List ℕ → List ℕ × List ℕ
split_at_space [] = ([], [])
split_at_space (c ∷ s) =
    let rest = before c (split_at_space s) in if c == 0x20 then ([], s) else rest
