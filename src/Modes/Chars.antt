-- ===== src/Modes/Chars.antt =====
-- Characters, as code points: the methods of `char` that the modes call.
use teehee.Common.{ℕ, ◌+◌, ◌-◌, ◌/◌, ◌%◌, Bool, ◌&&◌, ◌||◌, List, [], ◌∷◌, ltb, leb, if◌then◌else◌}

-- `ch as u8`
abbrev pub as_u8 : ℕ → ℕ
as_u8 ch = ch % 256

unfoldable pub is_ascii_hexdigit : ℕ → Bool
is_ascii_hexdigit ch =
    (leb b'0' ch && leb ch b'9') || ((leb b'a' ch && leb ch b'f') || (leb b'A' ch && leb ch b'F'))

-- `to_digit(16)` of a hexadecimal digit
unfoldable pub hex_digit : ℕ → ℕ
hex_digit ch =
    if leb ch b'9' then ch - b'0' else (if leb b'a' ch then ch - b'a' + 10 else ch - b'A' + 10)

-- `encode_utf8`
unfoldable pub encode_utf8 : ℕ → List ℕ
encode_utf8 ch =
    if ltb ch 0x80
    then ch ∷ []
    else (if ltb ch 0x800
        then (0xC0 + ch / 64) ∷ (0x80 + ch % 64) ∷ []
        else (if ltb ch 0x1_0000
            then (0xE0 + ch / 4096) ∷ (0x80 + ch / 64 % 64) ∷ (0x80 + ch % 64) ∷ []
            else (0xF0 + ch / 262144)
              ∷ (0x80 + ch / 4096 % 64)
              ∷ (0x80 + ch / 64 % 64)
              ∷ (0x80 + ch % 64)
              ∷ []))
