-- ===== src/HexView/Chars/Utf8.antt =====
-- The bytes that insert mode writes for a character are shown as that character.
use teehee.Common.{
  ℕ, suc, ◌+◌, ◌-◌, ◌*◌, ◌/◌, ◌%◌, ◌<◌, ◌≤◌, ◌≡◌, refl, true, false, none, some, List, [], ◌∷◌,
  ◌++◌, length, ltb, leb, inl, inr, Bool-cases, ltb→lt, if◌then◌else◌, arith,
}
use teehee.Modes.Chars.{encode_utf8}
use teehee.HexView.Chars.{
  ok, is_surrogate, decode_two, decode_three, decode_four, first_char, chars, from_utf8,
  try_prefixes, utf8_into_char,
}

-- A `char`: a code point that is no surrogate.
pub record Scalar (ch : ℕ) : Type 0 where
  pub below : ch < 0x11_0000
  pub no_surrogate : is_surrogate ch ≡ false

decode_two-encoded :
    (ch : ℕ) → 0x80 ≤ ch → ch < 0x800 → decode_two (0xC0 + ch / 64) (0x80 + ch % 64) ≡ some ch
unfolding decode_two
decode_two-encoded ch h k = ground arith

decode_three-encoded :
    (ch : ℕ)
    → 0x800 ≤ ch
    → ch < 0x1_0000
    → is_surrogate ch ≡ false
    → decode_three (0xE0 + ch / 4096) (0x80 + ch / 64 % 64) (0x80 + ch % 64) ≡ some ch
unfolding decode_three
decode_three-encoded ch h k n =
    let same : (0xE0 + ch / 4096 - 0xE0) * 4096
          + (0x80 + ch / 64 % 64 - 0x80) * 64
          + (0x80 + ch % 64 - 0x80)
        ≡ ch =
      omega arith in
    rw (same, n) (ground arith)

decode_four-encoded :
    (ch : ℕ)
    → 0x1_0000 ≤ ch
    → ch < 0x11_0000
    → decode_four
        (0xF0 + ch / 262144)
        (0x80 + ch / 4096 % 64)
        (0x80 + ch / 64 % 64)
        (0x80 + ch % 64)
      ≡ some ch
unfolding decode_four
decode_four-encoded ch h k =
    let same : (0xF0 + ch / 262144 - 0xF0) * 262144
          + (0x80 + ch / 4096 % 64 - 0x80) * 4096
          + (0x80 + ch / 64 % 64 - 0x80) * 64
          + (0x80 + ch % 64 - 0x80)
        ≡ ch =
      omega arith in
    rw same (ground arith)

-- A lead byte of a longer form starts no shorter one.
decode_two-none : (a b : ℕ) → 0xE0 ≤ a → decode_two a b ≡ none
unfolding decode_two
decode_two-none a b h =
    let over : leb a 0xDF ≡ false = ground arith in
    elim (Bool-cases (leb 0xC2 a)) [ inl e ↦ rw (e, over) refl | inr e ↦ rw e refl ]

decode_three-none : (a b c : ℕ) → 0xF0 ≤ a → decode_three a b c ≡ none
unfolding decode_three
decode_three-none a b c h =
    let over : leb a 0xEF ≡ false = ground arith in
    elim (Bool-cases (leb 0xE0 a)) [ inl e ↦ rw (e, over) refl | inr e ↦ rw e refl ]

module _ (a : ℕ) (wide : 0x80 ≤ a) where
  not_ascii : ltb a 0x80 ≡ false
  not_ascii = ground arith

  from_utf8-one : from_utf8 (a ∷ []) ≡ none
  unfolding from_utf8 chars first_char
  from_utf8-one = rw not_ascii refl

  from_utf8-two : (b : ℕ) → decode_two a b ≡ none → from_utf8 (a ∷ b ∷ []) ≡ none
  unfolding from_utf8 chars first_char
  from_utf8-two b h = rw (not_ascii, h) refl

  from_utf8-three :
      (b c : ℕ)
      → decode_two a b ≡ none
      → decode_three a b c ≡ none
      → from_utf8 (a ∷ b ∷ c ∷ []) ≡ none
  unfolding from_utf8 chars first_char
  from_utf8-three b c h k = rw (not_ascii, h, k) refl

  module _ (ch : ℕ) where
    from_utf8-decode_two :
        (b : ℕ) → decode_two a b ≡ some ch → from_utf8 (a ∷ b ∷ []) ≡ some (ch ∷ [])
    unfolding from_utf8 chars first_char
    from_utf8-decode_two b h = rw (not_ascii, h) refl

    from_utf8-decode_three :
        (b c : ℕ)
        → decode_two a b ≡ none
        → decode_three a b c ≡ some ch
        → from_utf8 (a ∷ b ∷ c ∷ []) ≡ some (ch ∷ [])
    unfolding from_utf8 chars first_char
    from_utf8-decode_three b c h k = rw (not_ascii, h, k) refl

    from_utf8-decode_four :
        (b c d : ℕ)
        → decode_two a b ≡ none
        → decode_three a b c ≡ none
        → decode_four a b c d ≡ some ch
        → from_utf8 (a ∷ b ∷ c ∷ d ∷ []) ≡ some (ch ∷ [])
    unfolding from_utf8 chars first_char
    from_utf8-decode_four b c d h k l = rw (not_ascii, h, k, l) refl

-- How many prefixes are tried.
abbrev tried : ℕ → ℕ
tried n = if ltb n 4 then n else 4

tried_one : (n : ℕ) → (m : ℕ) × (tried (suc n) ≡ suc m)
tried_one n = elim (Bool-cases (ltb (suc n) 4)) [ inl e ↦ (n, rw e refl) | inr e ↦ (3, rw e refl) ]

tried_two : (n : ℕ) → (m : ℕ) × (tried (suc (suc n)) ≡ suc (suc m))
tried_two n = elim (Bool-cases (ltb (suc (suc n)) 4)) [
  | inl e ↦ (n, rw e refl)
  | inr e ↦ (2, rw e refl)
]

tried_three : (n : ℕ) → (m : ℕ) × (tried (suc (suc (suc n))) ≡ suc (suc (suc m)))
tried_three n = elim (Bool-cases (ltb (suc (suc (suc n))) 4)) [
  | inl e ↦ (n, rw e refl)
  | inr e ↦ (1, rw e refl)
]

tried_four : (n : ℕ) → tried (suc (suc (suc (suc n)))) ≡ 4
tried_four n = ground arith

-- Characters of one byte to four.
utf8_into_char-one :
    (ch : ℕ) (rest : List ℕ) → ch < 0x80 → utf8_into_char (ch ∷ rest) ≡ some (ok ch)
unfolding utf8_into_char try_prefixes from_utf8 chars first_char
utf8_into_char-one ch rest h =
    let ascii : ltb ch 0x80 ≡ true = ground arith in
    let (m, e) = tried_one (length rest) in
    rw (e, try_prefixes, from_utf8, chars, first_char, ascii) refl

module _ (ch a : ℕ) (rest : List ℕ) where
  utf8_into_char-decode_two :
      (b : ℕ) → 0x80 ≤ a → decode_two a b ≡ some ch → utf8_into_char (a ∷ b ∷ rest) ≡ some (ok ch)
  unfolding utf8_into_char try_prefixes
  utf8_into_char-decode_two b h k =
      let (m, e) = tried_two (length rest) in
      rw (e, try_prefixes, from_utf8-one a h, from_utf8-decode_two a h ch b k) refl

  utf8_into_char-decode_three :
      (b c : ℕ)
      → 0xE0 ≤ a
      → decode_three a b c ≡ some ch
      → utf8_into_char (a ∷ b ∷ c ∷ rest) ≡ some (ok ch)
  unfolding utf8_into_char try_prefixes
  utf8_into_char-decode_three b c h k =
      let (m, e) = tried_three (length rest) in
      let wide : 0x80 ≤ a = omega arith in
      let short = decode_two-none a b h in
      rw
        (
          e,
          try_prefixes,
          from_utf8-one a wide,
          from_utf8-two a wide b short,
          from_utf8-decode_three a wide ch b c short k,
        )
        refl

  utf8_into_char-decode_four :
      (b c d : ℕ)
      → 0xF0 ≤ a
      → decode_four a b c d ≡ some ch
      → utf8_into_char (a ∷ b ∷ c ∷ d ∷ rest) ≡ some (ok ch)
  unfolding utf8_into_char try_prefixes
  utf8_into_char-decode_four b c d h k =
      let wide : 0x80 ≤ a = omega arith in
      let short = decode_two-none a b (omega arith) in
      let middle = decode_three-none a b c h in
      rw
        (
          tried_four (length rest),
          try_prefixes,
          from_utf8-one a wide,
          from_utf8-two a wide b short,
          from_utf8-three a wide b c short middle,
          from_utf8-decode_four a wide ch b c d short middle k,
        )
        refl

-- What insert mode writes for a character, `encode_utf8`, the view decodes to that character, whatever
-- bytes are behind it.
pub utf8_into_char-encode_utf8 :
    (ch : ℕ) (rest : List ℕ) → Scalar ch → utf8_into_char (encode_utf8 ch ++ rest) ≡ some (ok ch)
unfolding encode_utf8
utf8_into_char-encode_utf8 ch rest s = elim (Bool-cases (ltb ch 0x80)) [
  | inl one ↦ rw one (utf8_into_char-one ch rest (ltb→lt _ _ one))
  | inr n ↦ elim (Bool-cases (ltb ch 0x800)) [
    | inl two ↦
        rw (n, two)
          (utf8_into_char-decode_two ch _ rest _ (omega arith)
            (decode_two-encoded ch (ground arith) (ltb→lt _ _ two)))
    | inr n' ↦ elim (Bool-cases (ltb ch 0x1_0000)) [
      | inl three ↦
          rw (n, n', three)
            (utf8_into_char-decode_three ch _ rest _ _ (omega arith)
              (decode_three-encoded ch (ground arith) (ltb→lt _ _ three) s.no_surrogate))
      | inr n'' ↦
          rw (n, n', n'')
            (utf8_into_char-decode_four ch _ rest _ _ _ (omega arith)
              (decode_four-encoded ch (ground arith) s.below))
    ]
  ]
]
