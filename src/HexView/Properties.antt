-- ===== src/HexView/Properties.antt =====
-- src/hex_view/byte_properties.rs: the lines that show the bytes at the main caret as numbers and
-- characters. How `{:x?}` writes a character is a parameter.
use teehee.Common.{
  ℕ, zero, suc, ◌+◌, ◌-◌, ◌*◌, ◌/◌, ◌%◌, ◌^◌, Bool, Option, none, some, List, [], ◌∷◌, ◌++◌, length,
  ltb, leb, ◌==◌, if◌then◌else◌, ◌>>=◌, usize_mod,
}
use teehee.Modes.Text.{text_len, codes}
use teehee.HexView.Style.{
  Color, Priority, StylingCommand, unstyled, with_start_style, ansi_value, Queued, draw,
  draw_hex_byte, colorize_byte, make_padding, is_ascii_graphic,
}
use teehee.HexView.Chars.{Decoded, ok, err, utf8_into_char, utf16_into_char, bytes_to_4_byte_vec}

abbrev foreground : Color → StylingCommand
foreground color = with_start_style unstyled (record {
  style = record { foreground_color = some color; background_color = some Color.reset };
  priority = Priority.basic;
})

abbrev bin_zero_style : StylingCommand
bin_zero_style = foreground (ansi_value 150)

abbrev bin_one_style : StylingCommand
bin_one_style = foreground Color.blue

abbrev invalid_data_style : StylingCommand
invalid_data_style = foreground Color.red

abbrev default_style : StylingCommand
default_style = foreground Color.dark_magenta

abbrev default_value_style : StylingCommand
default_value_style = foreground (ansi_value 150)

-- The binary digits below 2 ^ n, from the highest.
abbrev binary : ℕ → ℕ → List ℕ
binary zero byte = []
binary (suc n) byte = (byte / 2 ^ n % 2) ∷ binary n byte

draw_digits : List ℕ → List Queued
draw_digits [] = []
draw_digits (d ∷ digits) =
    (if d == 0 then draw (b'0' ∷ []) bin_zero_style else draw (b'1' ∷ []) bin_one_style)
    ++ draw_digits digits

unfoldable pub format_binary_byte : ℕ → List Queued
unfolding draw_digits
format_binary_byte byte = draw_digits (binary 8 byte)

-- `{}` of a number: as many digits as it has, of `n` at most.
abbrev decimal_digits : ℕ → ℕ → List ℕ → List ℕ
decimal_digits zero v digits = digits
decimal_digits (suc n) v digits =
    let more = decimal_digits n (v / 10) ((b'0' + v % 10) ∷ digits) in
    if ltb v 10 then (b'0' + v) ∷ digits else more

-- Of a number below 2 ^ 32.
unfoldable pub decimal : ℕ → List ℕ
decimal v = decimal_digits 10 v []

-- `{}` of a number with a sign, of a type of `2 * half` values.
unfoldable pub signed_decimal : ℕ → ℕ → List ℕ
signed_decimal half v = if ltb v half then decimal v else b'-' ∷ decimal (2 * half - v)

abbrev u32_from : List ℕ → ℕ → ℕ
u32_from [] acc = acc
u32_from (b ∷ bytes) acc = u32_from bytes (acc * 256 + b)

-- `u32::from_be_bytes`
unfoldable pub u32_from_be_bytes : List ℕ → ℕ
u32_from_be_bytes bytes = u32_from bytes 0

-- The formatter: `bytes` is its field `data`.
pub record BytePropertiesFormatter : Type 0 where
  pub bytes : List ℕ
  pub line : ℕ

-- More than four bytes fail the assertion.
unfoldable pub new : List ℕ → Option BytePropertiesFormatter
new bytes = if leb (length bytes) 4 then some (record { bytes = bytes; line = 0 }) else none

abbrev pub are_all_printed : BytePropertiesFormatter → Bool
are_all_printed p = ltb 4 p.line

abbrev first_byte : List ℕ → ℕ
first_byte [] = 0
first_byte (b ∷ bytes) = b

abbrev draw_hex_bytes : List ℕ → List Queued
draw_hex_bytes [] = []
draw_hex_bytes (b ∷ bytes) =
    draw_hex_byte b (colorize_byte b default_value_style) ++ draw_hex_bytes bytes

abbrev draw_binary_bytes : List ℕ → List Queued
draw_binary_bytes [] = []
draw_binary_bytes (b ∷ bytes) =
    format_binary_byte b ++ (draw (0x20 ∷ []) default_style ++ draw_binary_bytes bytes)

-- `make_padding(12 - len)`, where the subtraction wraps.
abbrev padding_to_12 : ℕ → Option (List ℕ)
padding_to_12 len = make_padding ((12 + usize_mod - len) % usize_mod)

-- A value of one byte, and that of four.
abbrev draw_values : List ℕ → List ℕ → List ℕ → List ℕ → Option (List Queued)
draw_values label byte_literal label32 value32 = padding_to_12 (length byte_literal) >>= λ padding.
    some (
      draw label default_style
      ++ (draw byte_literal default_value_style
          ++ (draw padding default_style
              ++ (draw label32 default_style ++ draw value32 default_value_style))))

module _ (debug_char : ℕ → List ℕ) where
  unfoldable pub format_char : ℕ → List ℕ
  format_char c = if is_ascii_graphic c then c ∷ [] else debug_char c

  -- A decoded character, and its length in bytes where it is padded.
  abbrev draw_decoded : Decoded → List Queued × ℕ
  draw_decoded (ok c) = (draw (format_char c) default_value_style, text_len (format_char c))
  draw_decoded (err c) = (draw (c ∷ []) invalid_data_style, 1)

  abbrev draw_chars : List ℕ → Option (List Queued)
  draw_chars bytes = utf8_into_char bytes >>= λ decoded.
      padding_to_12 (draw_decoded decoded).1 >>= λ padding. some (
        draw (codes " utf-8: ") default_style
        ++ ((draw_decoded decoded).0
            ++ (draw padding default_style
                ++ (draw (codes "  utf-16: ") default_style
                    ++ (draw_decoded (utf16_into_char bytes)).0))))

  -- The `match` on the line.
  unfoldable pub line_of : ℕ → List ℕ → Option (List Queued)
  line_of zero bytes =
      let byte = first_byte bytes in
      some (
        draw (codes "hex u8: ") default_style
        ++ (draw_hex_byte byte (colorize_byte byte default_value_style)
            ++ (draw (codes "          hex u32: ") default_style ++ draw_hex_bytes bytes)))
  line_of (suc zero) bytes = some (
      draw (codes "bin u8: ") default_style
      ++ (format_binary_byte (first_byte bytes)
          ++ (draw (codes "     bin u32: ") default_style ++ draw_binary_bytes bytes)))
  line_of (suc (suc zero)) bytes =
      draw_values (codes "dec u8: ") (decimal (first_byte bytes)) (codes " dec u32: ")
        (decimal (u32_from_be_bytes (bytes_to_4_byte_vec bytes)))
  line_of (suc (suc (suc zero))) bytes =
      draw_values (codes "dec i8: ") (signed_decimal 128 (first_byte bytes)) (codes " dec i32: ")
        (signed_decimal 2147483648 (u32_from_be_bytes (bytes_to_4_byte_vec bytes)))
  line_of (suc (suc (suc (suc zero)))) bytes = draw_chars bytes
  line_of n bytes = some []

  unfoldable pub draw_line :
      BytePropertiesFormatter → Option (List Queued × BytePropertiesFormatter)
  draw_line p = line_of p.line p.bytes >>= λ queued. some (queued, record p { line = suc p.line })
