-- ===== src/HexView/Rows/Width.antt =====
-- The columns of the rows stand below each other.
use teehee.Common.{
  ℕ, zero, suc, ◌+◌, ◌-◌, ◌*◌, ◌≤◌, ◌<◌, ◌≡◌, refl, Option, none, some, List, [], ◌∷◌, ◌++◌, length,
  arith,
}
use native.Mathlib.Nat.{mod-eq_of_lt}
use teehee.HexView.Style.{
  ContentStyle, StylingCommand, Queued, start_style, mid_style, end_style, colorize_byte,
  queue_style, queue_optional, draw, draw_hex_byte, draw_ascii_byte, make_padding, spaces, print,
  with_mid_to_end, take_end_only,
}
use teehee.HexView.Columns.{columns, columns-append}
use teehee.HexView.Rows.{
  usize_sub, draw_hex_row, draw_ascii_row, draw_separator, lacking, hex_padding, ascii_padding,
  draw_columns,
}

columns-queue_style : (s : ContentStyle) → columns (queue_style s) ≡ 0
unfolding queue_style
columns-queue_style s = ground arith

columns-queue_optional : (s : Option ContentStyle) → columns (queue_optional s) ≡ 0
columns-queue_optional none = refl
columns-queue_optional (some s) = columns-queue_style s

-- A style before a text takes no columns.
columns-styled :
    (s : Option ContentStyle) (qs : List Queued) → columns (queue_optional s ++ qs) ≡ columns qs
columns-styled s qs = omega (arith, columns-append (queue_optional s) qs, columns-queue_optional s)

columns-draw : (c : List ℕ) (style : StylingCommand) → columns (draw c style) ≡ length c
unfolding draw
columns-draw c style = omega (
  arith,
  columns-styled (start_style style) (print c ∷ queue_optional (end_style style)),
  columns-queue_optional (end_style style),
)

columns-draw_hex_byte : (byte : ℕ) (style : StylingCommand) → columns (draw_hex_byte byte style) ≡ 3
unfolding draw_hex_byte
columns-draw_hex_byte byte style =
    let cmd = colorize_byte byte style in
    omega (
      arith,
      columns-styled (start_style cmd) _,
      columns-styled (mid_style cmd) _,
      columns-styled (end_style cmd) (print (0x20 ∷ []) ∷ []),
    )

columns-draw_ascii_byte :
    (byte : ℕ) (style : StylingCommand) → columns (draw_ascii_byte byte style) ≡ 1
unfolding draw_ascii_byte
columns-draw_ascii_byte byte style =
    let cmd = colorize_byte byte style in
    omega (arith, columns-styled (start_style cmd) _, columns-queue_optional (end_style cmd))

columns-draw_hex_row :
    (bytes : List ℕ) (styles : List StylingCommand)
    → length bytes ≤ length styles
    → columns (draw_hex_row bytes styles) ≡ length bytes * 3
unfolding draw_hex_row
columns-draw_hex_row [] styles h = refl
columns-draw_hex_row (b ∷ bytes) [] h = absurd (omega arith)
columns-draw_hex_row (b ∷ bytes) (s ∷ styles) h = omega (
  arith,
  columns-append (draw_hex_byte b s) (draw_hex_row bytes styles),
  columns-draw_hex_byte b s,
  columns-draw_hex_row bytes styles (omega arith),
)

columns-draw_ascii_row :
    (bytes : List ℕ) (styles : List StylingCommand)
    → length bytes ≤ length styles
    → columns (draw_ascii_row bytes styles) ≡ length bytes
unfolding draw_ascii_row
columns-draw_ascii_row [] styles h = refl
columns-draw_ascii_row (b ∷ bytes) [] h = absurd (omega arith)
columns-draw_ascii_row (b ∷ bytes) (s ∷ styles) h = omega (
  arith,
  columns-append (draw_ascii_byte b s) (draw_ascii_row bytes styles),
  columns-draw_ascii_byte b s,
  columns-draw_ascii_row bytes styles (omega arith),
)

length-spaces : (n : ℕ) → length (spaces n) ≡ n
length-spaces zero = refl
length-spaces (suc n) = omega (arith, length-spaces n)

make_padding-short : (n : ℕ) → n ≤ 64 → make_padding n ≡ some (spaces n)
unfolding make_padding
make_padding-short n h = ground arith

-- A row and its padding make a line.
lacking-length :
    (bytes_per_line : ℕ) (bytes : List ℕ)
    → 0 < bytes_per_line
    → bytes_per_line ≤ 21
    → length bytes ≤ bytes_per_line
    → length bytes + lacking bytes_per_line bytes ≡ bytes_per_line
unfolding lacking
lacking-length l [] p q h = omega arith
lacking-length l (b ∷ bytes) p q h =
    let sub : usize_sub l (suc (length bytes)) ≡ l - suc (length bytes) = omega arith in
    rw (sub, mod-eq_of_lt {n = l - suc (length bytes)} {m = l} (omega arith)) (omega arith)

-- The padding after the bytes, and the cell of a caret behind the last byte.
columns-hex_padding :
    (bytes_per_line : ℕ) (bytes : List ℕ) (at_end : Option StylingCommand)
    → lacking bytes_per_line bytes ≤ 21
    → ((c : StylingCommand) → at_end ≡ some c → 0 < lacking bytes_per_line bytes)
    → (qs : List Queued) × (hex_padding bytes_per_line bytes at_end ≡ some qs)
      × (columns qs ≡ lacking bytes_per_line bytes * 3)
unfolding hex_padding
columns-hex_padding l bytes none h k =
    let n : ℕ = lacking l bytes * 3 in
    (
      print (spaces n) ∷ [],
      rw (make_padding-short n (omega arith)) refl,
      omega (arith, length-spaces n),
    )
columns-hex_padding l bytes (some c) h k =
    let n : ℕ = lacking l bytes * 3 - 2 in
    let some_left = k c refl in
    let sub : usize_sub (lacking l bytes * 3) 2 ≡ n = omega arith in
    (
      draw (0x20 ∷ []) (with_mid_to_end c)
          ++ (draw (0x20 ∷ []) (take_end_only c) ++ (print (spaces n) ∷ [])),
      rw (sub, make_padding-short n (omega arith)) refl,
      omega (
        arith,
        columns-append (draw (0x20 ∷ []) (with_mid_to_end c)) _,
        columns-append (draw (0x20 ∷ []) (take_end_only c)) (print (spaces n) ∷ []),
        columns-draw (0x20 ∷ []) (with_mid_to_end c),
        columns-draw (0x20 ∷ []) (take_end_only c),
        length-spaces n,
      ),
    )

columns-ascii_padding :
    (bytes_per_line : ℕ) (bytes : List ℕ) (at_end : Option StylingCommand)
    → lacking bytes_per_line bytes ≤ 21
    → (qs : List Queued) × (ascii_padding bytes_per_line bytes at_end ≡ some qs)
      × (columns qs ≡ lacking bytes_per_line bytes + 1)
unfolding ascii_padding
columns-ascii_padding l bytes none h =
    let n : ℕ = lacking l bytes + 1 in
    (
      print (spaces n) ∷ [],
      rw (make_padding-short n (omega arith)) refl,
      omega (arith, length-spaces n),
    )
columns-ascii_padding l bytes (some c) h =
    let n : ℕ = lacking l bytes in
    let sub : usize_sub (lacking l bytes + 1) 1 ≡ n = omega arith in
    (
      draw (0x20 ∷ []) (take_end_only c) ++ (print (spaces n) ∷ []),
      rw (sub, make_padding-short n (omega arith)) refl,
      omega (
        arith,
        columns-append (draw (0x20 ∷ []) (take_end_only c)) (print (spaces n) ∷ []),
        columns-draw (0x20 ∷ []) (take_end_only c),
        length-spaces n,
      ),
    )

-- For a row of at most as many bytes as a line has, of 1 to 21, with a style for each byte, and a
-- caret behind the last byte only where the row is not full: `draw_columns` returns without a panic,
-- and what it prints takes 4 columns for each byte of the line and 6 more, whatever the row and
-- the styles are, so that what follows begins in the same column of every row.
pub columns-draw_columns :
    (bytes_per_line : ℕ) (bytes : List ℕ) (styles : List StylingCommand)
    (at_end : Option StylingCommand)
    → 0 < bytes_per_line
    → bytes_per_line ≤ 21
    → length bytes ≤ bytes_per_line
    → length bytes ≤ length styles
    → ((c : StylingCommand) → at_end ≡ some c → length bytes < bytes_per_line)
    → (qs : List Queued) × (draw_columns bytes_per_line bytes styles at_end ≡ some qs)
      × (columns qs ≡ 4 * bytes_per_line + 6)
unfolding draw_columns
columns-draw_columns l bytes styles at_end p q h k full =
    let fill = lacking-length l bytes p q h in
    let (hex, hex_returns, hex_columns) =
      columns-hex_padding l bytes at_end (omega arith) (λ c e. let lt = full c e in omega arith) in
    let (ascii, ascii_returns, ascii_columns) =
      columns-ascii_padding l bytes at_end (omega arith) in
    (
      print (0x20 ∷ [])
          ∷ (draw_hex_row bytes styles
              ++ (hex
                  ++ (draw_separator
                      ++ (draw_ascii_row bytes styles ++ (ascii ++ draw_separator))))),
      rw (hex_returns, ascii_returns) refl,
      omega (
        arith,
        columns-append (draw_hex_row bytes styles) _,
        columns-append hex _,
        columns-append (draw_ascii_row bytes styles) _,
        columns-append ascii draw_separator,
        columns-draw_hex_row bytes styles k,
        columns-draw_ascii_row bytes styles k,
      ),
    )
