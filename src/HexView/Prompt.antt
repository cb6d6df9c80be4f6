-- ===== src/HexView/Prompt.antt =====
-- src/hex_view/view.rs: the prompts of the command line and of the search, and their first visible
-- column. `none` is a panic; subtraction of `usize` wraps.
pub mod Shows
use Prim.Native.Nat.{min as cmp_min, max as cmp_max}
use teehee.Common.{
  ℕ, zero, suc, ◌+◌, ◌-◌, ◌/◌, ◌%◌, Bool, true, false, ◌&&◌, ◌||◌, Option, none, some, List, [],
  ◌∷◌, ◌++◌, length, take, drop, ltb, leb, ◌==◌, if◌then◌else◌, ◌>>=◌, wrapping_add, usize_mod,
}
use teehee.Modes.{PatternPiece, literal, wildcard}
use teehee.Modes.Pattern.{lower_hex}
use teehee.Modes.Search.{Search}
use teehee.Modes.Text.{codes, text_len, split_at}
use teehee.HexView.Style.{
  Color, ContentStyle, Queued, print, print_styled_content, is_ascii_graphic,
}

abbrev pub usize_sub : ℕ → ℕ → ℕ
usize_sub a b = (a + usize_mod - b) % usize_mod

abbrev pub on : Color → Color → ContentStyle
on foreground background = record {
  foreground_color = some foreground;
  background_color = some background;
}

abbrev pub as_number : Bool → ℕ
as_number true = 1
as_number false = 0

-- Between the cursor and the end: from the column that was shown last.
unfoldable pub start_between : ℕ → ℕ → ℕ → ℕ
start_between len cursor start_column =
    if leb len start_column
    then cmp_max 1 len - 1
    else (if ltb cursor start_column then cursor else start_column)

-- The text between two offsets in bytes.
abbrev text_range : List ℕ → ℕ → ℕ → Option (List ℕ)
text_range text start end =
    if leb start end
    then (split_at end text >>= λ (before_end, behind).
        split_at start before_end >>= λ (left, range). some range)
    else none

-- `render_with_size` of the command line: what it queues, and the first column.
unfoldable pub command_start : ℕ → ℕ → ℕ → ℕ → ℕ
command_start len cursor max_width last_start_col =
    let start_column = start_between len cursor last_start_col in
    let required_length = usize_sub cursor start_column in
    if ltb max_width required_length
    then wrapping_add start_column (required_length - max_width)
    else start_column

abbrev pub cursor_cell : List ℕ → Bool → List Queued
cursor_cell cell at_end =
    if at_end then print_styled_content (on Color.black Color.white) cell ∷ [] else []

unfoldable pub render_command : List ℕ → ℕ → ℕ → ℕ → Option (List Queued × ℕ)
render_command text cursor max_width last_start_col =
    let at_end = cursor == text_len text in
    let width = usize_sub (usize_sub max_width 1) (as_number at_end) in
    let start_column = command_start (text_len text) cursor width last_start_col in
    text_range text start_column (cmp_min (text_len text) (wrapping_add start_column width))
    >>= λ range. some (
      print_styled_content (on Color.white Color.blue) (b':' ∷ [])
          ∷ (print range ∷ cursor_cell (0x20 ∷ []) at_end),
      start_column,
    )

abbrev hex_text : ℕ → List ℕ
hex_text byte = lower_hex (byte / 16) ∷ lower_hex (byte % 16) ∷ []

abbrev dark_red : ContentStyle
dark_red = record { foreground_color = some Color.dark_red; background_color = none }

-- A piece of the pattern in hexadecimal, `at_cursor` or not.
unfoldable pub hex_piece : PatternPiece → Bool → Option ℕ → List Queued
hex_piece (literal byte) false hex_half = print (hex_text byte ++ (0x20 ∷ [])) ∷ []
hex_piece (literal byte) true (some half) =
    print (lower_hex (byte / 16) ∷ [])
    ∷ print_styled_content (on Color.black Color.white) (lower_hex (byte % 16) ∷ [])
    ∷ print (0x20 ∷ [])
    ∷ []
hex_piece (literal byte) true none =
    print_styled_content (on Color.black Color.white) (hex_text byte) ∷ print (0x20 ∷ []) ∷ []
hex_piece wildcard false hex_half = print_styled_content dark_red (codes "** ") ∷ []
hex_piece wildcard true hex_half =
    print_styled_content (on Color.dark_red Color.white) (codes "**") ∷ print (0x20 ∷ []) ∷ []

unfoldable pub hex_pieces : List PatternPiece → ℕ → ℕ → Option ℕ → List Queued
hex_pieces [] i normalized_cursor hex_half = []
hex_pieces (piece ∷ pieces) i normalized_cursor hex_half =
    hex_piece piece (normalized_cursor == i) hex_half
    ++ hex_pieces pieces (suc i) normalized_cursor hex_half

-- The first column where the cursor is within `max_width / 3` pieces.
unfoldable pub hex_start : ℕ → ℕ → ℕ → ℕ
hex_start cursor max_width start_column =
    if leb (wrapping_add start_column (max_width / 3)) cursor
    then wrapping_add (usize_sub cursor (max_width / 3)) 1
    else start_column

abbrev pieces_range : List PatternPiece → ℕ → ℕ → Option (List PatternPiece)
pieces_range pieces start end =
    if leb start end && leb end (length pieces)
    then some (take (end - start) (drop start pieces))
    else none

unfoldable pub render_hex : Search → ℕ → ℕ → Option (List Queued × ℕ)
render_hex s max_width start =
    let start_column = hex_start s.cursor max_width start in
    let last_byte = cmp_min (length s.pattern) (wrapping_add start_column (max_width / 3)) in
    pieces_range s.pattern start_column last_byte >>= λ shown. some (
      hex_pieces shown 0 (usize_sub s.cursor start_column) s.hex_half
          ++ (if s.cursor == length s.pattern
              then print_styled_content (on Color.black Color.white) (0x20 ∷ 0x20 ∷ [])
                ∷ print (0x20 ∷ [])
                ∷ []
              else []),
      start_column,
    )

abbrev printable : ℕ → Bool
printable byte = is_ascii_graphic byte || (byte == 0x20)

-- The columns that a piece takes.
unfoldable pub piece_length : PatternPiece → ℕ
piece_length wildcard = 1
piece_length (literal byte) = if printable byte then 1 else 4

unfoldable pub pieces_length : List PatternPiece → ℕ
pieces_length [] = 0
pieces_length (piece ∷ pieces) = piece_length piece + pieces_length pieces

-- How many pieces are dropped until `remaining_delta` columns are free.
unfoldable pub dropped : ℕ → List PatternPiece → Option ℕ
dropped remaining_delta [] = none
dropped zero (piece ∷ pieces) = some 0
dropped (suc delta) (piece ∷ pieces) =
    dropped (suc delta - piece_length piece) pieces >>= λ n. some (suc n)

-- A piece of the pattern as a character, or in brackets.
unfoldable pub text_piece : PatternPiece → Bool → List Queued
text_piece (literal byte) at_cursor =
    let cell = if printable byte then byte ∷ [] else b'<' ∷ (hex_text byte ++ (b'>' ∷ [])) in
    if at_cursor
    then print_styled_content (on Color.black Color.white) cell ∷ []
    else (if printable byte
        then print cell ∷ []
        else print_styled_content (on Color.black Color.dark_grey) cell ∷ [])
text_piece wildcard false = print_styled_content dark_red (b'*' ∷ []) ∷ []
text_piece wildcard true = print_styled_content (on Color.dark_red Color.white) (b'*' ∷ []) ∷ []

-- As many pieces as there are columns.
unfoldable pub text_pieces : List PatternPiece → ℕ → ℕ → ℕ → List Queued
text_pieces [] i normalized_cursor max_width = []
text_pieces (piece ∷ pieces) i normalized_cursor max_width =
    let rest = text_pieces pieces (suc i) normalized_cursor (max_width - piece_length piece) in
    if ltb max_width (piece_length piece)
    then []
    else text_piece piece (normalized_cursor == i) ++ rest

-- The first column where the pieces before the cursor fit.
unfoldable pub text_start : List PatternPiece → ℕ → ℕ → ℕ → Option ℕ
text_start pieces cursor max_width start_column =
    pieces_range pieces start_column cursor >>= λ before_cursor.
    if ltb max_width (pieces_length before_cursor)
    then (dropped (pieces_length before_cursor - max_width) (drop start_column pieces) >>= λ n.
        some (start_column + n))
    else some start_column

unfoldable pub render_text : Search → ℕ → ℕ → Option (List Queued × ℕ)
render_text s max_width start =
    let at_end = s.cursor == length s.pattern in
    let width = usize_sub max_width (as_number at_end) in
    text_start s.pattern s.cursor width start >>= λ start_column. some (
      text_pieces (drop start_column s.pattern) 0 (usize_sub s.cursor start_column) width
          ++ cursor_cell (0x20 ∷ []) at_end,
      start_column,
    )

-- `render_with_size` of the search.
unfoldable pub render_search : Search → ℕ → ℕ → Option (List Queued × ℕ)
render_search s max_width last_start_col =
    let width = usize_sub max_width 7 in
    let start = start_between (length s.pattern) s.cursor last_start_col in
    (if s.hex then render_hex s width start else render_text s width start)
    >>= λ (queued, start_column).
        some (
          print_styled_content (on Color.white Color.blue) (codes "search:") ∷ queued,
          start_column,
        )
