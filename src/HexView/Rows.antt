-- ===== src/HexView/Rows.antt =====
-- src/hex_view/view.rs: the rows of the screen. `none` is a panic; subtraction of `usize` wraps, and a
-- padding that is too long then panics.
pub mod Width
use Prim.Native.Nat.{min as cmp_min}
use teehee.Common.{
  ℕ, zero, suc, ◌+◌, ◌-◌, ◌*◌, ◌/◌, ◌%◌, Bool, true, false, ◌&&◌, ◌||◌, Option, none, some, List,
  [], ◌∷◌, ◌++◌, length, take, drop, ltb, leb, ◌==◌, if◌then◌else◌, ◌>>=◌, wrapping_add, usize_mod,
}
use teehee.Region.{SelRegion}
use teehee.Rope.{Rope, XiRope}
use teehee.Selection.{regions_in_range}
use teehee.Buffer.{Buffer, OverflowSelectionStyle, tail, slice, overflow_sel_style}
use teehee.Dirty.{Interval}
use teehee.Modes.{has_half_cursor}
use teehee.HexView.{HexView, visible_bytes, offset_to_row}
use teehee.HexView.Style.{
  Color, StylingCommand, unstyled, with_start_style, with_mid_style, with_end_style,
  with_mid_to_end, take_end_only, Queued, set_foreground_color, print, move_to, clear_all,
  clear_until_new_line, draw, draw_hex_byte, draw_ascii_byte, make_padding,
}
use teehee.HexView.Marks.{default_style, empty_caret_style, mark_commands}
use teehee.HexView.Properties
use teehee.HexView.Properties.{BytePropertiesFormatter, are_all_printed, draw_line}

-- `range`, where it lies in the slice.
abbrev get_range {ℓ} : {A : Type ℓ} → List A → ℕ → ℕ → Option (List A)
get_range xs start end =
    if leb start end && leb end (length xs) then some (take (end - start) (drop start xs)) else none

abbrev pub usize_sub : ℕ → ℕ → ℕ
usize_sub a b = (a + usize_mod - b) % usize_mod

-- Bytes with their styles, as long as there are both.
unfoldable pub draw_hex_row : List ℕ → List StylingCommand → List Queued
draw_hex_row [] styles = []
draw_hex_row (byte ∷ bytes) [] = []
draw_hex_row (byte ∷ bytes) (style ∷ styles) = draw_hex_byte byte style ++ draw_hex_row bytes styles

unfoldable pub draw_ascii_row : List ℕ → List StylingCommand → List Queued
draw_ascii_row [] styles = []
draw_ascii_row (byte ∷ bytes) [] = []
draw_ascii_row (byte ∷ bytes) (style ∷ styles) =
    draw_ascii_byte byte style ++ draw_ascii_row bytes styles

abbrev pub draw_separator : List Queued
draw_separator = set_foreground_color Color.white ∷ print (0x2502 ∷ 0x20 ∷ []) ∷ []

-- The bytes that a row lacks.
unfoldable pub lacking : ℕ → List ℕ → ℕ
lacking bytes_per_line [] = bytes_per_line
lacking bytes_per_line (b ∷ bytes) = usize_sub bytes_per_line (length (b ∷ bytes)) % bytes_per_line

-- The cell of the caret behind the last byte, and the padding, of the two columns.
unfoldable pub hex_padding : ℕ → List ℕ → Option StylingCommand → Option (List Queued)
hex_padding bytes_per_line bytes none =
    make_padding (lacking bytes_per_line bytes * 3) >>= λ padding. some (print padding ∷ [])
hex_padding bytes_per_line bytes (some style_cmd) =
    make_padding (usize_sub (lacking bytes_per_line bytes * 3) 2) >>= λ padding. some (
      draw (0x20 ∷ []) (with_mid_to_end style_cmd)
      ++ (draw (0x20 ∷ []) (take_end_only style_cmd) ++ (print padding ∷ [])))

unfoldable pub ascii_padding : ℕ → List ℕ → Option StylingCommand → Option (List Queued)
ascii_padding bytes_per_line bytes none =
    make_padding (lacking bytes_per_line bytes + 1) >>= λ padding. some (print padding ∷ [])
ascii_padding bytes_per_line bytes (some style_cmd) =
    make_padding (usize_sub (lacking bytes_per_line bytes + 1) 1) >>= λ padding.
    some (draw (0x20 ∷ []) (take_end_only style_cmd) ++ (print padding ∷ []))

-- The columns of a row in front of the properties.
unfoldable pub draw_columns :
    ℕ → List ℕ → List StylingCommand → Option StylingCommand → Option (List Queued)
draw_columns bytes_per_line bytes styles end_style =
    hex_padding bytes_per_line bytes end_style >>= λ hex.
    ascii_padding bytes_per_line bytes end_style >>= λ ascii. some (
      print (0x20 ∷ [])
      ∷ (draw_hex_row bytes styles
          ++ (hex
              ++ (draw_separator ++ (draw_ascii_row bytes styles ++ (ascii ++ draw_separator))))))

-- Where the bytes from an offset on start in steps.
abbrev starts : ℕ → ℕ → ℕ → List ℕ
starts zero i step = []
starts (suc n) i step = i ∷ starts n (i + step) step

-- `(start..end).step_by(step)`
abbrev pub step_by : Interval → ℕ → List ℕ
step_by range step = starts ((range.end - range.start + step - 1) / step) range.start step

abbrev contains : List ℕ → ℕ → Bool
contains [] row = false
contains (r ∷ rows) row = (r == row) || contains rows row

abbrev find_main : List SelRegion → Option SelRegion
find_main [] = none
find_main (r ∷ rs) = let rest = find_main rs in if r.main then some r else rest

-- The four bytes from the caret of a region on, as far as they are visible.
abbrev from_caret : Rope → ℕ → Option SelRegion → Option (List ℕ)
from_caret visible start_index none = some []
from_caret visible start_index (some v) =
    let start = usize_sub v.caret start_index in
    let end =
      if ltb (length visible) (wrapping_add start 4)
      then length visible
      else wrapping_add start 4 in
    get_range visible start end

module _ {X : XiRope} (debug_char : ℕ → List ℕ) (v : HexView X) (buf : Buffer X) where
  unfoldable pub draw_row :
      List ℕ
      → ℕ
      → List StylingCommand
      → Option StylingCommand
      → BytePropertiesFormatter
      → Option (List Queued × BytePropertiesFormatter)
  draw_row bytes offset styles end_style byte_properties = offset_to_row v offset >>= λ row_num.
      draw_columns v.bytes_per_line bytes styles end_style >>= λ columns.
      draw_line debug_char byte_properties >>= λ (line, byte_properties').
      some
        ((move_to 0 row_num ∷ columns) ++ (line ++ (clear_until_new_line ∷ [])), byte_properties')

  -- With the caret style of a caret behind the last byte.
  abbrev overflow_style : OverflowSelectionStyle → StylingCommand
  overflow_style tail = unstyled
  overflow_style _ =
      if has_half_cursor v.mode
      then with_mid_style unstyled empty_caret_style
      else with_start_style unstyled empty_caret_style

  abbrev end_style_of : Option OverflowSelectionStyle → Option StylingCommand
  end_style_of none = none
  end_style_of (some style) = some (with_end_style (overflow_style style) default_style)

  -- The outer `none` is a panic.
  unfoldable pub overflow_cursor_style : Option (Option StylingCommand)
  overflow_cursor_style = overflow_sel_style X buf >>= λ style. some (end_style_of style)

  unfoldable pub current_bytes : Interval → Rope → Option (List ℕ)
  current_bytes visible bytes =
      regions_in_range buf.selection visible.start visible.end >>= λ regions.
      from_caret bytes visible.start (find_main regions)

  -- A row of the visible bytes that starts at `i`.
  unfoldable pub draw_bytes :
      Interval
      → Rope
      → List StylingCommand
      → ℕ
      → BytePropertiesFormatter
      → Option (List Queued × BytePropertiesFormatter)
  draw_bytes visible bytes styles i byte_properties =
      let normalized_i = i - visible.start in
      let normalized_end = cmp_min (length bytes) (normalized_i + v.bytes_per_line) in
      get_range bytes normalized_i normalized_end >>= λ row.
      get_range styles normalized_i normalized_end >>= λ row_styles.
      (if ltb (length buf.contents) (i + v.bytes_per_line)
        then overflow_cursor_style
        else some none)
      >>= λ end_style. draw_row row i row_styles end_style byte_properties

  -- The rows that `wanted` names.
  unfoldable pub draw_each :
      (ℕ → Bool)
      → Interval
      → Rope
      → List StylingCommand
      → List ℕ
      → BytePropertiesFormatter
      → Option (List Queued × BytePropertiesFormatter)
  draw_each wanted visible bytes styles [] byte_properties = some ([], byte_properties)
  draw_each wanted visible bytes styles (i ∷ rest) byte_properties = offset_to_row v i >>= λ row.
      (if wanted row
        then draw_bytes visible bytes styles i byte_properties
        else some ([], byte_properties))
      >>= λ (queued, byte_properties').
          draw_each wanted visible bytes styles rest byte_properties'
          >>= λ (more, byte_properties''). some (queued ++ more, byte_properties'')

  -- The rows below, until all properties are printed: `n` rounds are enough for `n` lines.
  unfoldable pub draw_rest : ℕ → ℕ → BytePropertiesFormatter → Option (List Queued)
  draw_rest zero offset byte_properties = some []
  draw_rest (suc n) offset byte_properties =
      let go : Option (List Queued) =
        draw_row [] offset [] none byte_properties >>= λ (queued, byte_properties').
        draw_rest n (offset + v.bytes_per_line) byte_properties' >>= λ more.
        some (queued ++ more) in
      if are_all_printed byte_properties then some [] else go

  -- The offset of the row behind the visible bytes.
  abbrev row_behind : ℕ → ℕ
  row_behind end_index =
      let a = end_index / v.bytes_per_line in
      (if end_index % v.bytes_per_line == 0 then a else a + 1) * v.bytes_per_line

  -- `draw_rows` for the rows that are invalidated, and the rows of `draw` for all.
  unfoldable pub draw_wanted : (ℕ → Bool) → Option (List Queued)
  draw_wanted wanted =
      let visible = visible_bytes v buf in
      let bytes = slice buf.contents visible.start visible.end in
      mark_commands v buf visible >>= λ styles. current_bytes visible bytes >>= λ at_caret.
      Properties.new at_caret >>= λ byte_properties.
      draw_each wanted visible bytes styles (step_by visible v.bytes_per_line) byte_properties
      >>= λ (queued, byte_properties').
          draw_rest 5 (row_behind visible.end) byte_properties' >>= λ more. some (queued ++ more)

  -- `draw_rows`
  abbrev pub draw_rows : List ℕ → Option (List Queued)
  draw_rows invalidated_rows = draw_wanted (contains invalidated_rows)

  -- `draw`, up to the status line.
  unfoldable pub draw_all : Option (List Queued)
  draw_all = draw_wanted (λ row. true) >>= λ queued. some (move_to 0 0 ∷ clear_all ∷ queued)
