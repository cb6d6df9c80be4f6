-- ===== src/HexView.antt =====
-- src/hex_view/view.rs: `HexView`, what the terminal shows of the current buffer, and the event loop.
-- A method returns the new view and what it has the terminal do, in order; `none` is a panic. The
-- bytes per line are at least 1, and rows and columns are `u16`.
pub mod Events
pub mod Caret
pub mod Style
pub mod Marks
pub mod Chars
pub mod Properties
pub mod Rows
pub mod Paint
pub mod Lines
pub mod Keys
pub mod Quits
pub mod Prompt
pub mod StatusLine
pub mod Columns
use Prim.Native.Nat.{min as cmp_min, max as cmp_max}
use teehee.Common.{
  ℕ, zero, suc, ◌+◌, ◌-◌, ◌*◌, ◌/◌, ◌%◌, Bool, true, false, Option, none, some, List, [], ◌∷◌, ◌++◌,
  ◌==◌, leb, ltb, if◌then◌else◌, ◌>>=◌, length, wrapping_add, usize_mod, ℤ, pos, negsuc, as_isize,
  as_usize, ◌+ℤ◌, ◌-ℤ◌, wrap_isize,
}
use teehee.Region.{SelRegion, Direction, up, down, simple_move}
use teehee.Rope.{XiRope}
use teehee.Selection.{main_cursor_offset}
use teehee.Buffer
use teehee.Buffer.{Buffer}
use teehee.Buffers.{Buffers, current, set_current}
use teehee.Dirty.{Interval, DirtyBytes, change_in_place, change_length}
use teehee.Files.{FileSystem}
use teehee.Keymap.{KeyEvent, Event, key, resize, mouse, same_key, ctrl}
use teehee.Modes.{
  Mode, ModeTransition, no_change, new_mode, dirty_bytes, mode_and_dirty_bytes, mode_and_info, Info,
  normal_mode, takes_input,
}
use teehee.Modes.Pattern.{Matchers}
use teehee.Editor

-- Without the fields that only the drawing reads; the column `last_visible_prompt_col` is an argument
-- of what draws.
pub record HexView (X : XiRope) : Type 0 where
  pub buffers : Buffers X
  pub columns : ℕ
  pub rows : ℕ
  pub bytes_per_line : ℕ
  pub start_offset : ℕ
  pub mode : Mode
  pub info : Option Info

-- What the terminal is made to do; `draw` and `draw_rows` by their name, with the rows. Paint.antt has
-- what they queue, and where they panic.
pub data Output : Type 0 where
  draw : Output
  draw_rows : (invalidated_rows : List ℕ) → Output
  scroll_terminal_up scroll_terminal_down clear_line : ℕ → Output
  draw_statusline : Output

abbrev pub u16_sub : ℕ → ℕ → ℕ
u16_sub a b = (a + 65536 - b) % 65536

-- `start..start + n`
abbrev pub count_from : ℕ → ℕ → List ℕ
count_from start zero = []
count_from start (suc n) = start ∷ count_from (suc start) n

-- `BytePropertiesFormatter::height`
abbrev pub properties_height : ℕ
properties_height = 5

-- Division of `isize`, toward zero.
abbrev pub div_isize : ℤ → ℤ → ℤ
div_isize (pos a) (pos b) = pos (a / b)
div_isize (negsuc a) (pos b) = pos 0 -ℤ pos (suc a / b)
div_isize (pos a) (negsuc b) = pos 0 -ℤ pos (a / suc b)
div_isize (negsuc a) (negsuc b) = pos (suc a / suc b)

abbrev pub abs_usize : ℤ → ℕ
abs_usize (pos n) = n
abs_usize (negsuc n) = suc n

abbrev is_negative : ℤ → Bool
is_negative (pos n) = false
is_negative (negsuc n) = true

abbrev pub Drawn : XiRope → Type 0
Drawn X = Option (HexView X × List Output)

-- How many lines to scroll by, from a distance in bytes.
unfoldable pub lines_up : ℤ → ℕ → ℕ
lines_up delta bytes_per_line = abs_usize (
    div_isize (wrap_isize (wrap_isize (delta -ℤ as_isize bytes_per_line) +ℤ pos 1))
      (as_isize bytes_per_line))

unfoldable pub lines_down : ℤ → ℕ → ℕ
lines_down delta bytes_per_line = as_usize (
    div_isize (wrap_isize (wrap_isize (delta +ℤ as_isize bytes_per_line) -ℤ pos 1))
      (as_isize bytes_per_line))

module _ {X : XiRope} where
  abbrev pub with_buffers : Buffers X → ℕ → ℕ → HexView X
  with_buffers buffers columns rows = record {
    buffers = buffers;
    columns = columns;
    rows = rows;
    bytes_per_line = 0x10;
    start_offset = 0;
    mode = normal_mode;
    info = none;
  }

  -- For the current buffer `buf`.
  unfoldable pub visible_bytes : HexView X → Buffer X → Interval
  visible_bytes v buf = record {
    start = v.start_offset;
    end =
        cmp_min (wrapping_add (length buf.contents) 1)
          (wrapping_add v.start_offset (u16_sub v.rows 1 * v.bytes_per_line % usize_mod));
  }

  unfoldable pub offset_to_row : HexView X → ℕ → Option ℕ
  offset_to_row v offset =
      if ltb offset v.start_offset
      then none
      else (let normalized_offset = offset - v.start_offset in
          let max_bytes = v.bytes_per_line * v.rows % usize_mod in
          if ltb max_bytes normalized_offset
          then none
          else some (normalized_offset / v.bytes_per_line % 65536))

  -- The rest of `scroll_down`, `self.start_offset` being changed.
  scrolled_down : HexView X → ℕ → Drawn X
  scrolled_down v line_count =
      if ltb (u16_sub v.rows 1) line_count
      then some (v, draw ∷ [])
      else (let first = u16_sub (u16_sub v.rows 1) (line_count % 65536) in
          let last = u16_sub v.rows 2 in
          some (
            v,
            scroll_terminal_up (line_count % 65536)
                ∷ clear_line (u16_sub v.rows 2)
                ∷ draw_rows (count_from first (suc last - first) ++ count_from 0 properties_height)
                ∷ [],
          ))

  unfoldable pub scroll_down : HexView X → Buffer X → ℕ → Drawn X
  unfolding scrolled_down
  scroll_down v buf line_count =
      if leb (length buf.contents) (visible_bytes v buf).end
      then some (v, [])
      else scrolled_down
          (record v { start_offset = wrapping_add v.start_offset (0x10 * line_count % usize_mod) })
          line_count

  scrolled_up : HexView X → ℕ → Drawn X
  scrolled_up v line_count =
      if ltb (u16_sub v.rows 1) line_count
      then some (v, draw ∷ [])
      else some (
        v,
        scroll_terminal_down (line_count % 65536)
            ∷ clear_line (u16_sub v.rows 1)
            ∷ draw_rows (count_from 0 ((line_count + properties_height) % 65536))
            ∷ [],
      )

  unfoldable pub scroll_up : HexView X → ℕ → Drawn X
  unfolding scrolled_up
  scroll_up v line_count =
      if ltb v.start_offset (0x10 * line_count % usize_mod)
      then some (v, [])
      else scrolled_up (record v { start_offset = v.start_offset - 0x10 * line_count % usize_mod })
          line_count

  scroll_by : HexView X → Buffer X → ℤ → Drawn X
  scroll_by v buf delta =
      if is_negative delta
      then scroll_up v (lines_up delta v.bytes_per_line)
      else scroll_down v buf (lines_down delta v.bytes_per_line)

  -- From the offset of the main caret.
  scroll_to : HexView X → Buffer X → ℕ → Drawn X
  unfolding scroll_by
  scroll_to v buf caret =
      let visible = visible_bytes v buf in
      if ltb caret visible.start
      then scroll_by v buf (wrap_isize (as_isize caret -ℤ as_isize visible.start))
      else (if leb visible.end caret
          then scroll_by v buf
              (wrap_isize (as_isize caret -ℤ wrap_isize (as_isize visible.end -ℤ pos 1)))
          else some (v, []))

  unfoldable pub maybe_update_offset : HexView X → Drawn X
  unfolding scroll_to
  maybe_update_offset v = current v.buffers >>= λ buf.
      if length buf.contents == 0
      then some (record v { start_offset = 0 }, [])
      else (main_cursor_offset buf.selection >>= λ caret. scroll_to v buf caret)

  -- Where the screen starts to show the main caret.
  unfoldable pub offset_for : HexView X → Buffer X → ℕ → ℕ
  offset_for v buf caret =
      let visible = visible_bytes v buf in
      if ltb caret visible.start
      then caret - caret % v.bytes_per_line
      else (if leb visible.end caret
          then wrapping_add (caret - caret % v.bytes_per_line) v.bytes_per_line
            - (v.rows + usize_mod - 1) % usize_mod * v.bytes_per_line % usize_mod
          else v.start_offset)

  unfoldable pub maybe_update_offset_and_draw : HexView X → Drawn X
  maybe_update_offset_and_draw v = current v.buffers >>= λ buf.
      main_cursor_offset buf.selection >>= λ caret.
      some (record v { start_offset = offset_for v buf caret }, draw ∷ [])
