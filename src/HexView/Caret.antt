-- ===== src/HexView/Caret.antt =====
-- After a change of length, the view shows the main caret.
use Prim.Native.Nat.{min as cmp_min}
use native.Mathlib.Nat.{mod-lt, mod-le, mod-eq_of_lt}
use teehee.Common.{
  ℕ, zero, suc, ◌+◌, ◌-◌, ◌*◌, ◌%◌, ◌<◌, ◌≤◌, ◌≡◌, refl, some, [], ◌∷◌, ltb, leb, length, arith,
  wrapping_add, usize_mod, if◌then◌else◌,
}
use teehee.Rope.{XiRope}
use teehee.Buffer.{Buffer}
use teehee.Buffers.{current}
use teehee.Selection.{main_cursor_offset}
use teehee.HexView.{HexView, draw, u16_sub, visible_bytes, offset_for, maybe_update_offset_and_draw}

-- The screen has a line above the status line, the offsets on it and the document stay in usize.
pub record Fits {X : XiRope} (v : HexView X) (buf : Buffer X) : Type 0 where
  pub rows_ge : 2 ≤ v.rows
  pub rows_lt : v.rows < 65536
  pub line_ge : 1 ≤ v.bytes_per_line
  pub offsets_lt : v.start_offset + v.rows * v.bytes_per_line < usize_mod
  pub document_lt : length buf.contents + v.rows * v.bytes_per_line < usize_mod

screen_ge : (rows line : ℕ) → 2 ≤ rows → line ≤ (rows - 1) * line
screen_ge rows line h = grind arith

screen_le : (rows line : ℕ) → 2 ≤ rows → (rows - 1) * line + line ≡ rows * line
screen_le zero line h = absurd (omega arith)
screen_le (suc rows) line h =
    let above : suc rows - 1 ≡ rows = omega arith in rw above (grind arith)

-- In numbers, with the offset of the caret in its line.
shown :
    (start screen line caret len in_line : ℕ)
    → in_line < line
    → in_line ≤ caret
    → line ≤ screen
    → caret ≤ len
    → start + screen < usize_mod
    → len + screen + line < usize_mod
    → let o =
        if ltb caret start
        then caret - in_line
        else (if leb (cmp_min (len + 1) (start + screen)) caret
            then wrapping_add (caret - in_line) line - screen
            else start) in
      (o ≤ caret) × (caret < o + screen) × (o + screen < usize_mod)
shown start screen line caret len in_line a b c d e f = ground arith

module _ {X : XiRope} (v : HexView X) (buf : Buffer X) (fits : Fits v buf) where
  abbrev screen : ℕ
  screen = (v.rows - 1) * v.bytes_per_line

  screen_lt : screen < usize_mod
  screen_lt = omega (arith, screen_le v.rows v.bytes_per_line fits.rows_ge, fits.offsets_lt)

  rows_above : u16_sub v.rows 1 ≡ v.rows - 1
  rows_above = omega (arith, fits.rows_ge, fits.rows_lt)

  rows_above_usize : (v.rows + usize_mod - 1) % usize_mod ≡ v.rows - 1
  rows_above_usize = omega (arith, fits.rows_ge, fits.rows_lt)

  screen_mod : screen % usize_mod ≡ screen
  screen_mod = mod-eq_of_lt screen_lt

  visible_bytes-at :
      (start : ℕ)
      → start + screen < usize_mod
      → visible_bytes (record v { start_offset = start }) buf
        ≡ record { start = start; end = cmp_min (length buf.contents + 1) (start + screen) }
  unfolding visible_bytes
  visible_bytes-at start h =
      let ends : wrapping_add (length buf.contents) 1 ≡ length buf.contents + 1 = mod-eq_of_lt (
        omega (
          arith,
          fits.document_lt,
          fits.rows_ge,
          screen_ge v.rows v.bytes_per_line fits.rows_ge,
          fits.line_ge,
          screen_le v.rows v.bytes_per_line fits.rows_ge,
        )) in
      let last : wrapping_add start screen ≡ start + screen = mod-eq_of_lt h in
      rw (rows_above, screen_mod, ends, last) refl

  offset_for-shows :
      (caret : ℕ)
      → caret ≤ length buf.contents
      → let start = offset_for v buf caret in
        (start ≤ caret) × (caret < start + screen) × (start + screen < usize_mod)
  unfolding offset_for
  offset_for-shows caret h =
      let bound : v.start_offset + screen < usize_mod =
        omega (arith, fits.offsets_lt, screen_le v.rows v.bytes_per_line fits.rows_ge) in
      let room : length buf.contents + screen + v.bytes_per_line < usize_mod =
        omega (arith, fits.document_lt, screen_le v.rows v.bytes_per_line fits.rows_ge) in
      rw (visible_bytes-at v.start_offset bound, rows_above_usize, screen_mod)
        (shown v.start_offset screen v.bytes_per_line caret (length buf.contents)
          (caret % v.bytes_per_line) (mod-lt caret fits.line_ge) (mod-le caret v.bytes_per_line)
          (screen_ge v.rows v.bytes_per_line fits.rows_ge) h bound room)

  -- The view, after a change of length of a document that it shows on lines above the status line
  -- and where no offset overflows, starts where the main caret is among the visible bytes, and
  -- draws. The caret is in the document or right behind it.
  pub maybe_update_offset_and_draw-shows :
      (caret : ℕ)
      → current v.buffers ≡ some buf
      → main_cursor_offset buf.selection ≡ some caret
      → caret ≤ length buf.contents
      → (v' : HexView X) × (maybe_update_offset_and_draw v ≡ some (v', draw ∷ []))
        × (v'.buffers ≡ v.buffers)
        × ((visible_bytes v' buf).start ≤ caret)
        × (caret < (visible_bytes v' buf).end)
  unfolding maybe_update_offset_and_draw
  maybe_update_offset_and_draw-shows caret e e' h =
      let (starts, ends, bound) = offset_for-shows caret h in
      let visible = visible_bytes-at (offset_for v buf caret) bound in
      (
        record v { start_offset = offset_for v buf caret },
        rw (e, e') refl,
        refl,
        rw visible starts,
        rw visible (omega arith),
      )
