-- ===== src/HexView/StatusLine/Width.antt =====
-- The status line takes as many columns as it is measured to.
use mathlib.Core.List.{append_assoc}
use teehee.Common.{
  ap, Option-cases, ℕ, ◌+◌, ◌-◌, ◌%◌, ◌≤◌, ◌<◌, ◌≡◌, refl, inl, inr, Bool, true, false, Option,
  some, List, [], ◌∷◌, ◌++◌, length, length-append, wrapping_add, ◌==◌, Bool-cases, if◌then◌else◌,
  arith,
}
use teehee.Rope.{XiRope}
use teehee.Buffer.{Buffer, FilePath}
use teehee.Buffers.{current}
use teehee.HexView.{HexView, u16_sub}
use teehee.HexView.StatusLine.{
  calculate_powerline_length, draw_statusline_here, draw_statusline, line_start, prompted, caret_of,
}
use teehee.Modes.{Mode}
use teehee.Modes.Names.{name, display, lower_hex_display}
use teehee.Modes.Text.{codes}
use teehee.Modes.Command.Line.{Ascii, Ascii-append, text_len-Ascii}
use teehee.Modes.Names.Letters.{
  ascii, literal-Ascii, display-Ascii, lower_hex_display-Ascii, name-Ascii,
}
use teehee.HexView.Columns.{columns, columns_of}
use teehee.HexView.Style.{
  Queued, move_to, set_foreground_color, set_background_color, print, print_styled_content,
  clear_all, clear_current_line, clear_until_new_line, scroll_up, scroll_down,
}
use teehee.HexView.StatusLine.{
  buffer_name, dirty_mark, selection_text, offset_text, powerline_length, powerline,
}

selection_text-Ascii : (count main_selection : ℕ) → Ascii (selection_text count main_selection)
unfolding selection_text ascii
selection_text-Ascii count main_selection = (
  omega arith,
  Ascii-append (display count) _ (display-Ascii count) (
      Ascii-append (codes " sels (") _ (literal-Ascii (codes " sels (") refl) (
        Ascii-append (display (wrapping_add main_selection 1)) _
          (display-Ascii (wrapping_add main_selection 1)) (literal-Ascii (codes ") ") refl))),
)

offset_text-Ascii : (caret len : ℕ) → Ascii (offset_text caret len)
unfolding offset_text ascii
offset_text-Ascii caret len = elim (Bool-cases (len == 0)) [
  | inl e ↦ rw e (literal-Ascii (codes " empty ") refl)
  | inr e ↦ rw e (
    omega arith,
    Ascii-append (lower_hex_display caret) _ (lower_hex_display-Ascii caret) (
      omega arith,
      Ascii-append (lower_hex_display (len - 1)) _ (lower_hex_display-Ascii (len - 1))
          (omega arith, tt),
    ),
  )
]

length-dirty_mark : (dirty : Bool) → length (dirty_mark dirty) ≡ (if dirty then 3 else 0)
length-dirty_mark true = refl
length-dirty_mark false = refl

-- What is measured is what is printed, for a path in ASCII.
columns-powerline :
    (path : Option FilePath) (dirty : Bool) (m : Mode) (count main_selection caret len : ℕ)
    → Ascii (buffer_name path)
    → columns (powerline path dirty (name m) count main_selection caret len)
      ≡ powerline_length path dirty (name m) count main_selection caret len
unfolding powerline powerline_length
columns-powerline path dirty m count main_selection caret len h =
    let a = text_len-Ascii (buffer_name path) h in
    let b = text_len-Ascii (name m) (name-Ascii m) in
    let c =
      text_len-Ascii (selection_text count main_selection)
        (selection_text-Ascii count main_selection) in
    let d = text_len-Ascii (offset_text caret len) (offset_text-Ascii caret len) in
    rw (a, b, c, d)
      (omega (
        arith,
        length-append (buffer_name path ++ dirty_mark dirty) (0x20 ∷ []),
        length-append (buffer_name path) (dirty_mark dirty),
        length-append (name m) (0x20 ∷ []),
        length-dirty_mark dirty,
      ))

ends_at :
    (width len printed : ℕ)
    → printed ≡ len
    → len ≤ width
    → width < 65536
    → u16_sub width (len % 65536) + printed ≡ width
ends_at width len printed e fits small = omega arith

-- The column and the row of the terminal's cursor behind what is queued, for texts without ends of
-- lines that do not reach over the last column.
abbrev pub place : List Queued → ℕ × ℕ → ℕ × ℕ
place [] at = at
place (move_to x y ∷ qs) at = place qs (x, y)
place (q ∷ qs) (x, y) = place qs (x + columns_of q, y)

place-append : (ps qs : List Queued) (at : ℕ × ℕ) → place (ps ++ qs) at ≡ place qs (place ps at)
place-append [] qs at = refl
place-append (move_to x y ∷ ps) qs at = place-append ps qs (x, y)
place-append (set_foreground_color c ∷ ps) qs at = place-append ps qs _
place-append (set_background_color c ∷ ps) qs at = place-append ps qs _
place-append (print text ∷ ps) qs at = place-append ps qs _
place-append (print_styled_content style text ∷ ps) qs at = place-append ps qs _
place-append (clear_all ∷ ps) qs at = place-append ps qs _
place-append (clear_current_line ∷ ps) qs at = place-append ps qs _
place-append (clear_until_new_line ∷ ps) qs at = place-append ps qs _
place-append (scroll_up n ∷ ps) qs at = place-append ps qs _
place-append (scroll_down n ∷ ps) qs at = place-append ps qs _

-- The line moves the cursor by its columns.
place-powerline :
    (path : Option FilePath) (dirty : Bool) (mode_name : List ℕ)
    (count main_selection caret len x y : ℕ)
    → let line = powerline path dirty mode_name count main_selection caret len in
      place line (x, y) ≡ (x + columns line, y)
unfolding powerline
place-powerline path dirty mode_name count main_selection caret len x y =
    ap (λ z. (z, y)) (omega arith)

place-line_start :
    {X : XiRope} (v : HexView X) (len : ℕ) (at : ℕ × ℕ)
    → place (line_start v len) at ≡ (u16_sub v.columns (len % 65536), v.rows)
unfolding line_start
place-line_start v len at = elim (Option-cases v.info) [
  | inl e ↦ rw e (ap (λ z. (z, v.rows)) (omega arith))
  | inr (info, e) ↦ rw e refl
]

-- The status line, in front of the prompt.
pub record Fills {X : XiRope} (v : HexView X) (last : ℕ) (prompt : List Queued) (col : ℕ)
    (at : ℕ × ℕ) : Type 0 where
  pub status : List Queued
  pub line : List Queued
  pub line_length : ℕ
  pub measured : calculate_powerline_length v ≡ some line_length
  pub drawn : draw_statusline_here v ≡ some line
  pub prints : columns line ≡ line_length
  pub shows : draw_statusline v last ≡ some (status ++ prompt, col)
  pub holds : (before : List Queued) × (status ≡ before ++ line)
  pub ends : place status at ≡ (v.columns, v.rows)

-- For a current buffer with a path in ASCII or none, a line that is no longer than the terminal is
-- wide, and a prompt that is drawn: `calculate_powerline_length` returns the number of columns that
-- what `draw_statusline_here` prints takes, whatever the mode is. `draw_statusline` returns, and
-- queues a status that ends with that line, and then the prompt. Wherever the cursor of the terminal
-- was, it is behind the last column, in the row of the status line, where the status is printed.
pub draw_statusline-Fills :
    {X : XiRope} (v : HexView X) (buf : Buffer X) (caret last : ℕ) (prompt : List Queued) (col : ℕ)
    (at : ℕ × ℕ)
    → current v.buffers ≡ some buf
    → caret_of buf ≡ some caret
    → prompted v last ≡ some (prompt, col)
    → Ascii (buffer_name buf.path)
    → v.columns < 65536
    → powerline_length buf.path buf.dirty
        (name v.mode)
        (length buf.selection.regions)
        buf.selection.main_selection
        caret
        (length buf.contents)
      ≤ v.columns
    → Fills v last prompt col at
unfolding calculate_powerline_length draw_statusline_here draw_statusline
draw_statusline-Fills v buf caret last prompt col at e c p ascii small fits =
    let count : ℕ = length buf.selection.regions in
    let main : ℕ = buf.selection.main_selection in
    let len : ℕ = length buf.contents in
    let line : List Queued = powerline buf.path buf.dirty (name v.mode) count main caret len in
    let line_length : ℕ = powerline_length buf.path buf.dirty (name v.mode) count main caret len in
    let start : List Queued = line_start v line_length in
    let prints = columns-powerline buf.path buf.dirty v.mode count main caret len ascii in
    let ends = ends_at v.columns line_length (columns line) prints fits small in
    record {
      status = start ++ line;
      line = line;
      line_length = line_length;
      measured = rw (e, c) refl;
      drawn = rw (e, c) refl;
      prints = prints;
      shows = rw (e, c, p, append_assoc start line prompt) refl;
      holds = (start, refl);
      ends =
          rw
            (
              place-append start line at,
              place-line_start v line_length at,
              place-powerline buf.path buf.dirty (name v.mode) count main caret len
                  (u16_sub v.columns (line_length % 65536)) v.rows,
              ends,
            )
            refl;
    }
