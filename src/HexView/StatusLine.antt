-- ===== src/HexView/StatusLine.antt =====
-- src/hex_view/view.rs: the status line. `none` is a panic.
pub mod Width
use teehee.Common.{
  ℕ, suc, ◌+◌, ◌-◌, ◌%◌, Bool, true, false, Option, none, some, List, [], ◌∷◌, ◌++◌, ◌==◌,
  if◌then◌else◌, ◌>>=◌, length, wrapping_add,
}
use teehee.Rope.{XiRope}
use teehee.Selection.{main_cursor_offset}
use teehee.Buffer.{Buffer, FilePath}
use teehee.Buffers.{current}
use teehee.Modes.{Mode, Info}
use teehee.Modes.Names.{name, info_text, display, lower_hex_display}
use teehee.Modes.Search.{Search}
use teehee.Modes.Text.{codes, text_len}
use teehee.HexView.{HexView, u16_sub}
use teehee.HexView.Style.{
  Color, ContentStyle, Queued, print_styled_content, move_to, clear_current_line, ansi_value,
}
use teehee.HexView.Prompt.{render_command, render_search, on}

-- `LEFTARROW`
abbrev pub left_arrow : List ℕ
left_arrow = 0xE0B2 ∷ []

-- `Buffer::name`, where a path is shown as it is.
unfoldable pub buffer_name : Option FilePath → List ℕ
buffer_name none = codes "*scratch*"
buffer_name (some path) = path

abbrev pub spaced : List ℕ → List ℕ
spaced text = 0x20 ∷ (text ++ (0x20 ∷ []))

abbrev pub dirty_mark : Bool → List ℕ
dirty_mark dirty = if dirty then codes "[+]" else []

-- How many regions there are, and which one is the main region.
unfoldable pub selection_text : ℕ → ℕ → List ℕ
selection_text count main_selection =
    0x20
    ∷ (display count
        ++ (codes " sels (" ++ (display (wrapping_add main_selection 1) ++ codes ") ")))

-- The offset of the main caret and the last offset, or that there is none.
unfoldable pub offset_text : ℕ → ℕ → List ℕ
offset_text caret len =
    if len == 0
    then codes " empty "
    else 0x20 ∷ (lower_hex_display caret ++ (b'/' ∷ (lower_hex_display (len - 1) ++ (0x20 ∷ []))))

-- By the bytes of the texts.
unfoldable pub powerline_length : Option FilePath → Bool → List ℕ → ℕ → ℕ → ℕ → ℕ → ℕ
powerline_length path dirty mode_name count main_selection caret len =
    1
    + (2 + text_len (buffer_name path))
    + (if dirty then 3 else 0)
    + 1
    + (2 + text_len mode_name)
    + 1
    + text_len (selection_text count main_selection)
    + 1
    + text_len (offset_text caret len)

abbrev pub caret_of : {X : XiRope} → Buffer X → Option ℕ
caret_of buf = if length buf.contents == 0 then some 0 else main_cursor_offset buf.selection

abbrev dark_style : Color → ContentStyle
dark_style background = on (ansi_value 16) background

-- The pieces of the line, with `mode_name` and the caret.
unfoldable pub powerline : Option FilePath → Bool → List ℕ → ℕ → ℕ → ℕ → ℕ → List Queued
powerline path dirty mode_name count main_selection caret len =
    print_styled_content (record { foreground_color = some Color.red; background_color = none })
      left_arrow
    ∷ print_styled_content (on Color.white Color.red)
        (spaced (buffer_name path ++ dirty_mark dirty))
    ∷ print_styled_content (on Color.dark_yellow Color.red) left_arrow
    ∷ print_styled_content (dark_style Color.dark_yellow) (spaced mode_name)
    ∷ print_styled_content (on Color.white Color.dark_yellow) left_arrow
    ∷ print_styled_content (dark_style Color.white) (selection_text count main_selection)
    ∷ print_styled_content (on Color.blue Color.white) left_arrow
    ∷ print_styled_content (on Color.white Color.blue) (offset_text caret len)
    ∷ []

-- With the first column of the prompt that was shown last, and the next.
unfoldable pub prompter : Mode → ℕ → ℕ → Option (Option (List Queued × ℕ))
prompter (Mode.search pattern cursor hex hex_half next) columns last_visible_prompt_col =
    render_search
      (record { pattern = pattern; cursor = cursor; hex = hex; hex_half = hex_half; next = next })
      columns last_visible_prompt_col
    >>= λ r. some (some r)
prompter (Mode.command text cursor) columns last_visible_prompt_col =
    render_command text cursor columns last_visible_prompt_col >>= λ r. some (some r)
prompter m columns last_visible_prompt_col = some none

module _ {X : XiRope} where
  unfoldable pub calculate_powerline_length : HexView X → Option ℕ
  calculate_powerline_length v = current v.buffers >>= λ buf. caret_of buf >>= λ caret. some (
      powerline_length buf.path buf.dirty (name v.mode) (length buf.selection.regions)
        buf.selection.main_selection caret (length buf.contents))

  unfoldable pub draw_statusline_here : HexView X → Option (List Queued)
  draw_statusline_here v = current v.buffers >>= λ buf. caret_of buf >>= λ caret. some (
      powerline buf.path buf.dirty (name v.mode) (length buf.selection.regions)
        buf.selection.main_selection caret (length buf.contents))

  -- The message, and the column where the line begins; the cast to `u16` wraps.
  unfoldable pub line_start : HexView X → ℕ → List Queued
  line_start v line_length =
      let start = move_to (u16_sub v.columns (line_length % 65536)) v.rows in
      elim v.info [
        | some info ↦
            move_to 0 (u16_sub v.rows 1)
            ∷ clear_current_line
            ∷ print_styled_content (on Color.white Color.blue) (info_text info)
            ∷ start
            ∷ []
        | none ↦ start ∷ clear_current_line ∷ []
      ]

  unfoldable pub prompted : HexView X → ℕ → Option (List Queued × ℕ)
  unfolding prompter
  prompted v last_visible_prompt_col = prompter v.mode v.columns last_visible_prompt_col >>= λ r.
      some (elim r [
        | none ↦ ([], last_visible_prompt_col)
        | some (queued, col) ↦ (move_to 0 v.rows ∷ queued, col)
      ])

  unfoldable pub draw_statusline : HexView X → ℕ → Option (List Queued × ℕ)
  unfolding prompted
  draw_statusline v last_visible_prompt_col = calculate_powerline_length v >>= λ line_length.
      draw_statusline_here v >>= λ line. prompted v last_visible_prompt_col >>= λ (prompt, col).
      some (line_start v line_length ++ (line ++ prompt), col)
