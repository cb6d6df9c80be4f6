-- ===== src/Tests/Screen.antt =====
-- src/hex_view/view.rs: the screen of a concrete view is drawn.
use teehee.Common.{ℕ, ◌≡◌, refl, List, some, none, true, [], ◌∷◌}
use teehee.HexView
use teehee.HexView.Rows
use teehee.HexView.Marks
use teehee.HexView.Properties
use teehee.HexView.StatusLine
use teehee.HexView.Style
use teehee.HexView.Paint
use teehee.HexView.Chars
use teehee.Selection
use teehee.Modes.Text
use teehee.Buffer
use teehee.Buffers
use teehee.Rope.Model.{model}
use teehee.Buffer.{from_data_and_path}
use teehee.Buffers.{with_buffer}
use teehee.Modes.{Mode, overwrite}
use teehee.HexView.{HexView, with_buffers, draw}
use teehee.HexView.Style.{Queued}
use teehee.HexView.Paint.{paint}
use teehee.Tests.{two_regions, document}

-- In the middle of an insertion of hexadecimal digits.
abbrev pub screen : HexView model
screen =
    record (with_buffers
      (with_buffer (record (from_data_and_path model document none) { selection = two_regions })) 80
      24) { mode = Mode.insert overwrite true (some 1); bytes_per_line = 4 }

-- How a character that is not printed as it is appears.
abbrev pub escaped : ℕ → List ℕ
escaped c = b'?' ∷ []

-- The drawing of this screen does not panic.
pub first_painted : (r : List Queued × ℕ) × (paint escaped screen (draw ∷ []) 0 ≡ some r)
unfolding HexView.visible_bytes HexView.offset_to_row Rows.lacking Rows.hex_padding
    Rows.ascii_padding Rows.draw_columns Rows.draw_row Rows.overflow_cursor_style Rows.current_bytes
    Rows.draw_bytes Rows.draw_each Rows.draw_rest Rows.draw_wanted Rows.draw_all Marks.mark_min
    Marks.mark_region Marks.mark_line Marks.mark_byte Marks.mark_bytes Marks.mark_commands
    Properties.decimal Properties.signed_decimal Properties.new Properties.format_char
    Properties.line_of Properties.draw_line StatusLine.calculate_powerline_length
    StatusLine.draw_statusline_here StatusLine.draw_statusline Style.make_padding Paint.paint_one
    Paint.paint Chars.first_char Chars.chars Chars.from_utf8 Chars.try_prefixes Chars.utf8_into_char
    Selection.main_cursor_offset Selection.search_from Selection.search Selection.reaches
    Selection.regions_in_range Text.len_utf8 Text.text_len Buffer.slice Buffer.overflow_sel_style
    Buffers.current
first_painted = (_, refl)
