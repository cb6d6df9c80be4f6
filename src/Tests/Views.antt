-- ===== src/Tests/Views.antt =====
-- src/hex_view at a concrete buffer.
use teehee.Common.{◌≡◌, ◌≤◌, ◌<◌, ◌++◌, refl, map, List, true, some, [], ◌∷◌, none, arith}
use teehee.Rope.Model.{model}
use teehee.Selection.{main, main_cursor_offset}
use teehee.Buffer.{Buffer, from_data_and_path}
use teehee.Buffers.{current, with_buffer}
use teehee.Modes.{Mode, overwrite, has_half_cursor, takes_input}
use teehee.Modes.Chars.{encode_utf8}
use teehee.Keymap.{KeyCode, press, plain, special}
use teehee.HexView.Keys.{escape}
use teehee.HexView.Quits.{Ends, run_event_loop-Ends}
use teehee.HexView.Chars.{ok, utf8_into_char}
use teehee.HexView.Chars.Utf8.{utf8_into_char-encode_utf8}
use teehee.Tests.Commands.{disk, empty_disk}
use teehee.Tests.Matches.{matchers}
use teehee.HexView.{
  count_from, HexView, with_buffers, visible_bytes, draw, maybe_update_offset_and_draw,
}
use teehee.HexView.StatusLine.{
  buffer_name, powerline_length, selection_text, offset_text, prompted, prompter,
}
use teehee.HexView.StatusLine.Width.{Fills, draw_statusline-Fills}
use teehee.Modes.Names.{digits_before, name, normal_name, display_count}
use teehee.Modes.Names.Letters.{ascii, literal-Ascii}
use teehee.Modes.Text.{codes, text_len, len_utf8}
use teehee.HexView.Caret.{maybe_update_offset_and_draw-shows}
use teehee.HexView.Style.{Color, StylingCommand, Queued, unstyled}
use teehee.HexView.Columns.{columns}
use teehee.HexView.Prompt.Shows.{Shows, render_command-Shows}
use teehee.HexView.Rows.{draw_columns}
use teehee.HexView.Rows.Width.{columns-draw_columns}
use teehee.HexView.Marks.{mark_commands}
use teehee.HexView.Marks.Shades.{shade, backgrounds}
use teehee.HexView.Marks.Commands.{mark_commands-shades}
use teehee.Tests.Screen.{screen, escaped, first_painted}
use teehee.Tests.{two_regions, two_regions-Valid, document}

abbrev buffer : Buffer model
buffer = record (from_data_and_path model document none) { selection = two_regions }

-- Two lines of two bytes each, of which the second is the status line; the caret is at 5.
abbrev view : HexView model
view = record (with_buffers (with_buffer buffer) 80 2) { bytes_per_line = 2 }

maybe_update_offset_and_draw-shows_example :
    (v' : HexView model) × (maybe_update_offset_and_draw view ≡ some (v', draw ∷ []))
    × (v'.buffers ≡ view.buffers)
    × ((visible_bytes v' buffer).start ≤ 5)
    × (5 < (visible_bytes v' buffer).end)
unfolding current main_cursor_offset main
maybe_update_offset_and_draw-shows_example =
    maybe_update_offset_and_draw-shows view buffer
      (record {
        rows_ge = omega arith;
        rows_lt = omega arith;
        line_ge = omega arith;
        offsets_lt = omega arith;
        document_lt = omega arith;
      })
      5 refl refl (omega arith)

-- The second half of a digit is typed at the carets of the two regions.
abbrev half_typed : HexView model
half_typed = record view { mode = Mode.insert overwrite true (some 1); bytes_per_line = 4 }

mark_commands-shades_example :
    (cmds : List StylingCommand) × (mark_commands half_typed buffer (record { start = 0; end = 8 })
      ≡ some cmds)
    × (backgrounds Color.green cmds
        ≡ map (shade (has_half_cursor half_typed.mode) two_regions.regions) (count_from 0 8))
mark_commands-shades_example =
    mark_commands-shades half_typed buffer (record { start = 0; end = 8 }) Color.green
      two_regions-Valid (omega arith) refl

run_event_loop-Ends_example : Ends matchers disk escaped screen empty_disk 0 (
    escape
    ∷ escape
    ∷ press (plain b':')
    ∷ press (plain b'q')
    ∷ press (plain b'!')
    ∷ press (special KeyCode.enter)
    ∷ [])
unfolding takes_input
run_event_loop-Ends_example =
    run_event_loop-Ends matchers disk escaped screen empty_disk 0 first_painted.0.0
      first_painted.0.1 first_painted.1 (omega arith) (omega arith) refl

-- The euro sign, with two bytes behind it.
utf8_into_char-encode_utf8_example :
    utf8_into_char (encode_utf8 0x20AC ++ (1 ∷ 2 ∷ [])) ≡ some (ok 0x20AC)
utf8_into_char-encode_utf8_example =
    utf8_into_char-encode_utf8 0x20AC (1 ∷ 2 ∷ [])
      (record { below = omega arith; no_surrogate = refl })

-- From any place of the cursor of the terminal, here the first column and row.
draw_statusline-Fills_example : Fills view 0 [] 0 (0, 0)
unfolding current main_cursor_offset main buffer_name ascii powerline_length selection_text
    offset_text digits_before name normal_name display_count text_len len_utf8 encode_utf8 prompted
    prompter
draw_statusline-Fills_example =
    draw_statusline-Fills view buffer 5 0 [] 0 (0, 0) refl refl refl
      (literal-Ascii (codes "*scratch*") refl) (omega arith) (omega arith)

-- Two of four bytes, with a caret behind them.
columns-draw_columns_example :
    (qs : List Queued) × (draw_columns 4 (65 ∷ 0 ∷ []) (unstyled ∷ unstyled ∷ []) (some unstyled)
      ≡ some qs)
    × (columns qs ≡ 22)
columns-draw_columns_example =
    columns-draw_columns 4 (65 ∷ 0 ∷ []) (unstyled ∷ unstyled ∷ []) (some unstyled) (omega arith)
      (omega arith) (omega arith) (omega arith) (λ c e. omega arith)

-- A long command on a narrow terminal, with the cursor behind it.
render_command-Shows_example : Shows (codes "e notes.txt") 11 8 0
unfolding ascii
render_command-Shows_example =
    render_command-Shows (codes "e notes.txt") 11 8 0 (literal-Ascii (codes "e notes.txt") refl)
      (omega arith) (omega arith) (omega arith) (λ e. omega arith)
