-- ===== src/HexView/Paint.antt =====
-- src/hex_view/view.rs: what the drawings queue for the terminal, by the rows and the status line. A
-- method changes the view before it draws, so that each of its drawings shows the view that it
-- returns. `none` is a panic.
use teehee.Common.{ℕ, Option, some, List, [], ◌∷◌, ◌++◌, ◌>>=◌}
use teehee.Rope.{XiRope}
use teehee.Buffers.{current}
use teehee.HexView.{
  HexView, Output, draw, draw_rows, scroll_terminal_up, scroll_terminal_down, clear_line,
  draw_statusline,
}
use teehee.HexView.Style.{Queued, scroll_up, scroll_down, move_to, clear_current_line}
use teehee.HexView.Rows
use teehee.HexView.StatusLine

module _ {X : XiRope} (debug_char : ℕ → List ℕ) (v : HexView X) where
  -- With the first column of the prompt that was shown last, and the next.
  unfoldable pub paint_one : Output → ℕ → Option (List Queued × ℕ)
  paint_one draw last_visible_prompt_col = current v.buffers >>= λ buf.
      Rows.draw_all debug_char v buf >>= λ rows.
      StatusLine.draw_statusline v last_visible_prompt_col >>= λ (line, col).
      some (rows ++ line, col)
  paint_one (draw_rows invalidated_rows) last_visible_prompt_col = current v.buffers >>= λ buf.
      Rows.draw_rows debug_char v buf invalidated_rows >>= λ rows.
      some (rows, last_visible_prompt_col)
  paint_one (scroll_terminal_up n) last_visible_prompt_col =
      some (scroll_up n ∷ [], last_visible_prompt_col)
  paint_one (scroll_terminal_down n) last_visible_prompt_col =
      some (scroll_down n ∷ [], last_visible_prompt_col)
  paint_one (clear_line y) last_visible_prompt_col =
      some (move_to 0 y ∷ clear_current_line ∷ [], last_visible_prompt_col)
  paint_one draw_statusline last_visible_prompt_col =
      StatusLine.draw_statusline v last_visible_prompt_col

  unfoldable pub paint : List Output → ℕ → Option (List Queued × ℕ)
  paint [] last_visible_prompt_col = some ([], last_visible_prompt_col)
  paint (output ∷ outputs) last_visible_prompt_col =
      paint_one output last_visible_prompt_col >>= λ (queued, col).
      paint outputs col >>= λ (more, col'). some (queued ++ more, col')
