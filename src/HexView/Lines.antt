-- ===== src/HexView/Lines.antt =====
-- When the status line is drawn: with a current buffer that has a main caret, and a prompt that fits.
use teehee.Common.{
  ℕ, zero, suc, ◌+◌, ◌≤◌, ◌<◌, ◌≡◌, refl, inl, inr, false, Option, none, some, List, [], ◌∷◌, ◌++◌,
  length, modify, get_elem?, Option-cases, usize_mod, arith,
}
use teehee.Rope.{XiRope}
use teehee.Buffer.{Buffer}
use teehee.Buffers.{Buffers, current, set_current}
use teehee.Modes.{Mode, takes_input}
use teehee.Modes.Names.{name}
use teehee.Modes.Command.Line.{Ascii}
use teehee.HexView.{HexView, draw}
use teehee.HexView.Style.{Queued, move_to}
use teehee.HexView.Paint.{paint, paint_one}
use teehee.HexView.Prompt.Shows.{render_command-Shows}
use teehee.HexView.Rows
use teehee.HexView.StatusLine
use teehee.HexView.StatusLine.{
  caret_of, prompter, prompted, line_start, powerline, powerline_length,
}

-- The current buffer and its main caret, if it is not empty.
pub record HasCaret {X : XiRope} (b : Buffers X) : Type 0 where
  pub buf : Buffer X
  pub is_current : current b ≡ some buf
  pub caret : ℕ
  pub has_caret : caret_of buf ≡ some caret

get_elem?-modify {ℓ} :
    {A : Type ℓ} (xs : List A) (i : ℕ) (a x : A)
    → get_elem? xs i ≡ some a
    → get_elem? (modify xs i (λ _. x)) i ≡ some x
get_elem?-modify [] i a x e = cc
get_elem?-modify (y ∷ ys) zero a x e = refl
get_elem?-modify (y ∷ ys) (suc i) a x e = get_elem?-modify ys i a x e

module _ {X : XiRope} where
  pub set_current-HasCaret :
      (b : Buffers X) (h : HasCaret b) (buf : Buffer X)
      → caret_of buf ≡ some h.caret
      → HasCaret (set_current b buf)
  unfolding current
  set_current-HasCaret b h buf e = record {
    buf = buf;
    is_current = get_elem?-modify b.buffers b.cur_buf_index h.buf buf h.is_current;
    caret = h.caret;
    has_caret = e;
  }

  module _ (debug_char : ℕ → List ℕ) (v : HexView X) (last : ℕ) where
    paint-none :
        (buf : Buffer X)
        → current v.buffers ≡ some buf
        → caret_of buf ≡ none
        → paint debug_char v (draw ∷ []) last ≡ none
    unfolding paint paint_one StatusLine.draw_statusline StatusLine.calculate_powerline_length
    paint-none buf e c = elim (Option-cases (Rows.draw_all debug_char v buf)) [
      | inl d ↦ rw (e, d) refl
      | inr (rows, d) ↦ rw (e, d, c) refl
    ]

    paint-current : current v.buffers ≡ none → paint debug_char v (draw ∷ []) last ≡ none
    unfolding paint paint_one
    paint-current e = rw e refl

    -- The drawing of the screen needs the main caret.
    pub paint-HasCaret :
        (queued : List Queued) (col : ℕ)
        → paint debug_char v (draw ∷ []) last ≡ some (queued, col)
        → HasCaret v.buffers
    paint-HasCaret queued col h = elim (Option-cases (current v.buffers)) [
      | inl e ↦ let bad = paint-current e in absurd cc
      | inr (buf, e) ↦ elim (Option-cases (caret_of buf)) [
        | inl c ↦ let bad = paint-none buf e c in absurd cc
        | inr (caret, c) ↦ record { buf = buf; is_current = e; caret = caret; has_caret = c }
      ]
    ]

-- The prompt of a mode is drawn on a terminal of some columns, whatever was shown last.
abbrev pub Prompts : ℕ → Mode → Type 0
Prompts columns mode =
    (last : ℕ) → (r : Option (List Queued × ℕ)) × (prompter mode columns last ≡ some r)

pub quitting-Prompts : (columns : ℕ) (mode : Mode) → takes_input mode ≡ false → Prompts columns mode
unfolding takes_input prompter
quitting-Prompts columns (Mode.normal count_state) e last = absurd cc
quitting-Prompts columns (Mode.split count_state) e last = absurd cc
quitting-Prompts columns (Mode.jump_to extended) e last = absurd cc
quitting-Prompts columns (Mode.replace hex hex_half) e last = absurd cc
quitting-Prompts columns (Mode.insert mode hex hex_half) e last = absurd cc
quitting-Prompts columns (Mode.search pattern cursor hex hex_half next) e last = absurd cc
quitting-Prompts columns (Mode.command text cursor) e last = absurd cc
quitting-Prompts columns Mode.quitting e last = (none, refl)

-- With the cursor behind the command.
pub command-Prompts :
    (columns : ℕ) (text : List ℕ)
    → Ascii text
    → 2 ≤ columns
    → length text + columns < usize_mod
    → Prompts columns (Mode.command text (length text))
unfolding prompter
command-Prompts columns text a w small last =
    let s =
      render_command-Shows text (length text) columns last a (omega arith) w small
        (λ h. omega arith) in
    (some (s.queued, s.start), rw s.returns refl)

prompted-prompter :
    {X : XiRope} (v : HexView X) (last : ℕ) (r : Option (List Queued × ℕ))
    → prompter v.mode v.columns last ≡ some r
    → (prompt : List Queued) × (col : ℕ) × (prompted v last ≡ some (prompt, col))
unfolding prompted
prompted-prompter v last none e = ([], last, rw e refl)
prompted-prompter v last (some (queued, col)) e = (move_to 0 v.rows ∷ queued, col, rw e refl)

-- The status line is drawn.
pub draw_statusline-Prompts :
    {X : XiRope} (v : HexView X) (last : ℕ)
    → HasCaret v.buffers
    → Prompts v.columns v.mode
    → (queued : List Queued) × (col : ℕ) × (StatusLine.draw_statusline v last ≡ some (queued, col))
unfolding StatusLine.draw_statusline StatusLine.calculate_powerline_length
    StatusLine.draw_statusline_here
draw_statusline-Prompts v last h p =
    let (r, e) = p last in
    let (prompt, col, e') = prompted-prompter v last r e in
    let count : ℕ = length h.buf.selection.regions in
    let main : ℕ = h.buf.selection.main_selection in
    let len : ℕ = length h.buf.contents in
    let line_length : ℕ =
      powerline_length h.buf.path h.buf.dirty (name v.mode) count main h.caret len in
    let line : List Queued =
      powerline h.buf.path h.buf.dirty (name v.mode) count main h.caret len in
    (line_start v line_length ++ (line ++ prompt), col, rw (h.is_current, h.has_caret, e') refl)
