-- ===== src/HexView/Quits/Rounds.antt =====
-- One round of the event loop on the way out, and the rounds behind it.
use teehee.Common.{
  ℕ, ◌+◌, ◌≤◌, ◌<◌, ◌≡◌, refl, true, false, Option, none, some, List, [], ◌∷◌, ◌++◌, ◌>>=◌, length,
  usize_mod,
}
use teehee.Rope.{XiRope}
use teehee.Buffers.{Buffers}
use teehee.Files.{FileSystem}
use teehee.Keymap.{Event}
use teehee.Modes.{Mode, takes_input, ModeTransition}
use teehee.Modes.Command.Line.{Ascii}
use teehee.Modes.Pattern.{Matchers}
use teehee.Editor
use teehee.HexView.{HexView, draw_statusline}
use teehee.HexView.Style.{Queued}
use teehee.HexView.Paint.{paint, paint_one}
use teehee.HexView.StatusLine.{prompter}
use teehee.HexView.Events
use teehee.HexView.Events.{handle_event_default, step, rounds, run_event_loop}
use teehee.HexView.Lines.{HasCaret, Prompts, command-Prompts, draw_statusline-Prompts}
use teehee.HexView.Keys.{Leads, unhandled, changes, Settled, IsNormal, IsCommand, Goes}

pub Settled-takes_input : (mode : Mode) → Settled mode → takes_input mode ≡ true
unfolding takes_input
Settled-takes_input (Mode.normal count_state) s = refl
Settled-takes_input (Mode.split count_state) s = refl
Settled-takes_input (Mode.jump_to extended) s = absurd s
Settled-takes_input (Mode.replace hex hex_half) s = absurd s
Settled-takes_input (Mode.insert mode hex hex_half) s = absurd s
Settled-takes_input (Mode.search pattern cursor hex hex_half next) s = absurd s
Settled-takes_input (Mode.command text cursor) s = absurd s
Settled-takes_input Mode.quitting s = absurd s

pub IsNormal-Settled : (mode : Mode) → IsNormal mode → Settled mode
IsNormal-Settled (Mode.normal count_state) s = tt
IsNormal-Settled (Mode.split count_state) s = absurd s
IsNormal-Settled (Mode.jump_to extended) s = absurd s
IsNormal-Settled (Mode.replace hex hex_half) s = absurd s
IsNormal-Settled (Mode.insert mode hex hex_half) s = absurd s
IsNormal-Settled (Mode.search pattern cursor hex hex_half next) s = absurd s
IsNormal-Settled (Mode.command text cursor) s = absurd s
IsNormal-Settled Mode.quitting s = absurd s

pub IsCommand-takes_input :
    (text : List ℕ) (mode : Mode) → IsCommand text mode → takes_input mode ≡ true
unfolding takes_input
IsCommand-takes_input text mode s = rw s refl

-- The modes on the way out have a prompt that fits.
pub Settled-Prompts : (columns : ℕ) (mode : Mode) → Settled mode → Prompts columns mode
unfolding prompter
Settled-Prompts columns (Mode.normal count_state) s last = (none, refl)
Settled-Prompts columns (Mode.split count_state) s last = (none, refl)
Settled-Prompts columns (Mode.jump_to extended) s last = absurd s
Settled-Prompts columns (Mode.replace hex hex_half) s last = absurd s
Settled-Prompts columns (Mode.insert mode hex hex_half) s last = absurd s
Settled-Prompts columns (Mode.search pattern cursor hex hex_half next) s last = absurd s
Settled-Prompts columns (Mode.command text cursor) s last = absurd s
Settled-Prompts columns Mode.quitting s last = absurd s

pub IsCommand-Prompts :
    (columns : ℕ) (text : List ℕ) (mode : Mode)
    → Ascii text
    → 2 ≤ columns
    → length text + columns < usize_mod
    → IsCommand text mode
    → Prompts columns mode
IsCommand-Prompts columns text mode a w small s last =
    let (r, e) = command-Prompts columns text a w small last in (r, rw s e)

module _ {X : XiRope} (m : Matchers) (F : FileSystem) (debug_char : ℕ → List ℕ) where
  -- The view after an event, whatever prompt was shown last.
  pub record Steps (P : Mode → Type 0) (v : HexView X) (last : ℕ) (evt : Event) (files : F.Files)
      : Type 0 where
    pub view : HexView X
    pub queued : List Queued
    pub col : ℕ
    pub returns : step m F debug_char v files last evt ≡ some (view, files, queued, col)
    pub caret : HasCaret view.buffers
    pub columns : view.columns ≡ v.columns
    pub holds : P view.mode

  -- A round that leaves the drawing to the status line.
  step-view :
      (P : Mode → Type 0) (v : HexView X) (last : ℕ) (evt : Event) (files : F.Files)
      (view : HexView X)
      → ((r : Option (List Queued × ℕ))
          → paint debug_char view (draw_statusline ∷ []) last ≡ r
          → step m F debug_char v files last evt
            ≡ (r >>= λ (queued, col). some (view, files, queued, col)))
      → HasCaret view.buffers
      → view.columns ≡ v.columns
      → Prompts v.columns view.mode
      → P view.mode
      → Steps P v last evt files
  unfolding paint paint_one
  step-view P v last evt files view s h c prompts p =
      let (queued, col, e) = draw_statusline-Prompts view last h (rw c prompts) in
      record {
        view = view;
        queued = queued ++ [];
        col = col;
        returns = s (some (queued ++ [], col)) (rw e refl);
        caret = h;
        columns = c;
        holds = p;
      }

  step-Leads :
      (P : Mode → Type 0) (v : HexView X) (last : ℕ) (evt : Event) (files : F.Files)
      → ((w : HexView X) → handle_event_default w evt ≡ some (w, []))
      → (buffers : Buffers X) {result : Option ModeTransition} {mode' : Mode}
      → Leads v.mode result mode'
      → Editor.transition m F v.mode evt v.buffers files v.bytes_per_line
        ≡ some (buffers, files, result)
      → HasCaret buffers
      → Prompts v.columns mode'
      → P mode'
      → Steps P v last evt files
  unfolding step Events.transition
  step-Leads P v last evt files d buffers unhandled e h prompts p =
      let view : HexView X = record v { buffers = buffers } in
      step-view P v last evt files view (λ r painted. rw (e, d view, painted) refl) h refl prompts p
  step-Leads P v last evt files d buffers (changes mode') e h prompts p =
      step-view P v last evt files (record v { buffers = buffers; info = none; mode = mode' })
        (λ r painted. rw (e, painted) refl) h refl prompts p

  pub step-Goes :
      (P : Mode → Type 0) (v : HexView X) (last : ℕ) (evt : Event) (files : F.Files)
      → ((w : HexView X) → handle_event_default w evt ≡ some (w, []))
      → ((mode' : Mode) → P mode' → Prompts v.columns mode')
      → Goes m F P v.mode evt v.buffers files v.bytes_per_line
      → Steps P v last evt files
  step-Goes P v last evt files d prompts g =
      step-Leads P v last evt files d g.buffers g.leads g.returns g.caret (prompts g.mode' g.holds)
        g.holds

  -- The rounds end, with the files as they were.
  pub record RoundsEnd (v : HexView X) (files : F.Files) (last : ℕ) (events : List Event)
      : Type 0 where
    pub view : HexView X
    pub queued : List Queued
    pub col : ℕ
    pub returns : rounds m F debug_char v files last events ≡ some (view, files, queued, col)
    pub ended : takes_input view.mode ≡ false

  -- A view on a terminal of at least two columns.
  pub record Ready (v : HexView X) : Type 0 where
    pub caret : HasCaret v.buffers
    pub wide : 2 ≤ v.columns
    pub small : v.columns < 65536

  pub Steps-RoundsEnd :
      (P : Mode → Type 0) (v : HexView X) (last : ℕ) (evt : Event) (files : F.Files)
      (rest : List Event)
      → takes_input v.mode ≡ true
      → Ready v
      → Steps P v last evt files
      → ((w : HexView X) (col : ℕ) → Ready w → P w.mode → RoundsEnd w files col rest)
      → RoundsEnd v files last (evt ∷ rest)
  unfolding rounds
  Steps-RoundsEnd P v last evt files rest t ready s k =
      let e =
        k s.view s.col
          (record {
            caret = s.caret;
            wide = rw s.columns ready.wide;
            small = rw s.columns ready.small;
          })
          s.holds in
      record {
        view = e.view;
        queued = s.queued ++ e.queued;
        col = e.col;
        returns = rw (t, s.returns, e.returns) refl;
        ended = e.ended;
      }
