-- ===== src/HexView/Quits.antt =====
-- The editor can be left: from every mode that takes input, where the screen can be drawn.
pub mod Rounds
use teehee.Common.{ℕ, ◌+◌, ◌≤◌, ◌<◌, ◌≡◌, refl, true, false, some, List, [], ◌∷◌, ◌++◌, arith}
use teehee.Rope.{XiRope}
use teehee.Files.{FileSystem}
use teehee.Keymap.{KeyCode, Event, press, plain, special}
use teehee.Modes.{takes_input}
use teehee.Modes.Pattern.{Matchers}
use teehee.HexView.{HexView, draw}
use teehee.HexView.Style.{Queued}
use teehee.HexView.Paint.{paint}
use teehee.HexView.Events.{handle_event_default, rounds, run_event_loop}
use teehee.HexView.Lines.{paint-HasCaret, quitting-Prompts}
use teehee.HexView.Keys.{
  Settled, IsNormal, IsCommand, escape, escape-Settled, escape-IsNormal, colon-IsCommand,
  typed-IsCommand, typed_bang-IsCommand, enter-quitting,
}
use teehee.HexView.Quits.Rounds.{
  Settled-takes_input, IsNormal-Settled, IsCommand-takes_input, Settled-Prompts, IsCommand-Prompts,
  step-Goes, RoundsEnd, Ready, Steps-RoundsEnd,
}

module _ {X : XiRope} (m : Matchers) (F : FileSystem) (debug_char : ℕ → List ℕ) where
  quitting-RoundsEnd :
      (files : F.Files) (v : HexView X) (last : ℕ)
      → takes_input v.mode ≡ false
      → RoundsEnd m F debug_char v files last []
  unfolding rounds
  quitting-RoundsEnd files v last p = record {
    view = v;
    queued = [];
    col = last;
    returns = refl;
    ended = p;
  }

  enter-RoundsEnd :
      (files : F.Files) (v : HexView X) (last : ℕ)
      → Ready m F debug_char v
      → IsCommand (b'q' ∷ b'!' ∷ []) v.mode
      → RoundsEnd m F debug_char v files last (press (special KeyCode.enter) ∷ [])
  unfolding handle_event_default
  enter-RoundsEnd files v last r p =
      Steps-RoundsEnd m F debug_char (λ mode'. takes_input mode' ≡ false) v last _ files []
        (IsCommand-takes_input _ _ p) r
        (step-Goes m F debug_char _ v last _ files (λ w. refl) (quitting-Prompts v.columns)
          (enter-quitting m F v.buffers files _ r.caret _ p))
        (λ w col ready q. quitting-RoundsEnd files w col q)

  bang-RoundsEnd :
      (files : F.Files) (v : HexView X) (last : ℕ)
      → Ready m F debug_char v
      → IsCommand (b'q' ∷ []) v.mode
      → RoundsEnd m F debug_char v files last
          (press (plain b'!') ∷ press (special KeyCode.enter) ∷ [])
  unfolding handle_event_default
  bang-RoundsEnd files v last r p =
      Steps-RoundsEnd m F debug_char (IsCommand (b'q' ∷ b'!' ∷ [])) v last _ files _
        (IsCommand-takes_input _ _ p) r
        (step-Goes m F debug_char _ v last _ files (λ w. refl)
          (λ mode'.
            IsCommand-Prompts v.columns _ mode' (omega arith, (omega arith, tt)) r.wide
              (omega (arith, r.small)))
          (typed_bang-IsCommand m F v.buffers files _ r.caret _ p))
        (enter-RoundsEnd files)

  letter-RoundsEnd :
      (files : F.Files) (v : HexView X) (last : ℕ)
      → Ready m F debug_char v
      → IsCommand [] v.mode
      → RoundsEnd m F debug_char v files last
          (press (plain b'q') ∷ press (plain b'!') ∷ press (special KeyCode.enter) ∷ [])
  unfolding handle_event_default
  letter-RoundsEnd files v last r p =
      Steps-RoundsEnd m F debug_char (IsCommand (b'q' ∷ [])) v last _ files _
        (IsCommand-takes_input _ _ p) r
        (step-Goes m F debug_char _ v last _ files (λ w. refl)
          (λ mode'.
            IsCommand-Prompts v.columns _ mode' (omega arith, tt) r.wide (omega (arith, r.small)))
          (typed-IsCommand m F v.buffers files _ r.caret _ p))
        (bang-RoundsEnd files)

  colon-RoundsEnd :
      (files : F.Files) (v : HexView X) (last : ℕ)
      → Ready m F debug_char v
      → IsNormal v.mode
      → RoundsEnd m F debug_char v files last (
          press (plain b':')
          ∷ press (plain b'q')
          ∷ press (plain b'!')
          ∷ press (special KeyCode.enter)
          ∷ [])
  unfolding handle_event_default
  colon-RoundsEnd files v last r p =
      Steps-RoundsEnd m F debug_char (IsCommand []) v last _ files _
        (Settled-takes_input _ (IsNormal-Settled _ p)) r
        (step-Goes m F debug_char _ v last _ files (λ w. refl)
          (λ mode'. IsCommand-Prompts v.columns _ mode' tt r.wide (omega (arith, r.small)))
          (colon-IsCommand m F v.buffers files _ r.caret _ p))
        (letter-RoundsEnd files)

  escape-RoundsEnd :
      (files : F.Files) (v : HexView X) (last : ℕ)
      → Ready m F debug_char v
      → Settled v.mode
      → RoundsEnd m F debug_char v files last (
          escape
          ∷ press (plain b':')
          ∷ press (plain b'q')
          ∷ press (plain b'!')
          ∷ press (special KeyCode.enter)
          ∷ [])
  unfolding handle_event_default
  escape-RoundsEnd files v last r p =
      Steps-RoundsEnd m F debug_char IsNormal v last _ files _ (Settled-takes_input _ p) r
        (step-Goes m F debug_char _ v last _ files (λ w. refl)
          (λ mode' s. Settled-Prompts v.columns mode' (IsNormal-Settled mode' s))
          (escape-IsNormal m F v.buffers files _ r.caret _ p))
        (colon-RoundsEnd files)

  -- The event loop ends, with the files as they were.
  pub record Ends (v : HexView X) (files : F.Files) (last : ℕ) (events : List Event) : Type 0 where
    pub view : HexView X
    pub queued : List Queued
    pub col : ℕ
    pub returns :
        run_event_loop m F debug_char v files last events ≡ some (view, files, queued, col)
    pub ended : takes_input view.mode ≡ false

  -- On a terminal of at least two columns, whose number fits `u16`, in every mode that takes input,
  -- whatever the buffers and the files are, and where the first drawing of the screen does not panic:
  -- the keys escape, escape, `:`, `q`, `!` and enter end the event loop without a panic, the drawings
  -- of the status line included, and leave the files as they were.
  pub run_event_loop-Ends :
      (v : HexView X) (files : F.Files) (last : ℕ) (first : List Queued) (col : ℕ)
      → paint debug_char v (draw ∷ []) last ≡ some (first, col)
      → 2 ≤ v.columns
      → v.columns < 65536
      → takes_input v.mode ≡ true
      → Ends v files last (
          escape
          ∷ escape
          ∷ press (plain b':')
          ∷ press (plain b'q')
          ∷ press (plain b'!')
          ∷ press (special KeyCode.enter)
          ∷ [])
  unfolding handle_event_default run_event_loop
  run_event_loop-Ends v files last first col drawn wide small t =
      let caret = paint-HasCaret debug_char v last first col drawn in
      let ends =
        Steps-RoundsEnd m F debug_char Settled v col _ files _ t
          (record { caret = caret; wide = wide; small = small })
          (step-Goes m F debug_char _ v col _ files (λ w. refl) (Settled-Prompts v.columns)
            (escape-Settled m F v.buffers files v.bytes_per_line caret v.mode t))
          (escape-RoundsEnd files) in
      record {
        view = ends.view;
        queued = first ++ ends.queued;
        col = ends.col;
        returns = rw (drawn, ends.returns) refl;
        ended = ends.ended;
      }
