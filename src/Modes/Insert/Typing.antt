-- ===== src/Modes/Insert/Typing.antt =====
-- A stay in insert mode, from the key that enters it to the one that leaves it.
use teehee.Common.{ℕ, ◌≡◌, refl, ◌∙◌, ◌⊎◌, inl, inr, Bool, Option, none, some, Option-cases}
use mathlib.Core.Path.{subst}
use teehee.Rope.{XiRope}
use teehee.Rope.Laws.{DeltaLaws, ChainLaws}
use teehee.Keymap.{Event, event_to_action}
use teehee.Buffer
use teehee.Buffer.{Buffer}
use teehee.Buffer.Sessions.{SameEdits}
use teehee.Modes.{
  Mode, InsertionMode, ModeTransition, no_change, new_mode, dirty_bytes, mode_and_dirty_bytes,
  mode_and_info, Outcome, stays, normal_mode,
}
use teehee.Modes.Insert
use teehee.Modes.Insert.Actions.{act-Open, no_action-Open}
use teehee.Modes.Insert.Open.{Open, untouched, touched, OutcomeOpen}
use teehee.Buffer.Insertion.{undo-Insertion}
use teehee.History
use teehee.History.{History}

-- The mode after a key press.
abbrev pub mode_after : Mode → Option ModeTransition → Mode
mode_after m none = m
mode_after m (some no_change) = m
mode_after m (some (new_mode m')) = m'
mode_after m (some (dirty_bytes d)) = m
mode_after m (some (mode_and_dirty_bytes m' d)) = m'
mode_after m (some (mode_and_info m' i)) = m'

-- Key presses in insert mode, from the buffer `b` on.
pub data Typing {X : XiRope} (bytes_per_line : ℕ) (b : Buffer X) : Mode → Buffer X → Type 0 where
  enter :
      (mode : InsertionMode) (hex : Bool) → Typing bytes_per_line b (Mode.insert mode hex none) b
  press :
      (mode : InsertionMode) (hex : Bool) (half : Option ℕ) (c d : Buffer X) (evt : Event)
      (t : Option ModeTransition)
      → Typing bytes_per_line b (Mode.insert mode hex half) c
      → Insert.transition X mode hex half evt c bytes_per_line ≡ some (d, t)
      → Typing bytes_per_line b (mode_after (Mode.insert mode hex half) t) d

commit_partial-none : (X : XiRope) (h : History X) → (History.commit_partial X h).partial ≡ none
unfolding History.commit_partial
commit_partial-none X h = elim (Option-cases h.partial) [
  | inl e ↦ rw e refl
  | inr (entry, e) ↦ rw e refl
]

commit_partial-undos :
    (X : XiRope) (h : History X) → h.partial ≡ none → (History.commit_partial X h).undos ≡ h.undos
unfolding History.commit_partial
commit_partial-undos X h clear = rw clear refl

-- The document and the undo list are those of `b`, or one undo makes them so.
abbrev pub OneUndo : {X : XiRope} → Buffer X → Buffer X → Type 0
OneUndo {X} b c = SameEdits c b ⊎ SameEdits (Buffer.perform_undo X c).0 b

abbrev Progress : {X : XiRope} → Buffer X → Mode → Buffer X → Type 0
Progress b (Mode.insert mode hex half) c = Open b c
Progress b m c = (c.history.partial ≡ none) × OneUndo b c

abbrev OutcomeProgress : {X : XiRope} → Buffer X → Mode → Outcome X → Type 0
OutcomeProgress b m none = Unit
OutcomeProgress b m (some (d, t)) = Progress b (mode_after m t) d

module _ {X : XiRope} (deltas : DeltaLaws X) (chains : ChainLaws X) (bytes_per_line : ℕ)
    (b : Buffer X) where
  exit-Progress :
      (c : Buffer X)
      → Open b c
      → ((Buffer.commit_delta X c).history.partial ≡ none) × OneUndo b (Buffer.commit_delta X c)
  unfolding Buffer.commit_delta
  exit-Progress c (untouched clear same) = (
    commit_partial-none X c.history,
    inl (same.0, commit_partial-undos X c.history clear ∙ same.1),
  )
  exit-Progress c (touched e before steps) =
      let undone = undo-Insertion chains e c steps in
      (commit_partial-none X c.history, inr (undone.contents ∙ before.0, undone.undos ∙ before.1))

  Open-Progress :
      (mode : InsertionMode) (hex : Bool) (half : Option ℕ) (r : Outcome X)
      → OutcomeOpen b r
      → OutcomeProgress b (Mode.insert mode hex half) r
  Open-Progress mode hex half none o = tt
  Open-Progress mode hex half (some (d, none)) o = o.0
  Open-Progress mode hex half (some (d, some no_change)) o = o.0
  Open-Progress mode hex half (some (d, some (dirty_bytes changed))) o = o.0
  Open-Progress mode hex half (some (d, some (new_mode (Mode.insert mode' hex' half')))) o = o.0
  Open-Progress mode hex half
        (some (d, some (mode_and_dirty_bytes (Mode.insert mode' hex' half') changed))) o =
      o.0
  Open-Progress mode hex half (some (d, some t)) o = absurd o.1

  transition-Progress :
      (mode : InsertionMode) (hex : Bool) (half : Option ℕ) (c : Buffer X) (evt : Event)
      → Open b c
      → OutcomeProgress b
          (Mode.insert mode hex half)
          (Insert.transition X mode hex half evt c bytes_per_line)
  unfolding Insert.transition
  transition-Progress mode hex half c evt o = handled (event_to_action Insert.default_maps evt)
    where
      open_act :
          (action : Insert.Action)
          → ¬ (action ≡ Insert.exit)
          → OutcomeProgress b
              (Mode.insert mode hex half)
              (Insert.act X mode hex half action c bytes_per_line)
      open_act action stays =
          Open-Progress mode hex half _
            (act-Open deltas b c o mode hex half action bytes_per_line stays)

      handled :
          (a : Option Insert.Action)
          → OutcomeProgress b (Mode.insert mode hex half) (elim a [
            | some action ↦ Insert.act X mode hex half action c bytes_per_line
            | none ↦ Insert.no_action X mode hex half evt c
          ])
      handled none = Open-Progress mode hex half _ (no_action-Open deltas b c o mode hex half evt)
      handled (some Insert.exit) = unfold Insert.act in exit-Progress c o
      handled (some Insert.insert_null) = open_act Insert.insert_null (λ e. cc)
      handled (some Insert.switch_input_mode) = open_act Insert.switch_input_mode (λ e. cc)
      handled (some Insert.remove_last) = open_act Insert.remove_last (λ e. cc)
      handled (some Insert.remove_this) = open_act Insert.remove_this (λ e. cc)
      handled (some (Insert.move direction)) = open_act (Insert.move direction) (λ e. cc)

  Typing-Progress :
      {m : Mode} (c : Buffer X)
      → b.history.partial ≡ none
      → Typing bytes_per_line b m c
      → Progress b m c
  Typing-Progress _ clear (enter mode hex) = untouched clear (refl, refl)
  Typing-Progress _ clear (press mode hex half c d evt t before step) =
      subst (OutcomeProgress b (Mode.insert mode hex half)) step
        (transition-Progress mode hex half c evt (Typing-Progress c clear before))

  -- From a buffer with nothing to commit: after any keys in insert mode, up to the one that leaves
  -- it for normal mode, there is nothing to commit, and the document and the undo list are those
  -- before, or one `perform_undo` makes them so, by the documented laws of deltas and subsets.
  pub undo-Typing :
      {m : Mode} (c : Buffer X)
      → b.history.partial ≡ none
      → Typing bytes_per_line b m c
      → m ≡ normal_mode
      → (c.history.partial ≡ none) × OneUndo b c
  undo-Typing c clear typing left =
      subst (λ m. Progress b m c) left (Typing-Progress c clear typing)
