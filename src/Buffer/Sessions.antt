-- ===== src/Buffer/Sessions.antt =====
-- Undo of any number of edits and insertions.
use teehee.Common.{ℕ, zero, suc, ◌≡◌, refl, sym, ap, ◌∙◌, true, arith, List, [], ◌∷◌, length}
use teehee.Rope.{Rope, XiRope}
use teehee.Rope.Laws.{SubsetLaws, ChainLaws}
use teehee.Buffer.Undo.{Applied, Applied-edited, back}
use teehee.Buffer.Insertion.{Insertion, undo-Insertion}
use teehee.Selection.{Selection}
use teehee.History
use teehee.History.{Action, History, invert, from_delta}
use teehee.Buffer.{Buffer, perform_undo, apply_delta_to_buffer, replayed, commit_delta}

-- What an undo reads of a buffer.
abbrev pub SameEdits : {X : XiRope} → Buffer X → Buffer X → Type 0
SameEdits b c = (b.contents ≡ c.contents) × (b.history.undos ≡ c.history.undos)

-- Any number of edits and insertions, between which other commands may change the selection, the registers, the
-- redo list and the rest, but neither the document nor the undo list.
pub data Session {X : XiRope} (b : Buffer X) : ℕ → Buffer X → Type 0 where
  start : Session b zero b
  between : {n : ℕ} (c d : Buffer X) → Session b n c → SameEdits d c → Session b n d
  edit :
      {n : ℕ} (c d : Buffer X) (delta : X.Delta)
      → Session b n c
      → X.base_len delta ≡ length c.contents
      → Applied c delta true d
      → Session b (suc n) d
  insertion :
      {n : ℕ} (c d : Buffer X)
      → Session b n c
      → Insertion c d
      → Session b (suc n) (commit_delta X d)

abbrev pub undo_times : {X : XiRope} → ℕ → Buffer X → Buffer X
undo_times zero b = b
undo_times {X} (suc n) b = undo_times n (perform_undo X b).0

-- The document and the undo list after an undo, by those before it.
undone : (X : XiRope) → Rope → List (Action X × Selection) → Rope × List (Action X × Selection)
undone X contents [] = (contents, [])
undone X contents ((action, selection) ∷ undos) = (X.apply action.delta contents, undos)

perform_undo-undone :
    {X : XiRope} (b : Buffer X) (undos : List (Action X × Selection))
    → b.history.undos ≡ undos
    → let c = (perform_undo X b).0 in
      (c.contents ≡ (undone X b.contents undos).0)
      × (c.history.undos ≡ (undone X b.contents undos).1)
unfolding perform_undo History.undo replayed undone
perform_undo-undone b [] e = ground arith
perform_undo-undone b ((action, selection) ∷ undos) e = ground arith

SameEdits-undo :
    {X : XiRope} (b c : Buffer X)
    → SameEdits b c
    → SameEdits (perform_undo X b).0 (perform_undo X c).0
SameEdits-undo {X} b c e =
    let (p, q) = perform_undo-undone b c.history.undos e.1 in
    let (p', q') = perform_undo-undone c c.history.undos refl in
    (
      p ∙ ap (λ t. (undone X t c.history.undos).0) e.0 ∙ sym p',
      q ∙ ap (λ t. (undone X t c.history.undos).1) e.0 ∙ sym q',
    )

SameEdits-undo_times :
    {X : XiRope} (n : ℕ) (b c : Buffer X)
    → SameEdits b c
    → SameEdits (undo_times n b) (undo_times n c)
SameEdits-undo_times zero b c e = e
SameEdits-undo_times {X} (suc n) b c e =
    SameEdits-undo_times n (perform_undo X b).0 (perform_undo X c).0 (SameEdits-undo b c e)

undo-edit :
    {X : XiRope} (laws : SubsetLaws X) (c d : Buffer X) (delta : X.Delta)
    → X.base_len delta ≡ length c.contents
    → Applied c delta true d
    → SameEdits (perform_undo X d).0 c
unfolding perform_undo apply_delta_to_buffer History.perform_final History.undo
undo-edit laws c d delta fits e =
    let (s, same) = Applied-edited c d delta e in rw same (back laws c delta s fits, refl)

-- After any session of edits with a complete delta, each for the document it is applied to, and of
-- insertions of any number of steps with `commit_delta` at the end, between which other commands
-- leave the document and the undo list alone, `perform_undo` as often as there were edits and
-- insertions gives back the document and the undo list that the session began with, by the
-- documented laws of subsets.
pub undo_times-Session :
    {X : XiRope} (laws : ChainLaws X) (b : Buffer X) {n : ℕ} (c : Buffer X)
    → Session b n c
    → SameEdits (undo_times n c) b
undo_times-Session laws b c start = (refl, refl)
undo_times-Session laws b {n} d (between c _ before same) =
    let (p, q) = SameEdits-undo_times n d c same in
    let (p', q') = undo_times-Session laws b c before in (p ∙ p', q ∙ q')
undo_times-Session laws b d (edit {n} c _ delta before fits e) =
    let (p, q) = SameEdits-undo_times n _ c (undo-edit laws.subsets c d delta fits e) in
    let (p', q') = undo_times-Session laws b c before in (p ∙ p', q ∙ q')
undo_times-Session laws b _ (insertion {n} c d before steps) =
    let undone = undo-Insertion laws c d steps in
    let (p, q) = SameEdits-undo_times n _ c (undone.contents, undone.undos) in
    let (p', q') = undo_times-Session laws b c before in (p ∙ p', q ∙ q')
