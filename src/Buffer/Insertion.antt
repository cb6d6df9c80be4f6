-- ===== src/Buffer/Insertion.antt =====
-- An insertion of several steps: deltas that are not complete, and then `commit_delta`.
use teehee.Common.{◌≡◌, refl, sym, ap, ◌∙◌, false, none, some, length}
use teehee.Rope.{XiRope}
use teehee.Rope.Laws.{ChainLaws}
use teehee.Selection.{Selection}
use teehee.History
use teehee.History.{Action, invert, chain, from_delta}
use teehee.History.Invert.{invert-Inverts}
use teehee.History.Chain.{chain-Chains}
use teehee.Buffer.{Buffer, perform_undo, perform_redo, apply_delta_to_buffer, commit_delta}
use teehee.Buffer.Undo.{edited, Applied, Applied-edited}

-- The first step is from a buffer `b` with nothing to commit. Other commands may change the
-- selection and the registers between the steps.
pub data Insertion {X : XiRope} (b : Buffer X) : Buffer X → Type 0 where
  first :
      (c : Buffer X) (delta : X.Delta)
      → b.history.partial ≡ none
      → X.base_len delta ≡ length b.contents
      → Applied b delta false c
      → Insertion b c
  more :
      (c d : Buffer X) (delta : X.Delta)
      → Insertion b c
      → X.base_len delta ≡ length c.contents
      → Applied c delta false d
      → Insertion b d
  between :
      (c d : Buffer X)
      → Insertion b c
      → d.contents ≡ c.contents
      → d.history ≡ c.history
      → Insertion b d

-- What the history holds of an insertion: one action that takes the document back.
record Pending (X : XiRope) (b c : Buffer X) : Type 0 where
  action : Action X
  partial : c.history.partial ≡ some (action, b.selection)
  fits : X.base_len action.delta ≡ length c.contents
  back : X.apply action.delta c.contents ≡ b.contents
  undos : c.history.undos ≡ b.history.undos

begin :
    {X : XiRope} (laws : ChainLaws X) (b : Buffer X) (delta : X.Delta) (s : Selection)
    → b.history.partial ≡ none
    → X.base_len delta ≡ length b.contents
    → Pending X b (edited X b delta false s)
unfolding apply_delta_to_buffer History.perform_partial
begin {X} laws b delta s clear fits =
    let inverse = invert-Inverts laws.subsets (from_delta X delta) b.contents fits in
    record {
      action = invert X (from_delta X delta) b.contents;
      partial = rw clear refl;
      fits = inverse.base_len;
      back = inverse.applied;
      undos = refl;
    }

continue :
    {X : XiRope} (laws : ChainLaws X) (b c : Buffer X) (delta : X.Delta) (s : Selection)
    → Pending X b c
    → X.base_len delta ≡ length c.contents
    → Pending X b (edited X c delta false s)
unfolding apply_delta_to_buffer History.perform_partial
continue {X} laws b c delta s p fits =
    let this_inversion = invert X (from_delta X delta) c.contents in
    let inverse = invert-Inverts laws.subsets (from_delta X delta) c.contents fits in
    let k =
      chain-Chains laws this_inversion p.action.delta (X.apply delta c.contents) inverse.base_len
        (p.fits ∙ ap length (sym inverse.applied)) in
    let mid =
      ap (λ t. Action.delta (chain X this_inversion t p.action.delta)) (sym inverse.applied) in
    record {
      action = chain X this_inversion c.contents p.action.delta;
      partial = rw p.partial refl;
      fits = ap X.base_len mid ∙ k.base_len;
      back =
          ap (λ d. X.apply d (X.apply delta c.contents)) mid
          ∙ k.applied
          ∙ ap (X.apply p.action.delta) inverse.applied
          ∙ p.back;
      undos = p.undos;
    }

Insertion-Pending :
    {X : XiRope} (laws : ChainLaws X) (b c : Buffer X) → Insertion b c → Pending X b c
Insertion-Pending laws b _ (first c delta clear fits step) =
    let (s, same) = Applied-edited b c delta step in rw same (begin laws b delta s clear fits)
Insertion-Pending laws b _ (more c d delta steps fits step) =
    let (s, same) = Applied-edited c d delta step in
    rw same (continue laws b c delta s (Insertion-Pending laws b c steps) fits)
Insertion-Pending laws b _ (between c d steps contents history) =
    let p = Insertion-Pending laws b c steps in
    record {
      action = p.action;
      partial = rw history p.partial;
      fits = rw contents p.fits;
      back = rw contents p.back;
      undos = rw history p.undos;
    }

-- What one `perform_undo` after `commit_delta` gives, and `perform_redo` after that.
pub record Undone (X : XiRope) (b c : Buffer X) (undone redone : Buffer X) : Type 0 where
  pub contents : undone.contents ≡ b.contents
  pub selection : undone.selection ≡ b.selection
  pub undos : undone.history.undos ≡ b.history.undos
  pub again : redone.contents ≡ c.contents
  pub selection_again : redone.selection ≡ c.selection

-- After any number of steps with deltas that are not complete, each for the document it is applied
-- to, between which other commands leave the document and the history alone, from a buffer with
-- nothing to commit, and `commit_delta` at the end, one `perform_undo` gives back the document,
-- the selection and the undo list before the first step, and `perform_redo` after that gives the
-- document and the selection after the last, by the documented laws of subsets.
pub undo-Insertion :
    {X : XiRope} (laws : ChainLaws X) (b c : Buffer X)
    → Insertion b c
    → let undone = (perform_undo X (commit_delta X c)).0 in
      Undone X b c undone (perform_redo X undone).0
unfolding perform_undo perform_redo commit_delta History.commit_partial History.undo History.redo
undo-Insertion {X} laws b c steps =
    let p = Insertion-Pending laws b c steps in
    let inverse = invert-Inverts laws.subsets p.action c.contents p.fits in
    rw p.partial (record {
      contents = p.back;
      selection = refl;
      undos = p.undos;
      again = inverse.applied;
      selection_again = refl;
    })
