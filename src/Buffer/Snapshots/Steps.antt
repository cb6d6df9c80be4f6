-- ===== src/Buffer/Snapshots/Steps.antt =====
-- Each command of a buffer does what it does to the snapshots.
use teehee.Common.{
  ◌≡◌, refl, ap, ◌∙◌, true, Option, none, some, List, [], ◌∷◌, ◌>>=◌, length, map, arith,
}
use teehee.Region.{SelRegion}
use teehee.Rope.{XiRope}
use teehee.Rope.Laws.{SubsetLaws}
use teehee.Selection
use teehee.Selection.{Selection}
use teehee.Selection.Shift
use teehee.History
use teehee.History.{Action, invert, from_delta}
use teehee.History.Invert.{invert-Inverts}
use teehee.Dirty.{DirtyBytes, change_in_place, disjoint, sort_by_start, invalidated}
use teehee.Buffer
use teehee.Buffer.{
  Buffer, apply_delta, perform_undo, perform_redo, apply_delta_to_buffer, with_selection, replayed,
}
use teehee.Buffer.Snapshots.{
  Snapshot, Snapshots, Command, edit, undo, redo, select, undo_snapshot, redo_snapshot, command,
  perform, Fits, Leads, Shows, BothShow,
}

module _ {X : XiRope} (laws : SubsetLaws X) {b : Buffer X} {a : Snapshots}
    (shows : Shows X b a) where
  -- The entry that an action leaves behind leads back.
  Leads-invert :
      (action : Action X) (s s' : Selection) (es : List (Action X × Selection)) (ps : List Snapshot)
      → X.base_len action.delta ≡ length a.present.0
      → s ≡ s'
      → Leads X a.present.0 es ps
      → Leads X
          (X.apply action.delta a.present.0)
          ((invert X action b.contents, s) ∷ es)
          ((a.present.0, s') ∷ ps)
  Leads-invert action s s' es ps fits same rest =
      let inverse = invert-Inverts laws action a.present.0 fits in
      rw shows.contents (inverse.base_len, inverse.applied, same, rest)

  edit-BothShow :
      (delta : X.Delta)
      → X.base_len delta ≡ length a.present.0
      → (o : Option Selection)
      → BothShow X
          (with_selection X (apply_delta_to_buffer X b delta true) o >>= λ (b', d). some b')
          (o >>= λ s. some (record {
            past = a.present ∷ a.past;
            present = (X.apply delta a.present.0, s);
            future = [];
          }))
  unfolding with_selection apply_delta_to_buffer History.perform_final
  edit-BothShow delta fits none = tt
  edit-BothShow delta fits (some s) = record {
    contents = ap (X.apply delta) shows.contents;
    selection = refl;
    undos =
        Leads-invert (from_delta X delta) b.selection a.present.1 b.history.undos a.past fits
          shows.selection shows.undos;
    redos = tt;
  }

  selected-BothShow :
      (d : DirtyBytes) (o : Option Selection)
      → BothShow X
          (◌>>=◌ {A = Buffer X × DirtyBytes}
            (o >>= λ s. some (record b { selection = s }, d))
            (λ (b', d'). some b'))
          (o >>= λ s. some (record a { present = (a.present.0, s) }))
  selected-BothShow d none = tt
  selected-BothShow d (some s) = record {
    contents = shows.contents;
    selection = refl;
    undos = shows.undos;
    redos = shows.redos;
  }

  select-BothShow :
      (f : SelRegion → List SelRegion)
      → BothShow X (perform X b (select f)) (command X a (select f))
  unfolding perform Buffer.map_selections Buffer.map_selections_to Selection.map_selections
  select-BothShow f = rw shows.selection (
      selected-BothShow
        (change_in_place
          (disjoint (sort_by_start (invalidated a.present.1.regions (map f a.present.1.regions)))))
        (Selection.map_selections_to a.present.1 (map f a.present.1.regions)))

perform_undo-none : {X : XiRope} (b : Buffer X) → b.history.undos ≡ [] → (perform_undo X b).0 ≡ b
unfolding perform_undo History.undo replayed
perform_undo-none b e = ground arith

perform_undo-some :
    {X : XiRope} (b : Buffer X) (action : Action X) (s : Selection)
    (es : List (Action X × Selection))
    → b.history.undos ≡ (action, s) ∷ es
    → (perform_undo X b).0 ≡ record b {
      history = record (b.history) {
        undos = es;
        redos = (invert X action b.contents, b.selection) ∷ b.history.redos;
      };
      selection = s;
      contents = X.apply action.delta b.contents;
      dirty = true;
    }
unfolding perform_undo History.undo replayed
perform_undo-some b action s es e = ground arith

perform_redo-none : {X : XiRope} (b : Buffer X) → b.history.redos ≡ [] → (perform_redo X b).0 ≡ b
unfolding perform_redo History.redo replayed
perform_redo-none b e = ground arith

perform_redo-some :
    {X : XiRope} (b : Buffer X) (action : Action X) (s : Selection)
    (es : List (Action X × Selection))
    → b.history.redos ≡ (action, s) ∷ es
    → (perform_redo X b).0 ≡ record b {
      history = record (b.history) {
        undos = (invert X action b.contents, b.selection) ∷ b.history.undos;
        redos = es;
      };
      selection = s;
      contents = X.apply action.delta b.contents;
      dirty = true;
    }
unfolding perform_redo History.redo replayed
perform_redo-some b action s es e = ground arith

undo_snapshot-nil : (a : Snapshots) → a.past ≡ [] → undo_snapshot a ≡ a
undo_snapshot-nil a e = ground arith

undo_snapshot-cons :
    (a : Snapshots) (p : Snapshot) (past : List Snapshot)
    → a.past ≡ p ∷ past
    → undo_snapshot a ≡ record { past = past; present = p; future = a.present ∷ a.future }
undo_snapshot-cons a p past e = ground arith

redo_snapshot-nil : (a : Snapshots) → a.future ≡ [] → redo_snapshot a ≡ a
redo_snapshot-nil a e = ground arith

redo_snapshot-cons :
    (a : Snapshots) (p : Snapshot) (future : List Snapshot)
    → a.future ≡ p ∷ future
    → redo_snapshot a ≡ record { past = a.present ∷ a.past; present = p; future = future }
redo_snapshot-cons a p future e = ground arith

module _ {X : XiRope} (laws : SubsetLaws X) {b : Buffer X} {a : Snapshots}
    (shows : Shows X b a) where
  undone-Shows :
      (undos : List (Action X × Selection)) (past : List Snapshot)
      → b.history.undos ≡ undos
      → a.past ≡ past
      → Shows X (perform_undo X b).0 (undo_snapshot a)
  undone-Shows [] [] e e' = rw (perform_undo-none b e, undo_snapshot-nil a e') shows
  undone-Shows [] (p ∷ past) e e' = absurd (rw (e, e') at shows.undos)
  undone-Shows ((action, s) ∷ es) [] e e' = absurd (rw (e, e') at shows.undos)
  undone-Shows ((action, s) ∷ es) ((text, s') ∷ past) e e' =
      let (fits, applied, same, rest) = rw (e, e') at shows.undos in
      rw (perform_undo-some b action s es e, undo_snapshot-cons a (text, s') past e')
        (record {
          contents = ap (X.apply action.delta) shows.contents ∙ applied;
          selection = same;
          undos = rest;
          redos = rw (← applied) (
              Leads-invert laws shows action b.selection a.present.1 b.history.redos a.future fits
                shows.selection shows.redos);
        })

  redone-Shows :
      (redos : List (Action X × Selection)) (future : List Snapshot)
      → b.history.redos ≡ redos
      → a.future ≡ future
      → Shows X (perform_redo X b).0 (redo_snapshot a)
  redone-Shows [] [] e e' = rw (perform_redo-none b e, redo_snapshot-nil a e') shows
  redone-Shows [] (p ∷ future) e e' = absurd (rw (e, e') at shows.redos)
  redone-Shows ((action, s) ∷ es) [] e e' = absurd (rw (e, e') at shows.redos)
  redone-Shows ((action, s) ∷ es) ((text, s') ∷ future) e e' =
      let (fits, applied, same, rest) = rw (e, e') at shows.redos in
      rw (perform_redo-some b action s es e, redo_snapshot-cons a (text, s') future e')
        (record {
          contents = ap (X.apply action.delta) shows.contents ∙ applied;
          selection = same;
          redos = rest;
          undos = rw (← applied) (
              Leads-invert laws shows action b.selection a.present.1 b.history.undos a.past fits
                shows.selection shows.undos);
        })

  pub perform-BothShow : (c : Command X) → Fits X a c → BothShow X (perform X b c) (command X a c)
  unfolding perform apply_delta
  perform-BothShow (edit delta) fits =
      let same : Shift.apply_delta X b.selection delta (length b.contents)
          ≡ Shift.apply_delta X a.present.1 delta (length a.present.0) =
        ap (λ t. Shift.apply_delta X b.selection delta (length t)) shows.contents
        ∙ ap (λ t. Shift.apply_delta X t delta (length a.present.0)) shows.selection in
      rw same (
        edit-BothShow laws shows delta fits
          (Shift.apply_delta X a.present.1 delta (length a.present.0)))
  perform-BothShow undo fits = undone-Shows b.history.undos a.past refl refl
  perform-BothShow redo fits = redone-Shows b.history.redos a.future refl refl
  perform-BothShow (select f) fits = select-BothShow laws shows f
