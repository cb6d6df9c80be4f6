-- ===== src/Buffer/Snapshots.antt =====
-- What a buffer promises of its history: an editor that keeps whole documents. Its commands are
-- those of the buffer that go through `apply_delta`, `perform_undo`, `perform_redo` and
-- `map_selections`.
pub mod Steps
pub mod Runs
use teehee.Common.{
  ◌≡◌, refl, ap, ◌∙◌, true, Option, none, some, List, [], ◌∷◌, ◌>>=◌, length, map, arith,
}
use teehee.Region.{SelRegion}
use teehee.Rope.{Rope, XiRope}
use teehee.Rope.Laws.{SubsetLaws}
use teehee.Selection
use teehee.Selection.{Selection}
use teehee.Selection.Shift
use teehee.History
use teehee.History.{Action, invert, from_delta}
use teehee.History.Invert.{invert-Inverts}
use teehee.Dirty.{DirtyBytes, change_in_place, disjoint, sort_by_start, invalidated}
use teehee.Buffer
use teehee.Buffer.{
  Buffer, apply_delta, perform_undo, perform_redo, apply_delta_to_buffer, with_selection, replayed,
}

-- A document and its selection.
abbrev pub Snapshot : Type 0
Snapshot = Rope × Selection

pub record Snapshots : Type 0 where
  pub past : List Snapshot
  pub present : Snapshot
  pub future : List Snapshot

pub data Command (X : XiRope) : Type 0 where
  edit : X.Delta → Command X
  undo redo : Command X
  select : (SelRegion → List SelRegion) → Command X

abbrev pub undo_snapshot : Snapshots → Snapshots
undo_snapshot a = elim a.past [
  | [] ↦ a
  | p ∷ past ↦ record { past = past; present = p; future = a.present ∷ a.future }
]

abbrev pub redo_snapshot : Snapshots → Snapshots
redo_snapshot a = elim a.future [
  | [] ↦ a
  | p ∷ future ↦ record { past = a.present ∷ a.past; present = p; future = future }
]

module _ (X : XiRope) where
  -- One command of the editor of snapshots; `none` is a panic.
  abbrev pub command : Snapshots → Command X → Option Snapshots
  command a (edit delta) = Shift.apply_delta X a.present.1 delta (length a.present.0) >>= λ s.
      some (record {
        past = a.present ∷ a.past;
        present = (X.apply delta a.present.0, s);
        future = [];
      })
  command a undo = some (undo_snapshot a)
  command a redo = some (redo_snapshot a)
  command a (select f) =
      Selection.map_selections a.present.1 f >>= λ s. some (record a { present = (a.present.0, s) })

  -- The same command on a buffer.
  unfoldable pub perform : Buffer X → Command X → Option (Buffer X)
  perform b (edit delta) = apply_delta X b delta >>= λ (b', d). some b'
  perform b undo = some (perform_undo X b).0
  perform b redo = some (perform_redo X b).0
  perform b (select f) = Buffer.map_selections X b f >>= λ (b', d). some b'

  -- A delta is for documents of the length that it meets.
  abbrev pub Fits : Snapshots → Command X → Type 0
  Fits a (edit delta) = X.base_len delta ≡ length a.present.0
  Fits a _ = Unit

  -- Each entry leads from the document before it to its snapshot.
  abbrev pub Leads : Rope → List (Action X × Selection) → List Snapshot → Type 0
  Leads text [] [] = Unit
  Leads text [] (p ∷ ps) = ⊥
  Leads text (e ∷ es) [] = ⊥
  Leads text ((action, s) ∷ es) ((text', s') ∷ ps) =
      (X.base_len action.delta ≡ length text)
      × (X.apply action.delta text ≡ text')
      × (s ≡ s')
      × Leads text' es ps

  pub record Shows (b : Buffer X) (a : Snapshots) : Type 0 where
    pub contents : b.contents ≡ a.present.0
    pub selection : b.selection ≡ a.present.1
    pub undos : Leads a.present.0 b.history.undos a.past
    pub redos : Leads a.present.0 b.history.redos a.future

  abbrev pub BothShow : Option (Buffer X) → Option Snapshots → Type 0
  BothShow none none = Unit
  BothShow (some b) (some a) = Shows b a
  BothShow none (some a) = ⊥
  BothShow (some b) none = ⊥

-- A sequence of commands, on either side; a panic ends it.
abbrev pub commands : (X : XiRope) → Option Snapshots → List (Command X) → Option Snapshots
commands X a [] = a
commands X a (c ∷ cs) = commands X (a >>= λ a'. command X a' c) cs

unfoldable pub perform_all : (X : XiRope) → Option (Buffer X) → List (Command X) → Option (Buffer X)
perform_all X b [] = b
perform_all X b (c ∷ cs) = perform_all X (b >>= λ b'. perform X b' c) cs

-- Each delta is for documents of the length that it meets in the editor of snapshots.
abbrev pub AllFit : (X : XiRope) → Option Snapshots → List (Command X) → Type 0
AllFit X none cs = Unit
AllFit X (some a) [] = Unit
AllFit X (some a) (c ∷ cs) = Fits X a c × AllFit X (command X a c) cs
