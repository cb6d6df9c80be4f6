-- ===== src/Buffer/Snapshots/Runs.antt =====
-- Any sequence of commands of a buffer does what it does to the snapshots.
use teehee.Common.{Option, none, some, List, [], ◌∷◌}
use teehee.Rope.{XiRope}
use teehee.Rope.Laws.{SubsetLaws}
use teehee.Buffer.{Buffer}
use teehee.Buffer.Snapshots.{
  Snapshots, Command, command, perform, BothShow, commands, perform_all, AllFit,
}
use teehee.Buffer.Snapshots.Steps.{perform-BothShow}

-- A buffer that shows what an editor of snapshots holds goes on to show it through any sequence of
-- edits, undos, redos and selections, where each delta is for documents of the length that it meets:
-- both panic, or the document, the selection, and what every further undo and redo leads to are
-- those of the snapshots. The subsets obey their documented laws.
pub perform_all-BothShow :
    {X : XiRope} (laws : SubsetLaws X) (b : Option (Buffer X)) (a : Option Snapshots)
    (cs : List (Command X))
    → BothShow X b a
    → AllFit X a cs
    → BothShow X (perform_all X b cs) (commands X a cs)
unfolding perform_all
perform_all-BothShow laws b a [] shows fits = shows
perform_all-BothShow laws none none (c ∷ cs) shows fits =
    perform_all-BothShow laws none none cs tt tt
perform_all-BothShow laws none (some a) (c ∷ cs) shows fits = absurd shows
perform_all-BothShow laws (some b) none (c ∷ cs) shows fits = absurd shows
perform_all-BothShow {X} laws (some b) (some a) (c ∷ cs) shows fits =
    perform_all-BothShow laws (perform X b c) (command X a c) cs
      (perform-BothShow laws shows c fits.0) fits.1
