-- ===== src/Tests/Commands.antt =====
-- src/modes/command.rs and src/buffer.rs at a buffer with a path, on a disk in memory.
use teehee.Common.{
  ℕ, ◌≡◌, refl, true, false, none, some, List, [], ◌∷◌, same_codes, if◌then◌else◌, arith,
}
use teehee.Rope.{Rope}
use teehee.Rope.Model.{model}
use teehee.Rope.Model.Subsets.{subset_laws}
use teehee.Selection
use teehee.Selection.{Selection}
use teehee.Selection.Shift
use teehee.Buffer.{Buffer, FilePath, from_data_and_path}
use teehee.Buffer.Snapshots.Runs.{perform_all-BothShow}
use teehee.Buffer.Snapshots.{Snapshots, Command, edit, undo, redo, BothShow, commands, perform_all}
use teehee.Buffers.{Buffers, with_buffer}
use teehee.Files.{FileSystem, Result, ok, err}
use teehee.Keymap.{KeyCode, no_modifiers}
use teehee.Modes.{Mode, new_mode, normal_mode}
use teehee.Modes.Command.{
  save_all, quit, write, write_all, run, finish, remove_last, remove_this, act, char_key,
}
use teehee.Modes.Command.Safety.{Runs, finish-Runs}
use teehee.Modes.Command.Saving.{quit-write_all}
use teehee.Modes.Command.Line.{IsLine}
use teehee.Modes.Command.Typing.{
  Types, removes_this, act-Types, remove_last-char_key, char_key_wide-panics,
}
use teehee.Tests.{document}
use teehee.Tests.Undo.{delta, before}

-- Files by their paths, each of which leads to itself; a write never fails.
abbrev pub disk : FileSystem
disk = record {
  Files = FilePath → Result Rope;
  canonicalize = λ files p. ok p;
  read = λ files p. files p;
  write = λ files p contents. ((λ q. if same_codes q p then ok contents else files q), none);
}

-- Without files.
abbrev pub empty_disk : FilePath → Result Rope
empty_disk p = err []

abbrev buffer : Buffer model
buffer = record (from_data_and_path model document (some (97 ∷ []))) { dirty = true }

abbrev buffers : Buffers model
buffers = with_buffer buffer

abbrev snapshots : Snapshots
snapshots = record { past = []; present = (before.contents, before.selection); future = [] }

abbrev edits : List (Command model)
edits = edit delta ∷ undo ∷ redo ∷ []

perform_all-BothShow_example :
    BothShow model (perform_all model (some before) edits) (commands model (some snapshots) edits)
unfolding Shift.apply_delta Selection.map_selections Selection.map_selections_to Selection.map_loop
    Selection.push_regions Selection.push_region Selection.note_main
perform_all-BothShow_example =
    perform_all-BothShow subset_laws (some before) (some snapshots) edits
      (record { contents = refl; selection = refl; undos = tt; redos = tt }) (refl, (tt, (tt, tt)))

-- "db!"
finish-Runs_example : Runs model disk (finish disk (100 ∷ 98 ∷ 33 ∷ []) buffers empty_disk)
finish-Runs_example = finish-Runs disk (100 ∷ 98 ∷ 33 ∷ []) buffers empty_disk (omega arith)

abbrev clean_buffers : Buffers model
clean_buffers = with_buffer (record buffer { dirty = false })

abbrev saved_disk : FilePath → Result Rope
saved_disk = λ q. if same_codes q (97 ∷ []) then ok document else empty_disk q

saved_all :
    run disk write_all buffers empty_disk []
    ≡ some (clean_buffers, saved_disk, new_mode normal_mode)
unfolding run save_all
saved_all = refl

quit-write_all_example :
    run disk quit clean_buffers saved_disk []
    ≡ some (clean_buffers, saved_disk, new_mode Mode.quitting)
quit-write_all_example =
    quit-write_all disk buffers clean_buffers empty_disk saved_disk [] [] saved_all

-- Another file than that of the buffer.
abbrev other_disk : FilePath → Result Rope
other_disk = λ q. if same_codes q (98 ∷ []) then ok document else empty_disk q

-- "db" with the cursor between the letters.
typed-IsLine : IsLine (100 ∷ 98 ∷ []) 1
typed-IsLine = record { ascii = (omega arith, (omega arith, tt)); within = omega arith }

act-Types_example :
    Types model disk buffers empty_disk (act disk (100 ∷ 98 ∷ []) 1 remove_this buffers empty_disk)
act-Types_example =
    act-Types disk buffers empty_disk (100 ∷ 98 ∷ []) 1 remove_this typed-IsLine
      (removes_this (omega arith))

remove_last-char_key_example :
    (text' : List ℕ) × (text' ≡ 100 ∷ 33 ∷ 98 ∷ [])
    × (char_key disk (100 ∷ 98 ∷ []) 1 (KeyCode.char 33) no_modifiers buffers empty_disk
        ≡ some (buffers, empty_disk, some (new_mode (Mode.command text' 2))))
    × (act disk text' 2 remove_last buffers empty_disk
        ≡ some (buffers, empty_disk, some (new_mode (Mode.command (100 ∷ 98 ∷ []) 1))))
remove_last-char_key_example =
    remove_last-char_key disk buffers empty_disk (100 ∷ 98 ∷ []) 1 33 no_modifiers typed-IsLine
      (omega arith) refl

char_key_wide-panics_example :
    (text' : List ℕ) × (char_key disk
        (100 ∷ 98 ∷ [])
        1
        (KeyCode.char 233)
        no_modifiers
        buffers
        empty_disk
      ≡ some (buffers, empty_disk, some (new_mode (Mode.command text' 2))))
    × (char_key disk text' 2 (KeyCode.char 33) no_modifiers buffers empty_disk ≡ none)
char_key_wide-panics_example =
    char_key_wide-panics disk buffers empty_disk (100 ∷ 98 ∷ []) 1 233 33 no_modifiers typed-IsLine
      (omega arith) refl
