-- ===== src/Modes/Names.antt =====
-- The names of the modes, from `name` of each mode in src/modes/, with the count of src/cmd_count.rs,
-- and the texts of messages.
pub mod Letters
use teehee.Common.{
  ℕ, zero, suc, ◌+◌, ◌/◌, ◌%◌, Bool, true, false, Option, none, some, List, [], ◌∷◌, ◌++◌, ltb,
  if◌then◌else◌,
}
use teehee.CmdCount.{CountState, empty, counting}
use teehee.Modes.{
  Mode, InsertionMode, insertion, append, overwrite, SearchAcceptor, Info, measured,
  nothing_to_undo, nothing_to_redo, unsaved_changes, no_path, dirty_buffer, write_failed, io_error,
  unknown_command,
}
use teehee.Modes.Pattern.{lower_hex}
use teehee.Modes.Text.{codes}

-- The digits of a number, of `n` at most, before others.
unfoldable pub digits_before : ℕ → ℕ → ℕ → List ℕ → List ℕ
digits_before base zero v digits = digits
digits_before base (suc n) v digits =
    let more = digits_before base n (v / base) (lower_hex (v % base) ∷ digits) in
    if ltb v base then lower_hex v ∷ digits else more

-- `{}` of a `usize`
abbrev pub display : ℕ → List ℕ
display v = digits_before 10 20 v []

-- `{:x}` of a `usize`
abbrev pub lower_hex_display : ℕ → List ℕ
lower_hex_display v = digits_before 16 16 v []

-- `Display` of `State`
unfoldable pub display_count : CountState → List ℕ
display_count empty = []
display_count (counting true zero) = codes " (0x)"
display_count (counting true count) = codes " (0x" ++ (lower_hex_display count ++ codes ")")
display_count (counting false count) = codes " (" ++ (display count ++ codes ")")

unfoldable pub insertion_name : InsertionMode → Bool → List ℕ
insertion_name insertion true = codes "INSERT (hex)"
insertion_name insertion false = codes "INSERT (ascii)"
insertion_name append true = codes "APPEND (hex)"
insertion_name append false = codes "APPEND (ascii)"
insertion_name overwrite true = codes "OVERWRITE (hex)"
insertion_name overwrite false = codes "OVERWRITE (ascii)"

unfoldable pub replace_name : Bool → Option ℕ → List ℕ
replace_name true none = codes "REPLACE (hex)"
replace_name false hex_half = codes "REPLACE (ascii)"
replace_name true (some ch) =
    codes "REPLACE (hex: " ++ (lower_hex_display (ch / 16) ++ codes "...)")

abbrev pub collapse_name : List ℕ
collapse_name = codes "COLLAPSE"

unfoldable pub split_name : CountState → List ℕ
split_name count_state = codes "SPLIT" ++ display_count count_state

-- `Search::name` is that of the mode it leads to.
unfoldable pub acceptor_name : SearchAcceptor → List ℕ
unfolding split_name
acceptor_name SearchAcceptor.collapse = collapse_name
acceptor_name (SearchAcceptor.split count_state) = split_name count_state

unfoldable pub normal_name : CountState → List ℕ
normal_name count_state = codes "NORMAL" ++ display_count count_state

unfoldable pub jump_name : Bool → List ℕ
jump_name extended = if extended then codes "EXTEND" else codes "JUMP"

abbrev pub command_name : List ℕ
command_name = codes "COMMAND"

abbrev pub quitting_name : List ℕ
quitting_name = codes "QUITTING"

-- `Mode::name`
unfoldable pub name : Mode → List ℕ
name (Mode.normal count_state) = normal_name count_state
name (Mode.jump_to extended) = jump_name extended
name (Mode.split count_state) = split_name count_state
name (Mode.replace hex hex_half) = replace_name hex hex_half
name (Mode.insert mode hex hex_half) = insertion_name mode hex
name (Mode.search pattern cursor hex hex_half next) = acceptor_name next
name (Mode.command text cursor) = command_name
name Mode.quitting = quitting_name

-- The length of the main region.
unfoldable pub measured_text : ℕ → List ℕ
measured_text len = display len ++ (codes " = 0x" ++ (lower_hex_display len ++ codes " bytes"))

-- The text of a message of src/modes/normal.rs or src/modes/command.rs.
unfoldable pub info_text : Info → List ℕ
info_text (measured len) = measured_text len
info_text nothing_to_undo = codes "nothing left to undo"
info_text nothing_to_redo = codes "nothing left to redo"
info_text unsaved_changes = codes "unsaved changes! Run :wq or :q! instead."
info_text no_path = codes "buffer has no path"
info_text dirty_buffer = codes "buffer is dirty, use :db! if you're sure"
info_text (write_failed error) = codes "write failed: " ++ error
info_text (io_error error) = error
info_text (unknown_command command) = codes "Unknown command " ++ command
