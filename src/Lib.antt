-- ===== src/Lib.antt =====
-- teehee, a modal hex editor, in a model of its buffers, selections and modes.
--
-- The program. The terminal gives events to the current mode. A mode maps a key to an action by
-- its key map, a count typed before the command in front of it, and applies the action to the
-- current buffer: it maps the selected regions, or makes a delta of the document from the
-- selection and applies it. The buffer carries its selection over the delta and keeps the inverse
-- in its history. The result is a new mode, or the bytes that the view has to draw again, or both.
--
-- Which file models which part:
--   Common          shared types, Boolean tests, lists, and the arithmetic of usize and isize
--   Region          src/selection.rs: SelRegion, one region, with its moves and merge
--   Selection       src/selection.rs: Selection, in order, with one main region
--   Keymap          src/keymap.rs: keys, events and key maps
--   CmdCount        src/cmd_count.rs: the count before a command
--   Rope            src/byte_rope.rs and what the program calls of the crate xi-rope; Leaves has the
--                   leaves of its tree
--   Operations      src/operations.rs: the deltas of the editing commands
--   History         src/history.rs: undo and redo
--   Dirty           the ranges that Buffer::map_selections in src/buffer.rs reports
--   Buffer          src/buffer.rs: Buffer
--   Buffers         src/buffer.rs: Buffers, the open buffers and the current one
--   Files           the calls of std::fs and Path, a parameter
--   Modes           src/modes: Mode, ModeTransition, and a child for each mode
--   Editor          src/modes/mode.rs: the transition of the mode at hand, on the open buffers
--   HexView         src/hex_view/view.rs: the visible bytes, scrolling, and a child for each of:
--                   the event loop (Events), its drawings (Paint), styles (Style,
--                   src/hex_view/mod.rs), the styles of the bytes (Marks), rows (Rows), prompts
--                   (Prompt), the status line (StatusLine), and the numbers and characters at the
--                   caret (Properties and Chars, src/hex_view/byte_properties.rs)
--   Tests           the theorems at concrete inputs
--
-- How the model corresponds to the code. A struct is a record and an enum a data type; a method
-- that mutates self returns the new value. A panic (an index out of range, a failed assertion or
-- unwrap) is `none` of Option. usize and isize have 64 bits: sums wrap (`wrapping_add`), casts and
-- saturating products are written out; subtraction stops at 0 and stands only where the source
-- does not go below it. A Vec used as a stack has its last element first. A closure with a state
-- is given as the list of what it returns for each region, in turn. The loop of map_selections is
-- `map_loop`, binary search is the search for the first region that does not end before the
-- offset, which is the same where the regions are in order.
--
-- The crates. xi-rope is a parameter: the record `Rope.XiRope` of its types and functions, and
-- in Rope.Laws what it documents of them, which theorems take as hypotheses. Rope.Model is
-- a small instance of which the laws hold. The
-- matchers of bstr and regex are the record Modes.Pattern.Matchers. The file system is the record
-- Files.FileSystem, of which nothing is assumed; Tests.Commands has an instance.
--
-- Loops. All are structural, but for seven that take fuel: the search for matches
-- (`Modes.Pattern.find_loop`) and the pieces of a split by width (`Modes.Split.pieces`) have one
-- round for each byte of the region and one more, for every round takes at least one byte; so has
-- the decoding of characters (`HexView.Chars.chars`). The cutting of leaves
-- (`Rope.Leaves.leaves_of`) has one round for each byte; a number below 2^32 has at most ten decimal
-- digits (`HexView.Properties.decimal`); and the rows below the visible bytes
-- (`HexView.Rows.draw_rest`) are at most five, one for each line of properties. A usize has at most
-- 20 decimal and 16 hexadecimal digits (`Modes.Names.digits_before`).
--
-- Drawings. A method of the view returns the drawings that it asks for, by their name, and the event
-- loop has HexView.Paint run them: what they queue for the terminal, or a panic, is its result.
--
-- Not modelled: the writing of what is queued to the terminal, and its switch to the alternate screen
-- and the raw mode, which are left to crossterm; how `{:x?}` writes a character, which
-- is a parameter of HexView.Properties; the cursor and the tree of the rope, which are code of
-- xi-rope.
pub mod Buffer
pub mod Buffers
pub mod CmdCount
pub mod Common
pub mod Dirty
pub mod Editor
pub mod Files
pub mod HexView
pub mod History
pub mod Keymap
pub mod Modes
pub mod Operations
pub mod Region
pub mod Rope
pub mod Selection
pub mod Tests
