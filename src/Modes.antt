-- ===== src/Modes.antt =====
-- src/modes/: the modes of the editor as one type, and what a key press makes of them.
pub mod Chars
pub mod Normal
pub mod JumpTo
pub mod Replace
pub mod Insert
pub mod Pattern
pub mod Split
pub mod Collapse
pub mod Search
pub mod Text
pub mod Names
pub mod Command
use teehee.Common.{ℕ, Bool, false, Option, none, some, List, [], ◌>>=◌}
use teehee.Rope.{XiRope}
use teehee.Buffer.{Buffer}
use teehee.CmdCount.{CountState, empty}
use teehee.Dirty.{DirtyBytes}

pub data InsertionMode : Type 0 where
  insertion append overwrite : InsertionMode

pub data PatternPiece : Type 0 where
  literal : ℕ → PatternPiece
  wildcard : PatternPiece

-- `Box<dyn SearchAcceptor>`
pub data SearchAcceptor : Type 0 where
  collapse : SearchAcceptor
  split : CountState → SearchAcceptor

-- `Box<dyn Mode>`: the fields of each mode's struct, in order.
pub data Mode : Type 0 where
  normal : (count_state : CountState) → Mode
  jump_to : (extend : Bool) → Mode
  split : (count_state : CountState) → Mode
  replace : (hex : Bool) → (hex_half : Option ℕ) → Mode
  insert : (mode : InsertionMode) → (hex : Bool) → (hex_half : Option ℕ) → Mode
  search :
      (pattern : List PatternPiece)
      → (cursor : ℕ) → (hex : Bool) → (hex_half : Option ℕ) → (next : SearchAcceptor) → Mode
  command : (text : List ℕ) → (cursor : ℕ) → Mode
  quitting : Mode

-- The texts of the status line. An error of the file system is given by its text.
pub data Info : Type 0 where
  measured : ℕ → Info
  nothing_to_undo nothing_to_redo unsaved_changes no_path dirty_buffer : Info
  write_failed io_error : (error : List ℕ) → Info
  unknown_command : (name : List ℕ) → Info

-- `ModeTransition::None` is `no_change`.
pub data ModeTransition : Type 0 where
  no_change : ModeTransition
  new_mode : Mode → ModeTransition
  dirty_bytes : DirtyBytes → ModeTransition
  mode_and_dirty_bytes : Mode → DirtyBytes → ModeTransition
  mode_and_info : Mode → Info → ModeTransition

-- `Mode::takes_input`
unfoldable pub takes_input : Mode → Bool
takes_input quitting = Bool.false
takes_input m = Bool.true

-- `Mode::has_half_cursor`
unfoldable pub has_half_cursor : Mode → Bool
has_half_cursor (insert mode hex (some half)) = Bool.true
has_half_cursor m = false

-- `Normal::new`
abbrev pub normal_mode : Mode
normal_mode = normal empty

-- A key press on the current buffer: `none` is a panic, and the inner `none` a key that the mode
-- leaves to the view.
abbrev pub Outcome : XiRope → Type 0
Outcome X = Option (Buffer X × Option ModeTransition)

module _ {X : XiRope} where
  abbrev pub stays : Buffer X → ModeTransition → Outcome X
  stays b t = some (b, some t)

  abbrev pub unhandled : Buffer X → Outcome X
  unhandled b = some (b, none)

  -- What a buffer operation returns, as a transition.
  abbrev pub dirty : Option (Buffer X × DirtyBytes) → Outcome X
  dirty result = result >>= λ (b, d). some (b, some (dirty_bytes d))

  abbrev pub mode_and_dirty : Mode → Option (Buffer X × DirtyBytes) → Outcome X
  mode_and_dirty mode result = result >>= λ (b, d). some (b, some (mode_and_dirty_bytes mode d))
