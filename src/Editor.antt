-- ===== src/Editor.antt =====
-- `Mode::transition` of src/modes/mode.rs for the mode at hand, on the open buffers: each mode but the
-- command line works on the current buffer.
use teehee.Common.{ℕ, none, some, ◌>>=◌}
use teehee.Rope.{XiRope}
use teehee.Buffer.{Buffer}
use teehee.Buffers.{Buffers, current, set_current}
use teehee.Files.{FileSystem}
use teehee.Keymap.{Event}
use teehee.Modes
use teehee.Modes.{Mode, ModeTransition}
use teehee.Modes.Pattern.{Matchers}
use teehee.Modes.Normal
use teehee.Modes.JumpTo
use teehee.Modes.Split
use teehee.Modes.Replace
use teehee.Modes.Insert
use teehee.Modes.Search
use teehee.Modes.Command
use teehee.Modes.Command.{Outcome}

module _ {X : XiRope} (m : Matchers) (F : FileSystem) where
  unfoldable pub on_current : Buffers X → F.Files → (Buffer X → Modes.Outcome X) → Outcome X F
  on_current b files f = current b >>= λ buf.
      f buf >>= λ (buf', transition). some (set_current b buf', files, transition)

  -- The event loop leaves off in the quitting mode, of which `transition` is unreachable.
  unfoldable pub transition : Mode → Event → Buffers X → F.Files → ℕ → Outcome X F
  transition (Mode.normal count_state) evt b files bytes_per_line =
      on_current b files (λ buf. Normal.transition X count_state evt buf bytes_per_line)
  transition (Mode.jump_to extended) evt b files bytes_per_line =
      on_current b files (λ buf. JumpTo.transition X extended evt buf bytes_per_line)
  transition (Mode.split count_state) evt b files bytes_per_line =
      on_current b files (λ buf. Split.transition X m count_state evt buf)
  transition (Mode.replace hex hex_half) evt b files bytes_per_line =
      on_current b files (λ buf. Replace.transition X hex hex_half evt buf)
  transition (Mode.insert mode hex hex_half) evt b files bytes_per_line =
      on_current b files (λ buf. Insert.transition X mode hex hex_half evt buf bytes_per_line)
  transition (Mode.search pattern cursor hex hex_half next) evt b files bytes_per_line =
      on_current b files (λ buf.
        Search.transition X m
          (record {
            pattern = pattern;
            cursor = cursor;
            hex = hex;
            hex_half = hex_half;
            next = next;
          })
          evt buf)
  transition (Mode.command text cursor) evt b files bytes_per_line =
      Command.transition F text cursor evt b files
  transition Mode.quitting evt b files bytes_per_line = none
