-- ===== src/HexView/Keys.antt =====
-- What the modes make of the keys that leave the editor: escape, `:`, `q`, `!` and enter.
use teehee.Common.{ℕ, ◌≡◌, refl, true, false, Option, none, some, List, [], ◌∷◌, length}
use teehee.Rope.{XiRope}
use teehee.Buffer
use teehee.Buffer.{Buffer}
use teehee.Buffers.{Buffers, set_current}
use teehee.HexView.StatusLine.{caret_of}
use teehee.HexView.Lines.{HasCaret, set_current-HasCaret}
use teehee.CmdCount
use teehee.CmdCount.{CountState}
use teehee.Files.{FileSystem}
use teehee.Keymap
use teehee.Keymap.{KeyCode, Event, press, plain, special, event_to_action}
use teehee.Modes.{Mode, new_mode, takes_input, ModeTransition, normal_mode}
use teehee.Modes.Pattern.{Matchers}
use teehee.Modes.Text
use teehee.Modes.Chars.{encode_utf8}
use teehee.Modes.Normal
use teehee.Modes.Command
use teehee.Modes.JumpTo
use teehee.Modes.Split
use teehee.Modes.Replace
use teehee.Modes.Insert
use teehee.Modes.Search
use teehee.Editor
use teehee.Editor.{on_current}

-- The mode, and what a transition or an event left to the view makes of it.
pub data Leads (mode : Mode) : Option ModeTransition → Mode → Type 0 where
  unhandled : Leads mode none mode
  changes : (mode' : Mode) → Leads mode (some (new_mode mode')) mode'

-- Escape leads to one of these modes; the first of them is the normal one.
abbrev pub Settled : Mode → Type 0
Settled (Mode.normal count_state) = Unit
Settled (Mode.split CmdCount.empty) = Unit
Settled _ = ⊥

abbrev pub IsNormal : Mode → Type 0
IsNormal (Mode.normal count_state) = Unit
IsNormal _ = ⊥

abbrev pub IsCommand : List ℕ → Mode → Type 0
IsCommand text mode = mode ≡ Mode.command text (length text)

abbrev pub escape : Event
escape = press (special KeyCode.esc)

module _ {X : XiRope} (m : Matchers) (F : FileSystem) where
  -- One event that leaves the files, from one mode to another that has a property.
  pub record Goes (P : Mode → Type 0) (mode : Mode) (evt : Event) (b : Buffers X) (files : F.Files)
      (n : ℕ) : Type 0 where
    pub buffers : Buffers X
    pub result : Option ModeTransition
    pub mode' : Mode
    pub returns : Editor.transition m F mode evt b files n ≡ some (buffers, files, result)
    pub leads : Leads mode result mode'
    pub caret : HasCaret buffers
    pub holds : P mode'

  module _ (b : Buffers X) (files : F.Files) (n : ℕ) (h : HasCaret b) where
    -- On the current buffer.
    current-Goes :
        (P : Mode → Type 0) (mode : Mode) (evt : Event) (buf : Buffer X)
        (c : caret_of buf ≡ some h.caret) (result : Option ModeTransition) (mode' : Mode)
        → Editor.transition m F mode evt b files n ≡ some (set_current b buf, files, result)
        → Leads mode result mode'
        → P mode'
        → Goes P mode evt b files n
    current-Goes P mode evt buf c result mode' e l p = record {
      buffers = set_current b buf;
      result = result;
      mode' = mode';
      returns = e;
      leads = l;
      caret = set_current-HasCaret b h buf c;
      holds = p;
    }

    escape-normal :
        (P : Mode → Type 0) (count_state : CountState)
        → ((c : CountState) → P (Mode.normal c))
        → Goes P (Mode.normal count_state) escape b files n
    unfolding Editor.transition on_current Normal.transition Normal.default_maps CmdCount.transition
        CmdCount.act CmdCount.default_maps event_to_action Keymap.keys
    escape-normal P (CmdCount.counting hex count) p =
        current-Goes P _ escape h.buf h.has_caret (some (new_mode normal_mode)) normal_mode
          (rw h.is_current refl) (changes _) (p _)
    escape-normal P CmdCount.empty p =
        current-Goes P _ escape h.buf h.has_caret none normal_mode (rw h.is_current refl) unhandled
          (p _)

    pub escape-Settled :
        (mode : Mode) → takes_input mode ≡ true → Goes Settled mode escape b files n
    unfolding Editor.transition on_current takes_input JumpTo.transition JumpTo.default_maps
        Split.transition Split.default_maps Split.act CmdCount.transition CmdCount.act
        CmdCount.default_maps Replace.transition Replace.default_maps Insert.transition
        Insert.default_maps Insert.act Search.transition Search.default_maps Search.act
        Command.transition Command.default_maps Command.act event_to_action Keymap.keys
        Buffer.commit_delta
    escape-Settled (Mode.normal count_state) t = escape-normal Settled count_state (λ c. tt)
    escape-Settled (Mode.jump_to extended) t =
        current-Goes Settled _ escape h.buf h.has_caret _ normal_mode (rw h.is_current refl)
          (changes _) tt
    escape-Settled (Mode.split (CmdCount.counting hex count)) t =
        current-Goes Settled _ escape h.buf h.has_caret _ (Mode.split CmdCount.empty)
          (rw h.is_current refl) (changes _) tt
    escape-Settled (Mode.split CmdCount.empty) t =
        current-Goes Settled _ escape h.buf h.has_caret _ normal_mode (rw h.is_current refl)
          (changes _) tt
    escape-Settled (Mode.replace hex hex_half) t =
        current-Goes Settled _ escape h.buf h.has_caret _ normal_mode (rw h.is_current refl)
          (changes _) tt
    escape-Settled (Mode.insert mode hex hex_half) t =
        current-Goes Settled _ escape (Buffer.commit_delta X h.buf) h.has_caret _ normal_mode
          (rw h.is_current refl) (changes _) tt
    escape-Settled (Mode.search pattern cursor hex hex_half next) t =
        current-Goes Settled _ escape h.buf h.has_caret _ normal_mode (rw h.is_current refl)
          (changes _) tt
    escape-Settled (Mode.command text cursor) t = record {
      buffers = b;
      result = _;
      mode' = normal_mode;
      returns = refl;
      leads = changes _;
      caret = h;
      holds = tt;
    }
    escape-Settled Mode.quitting t = absurd cc

    pub escape-IsNormal : (mode : Mode) → Settled mode → Goes IsNormal mode escape b files n
    unfolding Editor.transition on_current Split.transition Split.default_maps Split.act
        CmdCount.transition CmdCount.act CmdCount.default_maps event_to_action Keymap.keys
    escape-IsNormal (Mode.normal count_state) s = escape-normal IsNormal count_state (λ c. tt)
    escape-IsNormal (Mode.split CmdCount.empty) s =
        current-Goes IsNormal _ escape h.buf h.has_caret _ normal_mode (rw h.is_current refl)
          (changes _) tt
    escape-IsNormal (Mode.split (CmdCount.counting hex count)) s = absurd s
    escape-IsNormal (Mode.jump_to extended) s = absurd s
    escape-IsNormal (Mode.replace hex hex_half) s = absurd s
    escape-IsNormal (Mode.insert mode hex hex_half) s = absurd s
    escape-IsNormal (Mode.search pattern cursor hex hex_half next) s = absurd s
    escape-IsNormal (Mode.command text cursor) s = absurd s
    escape-IsNormal Mode.quitting s = absurd s

    pub colon-IsCommand :
        (mode : Mode) → IsNormal mode → Goes (IsCommand []) mode (press (plain b':')) b files n
    unfolding Editor.transition on_current Normal.transition Normal.default_maps Normal.act
        CmdCount.transition CmdCount.default_maps event_to_action Keymap.keys
    colon-IsCommand (Mode.normal count_state) s =
        current-Goes (IsCommand []) _ _ h.buf h.has_caret _ (Mode.command [] 0)
          (rw h.is_current refl) (changes _) refl
    colon-IsCommand (Mode.split count_state) s = absurd s
    colon-IsCommand (Mode.jump_to extended) s = absurd s
    colon-IsCommand (Mode.replace hex hex_half) s = absurd s
    colon-IsCommand (Mode.insert mode hex hex_half) s = absurd s
    colon-IsCommand (Mode.search pattern cursor hex hex_half next) s = absurd s
    colon-IsCommand (Mode.command text cursor) s = absurd s
    colon-IsCommand Mode.quitting s = absurd s

    -- The events on the command line.
    pub typed-IsCommand :
        (mode : Mode)
        → IsCommand [] mode
        → Goes (IsCommand (b'q' ∷ [])) mode (press (plain b'q')) b files n
    unfolding Editor.transition Command.transition Command.default_maps Command.char_key Text.insert
        Text.split_at event_to_action Keymap.keys
    typed-IsCommand mode s = rw s (record {
      buffers = b;
      result = _;
      mode' = _;
      returns = refl;
      leads = changes _;
      caret = h;
      holds = refl;
    })

    pub typed_bang-IsCommand :
        (mode : Mode)
        → IsCommand (b'q' ∷ []) mode
        → Goes (IsCommand (b'q' ∷ b'!' ∷ [])) mode (press (plain b'!')) b files n
    unfolding Editor.transition Command.transition Command.default_maps Command.char_key Text.insert
        Text.split_at Text.len_utf8 encode_utf8 event_to_action Keymap.keys
    typed_bang-IsCommand mode s = rw s (record {
      buffers = b;
      result = _;
      mode' = _;
      returns = refl;
      leads = changes _;
      caret = h;
      holds = refl;
    })

    pub enter-quitting :
        (mode : Mode)
        → IsCommand (b'q' ∷ b'!' ∷ []) mode
        → Goes (λ mode'. takes_input mode' ≡ false) mode (press (special KeyCode.enter)) b files n
    unfolding Editor.transition takes_input Command.transition Command.default_maps Command.act
        Command.finish Command.run Text.split_at_space Command.find_command Command.default_commands
        event_to_action Keymap.keys
    enter-quitting mode s = rw s (record {
      buffers = b;
      result = _;
      mode' = _;
      returns = refl;
      leads = changes _;
      caret = h;
      holds = refl;
    })
