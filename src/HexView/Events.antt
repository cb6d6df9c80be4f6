-- ===== src/HexView/Events.antt =====
-- src/hex_view/view.rs: what the view does with a transition or an event, and the event loop.
use Prim.Native.Nat.{min as cmp_min, max as cmp_max}
use teehee.Common.{
  ℕ, ◌-◌, ◌/◌, ◌%◌, Option, none, some, List, [], ◌∷◌, ◌++◌, map, if◌then◌else◌, ◌>>=◌, length,
}
use teehee.Region.{Direction, up, down, simple_move}
use teehee.Rope.{XiRope}
use teehee.Buffer
use teehee.Buffer.{Buffer}
use teehee.Buffers.{current, set_current}
use teehee.Dirty.{Interval, DirtyBytes, change_in_place, change_length}
use teehee.Files.{FileSystem}
use teehee.Keymap.{KeyEvent, Event, key, resize, mouse, same_key, ctrl}
use teehee.Modes.{
  ModeTransition, no_change, new_mode, dirty_bytes, mode_and_dirty_bytes, mode_and_info,
  takes_input,
}
use teehee.Modes.Pattern.{Matchers}
use teehee.Editor
use teehee.HexView.Style.{Queued}
use teehee.HexView.Paint.{paint}
use teehee.HexView.{
  HexView, Output, draw, draw_rows, draw_statusline, Drawn, count_from, properties_height,
  visible_bytes, scroll_down, scroll_up, maybe_update_offset, maybe_update_offset_and_draw,
}

module _ {X : XiRope} where
  -- The rows of the bytes that an interval has on the screen.
  rows_of : HexView X → Interval → Interval → List ℕ
  rows_of v visible x =
      let start = cmp_max visible.start x.start in
      map (λ byte. (byte - v.start_offset) / v.bytes_per_line % 65536)
        (count_from start (cmp_min visible.end x.end - start))

  unfoldable pub rows_of_all : HexView X → Interval → List Interval → List ℕ
  unfolding rows_of
  rows_of_all v visible [] = []
  rows_of_all v visible (x ∷ intervals) = rows_of v visible x ++ rows_of_all v visible intervals

  -- What `then` has the terminal do, behind `outputs`.
  abbrev behind : List Output → Drawn X → Drawn X
  behind outputs result = result >>= λ (v, more). some (v, outputs ++ more)

  redrawn : List Interval → HexView X → Drawn X
  redrawn intervals v = current v.buffers >>= λ buf. some (
    v,
    draw_rows (rows_of_all v (visible_bytes v buf) intervals ++ count_from 0 properties_height)
        ∷ [],
  )

  unfoldable pub transition_dirty_bytes : HexView X → DirtyBytes → Drawn X
  unfolding redrawn
  transition_dirty_bytes v (change_in_place intervals) =
      maybe_update_offset v >>= λ (v', outputs). behind outputs (redrawn intervals v')
  transition_dirty_bytes v change_length = maybe_update_offset_and_draw v

  unfoldable pub transition : HexView X → ModeTransition → Drawn X
  transition v no_change = some (record v { info = none }, [])
  transition v (dirty_bytes d) = transition_dirty_bytes (record v { info = none }) d
  transition v (new_mode mode) = some (record v { info = none; mode = mode }, [])
  transition v (mode_and_dirty_bytes mode d) =
      transition_dirty_bytes (record v { info = none; mode = mode }) d
  transition v (mode_and_info mode info) = some (record v { info = some info; mode = mode }, [])

  -- The selection moved by a line in the view that scrolls.
  move_line : Direction → HexView X → Option (HexView X × Buffer X)
  move_line direction v = current v.buffers >>= λ buf.
      Buffer.map_selections X buf
        (λ region. simple_move region direction v.bytes_per_line (length buf.contents) 1 ∷ [])
      >>= λ (buf', d). some (record v { buffers = set_current v.buffers buf' }, buf')

  then_draw : Drawn X → Drawn X
  then_draw result = result >>= λ (v, outputs). some (v, outputs ++ (draw ∷ []))

  default_key : HexView X → KeyEvent → Drawn X
  unfolding move_line then_draw
  default_key v evt =
      if same_key evt (ctrl b'e')
      then (move_line down v >>= λ (v', buf). then_draw (scroll_down v' buf 1))
      else (if same_key evt (ctrl b'y')
          then (move_line up v >>= λ (v', buf). then_draw (scroll_up v' 1))
          else some (v, []))

  unfoldable pub handle_event_default : HexView X → Event → Drawn X
  unfolding default_key
  handle_event_default v (resize x y) = some (record v { columns = x; rows = y }, draw ∷ [])
  handle_event_default v (key evt) = default_key v evt
  handle_event_default v mouse = some (v, [])

-- The view, the files, what is queued, and the first column of the prompt that was shown last.
abbrev pub Round : XiRope → FileSystem → Type 0
Round X F = HexView X × F.Files × List Queued × ℕ

module _ {X : XiRope} (m : Matchers) (F : FileSystem) (debug_char : ℕ → List ℕ) where
  -- What the view does after the mode: `none` is an event that the mode leaves to the view.
  after_mode : HexView X → Event → Option ModeTransition → Drawn X
  after_mode v evt (some t) = transition v t
  after_mode v evt none = handle_event_default v evt

  -- One round of the event loop, which runs while the mode takes input.
  unfoldable pub step : HexView X → F.Files → ℕ → Event → Option (Round X F)
  unfolding after_mode
  step v files last_visible_prompt_col evt =
      Editor.transition m F v.mode evt v.buffers files v.bytes_per_line >>= λ (buffers, files', t).
      after_mode (record v { buffers = buffers }) evt t >>= λ (v', outputs).
      paint debug_char v' (outputs ++ (draw_statusline ∷ [])) last_visible_prompt_col
      >>= λ (queued, col). some (v', files', queued, col)

  -- The loop over the events that are read; it ends where the mode takes no input, or where no more
  -- events are given.
  unfoldable pub rounds : HexView X → F.Files → ℕ → List Event → Option (Round X F)
  rounds v files last_visible_prompt_col [] = some (v, files, [], last_visible_prompt_col)
  rounds v files last_visible_prompt_col (evt ∷ rest) =
      let go : Option (Round X F) =
        step v files last_visible_prompt_col evt >>= λ (v', files', queued, col).
        rounds v' files' col rest >>= λ (v'', files'', more, col').
        some (v'', files'', queued ++ more, col') in
      if takes_input v.mode then go else some (v, files, [], last_visible_prompt_col)

  -- The screen is drawn before the first event is read.
  unfoldable pub run_event_loop : HexView X → F.Files → ℕ → List Event → Option (Round X F)
  run_event_loop v files last_visible_prompt_col events =
      paint debug_char v (draw ∷ []) last_visible_prompt_col >>= λ (queued, col).
      rounds v files col events >>= λ (v', files', more, col').
      some (v', files', queued ++ more, col')
