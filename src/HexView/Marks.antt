-- ===== src/HexView/Marks.antt =====
-- src/hex_view/view.rs: the styles of the visible bytes. `none` is a panic.
pub mod Shades
pub mod Opened
pub mod Lined
pub mod Loop
pub mod Commands
use teehee.Common.{
  not, ℕ, zero, suc, ◌+◌, ◌-◌, ◌%◌, Bool, true, false, ◌&&◌, Option, none, some, List, [], ◌∷◌, ltb,
  ◌==◌, if◌then◌else◌, ◌>>=◌,
}
use teehee.Region
use teehee.Region.{SelRegion}
use teehee.Rope.{XiRope}
use teehee.Selection.{regions_in_range}
use teehee.Buffer.{Buffer}
use teehee.Dirty.{Interval}
use teehee.Modes.{has_half_cursor}
use teehee.HexView.{HexView}
use teehee.HexView.Style.{
  Color, ContentStyle, Priority, PrioritizedStyle, StylingCommand, unstyled, with_start_style,
  with_mid_style, with_end_style, rgb, ansi_value,
}

-- `ContentStyle::new().with(foreground).on(background)`
abbrev colored : Priority → Option Color → Color → PrioritizedStyle
colored priority foreground background = record {
  style = record { foreground_color = foreground; background_color = some background };
  priority = priority;
}

abbrev pub default_style : PrioritizedStyle
default_style = colored Priority.basic (some Color.white) Color.reset

abbrev pub active_selection_style : PrioritizedStyle
active_selection_style = colored Priority.selection (some Color.black) (rgb 110 97 16)

abbrev pub inactive_selection_style : PrioritizedStyle
inactive_selection_style = colored Priority.selection (some Color.black) Color.dark_grey

abbrev pub active_caret_style : PrioritizedStyle
active_caret_style = colored Priority.cursor (some (ansi_value 16)) (rgb 107 108 128)

abbrev pub inactive_caret_style : PrioritizedStyle
inactive_caret_style = colored Priority.cursor (some Color.black) Color.dark_grey

abbrev pub empty_caret_style : PrioritizedStyle
empty_caret_style = colored Priority.cursor none Color.green

abbrev pub selection_style : SelRegion → PrioritizedStyle
selection_style r = if r.main then active_selection_style else inactive_selection_style

abbrev pub caret_style : SelRegion → PrioritizedStyle
caret_style r = if r.main then active_caret_style else inactive_caret_style

-- `command_stack` has its top first: its top, and the style below that.
abbrev top : List PrioritizedStyle → Option PrioritizedStyle
top [] = none
top (s ∷ stack) = some s

abbrev below_top : List PrioritizedStyle → Option PrioritizedStyle
below_top [] = none
below_top (s ∷ stack) = top stack

abbrev pub popped : List PrioritizedStyle → List PrioritizedStyle
popped [] = []
popped (s ∷ stack) = stack

module _ (half_cursor : Bool) (bytes_per_line : ℕ) where
  -- The first of the remaining regions starts at `i`.
  unfoldable pub mark_min :
      ℕ → SelRegion → List PrioritizedStyle → StylingCommand × List PrioritizedStyle
  mark_min i r stack =
      if Region.min r == i
      then (with_start_style unstyled (selection_style r), selection_style r ∷ stack)
      else (unstyled, stack)

  unfoldable pub mark_caret : ℕ → SelRegion → PrioritizedStyle → StylingCommand → StylingCommand
  mark_caret i r base_style caret_cmd =
      if half_cursor
      then (if i == Region.min r
          then with_end_style (with_mid_style caret_cmd (caret_style r)) base_style
          else with_mid_style (with_start_style caret_cmd base_style) (caret_style r))
      else with_end_style (with_start_style caret_cmd (caret_style r)) base_style

  -- The caret, and the end, of the first of the remaining regions.
  unfoldable pub mark_region :
      ℕ → SelRegion → StylingCommand × List PrioritizedStyle → Option StylingCommand
  mark_region i r (cmd, stack) =
      (if r.caret == i then (top stack >>= λ base. some (mark_caret i r base cmd)) else some cmd)
      >>= λ cmd'.
          if Region.max r == i
          then (below_top stack >>= λ style. some (with_end_style cmd' style))
          else some cmd'

  abbrev has_start : StylingCommand → Bool
  has_start cmd = elim cmd.start [ none ↦ false | some style ↦ true ]

  -- Where a line starts or ends.
  unfoldable pub mark_line : ℕ → List PrioritizedStyle → StylingCommand → Option StylingCommand
  mark_line i stack cmd =
      if (i % bytes_per_line == 0) && not (has_start cmd)
      then (top stack >>= λ style. some (with_start_style cmd style))
      else some (if (i + 1) % bytes_per_line == 0 then with_end_style cmd default_style else cmd)

  -- One round of the loop: the style of byte `i`, and the regions and the stack behind it.
  unfoldable pub mark_byte :
      ℕ
      → List SelRegion
      → List PrioritizedStyle
      → Option (StylingCommand × List SelRegion × List PrioritizedStyle)
  mark_byte i [] stack = mark_line i stack unstyled >>= λ cmd. some (cmd, [], stack)
  mark_byte i (r ∷ rs) stack =
      let (opened, stack') = mark_min i r stack in
      mark_region i r (opened, stack') >>= λ cmd. mark_line i stack' cmd >>= λ cmd'.
      some (if Region.max r == i then (cmd', rs, popped stack') else (cmd', r ∷ rs, stack'))

  unfoldable pub mark_bytes :
      ℕ → ℕ → List SelRegion → List PrioritizedStyle → Option (List StylingCommand)
  mark_bytes i zero regions stack = some []
  mark_bytes i (suc n) regions stack = mark_byte i regions stack >>= λ (cmd, regions', stack').
      mark_bytes (suc i) n regions' stack' >>= λ rest. some (cmd ∷ rest)

-- With the style of a region that starts before the visible bytes.
abbrev pub initial_stack : ℕ → List SelRegion → List PrioritizedStyle
initial_stack start [] = default_style ∷ []
initial_stack start (r ∷ rs) =
    if ltb (Region.min r) start then selection_style r ∷ default_style ∷ [] else default_style ∷ []

-- For the current buffer `buf`.
unfoldable pub mark_commands :
    {X : XiRope} → HexView X → Buffer X → Interval → Option (List StylingCommand)
mark_commands v buf visible =
    regions_in_range buf.selection visible.start visible.end >>= λ selected_regions.
    mark_bytes (has_half_cursor v.mode) v.bytes_per_line visible.start (visible.end - visible.start)
      selected_regions (initial_stack visible.start selected_regions)
