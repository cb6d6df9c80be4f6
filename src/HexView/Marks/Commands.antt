-- ===== src/HexView/Marks/Commands.antt =====
-- `mark_commands` of src/hex_view/view.rs shows the selection.
use teehee.Common.{
  ℕ, ◌-◌, ◌%◌, ◌<◌, ◌≤◌, ◌≡◌, refl, ◌∙◌, Bool, true, false, ◌&&◌, some, List, [], ◌∷◌, map, leb,
  ◌==◌, All, inl, inr, Bool-cases, arith,
}
use teehee.Region
use teehee.Region.{SelRegion}
use teehee.Rope.{XiRope}
use teehee.Selection.Valid.{Valid, Sorted}
use teehee.Selection.Range.{meeting, regions_in_range-meeting}
use teehee.Buffer.{Buffer}
use teehee.Dirty.{Interval}
use teehee.Modes.{has_half_cursor}
use teehee.HexView.{HexView, count_from}
use teehee.HexView.Style.{Color, StylingCommand}
use teehee.HexView.Marks.{mark_commands}
use teehee.HexView.Marks.Shades.{shade, backgrounds}
use teehee.HexView.Marks.Loop.{Ahead, map-count_from, mark_bytes-shades}

module _ (start end : ℕ) where
  All-meeting :
      (k : ℕ) (rs : List SelRegion)
      → All (λ r. k < Region.min r) rs
      → All (λ r. k < Region.min r) (meeting start end rs)
  All-meeting k [] h = tt
  All-meeting k (r ∷ rs) h =
      elim (Bool-cases (leb start (Region.max r) && leb (Region.min r) end)) [
        | inl e ↦ rw e (h.0, All-meeting k rs h.1)
        | inr e ↦ rw e (All-meeting k rs h.1)
      ]

  meeting-Sorted : (rs : List SelRegion) → Sorted rs → Sorted (meeting start end rs)
  meeting-Sorted [] s = tt
  meeting-Sorted (r ∷ rs) s =
      elim (Bool-cases (leb start (Region.max r) && leb (Region.min r) end)) [
        | inl e ↦ rw e (All-meeting (Region.max r) rs s.0, meeting-Sorted rs s.1)
        | inr e ↦ rw e (meeting-Sorted rs s.1)
      ]

  meeting-Ahead : (rs : List SelRegion) → Ahead start (meeting start end rs)
  meeting-Ahead [] = tt
  meeting-Ahead (r ∷ rs) = elim (Bool-cases (leb start (Region.max r) && leb (Region.min r) end)) [
    | inl e ↦ rw e (ground arith)
    | inr e ↦ rw e (meeting-Ahead rs)
  ]

  shade-meeting :
      (half : Bool) (rs : List SelRegion) (j : ℕ)
      → start ≤ j
      → j < end
      → shade half (meeting start end rs) j ≡ shade half rs j
  shade-meeting half [] j h k = refl
  shade-meeting half (r ∷ rs) j h k =
      elim (Bool-cases (leb start (Region.max r) && leb (Region.min r) end)) [
        | inl e ↦ rw (e, shade-meeting half rs j h k) refl
        | inr e ↦
            let outside : (leb (Region.min r) j && leb j (Region.max r)) ≡ false = ground arith in
            rw (e, outside) (shade-meeting half rs j h k)
      ]

-- For a valid selection, and visible bytes in order whose first starts a line, `mark_commands` does
-- not panic. From any background, its styles lead to the shades of the selection: at each caret that
-- of the caret, on the second digit only while a digit is half typed; in the rest of a region that of
-- the region; elsewhere the default. The main region has shades of its own.
pub mark_commands-shades :
    {X : XiRope} (v : HexView X) (buf : Buffer X) (visible : Interval) (c : Color)
    → Valid buf.selection
    → visible.start ≤ visible.end
    → (visible.start % v.bytes_per_line == 0) ≡ true
    → (cmds : List StylingCommand) × (mark_commands v buf visible ≡ some cmds)
      × (backgrounds c cmds
          ≡ map
              (shade (has_half_cursor v.mode) buf.selection.regions)
              (count_from visible.start (visible.end - visible.start)))
unfolding mark_commands
mark_commands-shades v buf visible c valid h a =
    let half = has_half_cursor v.mode in
    let selected = meeting visible.start visible.end buf.selection.regions in
    let found = regions_in_range-meeting buf.selection visible.start visible.end valid h in
    let (cmds, e, b) =
      mark_bytes-shades half v.bytes_per_line (visible.end - visible.start) visible.start selected c
        (meeting-Sorted visible.start visible.end buf.selection.regions valid.sorted)
        (meeting-Ahead visible.start visible.end buf.selection.regions) (inr a) in
    (
      cmds,
      rw (found, e) refl,
      b
          ∙ map-count_from (shade half selected) (shade half buf.selection.regions)
              (visible.end - visible.start) visible.start
              (λ j k l.
                shade-meeting visible.start visible.end half buf.selection.regions j k
                  (omega arith)),
    )
