-- ===== src/Modes/Pattern.antt =====
-- src/modes/search.rs: `Pattern`. The searches of the jetscii and regex crates are parameters.
pub mod Finds
use teehee.Common.{
  ℕ, zero, suc, ◌+◌, ◌-◌, ◌/◌, ◌%◌, Bool, true, false, Option, none, some, List, [], ◌∷◌, map, ltb,
  if◌then◌else◌, ◌>>=◌, length, drop, erase_idx, wrapping_add,
}
use teehee.Region
use teehee.Region.{SelRegion}
use teehee.Rope.{Rope, XiRope}
use teehee.Buffer.{Buffer, slice}
use teehee.Dirty.{Interval}
use teehee.Modes.{PatternPiece, literal, wildcard}

-- `ByteSubstring::find`, by needle and haystack, and `find_iter` of the regex built from a text.
pub record Matchers : Type 0 where
  pub find : List ℕ → Rope → Option ℕ
  pub find_iter : List ℕ → Rope → List Interval

-- `Vec::insert` panics past the end.
insert_at : List PatternPiece → ℕ → PatternPiece → Option (List PatternPiece)
insert_at pieces zero p = some (p ∷ pieces)
insert_at [] (suc i) p = none
insert_at (x ∷ pieces) (suc i) p = insert_at pieces i p >>= λ rest. some (x ∷ rest)

set_at : List PatternPiece → ℕ → PatternPiece → Option (List PatternPiece)
set_at [] i p = none
set_at (x ∷ pieces) zero p = some (p ∷ pieces)
set_at (x ∷ pieces) (suc i) p = set_at pieces i p >>= λ rest. some (x ∷ rest)

-- The pieces, and the position behind the new one.
unfoldable pub insert_literal : List PatternPiece → ℕ → ℕ → Option (List PatternPiece × ℕ)
unfolding insert_at
insert_literal pieces position byte =
    insert_at pieces position (literal byte) >>= λ pieces'. some (pieces', suc position)

unfoldable pub insert_half_literal : List PatternPiece → ℕ → ℕ → Option (List PatternPiece × ℕ)
unfolding set_at
insert_half_literal pieces position byte =
    set_at pieces position (literal byte) >>= λ pieces'. some (pieces', suc position)

unfoldable pub insert_wildcard : List PatternPiece → ℕ → Option (List PatternPiece × ℕ)
unfolding insert_at
insert_wildcard pieces position =
    insert_at pieces position wildcard >>= λ pieces'. some (pieces', suc position)

unfoldable pub remove : List PatternPiece → ℕ → List PatternPiece × Bool
remove pieces position =
    if ltb position (length pieces) then (erase_idx pieces position, true) else (pieces, false)

unfoldable pub as_basic_slice : List PatternPiece → Option (List ℕ)
as_basic_slice [] = some []
as_basic_slice (literal byte ∷ pieces) = as_basic_slice pieces >>= λ rest. some (byte ∷ rest)
as_basic_slice (wildcard ∷ pieces) = none

-- A digit of `{:02x}`
abbrev pub lower_hex : ℕ → ℕ
lower_hex d = if ltb d 10 then b'0' + d else b'a' + (d - 10)

-- The text of the regex: `.` for a wildcard, `\xhh` for a byte.
unfoldable pub expr : List PatternPiece → List ℕ
expr [] = []
expr (wildcard ∷ pieces) = b'.' ∷ expr pieces
expr (literal byte ∷ pieces) =
    0x5C ∷ b'x' ∷ lower_hex (byte / 16) ∷ lower_hex (byte % 16) ∷ expr pieces

module _ (m : Matchers) where
  -- The `while let` loop, with fuel: `none` is that it ran out.
  unfoldable pub find_loop : ℕ → List ℕ → ℕ → Rope → ℕ → Option (List Interval)
  find_loop zero needle base text slice_base = none
  find_loop (suc fuel) needle base text slice_base = elim (m.find needle (drop slice_base text)) [
    | none ↦ some []
    | some start ↦
        find_loop fuel needle (base + start + length needle) text
          (slice_base + start + length needle)
        >>= λ rest.
            some (record { start = base + start; end = base + start + length needle } ∷ rest)
  ]

  unfoldable pub selected : Rope → SelRegion → Rope
  selected contents r = slice contents (Region.min r) (wrapping_add (Region.max r) 1)

  pub find_all : List ℕ → Rope → List SelRegion → Option (List (List Interval))
  find_all needle contents [] = some []
  find_all needle contents (r ∷ rs) =
      let text = selected contents r in
      find_loop (suc (length text)) needle (Region.min r) text 0 >>= λ ranges.
      find_all needle contents rs >>= λ rest. some (ranges ∷ rest)

  abbrev shift : ℕ → Interval → Interval
  shift by r = record { start = by + r.start; end = by + r.end }

  unfoldable pub map_selections_to_matches :
      {X : XiRope} → List PatternPiece → Buffer X → Option (List (List Interval))
  unfolding selected find_all
  map_selections_to_matches pieces b = elim (as_basic_slice pieces) [
    | some needle ↦ find_all needle b.contents b.selection.regions
    | none ↦ some (
        map (λ r. map (shift (Region.min r)) (m.find_iter (expr pieces) (selected b.contents r)))
          b.selection.regions)
  ]

matched_lens : List Interval → ℕ
matched_lens [] = 0
matched_lens (r ∷ rs) = r.end - r.start + matched_lens rs

-- The sum of the lengths of all ranges.
unfoldable pub matched_len : List (List Interval) → ℕ
unfolding matched_lens
matched_len [] = 0
matched_len (ranges ∷ rest) = matched_lens ranges + matched_len rest
