-- ===== src/Operations.antt =====
-- src/operations.rs: the deltas of the editing commands. `none` is a panic.
pub mod Calls
pub mod Edits
pub mod Fits
pub mod Outside
use Prim.Native.Nat.{min as cmp_min, bit_and, bit_or}
use teehee.Common.{
  ℕ, zero, suc, ◌+◌, ◌-◌, Bool, Option, none, some, List, [], ◌∷◌, ◌++◌, leb, ltb, ◌==◌,
  if◌then◌else◌, ◌>>=◌, get_elem?, replicate, length, wrapping_add,
}
use teehee.Region
use teehee.Region.{SelRegion}
use teehee.Rope.{Rope, XiRope}
use teehee.Selection.{Selection}

-- `count` copies of the register, one after the other.
unfoldable pub repeat : ℕ → Rope → Rope
repeat zero pasted = []
repeat (suc count) pasted = pasted ++ repeat count pasted

-- The registers' iterator: the values, then the last one for ever.
unfoldable pub last_value : List Rope → Option Rope
last_value [] = none
last_value (v ∷ vs) = elim vs [ [] ↦ some v | w ∷ ws ↦ last_value vs ]

unfoldable pub low_half : Rope → ℕ → ℕ
low_half base caret = elim (get_elem? base caret) [ none ↦ 0 | some byte ↦ bit_and byte 0x0F ]

module _ (X : XiRope) where
  open X use {Delta, DeltaBuilder, builder, build}

  -- The `for` loop over the regions, with the builder as its state.
  unfoldable pub for_regions :
      (DeltaBuilder → SelRegion → Option DeltaBuilder)
      → DeltaBuilder
      → List SelRegion
      → Option DeltaBuilder
  for_regions f b [] = some b
  for_regions f b (r ∷ rs) = f b r >>= λ b'. for_regions f b' rs

  unfoldable pub deletion : Rope → Selection → Option Delta
  deletion base selection =
      for_regions
        (λ b region.
          let start = Region.min region in
          let end = wrapping_add (Region.max region) 1 in
          if leb end start then some b else X.delete b start end)
        (builder (length base)) selection.regions
      >>= λ b. some (build b)

  unfoldable pub backspace : Rope → Selection → Option Delta
  backspace base selection =
      for_regions
        (λ b region.
          if region.caret == 0 then some b else X.delete b (region.caret - 1) region.caret)
        (builder (length base)) selection.regions
      >>= λ b. some (build b)

  unfoldable pub delete_cursor : Rope → Selection → Option Delta
  delete_cursor base selection =
      for_regions
        (λ b region.
          let end = cmp_min (length base) (wrapping_add region.caret 1) in
          if leb end region.caret then some b else X.delete b region.caret end)
        (builder (length base)) selection.regions
      >>= λ b. some (build b)

  unfoldable pub insert : Rope → Selection → Rope → Option Delta
  insert base selection text =
      for_regions (λ b region. X.replace b region.caret region.caret text) (builder (length base))
        selection.regions
      >>= λ b. some (build b)

  -- Regions and register values in step; `last` stands for the values that are left out.
  paste_regions :
      Rope → Bool → ℕ → Rope → DeltaBuilder → List SelRegion → List Rope → Option DeltaBuilder
  paste_regions base after count last b [] values = some b
  paste_regions base after count last b (region ∷ rs) values =
      let pasted : Rope = elim values [ [] ↦ last | v ∷ vs ↦ v ] in
      let rest : List Rope = elim values [ [] ↦ [] | v ∷ vs ↦ vs ] in
      let insert_pos =
        if after
        then cmp_min (length base) (wrapping_add (Region.max region) 1)
        else Region.min region in
      X.replace b insert_pos insert_pos (repeat count pasted) >>= λ b'.
      paste_regions base after count last b' rs rest

  unfoldable pub paste : Rope → Selection → List Rope → Bool → ℕ → Option Delta
  unfolding paste_regions
  paste base selection register_contents after count = last_value register_contents >>= λ last.
      paste_regions base after count last (builder (length base)) selection.regions
        register_contents
      >>= λ b. some (build b)

  unfoldable pub change : Rope → Selection → Rope → Option Delta
  change base selection text =
      for_regions (λ b region. X.replace b region.caret (wrapping_add region.caret 1) text)
        (builder (length base)) selection.regions
      >>= λ b. some (build b)

  unfoldable pub overwrite_half : Rope → Selection → ℕ → Option Delta
  overwrite_half base selection top =
      for_regions
        (λ b region.
          let base_char =
            if ltb region.caret (length base) then low_half base region.caret else 0 in
          X.replace b region.caret (wrapping_add region.caret 1) (bit_or base_char top ∷ []))
        (builder (length base)) selection.regions
      >>= λ b. some (build b)

  unfoldable pub replace : Rope → Selection → ℕ → Option Delta
  replace base selection ch =
      for_regions
        (λ b region.
          X.replace b (Region.min region) (wrapping_add (Region.max region) 1)
            (replicate (Region.max region - Region.min region + 1) ch))
        (builder (length base)) selection.regions
      >>= λ b. some (build b)
