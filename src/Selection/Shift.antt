-- ===== src/Selection/Shift.antt =====
-- src/selection.rs: `apply_delta` and `apply_delta_offset_carets`, which carry a selection over an
-- edit of the document.
pub mod Steady
use Prim.Native.Nat.{min as cmp_min}
use teehee.Common.{
  ℕ, Option, some, [], ◌∷◌, ◌==◌, if◌then◌else◌, true, ℤ, as_isize, as_usize, ◌+ℤ◌, wrap_isize,
}
use teehee.Region.{new}
use teehee.Rope.{XiRope}
use teehee.Selection.{Selection, clear, map_selections}

module _ (X : XiRope) where
  open X use {Delta, new_document_len, transform}

  abbrev pub shifted : Delta → ℕ → ℕ → ℕ
  shifted delta max_len position =
      if max_len == position
      then new_document_len delta
      else cmp_min (new_document_len delta) (transform delta position true)

  unfoldable pub apply_delta : Selection → Delta → ℕ → Option Selection
  apply_delta s delta max_len =
      if new_document_len delta == 0
      then some (clear s)
      else map_selections s (λ region.
        new (shifted delta max_len region.caret) (shifted delta max_len region.tail) ∷ [])

  abbrev pub offset_by : ℕ → ℤ → ℕ
  offset_by position offset = as_usize (wrap_isize (as_isize position +ℤ offset))

  abbrev pub shifted_offset : Delta → ℕ → ℕ → ℤ → ℕ
  shifted_offset delta max_len position offset =
      if max_len == position
      then offset_by (new_document_len delta) offset
      else cmp_min (new_document_len delta) (offset_by (transform delta position true) offset)

  unfoldable pub apply_delta_offset_carets : Selection → Delta → ℤ → ℤ → ℕ → Option Selection
  apply_delta_offset_carets s delta caret_offset tail_offset max_len =
      if new_document_len delta == 0
      then some (clear s)
      else map_selections s (λ region.
        new (shifted_offset delta max_len region.caret caret_offset)
          (shifted_offset delta max_len region.tail tail_offset)
        ∷ [])
