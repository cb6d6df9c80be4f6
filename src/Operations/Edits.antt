-- ===== src/Operations/Edits.antt =====
-- What each operation does to a document of which the selection is valid.
use Prim.Native.Nat.{bit_or}
use teehee.Common.{
  ℕ, zero, suc, ◌+◌, ◌-◌, ◌≤◌, ◌<◌, ◌≡◌, refl, Option, none, some, [], ◌∷◌, ◌==◌, if◌then◌else◌,
  length, replicate, usize_mod, arith,
}
use teehee.Region
use teehee.Region.{SelRegion}
use teehee.Rope.{Rope, XiRope}
use teehee.Rope.Script.{Call}
use teehee.Rope.Laws.{DeltaLaws}
use teehee.Selection.{Selection}
use teehee.Selection.Valid.{Valid, InDocument}
use teehee.Operations.{
  deletion, backspace, delete_cursor, insert, change, overwrite_half, replace, low_half,
}
use teehee.Operations.Calls.{CallsInOrder, calls_of, Edits, for_regions-Edits}

abbrev pub delete_region : SelRegion → Option Call
delete_region r = some (Call.delete (Region.min r) (Region.max r + 1))

abbrev pub delete_before_caret : SelRegion → Option Call
delete_before_caret r = if r.caret == 0 then none else some (Call.delete (r.caret - 1) r.caret)

abbrev pub delete_at_caret : ℕ → SelRegion → Option Call
delete_at_caret size r = if r.caret == size then none else some (Call.delete r.caret (r.caret + 1))

abbrev pub insert_at_caret : Rope → SelRegion → Option Call
insert_at_caret text r = some (Call.replace r.caret r.caret text)

abbrev pub change_at_caret : (SelRegion → Rope) → SelRegion → Option Call
change_at_caret text r = some (Call.replace r.caret (r.caret + 1) (text r))

abbrev pub fill_region : ℕ → SelRegion → Option Call
fill_region ch r = some (
    Call.replace (Region.min r) (Region.max r + 1) (replicate (Region.max r - Region.min r + 1) ch))

delete_region-InOrder : (size : ℕ) → CallsInOrder size delete_region
delete_region-InOrder size = record {
  inside = λ r k h e. ground arith;
  apart = λ a b j k ha hb lt e e'. ground arith;
}

delete_before_caret-InOrder : (size : ℕ) → CallsInOrder size delete_before_caret
delete_before_caret-InOrder size = record {
  inside = λ r k h e. ground arith;
  apart = λ a b j k ha hb lt e e'. ground arith;
}

delete_at_caret-InOrder : (size : ℕ) → CallsInOrder size (delete_at_caret size)
delete_at_caret-InOrder size = record {
  inside = λ r k h e. ground arith;
  apart = λ a b j k ha hb lt e e'. ground arith;
}

insert_at_caret-InOrder : (size : ℕ) (text : Rope) → CallsInOrder size (insert_at_caret text)
insert_at_caret-InOrder size text = record {
  inside = λ r k h e. ground arith;
  apart = λ a b j k ha hb lt e e'. ground arith;
}

change_at_caret-InOrder :
    (size : ℕ) (text : SelRegion → Rope) → CallsInOrder size (change_at_caret text)
change_at_caret-InOrder size text = record {
  inside = λ r k h e. ground arith;
  apart = λ a b j k ha hb lt e e'. ground arith;
}

fill_region-InOrder : (size ch : ℕ) → CallsInOrder size (fill_region ch)
fill_region-InOrder size ch = record {
  inside = λ r k h e. ground arith;
  apart = λ a b j k ha hb lt e e'. ground arith;
}

low_half-past : (base : Rope) (caret : ℕ) → length base ≤ caret → low_half base caret ≡ 0
unfolding low_half
low_half-past [] caret h = refl
low_half-past (b ∷ bs) zero h = absurd (omega arith)
low_half-past (b ∷ bs) (suc caret) h = unfold low_half in low_half-past bs caret (omega arith)

module _ {X : XiRope} (laws : DeltaLaws X) (base : Rope) (s : Selection) (v : Valid s)
    (d : InDocument (length base) s) (small : length base + 1 < usize_mod) where
  -- `deletion` returns a delta that removes exactly the bytes of each region, for a valid
  -- selection within the document, by the documented laws of deltas and where the document is
  -- shorter than 2 ^ 64 - 1 bytes. The delta is for documents of this length.
  pub deletion-Edits : Edits X base (deletion X base s) (calls_of delete_region s.regions)
  unfolding deletion
  deletion-Edits =
      for_regions-Edits laws base _ delete_region s.regions (delete_region-InOrder (length base))
        (λ b r h. ground arith) v.sorted d

  -- `insert` returns a delta that puts `text` before the byte at each caret and changes nothing
  -- else, for a valid selection within the document, by the documented laws of deltas and where
  -- the document is shorter than 2 ^ 64 - 1 bytes. The delta is for documents of this length.
  insert-Edits :
      (text : Rope)
      → Edits X base (insert X base s text) (calls_of (insert_at_caret text) s.regions)
  unfolding insert
  insert-Edits text =
      for_regions-Edits laws base _ (insert_at_caret text) s.regions
        (insert_at_caret-InOrder (length base) text) (λ b r h. refl) v.sorted d

  -- `backspace` returns a delta that removes the byte before each caret, where there is one, and
  -- changes nothing else, for a valid selection within the document, by the documented laws of
  -- deltas and where the document is shorter than 2 ^ 64 - 1 bytes. The delta is for documents of
  -- this length.
  backspace-Edits : Edits X base (backspace X base s) (calls_of delete_before_caret s.regions)
  unfolding backspace
  backspace-Edits =
      for_regions-Edits laws base _ delete_before_caret s.regions
        (delete_before_caret-InOrder (length base)) (λ b r h. ground arith) v.sorted d

  -- `delete_cursor` returns a delta that removes the byte at each caret, where there is one, and
  -- changes nothing else, for a valid selection within the document, by the documented laws of
  -- deltas and where the document is shorter than 2 ^ 64 - 1 bytes. The delta is for documents of
  -- this length.
  delete_cursor-Edits :
      Edits X base (delete_cursor X base s) (calls_of (delete_at_caret (length base)) s.regions)
  unfolding delete_cursor
  delete_cursor-Edits =
      for_regions-Edits laws base _ (delete_at_caret (length base)) s.regions
        (delete_at_caret-InOrder (length base)) (λ b r h. ground arith) v.sorted d

  -- `change` returns a delta that puts `text` in place of the byte at each caret, or at the end of
  -- the document, and changes nothing else, for a valid selection within the document, by the
  -- documented laws of deltas and where the document is shorter than 2 ^ 64 - 1 bytes. The delta
  -- is for documents of this length.
  change-Edits :
      (text : Rope)
      → Edits X base (change X base s text) (calls_of (change_at_caret (λ r. text)) s.regions)
  unfolding change
  change-Edits text =
      for_regions-Edits laws base _ (change_at_caret (λ r. text)) s.regions
        (change_at_caret-InOrder (length base) (λ r. text)) (λ b r h. ground arith) v.sorted d

  -- `replace` returns a delta that fills each region with as many copies of `ch` as it has offsets
  -- and changes nothing else, for a valid selection within the document, by the documented laws of
  -- deltas and where the document is shorter than 2 ^ 64 - 1 bytes. The delta is for documents of
  -- this length.
  pub replace-Edits :
      (ch : ℕ) → Edits X base (replace X base s ch) (calls_of (fill_region ch) s.regions)
  unfolding replace
  replace-Edits ch =
      for_regions-Edits laws base _ (fill_region ch) s.regions
        (fill_region-InOrder (length base) ch) (λ b r h. ground arith) v.sorted d

  -- `overwrite_half` returns a delta that puts, in place of the byte at each caret, the one with
  -- its lower half and `top`, or `top` alone at the end of the document, and changes nothing else,
  -- for a valid selection within the document, by the documented laws of deltas and where the
  -- document is shorter than 2 ^ 64 - 1 bytes. The delta is for documents of this length.
  overwrite_half-Edits :
      (top : ℕ)
      → Edits X base
          (overwrite_half X base s top)
          (calls_of (change_at_caret (λ r. bit_or (low_half base r.caret) top ∷ [])) s.regions)
  unfolding overwrite_half
  overwrite_half-Edits top =
      for_regions-Edits laws base _ (change_at_caret (λ r. bit_or (low_half base r.caret) top ∷ []))
        s.regions (change_at_caret-InOrder (length base) _)
        (λ b r h. ground (arith, low_half-past base r.caret)) v.sorted d

  pub carets-Edits :
      (text : Rope) (top : ℕ)
      → Edits X base (insert X base s text) (calls_of (insert_at_caret text) s.regions)
        × Edits X base (change X base s text) (calls_of (change_at_caret (λ r. text)) s.regions)
        × Edits X base (backspace X base s) (calls_of delete_before_caret s.regions)
        × Edits X base (delete_cursor X base s) (calls_of (delete_at_caret (length base)) s.regions)
        × Edits X base
            (overwrite_half X base s top)
            (calls_of (change_at_caret (λ r. bit_or (low_half base r.caret) top ∷ [])) s.regions)
  carets-Edits text top = (
    insert-Edits text,
    change-Edits text,
    backspace-Edits,
    delete_cursor-Edits,
    overwrite_half-Edits top,
  )
