-- ===== src/Modes/Insert/Ascii.antt =====
-- A character typed in insert mode.
use teehee.Common.{ℕ, ◌+◌, ◌<◌, ◌≡◌, refl, false, Option, some, List, length, usize_mod}
use teehee.Region.{SelRegion}
use teehee.Rope.{Rope, XiRope}
use teehee.Rope.Script.{Call, splice}
use teehee.Rope.Laws.{DeltaLaws}
use teehee.Selection.Shift.Steady.{Steady, apply_delta-Shifted}
use teehee.Dirty.{DirtyBytes, change_length}
use teehee.Operations
use teehee.Operations.Calls.{Edits, calls_of}
use teehee.Operations.Edits.{insert_at_caret, change_at_caret, carets-Edits}
use teehee.Buffer
use teehee.Buffer.{Buffer}
use teehee.Modes.{InsertionMode, insertion, append, overwrite, Outcome, dirty, dirty_bytes}
use teehee.Modes.Chars.{encode_utf8}
use teehee.Modes.Insert

-- What a character does to the document: one call for each region.
abbrev pub typed_calls : InsertionMode → Rope → List SelRegion → List Call
typed_calls insertion text rs = calls_of (insert_at_caret text) rs
typed_calls append text rs = calls_of (insert_at_caret text) rs
typed_calls overwrite text rs = calls_of (change_at_caret (λ r. text)) rs

-- The key returns a buffer with the new document and a selection of which all regions run one way.
pub record Typed (X : XiRope) (b : Buffer X) (cs : List Call) (outcome : Outcome X) : Type 0 where
  pub buffer : Buffer X
  pub returns : outcome ≡ some (buffer, some (dirty_bytes change_length))
  pub contents : buffer.contents ≡ splice 0 cs b.contents
  pub steady : Steady (length buffer.contents) buffer.selection

-- A step of an insertion returns a buffer with the new document and a selection of which all regions
-- run one way.
record Stepped (X : XiRope) (b : Buffer X) (cs : List Call)
    (result : Option (Buffer X × DirtyBytes)) : Type 0 where
  buffer : Buffer X
  returns : result ≡ some (buffer, change_length)
  contents : buffer.contents ≡ splice 0 cs b.contents
  steady : Steady (length buffer.contents) buffer.selection

module _ {X : XiRope} (laws : DeltaLaws X) (b : Buffer X)
    (s : Steady (length b.contents) b.selection) where
  incomplete-Stepped :
      (result : Option X.Delta) (cs : List Call)
      → Edits X b.contents result cs
      → Stepped X b cs (Insert.incomplete X b result)
  unfolding Insert.incomplete Buffer.apply_incomplete_delta Buffer.with_selection
      Buffer.apply_delta_to_buffer
  incomplete-Stepped result cs e =
      let shift = apply_delta-Shifted laws e.delta b.contents e.base_len b.selection s in
      record {
        buffer = record (Buffer.apply_delta_to_buffer X b e.delta false) { selection = shift.made };
        returns = rw (e.returns, shift.returns) refl;
        contents = e.applied;
        steady = shift.steady;
      }

  dirty-Stepped :
      (result : Option (Buffer X × DirtyBytes)) (cs : List Call)
      → Stepped X b cs result
      → Typed X b cs (dirty result)
  dirty-Stepped result cs step = record {
    buffer = step.buffer;
    returns = rw step.returns refl;
    contents = step.contents;
    steady = step.steady;
  }

  edits :
      length b.contents + 1 < usize_mod
      → (text : Rope)
      → Edits X b.contents
          (Operations.insert X b.contents b.selection text)
          (calls_of (insert_at_caret text) b.selection.regions)
        × Edits X b.contents
            (Operations.change X b.contents b.selection text)
            (calls_of (change_at_caret (λ r. text)) b.selection.regions)
  edits small text =
      let (i, c, _, _, _) =
        carets-Edits laws b.contents b.selection s.valid s.within small text 0 in
      (i, c)

  -- A character typed in insert mode where it enters text: for a valid selection within the
  -- document, of which all regions run one way, and a document shorter than 2 ^ 64 - 1 bytes, the
  -- key returns without a panic, in each of the three modes of insertion; the new document has the
  -- bytes of the character before the byte at each caret, or in its place in the overwrite mode, and
  -- is else unchanged; the new selection is valid, within the new document, and all its regions run
  -- one way. The deltas obey their documented laws.
  pub transition_ascii_insertion-Typed :
      (ch : ℕ) (mode : InsertionMode)
      → length b.contents + 1 < usize_mod
      → Typed X b
          (typed_calls mode (encode_utf8 ch) b.selection.regions)
          (Insert.transition_ascii_insertion X ch b mode)
  unfolding Insert.transition_ascii_insertion Insert.incomplete
  transition_ascii_insertion-Typed ch insertion small =
      dirty-Stepped _ _ (incomplete-Stepped _ _ (edits small (encode_utf8 ch)).0)
  transition_ascii_insertion-Typed ch append small =
      dirty-Stepped _ _ (incomplete-Stepped _ _ (edits small (encode_utf8 ch)).0)
  transition_ascii_insertion-Typed ch overwrite small =
      dirty-Stepped _ _ (incomplete-Stepped _ _ (edits small (encode_utf8 ch)).1)
