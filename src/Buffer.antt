-- ===== src/Buffer.antt =====
-- src/buffer.rs: `Buffer`, a document with its selection, registers and history. A method that
-- mutates `self` returns the new buffer; `none` is a panic.
pub mod Undo
pub mod Insertion
pub mod Sessions
pub mod Snapshots
use teehee.Common.{
  ℕ, suc, ◌+◌, ◌-◌, ◌%◌, Bool, true, false, ◌&&◌, Option, none, some, List, [], ◌∷◌, map, ◌==◌,
  if◌then◌else◌, ◌>>=◌, length, get_elem?, take, drop, replicate, wrapping_add, ℤ,
}
use teehee.Region
use teehee.Region.{SelRegion}
use teehee.Rope.{Rope, XiRope}
use teehee.Selection
use teehee.Selection.{Selection}
use teehee.Selection.Shift
use teehee.History
use teehee.History.{History}
use teehee.Dirty.{
  DirtyBytes, change_in_place, change_length, interval_of, invalidated, sort_by_start, disjoint,
}

-- The text of a `PathBuf`, as code points.
abbrev pub FilePath : Type 0
FilePath = List ℕ

pub data OverflowSelectionStyle : Type 0 where
  cursor tail cursor_tail : OverflowSelectionStyle

-- `contents` is the field `data`. A register is named by its character.
pub record Buffer (X : XiRope) : Type 0 where
  pub path : Option FilePath
  pub contents : Rope
  pub selection : Selection
  pub registers : List (ℕ × List Rope)
  pub dirty : Bool
  pub history : History X

-- The bytes start..end, as far as there are any; `start` is no more than the length.
unfoldable pub slice : Rope → ℕ → ℕ → Rope
slice rope start end = take (end - start) (drop start rope)

insert_register : ℕ → List Rope → List (ℕ × List Rope) → List (ℕ × List Rope)
insert_register reg values [] = (reg, values) ∷ []
insert_register reg values ((k, v) ∷ rest) =
    if k == reg then (reg, values) ∷ rest else (k, v) ∷ insert_register reg values rest

unfoldable pub get_register : ℕ → List (ℕ × List Rope) → Option (List Rope)
get_register reg [] = none
get_register reg ((k, v) ∷ rest) = if k == reg then some v else get_register reg rest

module _ (X : XiRope) where
  open X use {Delta, apply}

  abbrev pub from_data_and_path : Rope → Option FilePath → Buffer X
  from_data_and_path contents path = record {
    path = path;
    contents = contents;
    selection = Selection.default;
    registers = [];
    dirty = false;
    history = History.new X;
  }

  abbrev pub default : Buffer X
  default = from_data_and_path [] none

  -- `map_selections` for a closure with a state: what it returns for each region, in turn.
  unfoldable pub map_selections_to :
      Buffer X → List (List SelRegion) → Option (Buffer X × DirtyBytes)
  map_selections_to b results = Selection.map_selections_to b.selection results >>= λ selection.
      some (
        record b { selection = selection },
        change_in_place (disjoint (sort_by_start (invalidated b.selection.regions results))),
      )

  unfoldable pub map_selections :
      Buffer X → (SelRegion → List SelRegion) → Option (Buffer X × DirtyBytes)
  unfolding map_selections_to
  map_selections b f = map_selections_to b (map f b.selection.regions)

  unfoldable pub apply_delta_to_buffer : Buffer X → Delta → Bool → Buffer X
  apply_delta_to_buffer b delta is_final = record b {
    contents = apply delta b.contents;
    history =
        if is_final
        then History.perform_final X b.history b.contents delta b.selection
        else History.perform_partial X b.history b.contents delta b.selection;
    dirty = true;
  }

  -- The new selection, by the length of the document before the edit.
  unfoldable pub with_selection : Buffer X → Option Selection → Option (Buffer X × DirtyBytes)
  with_selection b selection = selection >>= λ s. some (record b { selection = s }, change_length)

  unfoldable pub apply_delta : Buffer X → Delta → Option (Buffer X × DirtyBytes)
  unfolding with_selection
  apply_delta b delta =
      let max_len = length b.contents in
      with_selection (apply_delta_to_buffer b delta true)
        (Shift.apply_delta X b.selection delta max_len)

  unfoldable pub apply_delta_offset_carets :
      Buffer X → Delta → ℤ → ℤ → Option (Buffer X × DirtyBytes)
  unfolding with_selection
  apply_delta_offset_carets b delta caret_offset tail_offset =
      let max_len = length b.contents in
      with_selection (apply_delta_to_buffer b delta true)
        (Shift.apply_delta_offset_carets X b.selection delta caret_offset tail_offset max_len)

  unfoldable pub apply_incomplete_delta : Buffer X → Delta → Option (Buffer X × DirtyBytes)
  unfolding with_selection
  apply_incomplete_delta b delta =
      let max_len = length b.contents in
      with_selection (apply_delta_to_buffer b delta false)
        (Shift.apply_delta X b.selection delta max_len)

  unfoldable pub apply_incomplete_delta_offset_carets :
      Buffer X → Delta → ℤ → ℤ → Option (Buffer X × DirtyBytes)
  unfolding with_selection
  apply_incomplete_delta_offset_carets b delta caret_offset tail_offset =
      let max_len = length b.contents in
      with_selection (apply_delta_to_buffer b delta false)
        (Shift.apply_delta_offset_carets X b.selection delta caret_offset tail_offset max_len)

  unfoldable pub commit_delta : Buffer X → Buffer X
  commit_delta b = record b { history = History.commit_partial X b.history }

  -- What `perform_undo` and `perform_redo` do with the result of the history.
  replayed : Buffer X → History X × Option (Delta × Selection) → Buffer X × Option DirtyBytes
  replayed b (history, none) = (record b { history = history }, none)
  replayed b (history, some (delta, old_selection)) = (
    record b {
      history = history;
      selection = old_selection;
      contents = apply delta b.contents;
      dirty = true;
    },
    some change_length,
  )

  unfoldable pub perform_undo : Buffer X → Buffer X × Option DirtyBytes
  unfolding replayed
  perform_undo b = replayed b (History.undo X b.history b.contents b.selection)

  unfoldable pub perform_redo : Buffer X → Buffer X × Option DirtyBytes
  unfolding replayed
  perform_redo b = replayed b (History.redo X b.history b.contents b.selection)

  unfoldable pub switch_main_sel :
      Buffer X → (Selection → Option Selection) → Option (Buffer X × DirtyBytes)
  switch_main_sel b f = Selection.main b.selection >>= λ old_main. f b.selection >>= λ selection.
      Selection.main selection >>= λ new_main. some (
        record b { selection = selection },
        change_in_place (interval_of old_main ∷ interval_of new_main ∷ []),
      )

  unfoldable pub modify_sels_in_place :
      Buffer X → (Selection → Option Selection) → Option (Buffer X × DirtyBytes)
  modify_sels_in_place b f = f b.selection >>= λ selection.
      some
        (record b { selection = selection }, change_in_place (map interval_of b.selection.regions))

  -- `index % sel.len()`, where a selection has at least one region.
  unfoldable pub remove_selection : Buffer X → ℕ → Option (Buffer X × DirtyBytes)
  unfolding modify_sels_in_place
  remove_selection b index =
      modify_sels_in_place b (λ sel. Selection.remove sel (index % length sel.regions))

  unfoldable pub retain_selection : Buffer X → ℕ → Option (Buffer X × DirtyBytes)
  unfolding modify_sels_in_place
  retain_selection b index =
      modify_sels_in_place b (λ sel. Selection.retain sel (index % length sel.regions))

  unfoldable pub select_next : Buffer X → ℕ → Option (Buffer X × DirtyBytes)
  unfolding switch_main_sel
  select_next b count = switch_main_sel b (λ sel. Selection.select_next sel count)

  unfoldable pub select_prev : Buffer X → ℕ → Option (Buffer X × DirtyBytes)
  unfolding switch_main_sel
  select_prev b count = switch_main_sel b (λ sel. Selection.select_prev sel count)

  unfoldable pub yank_selections : Buffer X → ℕ → Buffer X
  unfolding insert_register slice
  yank_selections b reg =
      let selections : List Rope =
        if length b.contents == 0
        then replicate (length b.selection.regions) []
        else map (λ r. slice b.contents (Region.min r) (wrapping_add (Region.max r) 1))
            b.selection.regions in
      record b { registers = insert_register reg selections b.registers }

  overflow_style : ℕ → SelRegion → Option OverflowSelectionStyle
  overflow_style len last_sel =
      if last_sel.caret == len && last_sel.tail == len
      then some cursor_tail
      else (if last_sel.caret == len
          then some cursor
          else (if last_sel.tail == len then some tail else none))

  -- The outer `none` is the panic of `unwrap`.
  unfoldable pub overflow_sel_style : Buffer X → Option (Option OverflowSelectionStyle)
  unfolding overflow_style
  overflow_sel_style b = elim b.selection.regions [
    | [] ↦ none
    | r ∷ rs ↦ some (overflow_style (length b.contents) (Selection.last r rs))
  ]

  unfoldable pub update_path_if_missing : Buffer X → FilePath → Buffer X
  update_path_if_missing b path = elim b.path [
    | none ↦ record b { path = some path }
    | some old ↦ b
  ]
