-- ===== src/Buffers.antt =====
-- src/buffer.rs: `Buffers`, the open buffers and the current one of them. `none` of an `Option` is
-- a panic.
pub mod InRange
use teehee.Common.{
  same_codes, ℕ, suc, ◌-◌, Bool, true, false, Option, none, some, List, [], ◌∷◌, ◌++◌, ◌==◌, length,
  get_elem?, erase_idx, modify, ltb, if◌then◌else◌,
}
use teehee.Rope.{Rope, XiRope}
use teehee.Buffer
use teehee.Buffer.{Buffer, FilePath}
use teehee.Files.{FileSystem, Result, ok, err, ◌>>=◌}

-- `buffers` is the field `list`.
pub record Buffers (X : XiRope) : Type 0 where
  pub buffers : List (Buffer X)
  pub cur_buf_index : ℕ

module _ {X : XiRope} where
  abbrev pub with_buffer : Buffer X → Buffers X
  with_buffer buf = record { buffers = buf ∷ []; cur_buf_index = 0 }

  abbrev pub new : Buffers X
  new = with_buffer (Buffer.default X)

  unfoldable pub current : Buffers X → Option (Buffer X)
  current b = get_elem? b.buffers b.cur_buf_index

  -- What a change through `current_mut` leaves.
  abbrev pub set_current : Buffers X → Buffer X → Buffers X
  set_current b buf = record b { buffers = modify b.buffers b.cur_buf_index (λ _. buf) }

  -- The buffers without the current one, which is never none of them.
  abbrev or_default : List (Buffer X) → List (Buffer X)
  or_default [] = Buffer.default X ∷ []
  or_default (c ∷ cs) = c ∷ cs

  unfoldable pub delete_current : Buffers X → Option (Buffers X)
  delete_current b =
      if ltb b.cur_buf_index (length b.buffers)
      then some (record {
        buffers = or_default (erase_idx b.buffers b.cur_buf_index);
        cur_buf_index = b.cur_buf_index - 1;
      })
      else none

module _ {X : XiRope} (F : FileSystem) where
  -- The loop over the buffers: the index of one whose path leads to `canon`.
  find_path : F.Files → FilePath → ℕ → List (Buffer X) → Result (Option ℕ)
  find_path files canon i [] = ok none
  find_path files canon i (buf ∷ rest) = elim buf.path [
    | none ↦ find_path files canon (suc i) rest
    | some path ↦ elim (F.canonicalize files path) [
      | err e ↦ err e
      | ok p ↦ if same_codes p canon then ok (some i) else find_path files canon (suc i) rest
    ]
  ]

  add_buffer : Buffers X → FilePath → Rope → Buffers X
  add_buffer b filename contents =
      let buffers = b.buffers ++ (Buffer.from_data_and_path X contents (some filename) ∷ []) in
      record { buffers = buffers; cur_buf_index = length buffers - 1 }

  -- What the search leads to.
  show_buffer : F.Files → Buffers X → FilePath → Option ℕ → Result (Buffers X)
  unfolding add_buffer
  show_buffer files b filename (some i) = ok (record b { cur_buf_index = i })
  show_buffer files b filename none =
      F.read files filename >>= λ contents. ok (add_buffer b filename contents)

  -- Where it fails, `self` stays as it is.
  unfoldable pub switch_buffer : F.Files → Buffers X → FilePath → Result (Buffers X)
  unfolding find_path show_buffer
  switch_buffer files b filename = F.canonicalize files filename >>= λ canon.
      find_path files canon 0 b.buffers >>= λ found. show_buffer files b filename found
