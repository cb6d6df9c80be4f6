-- ===== src/Buffers/InRange.antt =====
-- The index of the current buffer stays in range: there is always a current buffer.
use teehee.Common.{
  ℕ, suc, ◌+◌, ◌-◌, ◌<◌, ◌≤◌, ◌≡◌, refl, ap, ◌∙◌, Option, none, some, List, [], ◌∷◌, length,
  erase_idx, length-erase_idx, length-modify, length-append, get_elem?_lt, lt→ltb, arith,
}
use teehee.Rope.{Rope, XiRope}
use teehee.Buffer
use teehee.Buffer.{Buffer, FilePath}
use teehee.Buffers
use teehee.Buffers.{
  Buffers, current, set_current, delete_current, find_path, switch_buffer, show_buffer, add_buffer,
}
use teehee.Files.{FileSystem, Result, ok, err, ◌>>=◌}

abbrev pub InRange : {X : XiRope} → Buffers X → Type 0
InRange b = b.cur_buf_index < length b.buffers

module _ {X : XiRope} where
  pub current-InRange : (b : Buffers X) → InRange b → (buf : Buffer X) × (current b ≡ some buf)
  unfolding current
  current-InRange b h = get_elem?_lt b.buffers b.cur_buf_index h

  pub set_current-InRange :
      (b : Buffers X) (buf : Buffer X) → InRange b → InRange (set_current b buf)
  set_current-InRange b buf h = omega (arith, length-modify b.buffers b.cur_buf_index (λ _. buf))

  or_default_lt :
      (bufs : List (Buffer X)) (i : ℕ) → i ≤ length bufs - 1 → i < length (Buffers.or_default bufs)
  or_default_lt [] i h = omega arith
  or_default_lt (buf ∷ bufs) i h = omega arith

  -- Deleting the current buffer of any number leaves a current buffer.
  pub delete_current-InRange :
      (b : Buffers X) → InRange b → (b' : Buffers X) × (delete_current b ≡ some b') × InRange b'
  unfolding delete_current
  delete_current-InRange b h = (
    _,
    rw (lt→ltb _ _ h) refl,
    or_default_lt (erase_idx b.buffers b.cur_buf_index) (b.cur_buf_index - 1)
        (omega (arith, length-erase_idx b.buffers b.cur_buf_index h)),
  )

module _ {X : XiRope} (F : FileSystem) where
  find_path-lt :
      (files : F.Files) (canon : FilePath) (i : ℕ) (bufs : List (Buffer X)) (j : ℕ)
      → find_path F files canon i bufs ≡ ok (some j)
      → j < i + length bufs
  unfolding find_path
  find_path-lt files canon i [] j e = cc
  find_path-lt files canon i (buf ∷ rest) j e =
      ground (arith, find_path-lt files canon (suc i) rest j)

  add_buffer-InRange :
      (b : Buffers X) (filename : FilePath) (contents : Rope)
      → InRange (add_buffer F b filename contents)
  unfolding add_buffer
  add_buffer-InRange b filename contents =
      omega
        (arith, length-append b.buffers (Buffer.from_data_and_path X contents (some filename) ∷ []))

  show_buffer-InRange :
      (files : F.Files) (b : Buffers X) (filename : FilePath) (found : Option ℕ) (b' : Buffers X)
      → ((i : ℕ) → found ≡ some i → i < length b.buffers)
      → show_buffer F files b filename found ≡ ok b'
      → InRange b'
  unfolding show_buffer
  show_buffer-InRange files b filename (some i) b' h e = ground (arith, h i refl)
  show_buffer-InRange files b filename none b' h e = added (F.read files filename) e
    where
      added :
          (r : Result Rope)
          → (r >>= λ contents. ok (add_buffer F b filename contents)) ≡ ok b'
          → InRange b'
      added (err e) h = cc
      added (ok contents) h =
          let same : add_buffer F b filename contents ≡ b' = cc in
          rw (← same) (add_buffer-InRange b filename contents)

  -- `:e` that succeeds leaves a current buffer.
  pub switch_buffer-InRange :
      (files : F.Files) (b : Buffers X) (filename : FilePath) {b' : Buffers X}
      → switch_buffer F files b filename ≡ ok b'
      → InRange b'
  unfolding switch_buffer
  switch_buffer-InRange files b filename {b'} e = canonical (F.canonicalize files filename) e
    where
      found :
          (canon : FilePath) (r : Result (Option ℕ))
          → find_path F files canon 0 b.buffers ≡ r
          → (r >>= λ i. show_buffer F files b filename i) ≡ ok b'
          → InRange b'
      found canon (err e) p h = cc
      found canon (ok o) p h =
          show_buffer-InRange files b filename o b'
            (λ i same. omega (arith, find_path-lt files canon 0 b.buffers i (p ∙ ap ok same))) h

      canonical :
          (r : Result FilePath)
          → (r >>= λ canon.
              find_path F files canon 0 b.buffers >>= λ o. show_buffer F files b filename o)
            ≡ ok b'
          → InRange b'
      canonical (err e) h = cc
      canonical (ok canon) h = found canon (find_path F files canon 0 b.buffers) refl h
