-- ===== src/Modes/Command/Saving.antt =====
-- What the commands that write and quit promise each other.
use teehee.Common.{
  ℕ, ◌≡◌, refl, false, Option, none, some, List, [], ◌∷◌, inl, inr, Option-cases, arith,
}
use teehee.Rope.{XiRope}
use teehee.Buffer.{Buffer, FilePath}
use teehee.Buffers.{Buffers, current}
use teehee.Files.{FileSystem}
use teehee.Modes.{Mode, new_mode, normal_mode}
use teehee.Modes.Command.{quit, write, write_all, target, save_all, saved, run, any_unsaved}

module _ {X : XiRope} (F : FileSystem) where
  -- Where no write failed, no buffer with a path is dirty.
  any_unsaved-save_all :
      (files : F.Files) (bufs : List (Buffer X))
      → (save_all F files bufs).2 ≡ none
      → any_unsaved (save_all F files bufs).0 ≡ false
  unfolding save_all any_unsaved
  any_unsaved-save_all files [] h = refl
  any_unsaved-save_all files (buf ∷ rest) h = elim (Option-cases buf.path) [
    | inl e ↦ ground (arith, any_unsaved-save_all files rest)
    | inr (path, e) ↦ ground (arith, any_unsaved-save_all (F.write files path buf.contents).0 rest)
  ]

  -- `:wa` that gives back the normal mode without a message, and then `:q`, quits.
  pub quit-write_all :
      (b b' : Buffers X) (files files' : F.Files) (arg arg' : List ℕ)
      → run F write_all b files arg ≡ some (b', files', new_mode normal_mode)
      → run F quit b' files' arg' ≡ some (b', files', new_mode Mode.quitting)
  unfolding run
  quit-write_all b b' files files' arg arg' h =
      after (save_all F files b.buffers) (any_unsaved-save_all files b.buffers) h
    where
      after :
          (r : List (Buffer X) × F.Files × Option (List ℕ))
          → (r.2 ≡ none → any_unsaved r.0 ≡ false)
          → saved F b (new_mode normal_mode) r ≡ some (b', files', new_mode normal_mode)
          → run F quit b' files' arg' ≡ some (b', files', new_mode Mode.quitting)
      after (bufs, f, none) k e = let same : b'.buffers ≡ bufs = cc in rw (same, k refl) refl
      after (bufs, f, some error) k e = cc

  -- What the one call of `write` did: the named path, or else the path of the buffer.
  pub record WroteOnce (b : Buffers X) (files files' : F.Files) (arg : List ℕ) : Type 0 where
    pub buf : Buffer X
    pub path : FilePath
    pub is_current : current b ≡ some buf
    pub at : target F arg buf ≡ some path
    pub writes : F.write files path buf.contents ≡ (files', none)
