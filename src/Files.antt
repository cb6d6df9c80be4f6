-- ===== src/Files.antt =====
-- The file system, as far as the program calls std::fs and Path: a parameter of the model.
use teehee.Common.{ℕ, Option, List}
use teehee.Buffer.{FilePath}
use teehee.Rope.{Rope}

-- `std::io::Result`, where an error is given by its text.
pub data Result {ℓ} (A : Type ℓ) : Type ℓ where
  ok : A → Result A
  err : (error : List ℕ) → Result A

infixl 5 ◌>>=◌
abbrev pub ◌>>=◌ {ℓ κ} : {A : Type ℓ} {B : Type κ} → Result A → (A → Result B) → Result B
ok a >>= f = f a
err e >>= f = err e

-- `write` may change the files also where it fails.
pub record FileSystem : Type 1 where
  pub Files : Type 0
  pub canonicalize : Files → FilePath → Result FilePath
  pub read : Files → FilePath → Result Rope
  pub write : Files → FilePath → Rope → Files × Option (List ℕ)
