-- ===== src/Rope/Script.antt =====
-- The calls of a `DeltaBuilder` as a list, and the document that they describe.
use teehee.Common.{ℕ, ◌-◌, ◌≤◌, Option, some, List, [], ◌∷◌, ◌++◌, ◌>>=◌, take, drop}
use teehee.Rope.{Rope, XiRope}

-- Bytes start..end of the base make way for `text`; a deletion has no text.
pub data Call : Type 0 where
  delete : (start end : ℕ) → Call
  replace : (start end : ℕ) → Rope → Call

abbrev pub start_of : Call → ℕ
start_of (delete start end) = start
start_of (replace start end text) = start

abbrev pub end_of : Call → ℕ
end_of (delete start end) = end
end_of (replace start end text) = end

abbrev pub text_of : Call → Rope
text_of (delete start end) = []
text_of (replace start end text) = text

-- The intervals are sorted from `pos` on, and begin in a document of `size` bytes.
abbrev pub InOrder : ℕ → ℕ → List Call → Type 0
InOrder size pos [] = Unit
InOrder size pos (c ∷ cs) =
    (pos ≤ start_of c) × (start_of c ≤ end_of c) × (start_of c ≤ size) × InOrder size (end_of c) cs

-- The new document, where `rest` is the old one from `pos` on. What lies behind its end is empty.
abbrev pub splice : ℕ → List Call → Rope → Rope
splice pos [] rest = rest
splice pos (c ∷ cs) rest =
    take (start_of c - pos) rest ++ (text_of c ++ splice (end_of c) cs (drop (end_of c - pos) rest))

module _ (X : XiRope) where
  abbrev pub call : X.DeltaBuilder → Call → Option X.DeltaBuilder
  call b (Call.delete start end) = X.delete b start end
  call b (Call.replace start end text) = X.replace b start end text

  abbrev pub calls : X.DeltaBuilder → List Call → Option X.DeltaBuilder
  calls b [] = some b
  calls b (c ∷ cs) = call b c >>= λ b'. calls b' cs
