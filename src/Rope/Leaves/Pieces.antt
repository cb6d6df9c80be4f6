-- ===== src/Rope/Leaves/Pieces.antt =====
-- The leaves of a new rope are pieces of the bytes that it is made from.
use mathlib.Core.List.{append-nil, append_assoc}
use teehee.Common.{
  ℕ, zero, suc, ◌≤◌, ◌≡◌, refl, ap, sym, ◌∙◌, [], ◌∷◌, ◌++◌, length, take, drop, leb, inl, inr,
  Bool-cases, arith, length-drop, take-append-drop,
}
use teehee.Rope.Leaves.{Bytes, max_leaf, leaves_of, concat, from_vec, to_vec}

concat-leaves_of :
    (fuel : ℕ) (acc source : Bytes)
    → length source ≤ fuel
    → concat acc (leaves_of fuel source) ≡ acc ++ source
unfolding leaves_of
concat-leaves_of zero acc [] h = sym (append-nil acc)
concat-leaves_of zero acc (b ∷ source) h = absurd (omega arith)
concat-leaves_of (suc fuel) acc [] h = sym (append-nil acc)
concat-leaves_of (suc fuel) acc (b ∷ source) h =
    concat-leaves_of fuel (acc ++ take max_leaf (b ∷ source)) (drop max_leaf (b ∷ source))
      (omega (arith, length-drop max_leaf (b ∷ source)))
    ∙ append_assoc acc (take max_leaf (b ∷ source)) (drop max_leaf (b ∷ source))
    ∙ ap (acc ++◌) (take-append-drop max_leaf (b ∷ source))

-- Read back, a rope made from bytes is these bytes.
pub to_vec-from_vec : (vec : Bytes) → to_vec (from_vec vec) ≡ vec
unfolding to_vec from_vec
to_vec-from_vec [] = refl
to_vec-from_vec (b ∷ vec) = elim (Bool-cases (leb (length (b ∷ vec)) max_leaf)) [
  | inl e ↦ rw e refl
  | inr e ↦ rw e (concat-leaves_of (length (b ∷ vec)) [] (b ∷ vec) (omega arith))
]
