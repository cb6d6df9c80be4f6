-- ===== src/CmdCount/Digits.antt =====
-- Counts typed digit by digit.
use teehee.Common.{
  ℕ, ◌+◌, ◌*◌, ◌<◌, ◌≤◌, ◌≡◌, refl, ap, ◌∙◌, Bool, true, false, List, [], ◌∷◌, ◌==◌, if◌then◌else◌,
  All, usize_mod, arith,
}
use teehee.CmdCount.{
  CountState, empty, counting, Action, append_digit, remove_last, Transition, not_handled, update,
  act,
}

abbrev pub base : Bool → ℕ
base hex = if hex then 16 else 10

-- What a sequence of actions leaves; an action that is not handled changes nothing.
abbrev pub after : CountState → Transition → CountState
after s not_handled = s
after s (update s') = s'

abbrev pub run : CountState → List Action → CountState
run s [] = s
run s (a ∷ rest) = run (after s (act s a)) rest

abbrev pub typed : List ℕ → List Action
typed [] = []
typed (d ∷ ds) = append_digit d ∷ typed ds

-- The number that digits stand for, behind those read already.
abbrev pub value : ℕ → ℕ → List ℕ → ℕ
value b n [] = n
value b n (d ∷ ds) = value b (n * b + d) ds

value-le : (b n : ℕ) (ds : List ℕ) → 0 < b → n ≤ value b n ds
value-le b n [] p = omega arith
value-le b n (d ∷ ds) p = grind (arith, value-le b (n * b + d) ds p)

step-append_digit :
    (hex : Bool) (n d : ℕ)
    → d < base hex
    → n * base hex + d < usize_mod
    → after (counting hex n) (act (counting hex n) (append_digit d))
      ≡ counting hex (n * base hex + d)
unfolding act
step-append_digit true n d h l = ground arith
step-append_digit false n d h l = ground arith

base_pos : (hex : Bool) → 0 < base hex
base_pos true = omega arith
base_pos false = omega arith

-- Keys for digits below the base in use, typed behind a count, give the number that all the digits
-- stand for in that base, where that number fits `usize`.
pub run-typed :
    (hex : Bool) (n : ℕ) (ds : List ℕ)
    → All (λ d. d < base hex) ds
    → value (base hex) n ds < usize_mod
    → run (counting hex n) (typed ds) ≡ counting hex (value (base hex) n ds)
run-typed hex n [] h l = refl
run-typed hex n (d ∷ ds) h l =
    let small : n * base hex + d < usize_mod =
      omega (arith, value-le (base hex) (n * base hex + d) ds (base_pos hex)) in
    ap (λ t. run t (typed ds)) (step-append_digit hex n d h.0 small)
    ∙ run-typed hex (n * base hex + d) ds h.1 l

-- A digit below the base, where the new count fits `usize`, and then `RemoveLast` gives back the
-- count before, or the empty state where that count is 0.
remove_last-append_digit :
    (hex : Bool) (n d : ℕ)
    → d < base hex
    → n * base hex + d < usize_mod
    → run (counting hex n) (append_digit d ∷ remove_last ∷ [])
      ≡ (if n == 0 then empty else counting hex n)
unfolding act
remove_last-append_digit true n d h l = ground arith
remove_last-append_digit false n d h l = ground arith
