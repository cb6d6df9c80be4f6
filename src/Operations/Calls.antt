-- ===== src/Operations/Calls.antt =====
-- The loop over the regions makes sorted calls, so the builder does not panic.
use teehee.Common.{
  ℕ, ◌≤◌, ◌<◌, ◌≡◌, refl, sym, ap, ◌∙◌, inl, inr, Option-cases, Option, none, some, List, [], ◌∷◌,
  ◌>>=◌, length, All, arith,
}
use mathlib.Core.Path.{fun_ext, subst}
use teehee.Region
use teehee.Region.{SelRegion}
use teehee.Rope.{Rope, XiRope}
use teehee.Rope.Script.{Call, start_of, end_of, InOrder, splice, call, calls}
use teehee.Rope.Laws.{DeltaLaws}
use teehee.Selection.Valid.{Sorted, Within}
use teehee.Operations.{for_regions}

abbrev pub add_call : Option Call → List Call → List Call
add_call none cs = cs
add_call (some k) cs = k ∷ cs

-- The calls of the loop: at most one for each region.
abbrev pub calls_of : (SelRegion → Option Call) → List SelRegion → List Call
calls_of c [] = []
calls_of c (r ∷ rs) = add_call (c r) (calls_of c rs)

abbrev pub optional_call : (X : XiRope) → X.DeltaBuilder → Option Call → Option X.DeltaBuilder
optional_call X b none = some b
optional_call X b (some k) = call X b k

-- The calls of two regions in order are in order.
pub record CallsInOrder (size : ℕ) (c : SelRegion → Option Call) : Type 0 where
  pub inside :
      (r : SelRegion) (k : Call)
      → Within size r
      → c r ≡ some k
      → (start_of k ≤ end_of k) × (start_of k ≤ size)
  pub apart :
      (a b : SelRegion) (j k : Call)
      → Within size a
      → Within size b
      → Region.max a < Region.min b
      → c a ≡ some j
      → c b ≡ some k
      → end_of j ≤ start_of k

abbrev From : ℕ → (SelRegion → Option Call) → List SelRegion → Type 0
From pos c = All (λ r. (k : Call) → c r ≡ some k → pos ≤ start_of k)

module _ {size : ℕ} {c : SelRegion → Option Call} (o : CallsInOrder size c) where
  From-end :
      (a : SelRegion) (j : Call) (rs : List SelRegion)
      → Within size a
      → c a ≡ some j
      → All (Within size) rs
      → All (λ r. Region.max a < Region.min r) rs
      → From (end_of j) c rs
  From-end a j [] w e h l = tt
  From-end a j (r ∷ rs) w e h l =
      (λ k e'. o.apart a r j k w h.0 l.0 e e', From-end a j rs w e h.1 l.1)

  pub InOrder-calls_of :
      (pos : ℕ) (rs : List SelRegion)
      → Sorted rs
      → All (Within size) rs
      → From pos c rs
      → InOrder size pos (calls_of c rs)
  InOrder-calls_of pos [] s h f = tt
  InOrder-calls_of pos (r ∷ rs) s h f = elim (Option-cases (c r)) [
    | inl e ↦
        subst (λ t. InOrder size pos (add_call t (calls_of c rs))) (sym e)
          (InOrder-calls_of pos rs s.1 h.1 f.1)
    | inr (k, e) ↦
        let (ordered, inside) = o.inside r k h.0 e in
        subst (λ t. InOrder size pos (add_call t (calls_of c rs))) (sym e)
          (
            f.0 k e,
            ordered,
            inside,
            InOrder-calls_of (end_of k) rs s.1 h.1 (From-end r k rs h.0 e h.1 s.0),
          )
  ]

From-zero : (c : SelRegion → Option Call) (rs : List SelRegion) → From 0 c rs
From-zero c [] = tt
From-zero c (r ∷ rs) = (λ k e. omega arith, From-zero c rs)

pub for_regions-calls_of :
    (X : XiRope) (P : SelRegion → Type 0) (f : X.DeltaBuilder → SelRegion → Option X.DeltaBuilder)
    (c : SelRegion → Option Call)
    → ((b : X.DeltaBuilder) (r : SelRegion) → P r → f b r ≡ optional_call X b (c r))
    → (b : X.DeltaBuilder) (rs : List SelRegion) → All P rs
    → for_regions X f b rs ≡ calls X b (calls_of c rs)
unfolding for_regions
for_regions-calls_of X P f c same b [] h = refl
for_regions-calls_of X P f c same b (r ∷ rs) h = elim (Option-cases (c r)) [
  | inl e ↦
      let step : f b r ≡ some b = same b r h.0 ∙ ap (optional_call X b) e in
      rw step (
        for_regions-calls_of X P f c same b rs h.1
        ∙ ap (λ t. calls X b (add_call t (calls_of c rs))) (sym e))
  | inr (k, e) ↦
      let step : f b r ≡ call X b k = same b r h.0 ∙ ap (optional_call X b) e in
      rw step (
        ap (λ g. call X b k >>= g) (fun_ext (λ b'. for_regions-calls_of X P f c same b' rs h.1))
        ∙ ap (λ t. calls X b (add_call t (calls_of c rs))) (sym e))
]

-- An operation returns a delta that makes these calls' document of the base.
pub record Edits (X : XiRope) (base : Rope) (result : Option X.Delta) (cs : List Call)
    : Type 0 where
  pub delta : X.Delta
  pub returns : result ≡ some delta
  pub base_len : X.base_len delta ≡ length base
  pub applied : X.apply delta base ≡ splice 0 cs base

pub for_regions-Edits :
    {X : XiRope} (laws : DeltaLaws X) (base : Rope)
    (f : X.DeltaBuilder → SelRegion → Option X.DeltaBuilder) (c : SelRegion → Option Call)
    (rs : List SelRegion)
    → CallsInOrder (length base) c
    → ((b : X.DeltaBuilder) (r : SelRegion)
        → Within (length base) r
        → f b r ≡ optional_call X b (c r))
    → Sorted rs
    → All (Within (length base)) rs
    → Edits X base
        (for_regions X f (X.builder (length base)) rs >>= λ b. some (X.build b))
        (calls_of c rs)
for_regions-Edits {X} laws base f c rs o same s h =
    let done =
      laws.sorted_calls base (calls_of c rs) (InOrder-calls_of o 0 rs s h (From-zero c rs)) in
    record {
      delta = X.build done.built;
      returns =
          rw
            (
              for_regions-calls_of X (Within (length base)) f c same (X.builder (length base)) rs h,
              done.returns,
            )
            refl;
      base_len = done.base_len;
      applied = done.applied;
    }
