-- ===== src/Rope/Model/Deltas.antt =====
-- The laws of deltas and their builders hold in the model.
use Prim.Native.Nat.{min as cmp_min}
use mathlib.Core.List.{append-nil, append_assoc}
use teehee.Common.{
  Option-cases, inl, inr, drop-drop, ℕ, zero, suc, ◌+◌, ◌-◌, ◌≤◌, ◌≡◌, refl, sym, ap, ◌∙◌, some,
  List, [], ◌∷◌, ◌++◌, map, le→leb, length, length-drop, take, drop, replicate, arith,
}
use teehee.Rope.{Rope}
use teehee.Rope.Script.{Call, start_of, end_of, text_of, InOrder, splice, call, calls}
use teehee.Rope.Laws.{DeltaLaws}
use teehee.Rope.Model.{
  Piece, copy, skip, add, model, apply, base_len, new_len, transform, DeltaBuilder, add_call,
  pieces,
}

new_len-apply :
    (d : List Piece) (base : Rope) → base_len d ≡ length base → new_len d ≡ length (apply d base)
new_len-apply [] base h = refl
new_len-apply (copy ∷ ps) [] h = absurd (omega arith)
new_len-apply (copy ∷ ps) (b ∷ bs) h = ap suc (new_len-apply ps bs (omega arith))
new_len-apply (skip ∷ ps) [] h = absurd (omega arith)
new_len-apply (skip ∷ ps) (b ∷ bs) h = new_len-apply ps bs (omega arith)
new_len-apply (add c ∷ ps) base h = ap suc (new_len-apply ps base h)

transform_mono : (d : List Piece) (i j : ℕ) → i ≤ j → transform d i ≤ transform d j
transform_mono [] i j h = h
transform_mono (copy ∷ ps) zero j h = omega arith
transform_mono (copy ∷ ps) (suc i) zero h = absurd (omega arith)
transform_mono (copy ∷ ps) (suc i) (suc j) h = omega (arith, transform_mono ps i j (omega arith))
transform_mono (skip ∷ ps) zero j h = omega arith
transform_mono (skip ∷ ps) (suc i) zero h = absurd (omega arith)
transform_mono (skip ∷ ps) (suc i) (suc j) h = transform_mono ps i j (omega arith)
transform_mono (add c ∷ ps) i j h = omega (arith, transform_mono ps i j h)

apply-copy :
    (n : ℕ) (q : List Piece) (rest : Rope)
    → n ≤ length rest
    → apply (replicate n copy ++ q) rest ≡ take n rest ++ apply q (drop n rest)
apply-copy zero q rest h = refl
apply-copy (suc n) q [] h = absurd (omega arith)
apply-copy (suc n) q (b ∷ bs) h = ap (b ∷◌) (apply-copy n q bs (omega arith))

apply-skip :
    (n : ℕ) (q : List Piece) (rest : Rope)
    → n ≤ length rest
    → apply (replicate n skip ++ q) rest ≡ apply q (drop n rest)
apply-skip zero q rest h = refl
apply-skip (suc n) q [] h = absurd (omega arith)
apply-skip (suc n) q (b ∷ bs) h = apply-skip n q bs (omega arith)

apply-add :
    (text : Rope) (q : List Piece) (rest : Rope)
    → apply (map add text ++ q) rest ≡ text ++ apply q rest
apply-add [] q rest = refl
apply-add (c ∷ text) q rest = ap (c ∷◌) (apply-add text q rest)

apply-all : (rest : Rope) → apply (replicate (length rest) copy) rest ≡ rest
apply-all [] = refl
apply-all (b ∷ bs) = ap (b ∷◌) (apply-all bs)

base_len-copy : (n : ℕ) (q : List Piece) → base_len (replicate n copy ++ q) ≡ n + base_len q
base_len-copy zero q = omega arith
base_len-copy (suc n) q = omega (arith, base_len-copy n q)

base_len-skip : (n : ℕ) (q : List Piece) → base_len (replicate n skip ++ q) ≡ n + base_len q
base_len-skip zero q = omega arith
base_len-skip (suc n) q = omega (arith, base_len-skip n q)

base_len-add : (text : Rope) (q : List Piece) → base_len (map add text ++ q) ≡ base_len q
base_len-add [] q = refl
base_len-add (c ∷ text) q = base_len-add text q

base_len-all : (n : ℕ) → base_len (replicate n copy) ≡ n
base_len-all zero = refl
base_len-all (suc n) = ap suc (base_len-all n)

base_len-pieces :
    (size pos : ℕ) (cs : List Call)
    → InOrder size pos cs
    → base_len (pieces size pos cs) ≡ size - pos
base_len-pieces size pos [] o = base_len-all (size - pos)
base_len-pieces size pos (c ∷ cs) (p, q, r, o) =
    let rest = base_len-pieces size (end_of c) cs o in
    rw
      (
        base_len-copy (start_of c - pos) _,
        base_len-add (text_of c) _,
        base_len-skip (cmp_min (end_of c) size - start_of c) (pieces size (end_of c) cs),
        rest,
      )
      (omega arith)

apply-pieces :
    (size pos : ℕ) (cs : List Call) (rest : Rope)
    → length rest ≡ size - pos
    → InOrder size pos cs
    → apply (pieces size pos cs) rest ≡ splice pos cs rest
apply-pieces size pos [] rest h o = rw (← h) (apply-all rest)
apply-pieces size pos (c ∷ cs) rest h (p, q, r, o) =
    let k : ℕ = cmp_min (end_of c) size - start_of c in
    let n : ℕ = start_of c - pos in
    let e : drop k (drop n rest) ≡ drop (end_of c - pos) rest =
      drop-drop k n (end_of c - pos) rest (omega arith) in
    let later =
      apply-pieces size (end_of c) cs (drop (end_of c - pos) rest)
        (omega (arith, length-drop (end_of c - pos) rest)) o in
    apply-copy n _ rest (omega arith)
    ∙ ap (take n rest ++◌) (
        apply-add (text_of c) _ (drop n rest)
        ∙ ap (text_of c ++◌) (
            apply-skip k (pieces size (end_of c) cs) (drop n rest)
              (omega (arith, length-drop n rest))
            ∙ ap (apply (pieces size (end_of c) cs)) e
            ∙ later))

-- Sorted calls are all kept.
pub record Kept (size : ℕ) (b : DeltaBuilder) (cs : List Call) : Type 0 where
  pub built : DeltaBuilder
  pub returns : calls model b cs ≡ some built
  pub same_size : built.size ≡ b.size
  pub kept : built.done ≡ b.done ++ cs

call-model : (b : DeltaBuilder) (c : Call) → call model b c ≡ add_call b c
call-model b (Call.delete start end) = refl
call-model b (Call.replace start end text) = refl

calls-Kept :
    (size pos : ℕ) (done cs : List Call)
    → InOrder size pos cs
    → Kept size (record { size = size; pos = pos; done = done }) cs
calls-Kept size pos done [] o = record {
  built = _;
  returns = refl;
  same_size = refl;
  kept = sym (append-nil done);
}
calls-Kept size pos done (c ∷ cs) (p, q, r, o) =
    let rest = calls-Kept size (end_of c) (done ++ (c ∷ [])) cs o in
    record {
      built = rest.built;
      returns =
          rw
            (
              call-model (record { size = size; pos = pos; done = done }) c,
              le→leb _ _ p,
              le→leb _ _ q,
              le→leb _ _ r,
            )
            rest.returns;
      same_size = rest.same_size;
      kept = rest.kept ∙ append_assoc done (c ∷ []) cs;
    }

add_call-inside :
    (b b' : DeltaBuilder) (c : Call)
    → add_call b c ≡ some b'
    → (b.pos ≤ start_of c)
      × (start_of c ≤ end_of c)
      × (start_of c ≤ b.size)
      × (b'.size ≡ b.size)
      × (b'.pos ≡ end_of c)
add_call-inside b b' c e = ground arith

-- Calls that are kept are sorted.
calls-InOrder :
    (b built : DeltaBuilder) (cs : List Call)
    → calls model b cs ≡ some built
    → InOrder b.size b.pos cs
calls-InOrder b built [] e = tt
calls-InOrder b built (c ∷ cs) e =
    let e' = rw (call-model b c) at e in
    elim (Option-cases (add_call b c)) [
      | inl stop ↦ absurd cc
      | inr (b', same) ↦
          let (p, q, r, size, pos) = add_call-inside b b' c same in
          let rest = calls-InOrder b' built cs (rw same at e') in (p, q, r, rw (size, pos) at rest)
    ]

whole : (n : ℕ) → n - 0 ≡ n
whole n = omega arith

pub model-DeltaLaws : DeltaLaws model
model-DeltaLaws = record {
  sorted_calls = λ base cs o.
      let k = calls-Kept (length base) 0 [] cs o in
      record {
        built = k.built;
        returns = k.returns;
        base_len =
            rw (k.same_size, k.kept) (base_len-pieces (length base) 0 cs o ∙ whole (length base));
        applied =
            rw (k.same_size, k.kept)
              (apply-pieces (length base) 0 cs base (sym (whole (length base))) o);
      };
  builder_len = λ n cs b e.
      let o = calls-InOrder (record { size = n; pos = 0; done = [] }) b cs e in
      let k = calls-Kept n 0 [] cs o in
      let returns = k.returns in
      let same : b ≡ k.built = cc in
      rw (same, k.same_size, k.kept) (base_len-pieces n 0 cs o ∙ whole n);
  new_len = λ d base h. new_len-apply d base h;
  transform_mono = λ d i j h. transform_mono d i j h;
}
