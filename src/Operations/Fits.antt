-- ===== src/Operations/Fits.antt =====
-- What the operations return is for documents of the length that they are given.
use Prim.Native.Nat.{min as cmp_min, bit_or}
use teehee.Common.{
  ℕ, ◌-◌, ◌≡◌, refl, sym, ap, ◌∙◌, Option, none, some, List, [], ◌∷◌, ◌==◌, leb, ltb, if◌then◌else◌,
  ◌>>=◌, length, All, wrapping_add, arith,
}
use teehee.Region.{SelRegion}
use teehee.Rope.{Rope, XiRope}
use teehee.Rope.Script.{Call, calls}
use teehee.Rope.Laws.{DeltaLaws}
use teehee.Selection.{Selection}
use teehee.Operations.{
  for_regions, backspace, delete_cursor, insert, change, overwrite_half, low_half,
}
use teehee.Operations.Calls.{optional_call, for_regions-calls_of, calls_of}

-- A returned delta is for this document.
abbrev pub Fits : (X : XiRope) → Rope → Option X.Delta → Type 0
Fits X base o = (d : X.Delta) → o ≡ some d → X.base_len d ≡ length base

All-always : (rs : List SelRegion) → All {0, 0} (λ r. Unit) rs
All-always [] = tt
All-always (r ∷ rs) = (tt, All-always rs)

for_regions-Fits :
    {X : XiRope} (laws : DeltaLaws X) (base : Rope)
    (f : X.DeltaBuilder → SelRegion → Option X.DeltaBuilder) (c : SelRegion → Option Call)
    (rs : List SelRegion)
    → ((b : X.DeltaBuilder) (r : SelRegion) → f b r ≡ optional_call X b (c r))
    → Fits X base (for_regions X f (X.builder (length base)) rs >>= λ b. some (X.build b))
for_regions-Fits {X} laws base f c rs same = built _ (
    for_regions-calls_of X (λ r. Unit) f c (λ b r u. same b r) (X.builder (length base)) rs
      (All-always rs))
  where
    built :
        (o : Option X.DeltaBuilder)
        → o ≡ calls X (X.builder (length base)) (calls_of c rs)
        → Fits X base (o >>= λ b. some (X.build b))
    built none e d e' = absurd cc
    built (some b) e d e' =
        let len = laws.builder_len (length base) (calls_of c rs) b (sym e) in
        let same : X.build b ≡ d = cc in ap X.base_len (sym same) ∙ len

module _ {X : XiRope} (laws : DeltaLaws X) (base : Rope) (s : Selection) where
  pub insert-Fits : (text : Rope) → Fits X base (insert X base s text)
  unfolding insert
  insert-Fits text =
      for_regions-Fits laws base _ (λ r. some (Call.replace r.caret r.caret text)) s.regions
        (λ b r. refl)

  pub change-Fits : (text : Rope) → Fits X base (change X base s text)
  unfolding change
  change-Fits text =
      for_regions-Fits laws base _ (λ r. some (Call.replace r.caret (wrapping_add r.caret 1) text))
        s.regions (λ b r. refl)

  pub overwrite_half-Fits : (top : ℕ) → Fits X base (overwrite_half X base s top)
  unfolding overwrite_half
  overwrite_half-Fits top =
      for_regions-Fits laws base _
        (λ r.
          let base_char = if ltb r.caret (length base) then low_half base r.caret else 0 in
          some (Call.replace r.caret (wrapping_add r.caret 1) (bit_or base_char top ∷ [])))
        s.regions (λ b r. refl)

  pub backspace-Fits : Fits X base (backspace X base s)
  unfolding backspace
  backspace-Fits =
      for_regions-Fits laws base _
        (λ r. if r.caret == 0 then none else some (Call.delete (r.caret - 1) r.caret)) s.regions
        (λ b r. ground arith)

  pub delete_cursor-Fits : Fits X base (delete_cursor X base s)
  unfolding delete_cursor
  delete_cursor-Fits =
      for_regions-Fits laws base _
        (λ r.
          let end = cmp_min (length base) (wrapping_add r.caret 1) in
          if leb end r.caret then none else some (Call.delete r.caret end))
        s.regions (λ b r. ground arith)
