-- ===== src/Selection/Shift/Steady.antt =====
-- A selection whose regions all run one way stays so over an edit: merging them cannot panic.
use teehee.Common.{
  ℕ, ◌≤◌, ◌≡◌, refl, inl, inr, ◌⊎◌, Bool-cases, some, List, [], ◌∷◌, ◌==◌, map, length, All, arith,
}
use teehee.Region.{SelRegion, new}
use teehee.Region.Follows.{SameWay}
use teehee.Rope.{Rope, XiRope}
use teehee.Rope.Laws.{DeltaLaws}
use teehee.Selection.{Selection, clear, map_selections}
use teehee.Selection.Valid.{Valid, Within, InDocument}
use teehee.Selection.Kept.{Kind, inside, forwards, backwards, Is}
use teehee.Selection.Loop.{Made}
use teehee.Selection.Single.{Maps, map_selections-Maps}
use teehee.Selection.Shift
use teehee.Selection.Shift.{shifted}

-- All regions run forward, or all run backward.
abbrev pub OneWay : Selection → Type 0
OneWay s = All (Is forwards) s.regions ⊎ All (Is backwards) s.regions

pub record Steady (size : ℕ) (s : Selection) : Type 0 where
  pub valid : Valid s
  pub within : InDocument size s
  pub one_way : OneWay s

-- It returns such a selection again.
pub record Shifted (X : XiRope) (s : Selection) (d : X.Delta) (size new_size : ℕ) : Type 0 where
  pub made : Selection
  pub returns : Shift.apply_delta X s d size ≡ some made
  pub steady : Steady new_size made

module _ {X : XiRope} (laws : DeltaLaws X) (d : X.Delta) (base : Rope)
    (fits : X.base_len d ≡ length base) where
  shifted-le : (i : ℕ) → shifted X d (length base) i ≤ length (X.apply d base)
  shifted-le i = let e = laws.new_len d base fits in ground arith

  shifted_mono :
      (i j : ℕ)
      → i ≤ j
      → j ≤ length base
      → shifted X d (length base) i ≤ shifted X d (length base) j
  shifted_mono i j h k = let m = laws.transform_mono d i j h in ground arith

  abbrev moved : SelRegion → SelRegion
  moved r = new (shifted X d (length base) r.caret) (shifted X d (length base) r.tail)

  moved-Maps :
      (k : Kind)
      → ((a b : SelRegion) → Is k a → Is k b → SameWay a b)
      → ((a : SelRegion) → Within (length base) a → Is k a → Is k (moved a))
      → Maps (λ r. Within (length base) r × Is k r) (length (X.apply d base)) moved
  moved-Maps k same way = record {
    follows = λ a b ha hb lt. record {
      carets = shifted_mono a.caret b.caret (ground arith) hb.0.0;
      tails = shifted_mono a.tail b.tail (ground arith) hb.0.1;
      coherent = λ h. same (moved a) (moved b) (way a ha.0 ha.1) (way b hb.0 hb.1);
    };
    within = λ a h. (shifted-le a.caret, shifted-le a.tail);
    unmarked = λ a. refl;
  }

  forwards-Maps : Maps (λ r. Within (length base) r × Is forwards r) (length (X.apply d base)) moved
  forwards-Maps =
      moved-Maps forwards (λ a b h g. inl (h, g)) (λ a h w. shifted_mono a.tail a.caret w h.0)

  backwards-Maps :
      Maps (λ r. Within (length base) r × Is backwards r) (length (X.apply d base)) moved
  backwards-Maps =
      moved-Maps backwards (λ a b h g. inr (h, g)) (λ a h w. shifted_mono a.caret a.tail w h.1)

  All-both :
      (k : Kind) (rs : List SelRegion)
      → All (Within (length base)) rs
      → All (Is k) rs
      → All (λ r. Within (length base) r × Is k r) rs
  All-both k [] h w = tt
  All-both k (r ∷ rs) h w = ((h.0, w.0), All-both k rs h.1 w.1)

  All-moved :
      (P Q : SelRegion → Type 0)
      → ((r : SelRegion) → P r → Q (moved r))
      → (rs : List SelRegion) → All P rs
      → All (All Q) (map (λ r. moved r ∷ []) rs)
  All-moved P Q f [] h = tt
  All-moved P Q f (r ∷ rs) h = ((f r h.0, tt), All-moved P Q f rs h.1)

  All-two :
      (rs : List SelRegion)
      → All (Within (length base)) rs
      → All (All (Within (length (X.apply d base)))) (map (λ r. moved r ∷ []) rs)
  All-two rs h =
      All-moved (Within (length base)) (Within (length (X.apply d base)))
        (λ r w. (shifted-le r.caret, shifted-le r.tail)) rs h

  Made-Steady :
      (s : Selection)
      → InDocument (length base) s
      → (m : Made s (map (λ r. moved r ∷ []) s.regions)) → OneWay m.made
      → (made : Selection) × (map_selections s (λ r. moved r ∷ []) ≡ some made)
        × Steady (length (X.apply d base)) made
  unfolding map_selections
  Made-Steady s h m way = (
    m.made,
    m.returns,
    record {
      valid = m.valid;
      within = m.kept (inside (length (X.apply d base))) (All-two s.regions h);
      one_way = way;
    },
  )

  moved-Steady :
      (s : Selection)
      → Valid s
      → InDocument (length base) s
      → OneWay s
      → (made : Selection) × (map_selections s (λ r. moved r ∷ []) ≡ some made)
        × Steady (length (X.apply d base)) made
  moved-Steady s v h (inl w) =
      let both = All-both forwards s.regions h w in
      let m = map_selections-Maps forwards-Maps s v both in
      Made-Steady s h m (
        inl (
          m.kept forwards (
            All-moved (λ r. Within (length base) r × Is forwards r) (Is forwards)
              (λ r b. shifted_mono r.tail r.caret b.1 b.0.0) s.regions both)))
  moved-Steady s v h (inr w) =
      let both = All-both backwards s.regions h w in
      let m = map_selections-Maps backwards-Maps s v both in
      Made-Steady s h m (
        inr (
          m.kept backwards (
            All-moved (λ r. Within (length base) r × Is backwards r) (Is backwards)
              (λ r b. shifted_mono r.caret r.tail b.1 b.0.1) s.regions both)))

  -- For a selection that is valid, within the document and of which all regions run one way,
  -- `apply_delta` of a delta for this document returns a selection that is so for the edited
  -- document, by the documented laws of deltas.
  pub apply_delta-Shifted :
      (s : Selection)
      → Steady (length base) s
      → Shifted X s d (length base) (length (X.apply d base))
  unfolding Shift.apply_delta
  apply_delta-Shifted s st = elim (Bool-cases (X.new_document_len d == 0)) [
    | inl e ↦ record {
      made = clear s;
      returns = rw e refl;
      steady = record {
        valid = record { sorted = (tt, tt); main_at = (refl, tt) };
        within = ((omega arith, omega arith), tt);
        one_way = inl (omega arith, tt);
      };
    }
    | inr e ↦
        let (made, returns, steady) = moved-Steady s st.valid st.within st.one_way in
        record { made = made; returns = rw e returns; steady = steady }
  ]
