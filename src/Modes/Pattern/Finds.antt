-- ===== src/Modes/Pattern/Finds.antt =====
-- The search for a pattern of bytes: every region's matches are found, from the left and apart.
use teehee.Common.{
  wrapping_add, drop-drop, ℕ, zero, suc, ◌+◌, ◌-◌, ◌<◌, ◌≤◌, ◌≡◌, refl, sym, ap, ◌∙◌, none, some,
  List, [], ◌∷◌, inl, inr, Option-cases, length, take, drop, arith, length-drop,
}
use teehee.Region
use teehee.Region.{SelRegion}
use teehee.Rope.{Rope, XiRope}
use teehee.Buffer.{Buffer, slice}
use teehee.Dirty.{Interval}
use teehee.Modes.{PatternPiece}
use teehee.Modes.Pattern.{
  Matchers, find_loop, find_all, selected, as_basic_slice, map_selections_to_matches,
}

-- `needle` stands in `text` at an offset.
pub record Occurs (needle : List ℕ) (text : Rope) (i : ℕ) : Type 0 where
  pub within : i + length needle ≤ length text
  pub same : take (length needle) (drop i text) ≡ needle

-- `ByteSubstring::find`: "Find the first index of the substring, or None if it is not found."
pub record FindLaws (m : Matchers) : Type 0 where
  pub found :
      (needle : List ℕ) (text : Rope) (i : ℕ) → m.find needle text ≡ some i → Occurs needle text i
  pub first :
      (needle : List ℕ) (text : Rope) (i j : ℕ)
      → m.find needle text ≡ some i
      → j < i
      → ¬ Occurs needle text j
  pub nowhere :
      (needle : List ℕ) (text : Rope) (j : ℕ) → m.find needle text ≡ none → ¬ Occurs needle text j

-- The leftmost matches from an offset on, none of which overlap, in a text that stands at `base`.
pub data Finds (needle : List ℕ) (base : ℕ) (text : Rope) : ℕ → List Interval → Type 0 where
  no_more :
      {from : ℕ} → ((j : ℕ) → from ≤ j → ¬ Occurs needle text j) → Finds needle base text from []
  match :
      {from i : ℕ} {rest : List Interval}
      → from ≤ i
      → Occurs needle text i
      → ((j : ℕ) → from ≤ j → j < i → ¬ Occurs needle text j)
      → Finds needle base text (i + length needle) rest
      → Finds needle base text from
          (record { start = base + i; end = base + i + length needle } ∷ rest)

module _ (needle : List ℕ) (text : Rope) (from : ℕ) (h : from ≤ length text) where
  Occurs-drop : (i : ℕ) → Occurs needle (drop from text) i → Occurs needle text (from + i)
  Occurs-drop i o = record {
    within = omega (arith, o.within, length-drop from text);
    same =
        ap (take (length needle)) (sym (drop-drop i from (from + i) text (omega arith))) ∙ o.same;
  }

  drop-Occurs :
      (j : ℕ) → from ≤ j → Occurs needle text j → Occurs needle (drop from text) (j - from)
  drop-Occurs j k o = record {
    within = omega (arith, o.within, length-drop from text);
    same = ap (take (length needle)) (drop-drop (j - from) from j text (omega arith)) ∙ o.same;
  }

module _ {m : Matchers} (laws : FindLaws m) (needle : List ℕ) (some_byte : 1 ≤ length needle)
    (base : ℕ) (text : Rope) where
  -- A round takes at least one byte, so that fuel for each byte that is left is enough.
  find_loop-Finds :
      (fuel from : ℕ)
      → from ≤ length text
      → length text - from < fuel
      → (ranges : List Interval) × (find_loop m fuel needle (base + from) text from ≡ some ranges)
        × Finds needle base text from ranges
  unfolding find_loop
  find_loop-Finds zero from h k = absurd (omega arith)
  find_loop-Finds (suc fuel) from h k = elim (Option-cases (m.find needle (drop from text))) [
    | inl e ↦ (
      [],
      rw (e, find_loop) refl,
      no_more (λ j le o.
          laws.nowhere needle (drop from text) (j - from) e
            (drop-Occurs needle text from h j le o)),
    )
    | inr (i, e) ↦
        let o = Occurs-drop needle text from h i (laws.found needle (drop from text) i e) in
        let here : base + from + i ≡ base + (from + i) = omega arith in
        let next : base + (from + i) + length needle ≡ base + (from + i + length needle) =
          omega arith in
        let (rest, r, f) =
          find_loop-Finds fuel (from + i + length needle) (o.within) (omega (arith, o.within)) in
        (
          record { start = base + (from + i); end = base + (from + i) + length needle } ∷ rest,
          rw
              (
                find_loop,
                e,
                here,
                ap (λ b. find_loop m fuel needle b text (from + i + length needle)) next ∙ r,
              )
              refl,
          match (omega arith) o
              (λ j le lt w.
                laws.first needle (drop from text) i (j - from) e (omega arith)
                  (drop-Occurs needle text from h j le w))
              f,
        )
  ]

  -- `find_all` starts each region with fuel for all its bytes.
  find_loop-starts :
      (ranges : List Interval) × (find_loop m (suc (length text)) needle base text 0 ≡ some ranges)
      × Finds needle base text 0 ranges
  find_loop-starts =
      let zero_more : base + 0 ≡ base = omega arith in
      rw zero_more at (find_loop-Finds (suc (length text)) 0 (omega arith) (omega arith))

-- The bytes of a region.
abbrev pub region_text : Rope → SelRegion → Rope
region_text contents r = slice contents (Region.min r) (wrapping_add (Region.max r) 1)

-- For each region, its matches.
abbrev pub AllFind : List ℕ → Rope → List SelRegion → List (List Interval) → Type 0
AllFind needle contents [] [] = Unit
AllFind needle contents [] (x ∷ xs) = ⊥
AllFind needle contents (r ∷ rs) [] = ⊥
AllFind needle contents (r ∷ rs) (ranges ∷ rest) =
    Finds needle (Region.min r) (region_text contents r) 0 ranges × AllFind needle contents rs rest

module _ {m : Matchers} (laws : FindLaws m) (needle : List ℕ) (some_byte : 1 ≤ length needle) where
  find_all-AllFind :
      (contents : Rope) (rs : List SelRegion)
      → (found : List (List Interval)) × (find_all m needle contents rs ≡ some found)
        × AllFind needle contents rs found
  unfolding find_all selected
  find_all-AllFind contents [] = ([], refl, tt)
  find_all-AllFind contents (r ∷ rs) =
      let (ranges, e, f) =
        find_loop-starts laws needle some_byte (Region.min r) (region_text contents r) in
      let (rest, e', f') = find_all-AllFind contents rs in (ranges ∷ rest, rw (e, e') refl, (f, f'))

  -- The search for a pattern of one byte or more, without wildcards, ends: for each region it returns
  -- the occurrences of the bytes in the region's text from the left, each the first that does not
  -- overlap those before it, with no occurrence left behind the last. `find` finds the first
  -- occurrence, as documented.
  pub map_selections_to_matches-AllFind :
      {X : XiRope} (pieces : List PatternPiece) (b : Buffer X)
      → as_basic_slice pieces ≡ some needle
      → (found : List (List Interval)) × (map_selections_to_matches m pieces b ≡ some found)
        × AllFind needle b.contents b.selection.regions found
  unfolding map_selections_to_matches
  map_selections_to_matches-AllFind pieces b e =
      let (found, e', f) = find_all-AllFind b.contents b.selection.regions in
      (found, rw (map_selections_to_matches, e, e') refl, f)
