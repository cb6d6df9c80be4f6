-- ===== src/Tests/Matches.antt =====
-- src/modes/search.rs at a concrete pattern, with a search that tries each offset in turn.
use teehee.Common.{
  ℕ, zero, suc, ◌<◌, ◌≡◌, refl, ap, true, false, Bool, Bool-cases, inl, inr, Option, none, some,
  List, [], ◌∷◌, length, take, arith, ◌>>=◌, if◌then◌else◌, ◌==◌,
}
use teehee.Rope.{Rope}
use teehee.Rope.Model.{model}
use teehee.Buffer.{Buffer, from_data_and_path}
use teehee.Dirty.{Interval}
use teehee.Modes.{literal}
use teehee.Modes.Pattern.{Matchers, as_basic_slice, map_selections_to_matches}
use teehee.Modes.Pattern.Finds.{Occurs, FindLaws, AllFind, map_selections_to_matches-AllFind}
use teehee.Tests.{two_regions, document}

abbrev buffer : Buffer model
buffer = record (from_data_and_path model document none) { selection = two_regions }

starts : List ℕ → Rope → Bool
starts [] text = true
starts (a ∷ needle) [] = false
starts (a ∷ needle) (b ∷ text) = if a == b then starts needle text else false

later : Option ℕ → Option ℕ
later o = o >>= λ i. some (suc i)

pub find : List ℕ → Rope → Option ℕ
unfolding starts later
find needle [] = if starts needle [] then some 0 else none
find needle (b ∷ text) =
    let rest = later (find needle text) in if starts needle (b ∷ text) then some 0 else rest

starts-Occurs : (needle : List ℕ) (text : Rope) → starts needle text ≡ true → Occurs needle text 0
unfolding starts
starts-Occurs [] text h = record { within = omega arith; same = refl }
starts-Occurs (a ∷ needle) [] h = cc
starts-Occurs (a ∷ needle) (b ∷ text) h = elim (Bool-cases (a == b)) [
  | inl e ↦
      let same : a ≡ b = ground arith in
      let o = starts-Occurs needle text (ground arith) in
      record { within = omega (arith, o.within); same = rw (same, o.same) refl }
  | inr e ↦ absurd (ground arith)
]

not_starts : (needle : List ℕ) (text : Rope) → Occurs needle text 0 → starts needle text ≡ true
unfolding starts
not_starts [] text o = refl
not_starts (a ∷ needle) [] o = absurd (omega (arith, o.within))
not_starts (a ∷ needle) (b ∷ text) o =
    let same : b ≡ a = cc in
    let rest : take (length needle) text ≡ needle = ap tail o.same in
    let inner = not_starts needle text (record { within = omega (arith, o.within); same = rest }) in
    ground arith
  where
    tail : List ℕ → List ℕ
    tail [] = []
    tail (x ∷ xs) = xs

module _ (needle : List ℕ) (b : ℕ) (text : Rope) (j : ℕ) where
  Occurs-later : Occurs needle text j → Occurs needle (b ∷ text) (suc j)
  Occurs-later o = record { within = omega (arith, o.within); same = o.same }

  earlier-Occurs : Occurs needle (b ∷ text) (suc j) → Occurs needle text j
  earlier-Occurs o = record { within = omega (arith, o.within); same = o.same }

  Occurs-none : starts needle (b ∷ text) ≡ false → ¬ Occurs needle (b ∷ text) 0
  Occurs-none h o = let e = not_starts needle (b ∷ text) o in cc

-- The first occurrence, or that there is none.
abbrev Found : List ℕ → Rope → Option ℕ → Type 0
Found needle text (some i) = Occurs needle text i × ((j : ℕ) → j < i → ¬ Occurs needle text j)
Found needle text none = (j : ℕ) → ¬ Occurs needle text j

later-Found :
    (needle : List ℕ) (b : ℕ) (text : Rope) (o : Option ℕ)
    → starts needle (b ∷ text) ≡ false
    → Found needle text o
    → Found needle (b ∷ text) (later o)
unfolding later
later-Found needle b text none h f = none_there
  where
    none_there : (j : ℕ) → ¬ Occurs needle (b ∷ text) j
    none_there zero o = Occurs-none needle b text 0 h o
    none_there (suc j) o = f j (earlier-Occurs needle b text j o)
later-Found needle b text (some i) h f = (Occurs-later needle b text i f.0, before)
  where
    before : (j : ℕ) → j < suc i → ¬ Occurs needle (b ∷ text) j
    before zero k o = Occurs-none needle b text 0 h o
    before (suc j) k o = f.1 j (omega arith) (earlier-Occurs needle b text j o)

never : (needle : List ℕ) (j : ℕ) → starts needle [] ≡ false → ¬ Occurs needle [] j
unfolding starts
never [] j h o = cc
never (a ∷ needle) j h o = absurd (omega (arith, o.within))

find-Found : (needle : List ℕ) (text : Rope) → Found needle text (find needle text)
unfolding find
find-Found needle [] = elim (Bool-cases (starts needle [])) [
  | inl e ↦ rw e (starts-Occurs needle [] e, λ j k o. absurd (omega arith))
  | inr e ↦ rw e (λ j o. never needle j e o)
]
find-Found needle (b ∷ text) = elim (Bool-cases (starts needle (b ∷ text))) [
  | inl e ↦ rw e (starts-Occurs needle (b ∷ text) e, λ j k o. absurd (omega arith))
  | inr e ↦ rw e (later-Found needle b text (find needle text) e (find-Found needle text))
]

abbrev pub matchers : Matchers
matchers = record { find = find; find_iter = λ expr text. [] }

matchers-FindLaws : FindLaws matchers
matchers-FindLaws = record {
  found = λ needle text i e. (rw e at (find-Found needle text)).0;
  first = λ needle text i j e k. (rw e at (find-Found needle text)).1 j k;
  nowhere = λ needle text j e. (rw e at (find-Found needle text)) j;
}

-- The byte 2, in bytes 1 to 3 and in byte 5.
map_selections_to_matches-AllFind_example :
    (found : List (List Interval)) × (map_selections_to_matches matchers (literal 2 ∷ []) buffer
      ≡ some found)
    × AllFind (2 ∷ []) document two_regions.regions found
unfolding as_basic_slice
map_selections_to_matches-AllFind_example =
    map_selections_to_matches-AllFind matchers-FindLaws (2 ∷ []) (omega arith) (literal 2 ∷ [])
      buffer refl
