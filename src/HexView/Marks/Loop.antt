-- ===== src/HexView/Marks/Loop.antt =====
-- The loop over the visible bytes: what is in force behind each of them.
use teehee.Common.{
  ℕ, zero, suc, ◌+◌, ◌<◌, ◌≤◌, ◌≡◌, refl, ap, sym, ◌∙◌, Bool, true, false, Option, some, List, [],
  ◌∷◌, map, ltb, leb, ◌==◌, if◌then◌else◌, ◌>>=◌, All, inl, inr, ◌⊎◌, Bool-cases, ltb→lt, le→ltb,
  arith,
}
use teehee.Region
use teehee.Region.{SelRegion}
use teehee.Selection.Valid.{Sorted}
use teehee.HexView.{count_from}
use teehee.HexView.Style.{Color, PrioritizedStyle, StylingCommand, unstyled}
use teehee.HexView.Marks.{
  default_style, selection_style, initial_stack, mark_min, mark_region, mark_line, mark_byte,
  mark_bytes,
}
use teehee.HexView.Marks.Shades.{
  over, over-selection_style, backgrounds, selection_color, region_shade, shade, Aligned,
}
use teehee.HexView.Marks.Opened.{Opened, before, here, open_stack, mark_region-Marked}
use teehee.HexView.Marks.Lined.{mark_line-Lined}

-- The background in front of a byte: that of a region that has begun.
abbrev pub base : ℕ → List SelRegion → Color
base i [] = Color.reset
base i (r ∷ rs) = if ltb (Region.min r) i then selection_color r else Color.reset

-- No region that is left has ended.
abbrev pub Ahead : ℕ → List SelRegion → Type 0
Ahead i [] = Unit
Ahead i (r ∷ rs) = i ≤ Region.max r

abbrev Behind : ℕ → List SelRegion → Type 0
Behind i = All (λ r. i < Region.min r)

Behind-base : (i : ℕ) (rs : List SelRegion) → Behind i rs → base (suc i) rs ≡ Color.reset
Behind-base i [] h = refl
Behind-base i (r ∷ rs) h = rw (le→ltb (Region.min r) (suc i) (omega (arith, h.0))) refl

Behind-initial_stack :
    (i : ℕ) (rs : List SelRegion) → Behind i rs → initial_stack (suc i) rs ≡ default_style ∷ []
Behind-initial_stack i [] h = refl
Behind-initial_stack i (r ∷ rs) h = rw (le→ltb (Region.min r) (suc i) (omega (arith, h.0))) refl

Behind-Ahead : (i : ℕ) (rs : List SelRegion) → Behind i rs → Ahead (suc i) rs
Behind-Ahead i [] h = tt
Behind-Ahead i (r ∷ rs) h = omega (arith, h.0)

Behind-trans : (i j : ℕ) (rs : List SelRegion) → i ≤ j → Behind j rs → Behind i rs
Behind-trans i j [] k h = tt
Behind-trans i j (r ∷ rs) k h = (omega (arith, h.0), Behind-trans i j rs k h.1)

pub map-count_from :
    (f g : ℕ → Color × Color) (n start : ℕ)
    → ((j : ℕ) → start ≤ j → j < start + n → f j ≡ g j)
    → map f (count_from start n) ≡ map g (count_from start n)
map-count_from f g zero start h = refl
map-count_from f g (suc n) start h =
    let rest = map-count_from f g n (suc start) (λ j k l. h j (omega arith) (omega arith)) in
    rw (h start (omega arith) (omega arith), rest) refl

module _ (half : Bool) where
  Behind-shade :
      (i : ℕ) (rs : List SelRegion) → Behind i rs → shade half rs i ≡ (Color.reset, Color.reset)
  Behind-shade i [] h = refl
  Behind-shade i (r ∷ rs) h =
      let out : leb (Region.min r) i ≡ false = ground (arith, h.0) in rw out (Behind-shade i rs h.1)

  shade-within :
      (i : ℕ) (r : SelRegion) (rs : List SelRegion)
      → Region.min r ≤ i
      → i ≤ Region.max r
      → shade half (r ∷ rs) i ≡ region_shade half r i
  shade-within i r rs h k =
      let starts : leb (Region.min r) i ≡ true = ground arith in
      let ends : leb i (Region.max r) ≡ true = ground arith in rw (starts, ends) refl

  shade-past :
      (i : ℕ) (r : SelRegion) (rs : List SelRegion)
      → Region.max r < i
      → shade half (r ∷ rs) i ≡ shade half rs i
  shade-past i r rs h =
      let ends : leb i (Region.max r) ≡ false = ground arith in
      elim (Bool-cases (leb (Region.min r) i)) [ inl e ↦ rw (e, ends) refl | inr e ↦ rw e refl ]

  pub record Stepped (line i : ℕ) (regions : List SelRegion) (c : Color)
      (result : Option (StylingCommand × List SelRegion × List PrioritizedStyle)) : Type 0 where
    pub cmd : StylingCommand
    pub rest : List SelRegion
    pub returns : result ≡ some (cmd, rest, initial_stack (suc i) rest)
    pub first_shade : over cmd.start c ≡ (shade half regions i).0
    pub second_shade : over cmd.mid (shade half regions i).0 ≡ (shade half regions i).1
    pub after_shade :
        (over cmd.end (shade half regions i).1 ≡ base (suc i) rest) ⊎ Aligned line (suc i)
    pub sorted : Sorted rest
    pub ahead : Ahead (suc i) rest
    pub same : (j : ℕ) → i < j → shade half rest j ≡ shade half regions j

  module _ (line : ℕ) where
    -- Outside all regions.
    outside-Stepped :
        (i : ℕ) (rs : List SelRegion) (c : Color)
        → Behind i rs
        → Sorted rs
        → (c ≡ Color.reset) ⊎ Aligned line i
        → Stepped line i rs c (
            mark_line half line i (default_style ∷ []) unstyled >>= λ cmd.
            some (cmd, rs, default_style ∷ []))
    outside-Stepped i rs c b s h =
        let l =
          mark_line-Lined half line i default_style [] unstyled c Color.reset (λ d. refl)
            (inl (refl, h)) in
        let out = Behind-shade i rs b in
        record {
          cmd = l.cmd';
          rest = rs;
          returns = rw (l.returns, Behind-initial_stack i rs b) refl;
          first_shade = rw out l.start;
          second_shade = rw (out, l.mid) refl;
          after_shade = elim l.end [
            | inl e ↦ inl (rw (out, e, Behind-base i rs b) refl)
            | inr a ↦ inr a
          ];
          sorted = s;
          ahead = Behind-Ahead i rs b;
          same = λ j k. refl;
        }

    -- In a region, from its first byte to its last.
    inside-Stepped :
        (i : ℕ) (r : SelRegion) (rs : List SelRegion) (c : Color) {opened : StylingCommand}
        → Opened half line i r opened
        → Region.min r ≤ i
        → i ≤ Region.max r
        → Sorted (r ∷ rs)
        → (c ≡ base i (r ∷ rs)) ⊎ Aligned line i
        → Stepped line i (r ∷ rs) c (
            mark_region half line i r (opened, open_stack half line r) >>= λ cmd.
            mark_line half line i (open_stack half line r) cmd >>= λ cmd'. some (
              if Region.max r == i
              then (cmd', rs, default_style ∷ [])
              else (cmd', r ∷ rs, open_stack half line r)))
    inside-Stepped i r rs c {opened} o starts ends s h =
        let m = mark_region-Marked half line i r o in
        let l =
          mark_line-Lined half line i (selection_style r) (default_style ∷ []) m.cmd c
            (selection_color r) (over-selection_style r)
            (elim m.start [
              | inl (n, k) ↦ inl (n, elim h [ inl e ↦ inl (e ∙ inside k) | inr a ↦ inr a ])
              | inr f ↦ inr f
            ]) in
        let at = shade-within i r rs starts ends in
        elim (Bool-cases (Region.max r == i)) [
          | inl e ↦
              let top : Region.max r ≡ i = ground arith in
              let behind : Behind i rs = rw top at s.0 in
              record {
                cmd = l.cmd';
                rest = rs;
                returns = rw (m.returns, l.returns, e, Behind-initial_stack i rs behind) refl;
                first_shade = rw at (l.start ∙ m.first_shade);
                second_shade = rw (at, l.mid) m.second_shade;
                after_shade = elim l.end [
                  | inl q ↦ inl (rw (at, q, Behind-base i rs behind) (rw e at m.after_shade))
                  | inr a ↦ inr a
                ];
                sorted = s.1;
                ahead = Behind-Ahead i rs behind;
                same = λ j k. sym (shade-past j r rs (omega arith));
              }
          | inr e ↦
              let begun : ltb (Region.min r) (suc i) ≡ true = ground arith in
              record {
                cmd = l.cmd';
                rest = r ∷ rs;
                returns = rw (m.returns, l.returns, e, begun) refl;
                first_shade = rw at (l.start ∙ m.first_shade);
                second_shade = rw (at, l.mid) m.second_shade;
                after_shade = elim l.end [
                  | inl q ↦ inl (rw (at, q, begun) (rw e at m.after_shade))
                  | inr a ↦ inr a
                ];
                sorted = s;
                ahead = ground arith;
                same = λ j k. refl;
              }
        ]
      where
        inside : Region.min r < i → base i (r ∷ rs) ≡ selection_color r
        inside k = let b : ltb (Region.min r) i ≡ true = ground arith in rw b refl

    mark_byte-Stepped :
        (i : ℕ) (regions : List SelRegion) (c : Color)
        → Sorted regions
        → Ahead i regions
        → (c ≡ base i regions) ⊎ Aligned line i
        → Stepped line i regions c (mark_byte half line i regions (initial_stack i regions))
    unfolding mark_byte mark_min mark_region
    mark_byte-Stepped i [] c s a h = outside-Stepped i [] c tt tt h
    mark_byte-Stepped i (r ∷ rs) c s a h = elim (Bool-cases (ltb (Region.min r) i)) [
      | inl k ↦
          let away : (Region.min r == i) ≡ false = ground arith in
          rw (k, away) (inside-Stepped i r rs c (before (ltb→lt _ _ k)) (ground arith) a s h)
      | inr k ↦ elim (Bool-cases (Region.min r == i)) [
        | inl at ↦ rw (k, at) (inside-Stepped i r rs c (here (ground arith)) (ground arith) a s h)
        | inr away ↦
            let caret : (r.caret == i) ≡ false = ground arith in
            let max : (Region.max r == i) ≡ false = ground arith in
            let ahead : i < Region.min r = ground arith in
            rw (k, away, caret, max)
              (outside-Stepped i (r ∷ rs) c
                (ahead, Behind-trans i (Region.max r) rs (ground arith) s.0) s (rw k at h))
      ]
    ]

    -- From the first byte to the last.
    pub mark_bytes-shades :
        (n i : ℕ) (regions : List SelRegion) (c : Color)
        → Sorted regions
        → Ahead i regions
        → (c ≡ base i regions) ⊎ Aligned line i
        → (cmds : List StylingCommand) × (mark_bytes half line i n regions (initial_stack i regions)
            ≡ some cmds)
          × (backgrounds c cmds ≡ map (shade half regions) (count_from i n))
    unfolding mark_bytes
    mark_bytes-shades zero i regions c s a h = ([], refl, refl)
    mark_bytes-shades (suc n) i regions c s a h =
        let st = mark_byte-Stepped i regions c s a h in
        let (rest, e, b) =
          mark_bytes-shades n (suc i) st.rest (over st.cmd.end (shade half regions i).1) st.sorted
            st.ahead st.after_shade in
        (
          st.cmd ∷ rest,
          rw (mark_bytes, st.returns, e) refl,
          rw (st.first_shade, st.second_shade, b)
              (ap ((shade half regions i) ∷◌) (
                map-count_from (shade half st.rest) (shade half regions) n (suc i)
                  (λ j k l. st.same j k))),
        )
