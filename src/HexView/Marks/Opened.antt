-- ===== src/HexView/Marks/Opened.antt =====
-- The styles of the bytes of a region.
use teehee.Common.{
  ℕ, ◌<◌, ◌≡◌, refl, sym, ◌∙◌, Bool, true, false, Option, none, some, List, [], ◌∷◌, ◌==◌,
  if◌then◌else◌, inl, inr, ◌⊎◌, Bool-cases, arith,
}
use teehee.Region
use teehee.Region.{SelRegion}
use teehee.HexView.Style.{Color, PrioritizedStyle, StylingCommand, unstyled, with_start_style}
use teehee.HexView.Marks.{default_style, selection_style, mark_caret, mark_region}
use teehee.HexView.Marks.Shades.{
  over, over-selection_style, over-caret_style, selection_color, caret_color, region_shade,
}

module _ (half : Bool) (line : ℕ) where
  -- What a command does from the background `c`: those of the digits, and the one behind them.
  -- The command of a region that has been opened, before the line is looked at.
  pub data Opened (i : ℕ) (r : SelRegion) : StylingCommand → Type 0 where
    before : Region.min r < i → Opened i r unstyled
    here : Region.min r ≡ i → Opened i r (with_start_style unstyled (selection_style r))

  -- Behind the start of a region a command may start with no style; else it sets a background.
  abbrev pub Start : ℕ → SelRegion → StylingCommand → Type 0
  Start i r cmd =
      ((cmd.start ≡ none) × (Region.min r < i))
      ⊎ ((c d : Color) → over cmd.start c ≡ over cmd.start d)

  pub record Marked (i : ℕ) (r : SelRegion) (result : Option StylingCommand) (c : Color)
      (shades : Color × Color) (after : Color) : Type 0 where
    pub cmd : StylingCommand
    pub returns : result ≡ some cmd
    pub start : Start i r cmd
    pub first_shade : over cmd.start c ≡ shades.0
    pub second_shade : over cmd.mid shades.0 ≡ shades.1
    pub after_shade : over cmd.end shades.1 ≡ after

  abbrev pub open_stack : SelRegion → List PrioritizedStyle
  open_stack r = selection_style r ∷ default_style ∷ []

  opened-start :
      (i : ℕ) (r : SelRegion) {cmd : StylingCommand}
      → Opened i r cmd
      → over cmd.start (selection_color r) ≡ selection_color r
  opened-start i r (before h) = refl
  opened-start i r (here h) = over-selection_style r (selection_color r)

  opened-Start : (i : ℕ) (r : SelRegion) {cmd : StylingCommand} → Opened i r cmd → Start i r cmd
  opened-Start i r (before h) = inl (refl, h)
  opened-Start i r (here h) = inr (λ c d. over-selection_style r c ∙ sym (over-selection_style r d))

  opened-mid : (i : ℕ) (r : SelRegion) {cmd : StylingCommand} → Opened i r cmd → cmd.mid ≡ none
  opened-mid i r (before h) = refl
  opened-mid i r (here h) = refl

  opened-end : (i : ℕ) (r : SelRegion) {cmd : StylingCommand} → Opened i r cmd → cmd.end ≡ none
  opened-end i r (before h) = refl
  opened-end i r (here h) = refl

  -- A region with its end elsewhere, and with its end here.
  abbrev pub after_region : ℕ → SelRegion → Color
  after_region i r = if Region.max r == i then Color.reset else selection_color r

  caret_end :
      (i : ℕ) (r : SelRegion)
      → (r.caret == i) ≡ true
      → (i == Region.min r) ≡ false
      → (Region.max r == i) ≡ true
  caret_end i r at m = ground arith

  mark_region-away :
      (i : ℕ) (r : SelRegion) {cmd : StylingCommand}
      → Opened i r cmd
      → (r.caret == i) ≡ false
      → Marked i r
          (mark_region half line i r (cmd, open_stack r))
          (selection_color r)
          (region_shade half r i)
          (after_region i r)
  unfolding mark_region
  mark_region-away i r {cmd} o away = elim (Bool-cases (Region.max r == i)) [
    | inr m ↦
        rw (away, m)
          (record {
            cmd = cmd;
            returns = refl;
            start = opened-Start i r o;
            first_shade = opened-start i r o;
            second_shade = rw (opened-mid i r o) refl;
            after_shade = rw (opened-end i r o) refl;
          })
    | inl m ↦
        rw (away, m)
          (record {
            cmd = _;
            returns = refl;
            start = opened-Start i r o;
            first_shade = opened-start i r o;
            second_shade = rw (opened-mid i r o) refl;
            after_shade = refl;
          })
  ]

  mark_region-caret :
      (i : ℕ) (r : SelRegion) {cmd : StylingCommand}
      → half ≡ false
      → Opened i r cmd
      → (r.caret == i) ≡ true
      → Marked i r
          (mark_region half line i r (cmd, open_stack r))
          (selection_color r)
          (region_shade half r i)
          (after_region i r)
  unfolding mark_region mark_caret
  mark_region-caret i r {cmd} full o at = elim (Bool-cases (Region.max r == i)) [
    | inr m ↦
        rw (at, m, full)
          (record {
            cmd = _;
            returns = refl;
            start = inr (λ c d. over-caret_style r c ∙ sym (over-caret_style r d));
            first_shade = over-caret_style r (selection_color r);
            second_shade = rw (opened-mid i r o) refl;
            after_shade = over-selection_style r (caret_color r);
          })
    | inl m ↦
        rw (at, m, full)
          (record {
            cmd = _;
            returns = refl;
            start = inr (λ c d. over-caret_style r c ∙ sym (over-caret_style r d));
            first_shade = over-caret_style r (selection_color r);
            second_shade = rw (opened-mid i r o) refl;
            after_shade = refl;
          })
  ]

  mark_region-half_caret :
      (i : ℕ) (r : SelRegion) {cmd : StylingCommand}
      → half ≡ true
      → Opened i r cmd
      → (r.caret == i) ≡ true
      → Marked i r
          (mark_region half line i r (cmd, open_stack r))
          (selection_color r)
          (region_shade half r i)
          (after_region i r)
  unfolding mark_region mark_caret
  mark_region-half_caret i r {cmd} halved o at = elim (Bool-cases (i == Region.min r)) [
    | inr m ↦
        let e = caret_end i r at m in
        rw (at, m, e, halved)
          (record {
            cmd = _;
            returns = refl;
            start = inr (λ c d. over-selection_style r c ∙ sym (over-selection_style r d));
            first_shade = over-selection_style r (selection_color r);
            second_shade = over-caret_style r (selection_color r);
            after_shade = refl;
          })
    | inl m ↦ elim (Bool-cases (Region.max r == i)) [
      | inr e ↦
          rw (at, m, e, halved)
            (record {
              cmd = _;
              returns = refl;
              start = opened-Start i r o;
              first_shade = opened-start i r o;
              second_shade = over-caret_style r (selection_color r);
              after_shade = over-selection_style r (caret_color r);
            })
      | inl e ↦
          rw (at, m, e, halved)
            (record {
              cmd = _;
              returns = refl;
              start = opened-Start i r o;
              first_shade = opened-start i r o;
              second_shade = over-caret_style r (selection_color r);
              after_shade = refl;
            })
    ]
  ]

  pub mark_region-Marked :
      (i : ℕ) (r : SelRegion) {cmd : StylingCommand}
      → Opened i r cmd
      → Marked i r
          (mark_region half line i r (cmd, open_stack r))
          (selection_color r)
          (region_shade half r i)
          (after_region i r)
  mark_region-Marked i r o = elim (Bool-cases (r.caret == i)) [
    | inr away ↦ mark_region-away i r o away
    | inl at ↦ elim (Bool-cases half) [
      | inl halved ↦ mark_region-half_caret i r halved o at
      | inr full ↦ mark_region-caret i r full o at
    ]
  ]
