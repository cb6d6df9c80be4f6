-- ===== src/HexView/Marks/Lined.antt =====
-- The styles at the starts and the ends of the lines.
use teehee.Common.{
  ℕ, suc, ◌+◌, ◌%◌, ◌≡◌, refl, ap, Bool, false, Option, none, some, List, ◌∷◌, ◌==◌, if◌then◌else◌,
  inl, inr, ◌⊎◌, Bool-cases, Option-cases, arith,
}
use teehee.HexView.Style.{Color, PrioritizedStyle, StylingCommand, with_start_style, with_end_style}
use teehee.HexView.Marks.{default_style, mark_line}
use teehee.HexView.Marks.Shades.{over, Aligned}

module _ (half : Bool) (line : ℕ) where
  -- What the line adds: a background where one has to be restored, and the default behind its end.
  pub record Lined (i : ℕ) (cmd : StylingCommand) (c under : Color) (result : Option StylingCommand)
      : Type 0 where
    pub cmd' : StylingCommand
    pub returns : result ≡ some cmd'
    pub start : over cmd'.start c ≡ over cmd.start under
    pub mid : cmd'.mid ≡ cmd.mid
    pub end : (cmd'.end ≡ cmd.end) ⊎ Aligned line (suc i)

  mark_line-opens :
      (i : ℕ) (s : PrioritizedStyle) (stack : List PrioritizedStyle) (cmd : StylingCommand)
      → cmd.start ≡ none
      → Aligned line i
      → mark_line half line i (s ∷ stack) cmd ≡ some (with_start_style cmd s)
  unfolding mark_line
  mark_line-opens i s stack cmd n a = rw (a, n) refl

  mark_line-keeps :
      (i : ℕ) (s : PrioritizedStyle) (stack : List PrioritizedStyle) (cmd : StylingCommand)
      → ((i % line == 0) ≡ false) ⊎ ((p : PrioritizedStyle) × (cmd.start ≡ some p))
      → mark_line half line i (s ∷ stack) cmd
        ≡ some (if (i + 1) % line == 0 then with_end_style cmd default_style else cmd)
  unfolding mark_line
  mark_line-keeps i s stack cmd (inl a) = rw a refl
  mark_line-keeps i s stack cmd (inr (p, n)) = elim (Bool-cases (i % line == 0)) [
    | inl a ↦ rw (a, n) refl
    | inr a ↦ rw (a, n) refl
  ]

  kept-Lined :
      (i : ℕ) (cmd : StylingCommand) (c under : Color)
      → over cmd.start c ≡ over cmd.start under
      → Lined i cmd c under
          (some (if (i + 1) % line == 0 then with_end_style cmd default_style else cmd))
  kept-Lined i cmd c under h = elim (Bool-cases ((i + 1) % line == 0)) [
    | inl e ↦
        let next : i + 1 ≡ suc i = omega arith in
        rw e (record { cmd' = _; returns = refl; start = h; mid = refl; end = inr (rw next at e) })
    | inr e ↦ rw e (record { cmd' = cmd; returns = refl; start = h; mid = refl; end = inl refl })
  ]

  unstarted-Lined :
      (i : ℕ) (s : PrioritizedStyle) (stack : List PrioritizedStyle) (cmd : StylingCommand)
      (c under : Color)
      → ((d : Color) → over (some s) d ≡ under)
      → cmd.start ≡ none
      → (c ≡ under) ⊎ Aligned line i
      → Lined i cmd c under (mark_line half line i (s ∷ stack) cmd)
  unstarted-Lined i s stack cmd c under k n h = elim (Bool-cases (i % line == 0)) [
    | inl a ↦
        rw (mark_line-opens i s stack cmd n a)
          (record { cmd' = _; returns = refl; start = rw n (k c); mid = refl; end = inl refl })
    | inr a ↦ elim h [
      | inl e ↦
          rw (mark_line-keeps i s stack cmd (inl a))
            (kept-Lined i cmd c under (ap (over cmd.start) e))
      | inr b ↦ absurd cc
    ]
  ]

  -- On the style on the top of the stack.
  pub mark_line-Lined :
      (i : ℕ) (s : PrioritizedStyle) (stack : List PrioritizedStyle) (cmd : StylingCommand)
      (c under : Color)
      → ((d : Color) → over (some s) d ≡ under)
      → ((cmd.start ≡ none) × ((c ≡ under) ⊎ Aligned line i))
        ⊎ ((d d' : Color) → over cmd.start d ≡ over cmd.start d')
      → Lined i cmd c under (mark_line half line i (s ∷ stack) cmd)
  mark_line-Lined i s stack cmd c under k (inl (n, h)) = unstarted-Lined i s stack cmd c under k n h
  mark_line-Lined i s stack cmd c under k (inr f) = elim (Option-cases cmd.start) [
    | inl n ↦ unstarted-Lined i s stack cmd c under k n (inl (rw n at (f c under)))
    | inr (p, n) ↦
        rw (mark_line-keeps i s stack cmd (inr (p, n))) (kept-Lined i cmd c under (f c under))
  ]
