-- ===== src/HexView/Marks/Shades.antt =====
-- The backgrounds that the styles of the visible bytes lead to, against the selection.
use teehee.Common.{
  ℕ, ◌%◌, ◌≡◌, refl, Bool, true, ◌&&◌, Option, none, some, List, [], ◌∷◌, leb, ◌==◌, if◌then◌else◌,
  inl, inr, Bool-cases,
}
use teehee.Region
use teehee.Region.{SelRegion}
use teehee.HexView.Style.{Color, PrioritizedStyle, StylingCommand, rgb}
use teehee.HexView.Marks.{selection_style, caret_style}

-- The background after a style, which may leave it.
abbrev pub over : Option PrioritizedStyle → Color → Color
over none c = c
over (some p) c = elim p.style.background_color [ none ↦ c | some b ↦ b ]

-- The backgrounds of the two digits of each byte, where each command stays in force until the next.
abbrev pub backgrounds : Color → List StylingCommand → List (Color × Color)
backgrounds c [] = []
backgrounds c (cmd ∷ rest) =
    let first = over cmd.start c in
    let second = over cmd.mid first in (first, second) ∷ backgrounds (over cmd.end second) rest

abbrev pub selection_color : SelRegion → Color
selection_color r = if r.main then rgb 110 97 16 else Color.dark_grey

abbrev pub caret_color : SelRegion → Color
caret_color r = if r.main then rgb 107 108 128 else Color.dark_grey

-- With a half cursor, the first digit at a caret is not marked.
abbrev pub region_shade : Bool → SelRegion → ℕ → Color × Color
region_shade half r i =
    if r.caret == i
    then (if half then selection_color r else caret_color r, caret_color r)
    else (selection_color r, selection_color r)

-- The two digits of a byte, for the regions of a selection.
abbrev pub shade : Bool → List SelRegion → ℕ → Color × Color
shade half [] i = (Color.reset, Color.reset)
shade half (r ∷ rs) i =
    let rest = shade half rs i in
    if leb (Region.min r) i && leb i (Region.max r) then region_shade half r i else rest

pub over-selection_style :
    (r : SelRegion) (c : Color) → over (some (selection_style r)) c ≡ selection_color r
over-selection_style r c = elim (Bool-cases r.main) [ inl e ↦ rw e refl | inr e ↦ rw e refl ]

pub over-caret_style : (r : SelRegion) (c : Color) → over (some (caret_style r)) c ≡ caret_color r
over-caret_style r c = elim (Bool-cases r.main) [ inl e ↦ rw e refl | inr e ↦ rw e refl ]

abbrev pub Aligned : ℕ → ℕ → Type 0
Aligned line i = (i % line == 0) ≡ true
