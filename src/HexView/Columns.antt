-- ===== src/HexView/Columns.antt =====
-- How many columns of the terminal queued texts take: one for each character.
use teehee.Common.{ℕ, ◌+◌, ◌≡◌, List, [], ◌∷◌, ◌++◌, length, arith}
use teehee.HexView.Style.{Queued, print, print_styled_content}

abbrev pub columns_of : Queued → ℕ
columns_of (print text) = length text
columns_of (print_styled_content style text) = length text
columns_of q = 0

abbrev pub columns : List Queued → ℕ
columns [] = 0
columns (q ∷ qs) = columns_of q + columns qs

pub columns-append : (ps qs : List Queued) → columns (ps ++ qs) ≡ columns ps + columns qs
columns-append [] qs = omega arith
columns-append (p ∷ ps) qs = omega (arith, columns-append ps qs)
