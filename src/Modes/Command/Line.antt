-- ===== src/Modes/Command/Line.antt =====
-- Typing on the command line, as long as it is ASCII: there a position counts characters.
use teehee.Common.{
  ℕ, zero, suc, ◌+◌, ◌-◌, ◌<◌, ◌≤◌, ◌≡◌, refl, true, false, length-take, length-drop, length-append,
  drop-cons, take-append, drop-append, take-append-drop, none, some, List, [], ◌∷◌, ◌++◌, leb,
  length, take, drop, All, arith,
}
use teehee.Modes.Chars.{encode_utf8}
use teehee.Modes.Text.{len_utf8, text_len, split_at, remove, insert}

abbrev pub Ascii : List ℕ → Type 0
Ascii = All (λ c. c < 128)

len_utf8-ascii : (c : ℕ) → c < 128 → len_utf8 c ≡ 1
unfolding len_utf8 encode_utf8
len_utf8-ascii c h = ground arith

pub text_len-Ascii : (s : List ℕ) → Ascii s → text_len s ≡ length s
unfolding text_len
text_len-Ascii [] h = refl
text_len-Ascii (c ∷ s) h = omega (arith, len_utf8-ascii c h.0, text_len-Ascii s h.1)

pub split_at-Ascii :
    (n : ℕ) (s : List ℕ) → Ascii s → n ≤ length s → split_at n s ≡ some (take n s, drop n s)
unfolding split_at
split_at-Ascii zero s h k = refl
split_at-Ascii (suc n) [] h k = absurd (omega arith)
split_at-Ascii (suc n) (c ∷ s) h k =
    let one = len_utf8-ascii c h.0 in
    let n' : suc n - 1 ≡ n = omega arith in
    let fits : leb 1 (suc n) ≡ true = ground arith in
    rw (one, n', fits, split_at-Ascii n s h.1 (omega arith)) refl

pub Ascii-take : (n : ℕ) (s : List ℕ) → Ascii s → Ascii (take n s)
Ascii-take zero s h = tt
Ascii-take (suc n) [] h = tt
Ascii-take (suc n) (c ∷ s) h = (h.0, Ascii-take n s h.1)

Ascii-drop : (n : ℕ) (s : List ℕ) → Ascii s → Ascii (drop n s)
Ascii-drop zero s h = h
Ascii-drop (suc n) [] h = tt
Ascii-drop (suc n) (c ∷ s) h = Ascii-drop n s h.1

pub Ascii-append : (s t : List ℕ) → Ascii s → Ascii t → Ascii (s ++ t)
Ascii-append [] t h k = k
Ascii-append (c ∷ s) t h k = (h.0, Ascii-append s t h.1 k)

-- An ASCII text with the cursor in it.
pub record IsLine (text : List ℕ) (cursor : ℕ) : Type 0 where
  pub ascii : Ascii text
  pub within : cursor ≤ length text

pub insert-IsLine :
    (text : List ℕ) (cursor ch : ℕ)
    → IsLine text cursor
    → insert text cursor ch ≡ some (take cursor text ++ (ch ∷ drop cursor text))
unfolding insert
insert-IsLine text cursor ch l = rw (split_at-Ascii cursor text l.ascii l.within) refl

inserted-IsLine :
    (text : List ℕ) (cursor ch : ℕ)
    → ch < 128
    → IsLine text cursor
    → IsLine (take cursor text ++ (ch ∷ drop cursor text)) (cursor + 1)
inserted-IsLine text cursor ch h l = record {
  ascii =
      Ascii-append (take cursor text) (ch ∷ drop cursor text) (Ascii-take cursor text l.ascii)
        (h, Ascii-drop cursor text l.ascii);
  within = omega (
    arith,
    length-append (take cursor text) (ch ∷ drop cursor text),
    length-take cursor text l.within,
    l.within,
  );
}

pub remove-Ascii :
    (text : List ℕ) (cursor : ℕ)
    → Ascii text
    → cursor < length text
    → (text' : List ℕ) × (remove text cursor ≡ some text')
      × Ascii text'
      × (suc (length text') ≡ length text)
unfolding remove
remove-Ascii text cursor h k =
    let (c, e) = drop-cons cursor text k in
    (
      take cursor text ++ drop (suc cursor) text,
      rw (split_at-Ascii cursor text h (omega arith), e) refl,
      Ascii-append (take cursor text) (drop (suc cursor) text) (Ascii-take cursor text h)
          (Ascii-drop (suc cursor) text h),
      omega (
        arith,
        length-append (take cursor text) (drop (suc cursor) text),
        length-take cursor text (omega arith),
        length-drop (suc cursor) text,
      ),
    )

pub remove-inserted :
    (text : List ℕ) (cursor ch : ℕ)
    → ch < 128
    → IsLine text cursor
    → remove (take cursor text ++ (ch ∷ drop cursor text)) cursor ≡ some text
unfolding remove
remove-inserted text cursor ch h l =
    let line = inserted-IsLine text cursor ch h l in
    let n = length-take cursor text l.within in
    rw
      (
        split_at-Ascii cursor (take cursor text ++ (ch ∷ drop cursor text)) line.ascii
            (omega (arith, line.within)),
        take-append cursor (take cursor text) (ch ∷ drop cursor text) n,
        drop-append cursor (take cursor text) (ch ∷ drop cursor text) n,
        take-append-drop cursor text,
      )
      refl

len_utf8-wide : (ch : ℕ) → 128 ≤ ch → 2 ≤ len_utf8 ch
unfolding len_utf8 encode_utf8
len_utf8-wide ch h = ground arith

pub split_at_inside :
    (xs ys : List ℕ) (ch : ℕ)
    → Ascii xs
    → 128 ≤ ch
    → split_at (suc (length xs)) (xs ++ (ch ∷ ys)) ≡ none
unfolding split_at
split_at_inside [] ys ch a h =
    let wide : leb (len_utf8 ch) 1 ≡ false = ground (arith, len_utf8-wide ch h) in rw wide refl
split_at_inside (x ∷ xs) ys ch a h =
    let one = len_utf8-ascii x a.0 in
    let n : suc (suc (length xs)) - 1 ≡ suc (length xs) = omega arith in
    let fits : leb 1 (suc (suc (length xs))) ≡ true = ground arith in
    rw (one, n, fits, split_at_inside xs ys ch a.1 h) refl
