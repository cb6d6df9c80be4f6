-- ===== src/HexView/Prompt/Shows.antt =====
-- The prompt of the command line shows its cursor.
use Prim.Native.Nat.{min as cmp_min}
use teehee.Common.{
  ℕ, zero, suc, ap, Bool, true, false, length-drop, ◌+◌, ◌-◌, ◌≤◌, ◌<◌, ◌≡◌, refl, inl, inr, some,
  List, [], ◌∷◌, ◌==◌, Bool-cases, leb, ltb, leb→le, le→leb, ltb→lt, length, take, drop,
  length-take, wrapping_add, usize_mod, arith,
}
use teehee.Modes.Command.Line.{Ascii, Ascii-take, text_len-Ascii, split_at-Ascii}
use teehee.HexView.Style.{Color, Queued, print, print_styled_content}
use teehee.HexView.Columns.{columns}
use teehee.HexView.Prompt.{
  on, cursor_cell, usize_sub, start_between, command_start, render_command, as_number,
}

-- The column that was shown last is not behind the cursor, but for one removed character.
abbrev pub Follows : ℕ → ℕ → ℕ → Type 0
Follows len cursor last = len ≤ last → len ≤ cursor + 1

start_between-le :
    (len cursor last : ℕ)
    → cursor ≤ len
    → Follows len cursor last
    → start_between len cursor last ≤ cursor
unfolding start_between
start_between-le len cursor last h f = elim (Bool-cases (leb len last)) [
  | inl e ↦ let g = f (leb→le len last e) in rw e (ground arith)
  | inr e ↦ rw e (ground arith)
]

command_start-shows :
    (len cursor width last : ℕ)
    → cursor ≤ len
    → len < usize_mod
    → Follows len cursor last
    → (command_start len cursor width last ≤ cursor)
      × (cursor ≤ command_start len cursor width last + width)
unfolding command_start
command_start-shows len cursor width last h small f =
    let le = start_between-le len cursor last h f in
    let start : ℕ = start_between len cursor last in
    let sub : usize_sub cursor start ≡ cursor - start = omega arith in
    elim (Bool-cases (ltb width (cursor - start))) [
      | inl e ↦
          let lt = ltb→lt width (cursor - start) e in
          let back : wrapping_add start (cursor - start - width) ≡ cursor - width = omega arith in
          rw (sub, e, back) (omega arith, omega arith)
      | inr e ↦ let ge : cursor - start ≤ width = ground arith in rw (sub, e) (le, omega arith)
    ]

-- The columns for the text: one is for the colon, and one for a cursor behind the text.
abbrev pub text_width : List ℕ → ℕ → ℕ → ℕ
text_width text cursor max_width = max_width - 1 - as_number (cursor == length text)

-- The part of a list from `start` on that at most `width` elements take.
take_min {ℓ} :
    {A : Type ℓ} (xs : List A) (w e : ℕ) → e ≡ cmp_min (length xs) w → take e xs ≡ take w xs
take_min [] zero zero h = refl
take_min [] (suc w) zero h = refl
take_min [] w (suc e) h = absurd (omega arith)
take_min (x ∷ xs) zero zero h = refl
take_min (x ∷ xs) zero (suc e) h = absurd (omega arith)
take_min (x ∷ xs) (suc w) zero h = absurd (omega arith)
take_min (x ∷ xs) (suc w) (suc e) h = ap (x ∷◌) (take_min xs w e (omega arith))

drop-take_min {ℓ} :
    {A : Type ℓ} (xs : List A) (start width end : ℕ)
    → start ≤ end
    → end ≡ cmp_min (length xs) (start + width)
    → drop start (take end xs) ≡ take width (drop start xs)
drop-take_min xs zero width end h e = take_min xs width end (omega arith)
drop-take_min xs (suc start) width zero h e = absurd (omega arith)
drop-take_min [] (suc start) width (suc end) h e = absurd (omega arith)
drop-take_min (x ∷ xs) (suc start) width (suc end) h e =
    drop-take_min xs start width end (omega arith) (omega arith)

-- The text that is shown, and where it starts.
pub record Shows (text : List ℕ) (cursor max_width last : ℕ) : Type 0 where
  pub shown : List ℕ
  pub start : ℕ
  pub queued : List Queued
  pub returns : render_command text cursor max_width last ≡ some (queued, start)
  pub prints :
      queued
      ≡ print_styled_content (on Color.white Color.blue) (b':' ∷ [])
        ∷ (print shown ∷ cursor_cell (0x20 ∷ []) (cursor == length text))
  pub fills : shown ≡ take (text_width text cursor max_width) (drop start text)
  pub behind : start ≤ cursor
  pub reaches : cursor ≤ start + length shown
  pub fits : columns queued ≤ max_width

columns-shown :
    (shown : List ℕ) (at_end : Bool) (max_width : ℕ)
    → length shown + as_number at_end + 1 ≤ max_width
    → columns (
        print_styled_content (on Color.white Color.blue) (b':' ∷ [])
        ∷ (print shown ∷ cursor_cell (0x20 ∷ []) at_end))
      ≤ max_width
columns-shown shown true max_width h = omega arith
columns-shown shown false max_width h = omega arith

-- For a command in ASCII with the cursor in it or behind it, on a terminal of at least two columns,
-- where the text and the terminal fit `usize`, and where the column that was shown first last time
-- lies before the end of the text, or the cursor at most one character before that end:
-- `render_command` returns without a panic, and queues a colon, the text from the returned column
-- on, as much of it as the columns for the text take, and a cell for a cursor behind the text. The
-- cursor lies in the part of the text that is shown, or directly behind it, and what is queued takes
-- no more columns than the terminal has.
pub render_command-Shows :
    (text : List ℕ) (cursor max_width last : ℕ)
    → Ascii text
    → cursor ≤ length text
    → 2 ≤ max_width
    → length text + max_width < usize_mod
    → Follows (length text) cursor last
    → Shows text cursor max_width last
unfolding render_command
render_command-Shows text cursor max_width last h c w small f =
    let len = text_len-Ascii text h in
    let width : ℕ = text_width text cursor max_width in
    let number : as_number (cursor == length text) ≤ 1 = ground arith in
    let sub : usize_sub (usize_sub max_width 1) (as_number (cursor == length text)) ≡ width =
      omega arith in
    let (lo, hi) = command_start-shows (length text) cursor width last c (omega arith) f in
    let start : ℕ = command_start (length text) cursor width last in
    let end : ℕ = cmp_min (length text) (wrapping_add start width) in
    let p : start ≤ end = omega arith in
    let q : end ≤ length text = omega arith in
    let l : start ≤ length (take end text) = omega (arith, length-take end text) in
    let shown : List ℕ = drop start (take end text) in
    let n : length shown ≡ end - start =
      omega (arith, length-drop start (take end text), length-take end text) in
    record {
      shown = shown;
      start = start;
      queued = _;
      returns =
          rw
            (
              len,
              sub,
              le→leb start end p,
              split_at-Ascii end text h q,
              split_at-Ascii start (take end text) (Ascii-take end text h) l,
            )
            refl;
      prints = refl;
      fills = drop-take_min text start width end p (omega arith);
      behind = lo;
      reaches = omega arith;
      fits = columns-shown shown (cursor == length text) max_width (omega arith);
    }
