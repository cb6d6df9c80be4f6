-- ===== src/Modes/Names/Letters.antt =====
-- The names of the modes, and numbers, are in ASCII.
use teehee.Common.{
  ℕ, ◌&&◌, ltb→lt, zero, suc, ◌/◌, ◌%◌, ◌≤◌, ◌<◌, ◌≡◌, refl, inl, inr, Bool, true, false, Option,
  none, some, List, [], ◌∷◌, Bool-cases, ltb, arith,
}
use native.Mathlib.Nat.{mod-lt}
use teehee.Modes.{Mode, InsertionMode, insertion, append, overwrite, SearchAcceptor}
use teehee.CmdCount.{CountState, empty, counting}
use teehee.Modes.Names.{
  split_name, normal_name, jump_name, digits_before, name, display_count, insertion_name,
  replace_name, acceptor_name, display, lower_hex_display,
}
use teehee.Modes.Pattern.{lower_hex}
use teehee.Modes.Text.{codes}
use teehee.Modes.Command.Line.{Ascii, Ascii-append}

-- A literal is checked by computing.
unfoldable pub ascii : List ℕ → Bool
ascii [] = true
ascii (c ∷ s) = ltb c 128 && ascii s

pub literal-Ascii : (s : List ℕ) → ascii s ≡ true → Ascii s
unfolding ascii
literal-Ascii [] e = tt
literal-Ascii (c ∷ s) e = elim (Bool-cases (ltb c 128)) [
  | inl small ↦ (ltb→lt c 128 small, literal-Ascii s (rw small at e))
  | inr big ↦ let no = rw big at e in absurd cc
]

lower_hex-ascii : (d : ℕ) → d < 16 → lower_hex d < 128
lower_hex-ascii d h = ground arith

digits_before-Ascii :
    (base n v : ℕ) (digits : List ℕ)
    → 0 < base
    → base ≤ 16
    → Ascii digits
    → Ascii (digits_before base n v digits)
unfolding digits_before
digits_before-Ascii base zero v digits p q h = h
digits_before-Ascii base (suc n) v digits p q h = elim (Bool-cases (ltb v base)) [
  | inl e ↦ rw e (lower_hex-ascii v (omega (arith, ltb→lt v base e)), h)
  | inr e ↦ rw e (
      digits_before-Ascii base n (v / base) (lower_hex (v % base) ∷ digits) p q
        (lower_hex-ascii (v % base) (omega (arith, mod-lt v p)), h))
]

pub display-Ascii : (v : ℕ) → Ascii (display v)
display-Ascii v = digits_before-Ascii 10 20 v [] (omega arith) (omega arith) tt

pub lower_hex_display-Ascii : (v : ℕ) → Ascii (lower_hex_display v)
lower_hex_display-Ascii v = digits_before-Ascii 16 16 v [] (omega arith) (omega arith) tt

display_count-Ascii : (c : CountState) → Ascii (display_count c)
unfolding display_count ascii
display_count-Ascii empty = tt
display_count-Ascii (counting true zero) = literal-Ascii (codes " (0x)") refl
display_count-Ascii (counting true (suc n)) =
    Ascii-append (codes " (0x") _ (literal-Ascii (codes " (0x") refl) (
      Ascii-append (lower_hex_display (suc n)) _ (lower_hex_display-Ascii (suc n))
        (literal-Ascii (codes ")") refl))
display_count-Ascii (counting false n) =
    Ascii-append (codes " (") _ (literal-Ascii (codes " (") refl)
      (Ascii-append (display n) _ (display-Ascii n) (literal-Ascii (codes ")") refl))

replace_name-Ascii : (hex : Bool) (hex_half : Option ℕ) → Ascii (replace_name hex hex_half)
unfolding replace_name ascii
replace_name-Ascii true none = literal-Ascii (codes "REPLACE (hex)") refl
replace_name-Ascii false hex_half = literal-Ascii (codes "REPLACE (ascii)") refl
replace_name-Ascii true (some ch) =
    Ascii-append (codes "REPLACE (hex: ") _ (literal-Ascii (codes "REPLACE (hex: ") refl) (
      Ascii-append (lower_hex_display (ch / 16)) _ (lower_hex_display-Ascii (ch / 16))
        (literal-Ascii (codes "...)") refl))

insertion_name-Ascii : (mode : InsertionMode) (hex : Bool) → Ascii (insertion_name mode hex)
unfolding insertion_name ascii
insertion_name-Ascii insertion true = literal-Ascii (codes "INSERT (hex)") refl
insertion_name-Ascii insertion false = literal-Ascii (codes "INSERT (ascii)") refl
insertion_name-Ascii append true = literal-Ascii (codes "APPEND (hex)") refl
insertion_name-Ascii append false = literal-Ascii (codes "APPEND (ascii)") refl
insertion_name-Ascii overwrite true = literal-Ascii (codes "OVERWRITE (hex)") refl
insertion_name-Ascii overwrite false = literal-Ascii (codes "OVERWRITE (ascii)") refl

split_name-Ascii : (c : CountState) → Ascii (split_name c)
unfolding split_name ascii
split_name-Ascii c =
    Ascii-append (codes "SPLIT") _ (literal-Ascii (codes "SPLIT") refl) (display_count-Ascii c)

acceptor_name-Ascii : (next : SearchAcceptor) → Ascii (acceptor_name next)
unfolding acceptor_name ascii
acceptor_name-Ascii SearchAcceptor.collapse = literal-Ascii (codes "COLLAPSE") refl
acceptor_name-Ascii (SearchAcceptor.split c) = split_name-Ascii c

normal_name-Ascii : (c : CountState) → Ascii (normal_name c)
unfolding normal_name ascii
normal_name-Ascii c =
    Ascii-append (codes "NORMAL") _ (literal-Ascii (codes "NORMAL") refl) (display_count-Ascii c)

jump_name-Ascii : (extended : Bool) → Ascii (jump_name extended)
unfolding jump_name ascii
jump_name-Ascii true = literal-Ascii (codes "EXTEND") refl
jump_name-Ascii false = literal-Ascii (codes "JUMP") refl

pub name-Ascii : (m : Mode) → Ascii (name m)
unfolding name ascii
name-Ascii (Mode.normal c) = normal_name-Ascii c
name-Ascii (Mode.jump_to extended) = jump_name-Ascii extended
name-Ascii (Mode.split c) = split_name-Ascii c
name-Ascii (Mode.replace hex hex_half) = replace_name-Ascii hex hex_half
name-Ascii (Mode.insert mode hex hex_half) = insertion_name-Ascii mode hex
name-Ascii (Mode.search pattern cursor hex hex_half next) = acceptor_name-Ascii next
name-Ascii (Mode.command text cursor) = literal-Ascii (codes "COMMAND") refl
name-Ascii Mode.quitting = literal-Ascii (codes "QUITTING") refl
