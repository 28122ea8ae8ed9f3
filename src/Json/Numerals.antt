-- ===== src/Json/Numerals.antt =====
-- The positive numbers among json's numbers.
use mathlib.Core.Bool.{◌&&◌, ◌||◌, not}
use secure_vault.Prelude.{
  ℕ, ◌≤◌, ◌<◌, ◌≡◌, refl, ap, arith, Bool, true, false, [], ◌∷◌, ◌++◌, append-nil, Text, ◌==◌, All,
}
use secure_vault.Json.{number, got}
use secure_vault.Json.Parser.{
  scan_atom, span_digits, span_fraction, span_exponent, is_digit, number_tail,
}

-- A positive number as it is written: digits, the first not 0.
abbrev pub IsNumeral : Text → Type 0
IsNumeral [] = ⊥
IsNumeral (c ∷ cs) = (49 ≤ c) × (c < 58) × All (λ d. is_digit d ≡ true) cs

-- A number ends here.
abbrev pub stops : ℕ → Bool
stops c = not (is_digit c) && not (c == b'.') && not (c == b'e' || c == b'E')

abbrev pub Stops : Text → Type 0
Stops [] = Unit
Stops (c ∷ cs) = stops c ≡ true

span_digits-All :
    (ds rest : Text)
    → All (λ d. is_digit d ≡ true) ds
    → Stops rest
    → span_digits (ds ++ rest) ≡ (ds, rest)
unfolding span_digits
span_digits-All [] [] h s = refl
span_digits-All [] (c ∷ rest) h s = ground arith
span_digits-All (d ∷ ds) rest h s = rw (span_digits-All ds rest h.1 s, h.0)

number_tail-Stops :
    (whole rest : Text) → Stops rest → number_tail whole rest ≡ got (number whole) rest
unfolding span_fraction span_exponent
number_tail-Stops whole [] s = ap (λ t. got (number t) []) (append-nil whole)
number_tail-Stops whole (c ∷ rest) s =
    let point : (c == b'.') ≡ false = ground arith in
    let letter : (c == b'e' || c == b'E') ≡ false = ground arith in rw (point, letter, append-nil)

pub scan_atom-IsNumeral :
    (c : ℕ) (cs rest : Text)
    → IsNumeral (c ∷ cs)
    → Stops rest
    → scan_atom (c ∷ (cs ++ rest)) ≡ got (number (c ∷ cs)) rest
unfolding scan_atom
scan_atom-IsNumeral c cs rest h s =
    let f1 : (c == b'n') ≡ false = ground arith in
    let f2 : (c == b't') ≡ false = ground arith in
    let f3 : (c == b'f') ≡ false = ground arith in
    let f4 : (c == b'N') ≡ false = ground arith in
    let f5 : (c == b'I') ≡ false = ground arith in
    let f6 : (c == b'-') ≡ false = ground arith in
    let f7 : (c == 48) ≡ false = ground arith in
    let digit : is_digit c ≡ true = ground arith in
    rw (f1, f2, f3, f4, f5, f6, f7, digit, span_digits-All cs rest h.2 s)
      (number_tail-Stops (c ∷ cs) rest s)
