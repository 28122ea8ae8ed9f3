-- ===== src/Json/Lengths.antt =====
-- How much of a text the scanner of a part of a value leaves.

use secure_vault.Prelude.{
  ℕ, suc, ◌≤◌, ◌<◌, ◌≡◌, refl, arith, Bool, true, false, Option, none, some, [], ◌∷◌, ◌++◌, Text,
  codes, ◌==◌, length, if◌then◌else◌, inl, inr, Bool-cases,
}
use secure_vault.Json.{Value, Scan, stuck, bad, got, ◌>>=◌}
use secure_vault.Json.Strings.{Place, Move, close, refuse, go, move, continue, scan_units, plain}
use secure_vault.Json.Units.{scan_string}
use secure_vault.Json.Parser.{
  scan_atom, scan_number, span_digits, span_fraction, span_exponent, signed_digits, with_digits,
  skip_space, is_digit, expect, Next, comma, other, next_of, after_word, number_tail, more_digits,
  or_bad, minus,
}

-- An answer, with at most n characters left.
abbrev pub Within : {A : Type 0} → ℕ → Scan A → Type 0
Within n stuck = ⊥
Within n bad = Unit
Within n (got a rest) = length rest ≤ n

pub Within-le : {A : Type 0} (m n : ℕ) (r : Scan A) → m ≤ n → Within m r → Within n r
Within-le m n stuck h w = w
Within-le m n bad h w = tt
Within-le m n (got a rest) h w = omega (arith, h, w)

pub Within-bind :
    {A B : Type 0} (m n : ℕ) (r : Scan A) (f : A → Text → Scan B)
    → Within m r
    → ((a : A) (rest : Text) → length rest ≤ m → Within n (f a rest))
    → Within n (r >>= f)
Within-bind m n stuck f w k = w
Within-bind m n bad f w k = tt
Within-bind m n (got a rest) f w k = k a rest w

pub length-skip_space : (s : Text) → length (skip_space s) ≤ length s
unfolding skip_space
length-skip_space [] = omega arith
length-skip_space (c ∷ cs) = ground (arith, length-skip_space cs)

length-span_digits : (s : Text) → length (span_digits s).1 ≤ length s
unfolding span_digits
length-span_digits [] = omega arith
length-span_digits (c ∷ cs) = ground (arith, length-span_digits cs)

length-with_digits :
    (mark : Text) (p : Text × Text) (before : Text) (n : ℕ)
    → length p.1 ≤ n
    → length before ≤ n
    → length (with_digits mark p before).1 ≤ n
length-with_digits mark ([], rest) before n h k = k
length-with_digits mark (d ∷ ds, rest) before n h k = h

length-span_fraction : (s : Text) → length (span_fraction s).1 ≤ length s
unfolding span_fraction
length-span_fraction [] = omega arith
length-span_fraction (c ∷ cs) = ground (
  arith,
  length-with_digits (c ∷ []) (span_digits cs) (c ∷ cs) (suc (length cs)),
  length-span_digits cs,
)

length-signed_digits :
    (e : ℕ) (s before : Text) (n : ℕ)
    → length s ≤ n
    → length before ≤ n
    → length (signed_digits e s before).1 ≤ n
length-signed_digits e [] before n h k = k
length-signed_digits e (c ∷ cs) before n h k = ground (
  arith,
  length-with_digits (e ∷ c ∷ []) (span_digits cs) before n,
  length-with_digits (e ∷ []) (span_digits (c ∷ cs)) before n,
  length-span_digits cs,
  length-span_digits (c ∷ cs),
)

length-span_exponent : (s : Text) → length (span_exponent s).1 ≤ length s
unfolding span_exponent
length-span_exponent [] = omega arith
length-span_exponent (c ∷ cs) = ground (arith, length-signed_digits c cs (c ∷ cs) (suc (length cs)))

number_tail-Within : (whole s : Text) → Within (length s) (number_tail whole s)
number_tail-Within whole s =
    omega (arith, length-span_fraction s, length-span_exponent (span_fraction s).1)

pub if-Within :
    {A : Type 0} (b : Bool) (x y : Scan A) (n : ℕ)
    → Within n x
    → Within n y
    → Within n (if b then x else y)
if-Within true x y n hx hy = hx
if-Within false x y n hx hy = hy

pub more_digits-Within :
    (first : Text) (cs : Text) → Within (length cs) (more_digits first (span_digits cs))
more_digits-Within first cs =
    let (ds, rest) = span_digits cs in
    Within-le (length rest) (length cs) (number_tail (first ++ ds) rest) (length-span_digits cs)
      (number_tail-Within (first ++ ds) rest)

-- A number takes a character at least.
scan_number-Within :
    (sign : Text) (c : ℕ) (cs : Text) → Within (length cs) (scan_number sign (c ∷ cs))
unfolding scan_number
scan_number-Within sign c cs =
    if-Within (c == 48) _ _ (length cs) (number_tail-Within (sign ++ (c ∷ [])) cs)
      (if-Within (is_digit c) _ bad (length cs) (more_digits-Within (sign ++ (c ∷ [])) cs) tt)

signed_number-Within : (sign s : Text) → Within (length s) (scan_number sign s)
unfolding scan_number
signed_number-Within sign [] = tt
signed_number-Within sign (c ∷ cs) =
    Within-le (length cs) (suc (length cs)) (scan_number sign (c ∷ cs)) (omega arith)
      (scan_number-Within sign c cs)

length-after_word : (w s rest : Text) → after_word w s ≡ some rest → length rest ≤ length s
unfolding after_word
length-after_word [] s rest h = ground arith
length-after_word (w ∷ ws) [] rest h = cc
length-after_word (w ∷ ws) (c ∷ cs) rest h = ground (arith, length-after_word ws cs rest)

word-Within : (v : Value) (w cs : Text) → Within (length cs) (or_bad v (after_word w cs))
word-Within v w cs = or_bad-Within (after_word w cs) (length-after_word w cs)
  where
    or_bad-Within :
        (o : Option Text)
        → ((rest : Text) → o ≡ some rest → length rest ≤ length cs)
        → Within (length cs) (or_bad v o)
    or_bad-Within none h = tt
    or_bad-Within (some rest) h = h rest refl

minus-Within : (w cs : Text) → Within (length cs) (minus (after_word w cs) cs)
minus-Within w cs = minus_word (after_word w cs) (length-after_word w cs)
  where
    minus_word :
        (o : Option Text)
        → ((rest : Text) → o ≡ some rest → length rest ≤ length cs)
        → Within (length cs) (minus o cs)
    minus_word none h = signed_number-Within (b'-' ∷ []) cs
    minus_word (some rest) h = h rest refl

-- An atom takes a character at least.
pub scan_atom-Within : (c : ℕ) (cs : Text) → Within (length cs) (scan_atom (c ∷ cs))
unfolding scan_atom
scan_atom-Within c cs =
    let n = length cs in
    if-Within (c == b'n') _ _ n (word-Within _ (codes "ull") cs) (
      if-Within (c == b't') _ _ n (word-Within _ (codes "rue") cs) (
        if-Within (c == b'f') _ _ n (word-Within _ (codes "alse") cs) (
          if-Within (c == b'N') _ _ n (word-Within _ (codes "aN") cs) (
            if-Within (c == b'I') _ _ n (word-Within _ (codes "nfinity") cs) (
              if-Within (c == b'-') _ _ n (minus-Within (codes "Infinity") cs)
                (scan_number-Within [] c cs))))))

scan_units-Within : (place : Place) (s : Text) → Within (length s) (scan_units place s)
unfolding scan_units
scan_units-Within place [] = tt
scan_units-Within place (c ∷ cs) = moved (move place c) (λ p. scan_units-Within p cs)
  where
    moved :
        (m : Move)
        → ((p : Place) → Within (length cs) (scan_units p cs))
        → Within (suc (length cs)) (continue m cs (λ p. scan_units p cs))
    moved close h = omega arith
    moved refuse h = tt
    moved (go p out) h =
        Within-bind (length cs) (suc (length cs)) (scan_units p cs)
          (λ text rest. got (out ++ text) rest) (h p) (λ text rest k. omega (arith, k))

pub scan_string-Within : (s : Text) → Within (length s) (scan_string s)
unfolding scan_string
scan_string-Within s =
    Within-bind (length s) (length s) (scan_units plain s) _ (scan_units-Within plain s)
      (λ us rest k. k)

pub length-expect : (mark : ℕ) (s rest : Text) → expect mark s ≡ some rest → length rest < length s
length-expect mark [] rest h = cc
length-expect mark (c ∷ cs) rest h = ground arith

-- What follows a mark that stands here is shorter.
abbrev pub NextBelow : ℕ → Next → Type 0
NextBelow n (Next.close rest) = length rest < n
NextBelow n (comma rest) = length rest < n
NextBelow n other = Unit

pub next_of-NextBelow : (mark : ℕ) (s : Text) → NextBelow (length s) (next_of mark s)
next_of-NextBelow mark [] = tt
next_of-NextBelow mark (c ∷ cs) = elim (Bool-cases (c == mark)) [
  | inl closes ↦ rw closes (omega arith)
  | inr more ↦ elim (Bool-cases (c == b',')) [
    | inl separates ↦ rw (more, separates) (omega arith)
    | inr neither ↦ rw (more, neither) tt
  ]
]
