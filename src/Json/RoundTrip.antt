-- ===== src/Json/RoundTrip.antt =====
-- `loads` of what `dumps` wrote.

use secure_vault.Prelude.{
  ℕ, zero, suc, ◌+◌, ◌*◌, ◌≤◌, ◌<◌, ◌≡◌, refl, ◌∙◌, arith, none, [], ◌∷◌, ◌++◌, Text, length,
  length-append,
}
use secure_vault.Utf8.RoundTrip.{IsText}
use secure_vault.Json.{
  Value, Items, Fields, null, true_, false_, number, string, array, object, nil, cons, end, field,
  got,
}
use secure_vault.Json.Strings.{quote, escape}
use secure_vault.Json.Units.{literal, scan_string-literal}
use secure_vault.Json.Numerals.{IsNumeral, Stops, scan_atom-IsNumeral}
use secure_vault.Json.Printer.{print, print_items, print_fields, dumps}
use secure_vault.Json.Parser.{
  scan_once, scan_items, scan_fields, scan_atom, skip_space, kind_of, atom_kind, loads, expect,
}

abbrev mutual
  -- What `dumps` writes and `loads` reads back: texts without surrogates, and positive numbers.
  pub IsPrintable : Value → Type 0
  IsPrintable null = Unit
  IsPrintable true_ = Unit
  IsPrintable false_ = Unit
  IsPrintable (number lexeme) = IsNumeral lexeme
  IsPrintable (string text) = IsText text
  IsPrintable (array vs) = ArePrintable vs
  IsPrintable (object fs) = HavePrintable fs

  pub ArePrintable : Items → Type 0
  ArePrintable nil = Unit
  ArePrintable (cons v vs) = IsPrintable v × ArePrintable vs

  pub HavePrintable : Fields → Type 0
  HavePrintable end = Unit
  HavePrintable (field k v fs) = IsText k × IsPrintable v × HavePrintable fs

abbrev mutual
  size : Value → ℕ
  size null = 1
  size true_ = 1
  size false_ = 1
  size (number lexeme) = 1
  size (string text) = 1
  size (array vs) = 2 + size_items vs
  size (object fs) = 2 + size_fields fs

  size_items : Items → ℕ
  size_items nil = 0
  size_items (cons v vs) = suc (size v + size_items vs)

  size_fields : Fields → ℕ
  size_fields end = 0
  size_fields (field k v fs) = suc (size v + size_fields fs)

-- What is written starts with no space and no closing mark.
skip_space-print :
    (v : Value) (rest : Text) → IsPrintable v → skip_space (print v rest) ≡ print v rest
unfolding skip_space print
skip_space-print null rest h = refl
skip_space-print true_ rest h = refl
skip_space-print false_ rest h = refl
skip_space-print (number []) rest h = absurd h
skip_space-print (number (c ∷ cs)) rest h = ground arith
skip_space-print (string text) rest h = refl
skip_space-print (array nil) rest h = refl
skip_space-print (array (cons v vs)) rest h = refl
skip_space-print (object end) rest h = refl
skip_space-print (object (field k v fs)) rest h = refl

expect-print : (v : Value) (rest : Text) → IsPrintable v → expect b']' (print v rest) ≡ none
unfolding print
expect-print null rest h = refl
expect-print true_ rest h = refl
expect-print false_ rest h = refl
expect-print (number []) rest h = absurd h
expect-print (number (c ∷ cs)) rest h = ground arith
expect-print (string text) rest h = refl
expect-print (array nil) rest h = refl
expect-print (array (cons v vs)) rest h = refl
expect-print (object end) rest h = refl
expect-print (object (field k v fs)) rest h = refl

Stops-print_items : (vs : Items) (rest : Text) → Stops (print_items vs rest)
unfolding print
Stops-print_items nil rest = refl
Stops-print_items (cons v vs) rest = refl

Stops-print_fields : (fs : Fields) (rest : Text) → Stops (print_fields fs rest)
unfolding print
Stops-print_fields end rest = refl
Stops-print_fields (field k v fs) rest = refl

size_positive : (v : Value) → 0 < size v
size_positive null = omega arith
size_positive true_ = omega arith
size_positive false_ = omega arith
size_positive (number lexeme) = omega arith
size_positive (string text) = omega arith
size_positive (array vs) = omega arith
size_positive (object fs) = omega arith

scan_once-atom :
    (n c : ℕ) (cs : Text) → kind_of c ≡ atom_kind → scan_once (suc n) (c ∷ cs) ≡ scan_atom (c ∷ cs)
unfolding scan_once
scan_once-atom n c cs e = rw (e, scan_once)

mutual
  unfolding scan_once print skip_space scan_atom

  scan_once-print :
      (f : ℕ) (v : Value) (rest : Text)
      → IsPrintable v
      → size v ≤ f
      → Stops rest
      → scan_once f (print v rest) ≡ got v rest
  scan_once-print zero v rest h k s = absurd (omega (arith, size_positive v))
  scan_once-print (suc n) null rest h k s = refl
  scan_once-print (suc n) true_ rest h k s = refl
  scan_once-print (suc n) false_ rest h k s = refl
  scan_once-print (suc n) (number []) rest h k s = absurd h
  scan_once-print (suc n) (number (c ∷ cs)) rest h k s =
      scan_once-atom n c (cs ++ rest) (ground arith) ∙ scan_atom-IsNumeral c cs rest h s
  scan_once-print (suc n) (string text) rest h k s = rw (scan_string-literal text rest h)
  scan_once-print (suc zero) (array nil) rest h k s = absurd (omega arith)
  scan_once-print (suc (suc n)) (array nil) rest h k s = refl
  scan_once-print (suc zero) (array (cons v vs)) rest h k s = absurd (omega arith)
  scan_once-print (suc (suc n)) (array (cons v vs)) rest h k s = rw (
    skip_space-print v (print_items vs rest) h.0,
    expect-print v (print_items vs rest) h.0,
    skip_space-print v (print_items vs rest) h.0,
    scan_items-print n v vs rest h.0 h.1 (omega arith),
  )
  scan_once-print (suc zero) (object end) rest h k s = absurd (omega arith)
  scan_once-print (suc (suc n)) (object end) rest h k s = refl
  scan_once-print (suc zero) (object (field key v fs)) rest h k s = absurd (omega arith)
  scan_once-print (suc (suc n)) (object (field key v fs)) rest h k s =
      rw (scan_fields-print n key v fs rest h.0 h.1 h.2 (omega arith))

  scan_items-print :
      (f : ℕ) (v : Value) (vs : Items) (rest : Text)
      → IsPrintable v
      → ArePrintable vs
      → size_items (cons v vs) ≤ f
      → scan_items f (print v (print_items vs rest)) ≡ got (cons v vs) rest
  scan_items-print zero v vs rest hv hs k = absurd (omega arith)
  scan_items-print (suc n) v nil rest hv hs k =
      rw (scan_once-print n v (print_items nil rest) hv (omega arith) (Stops-print_items nil rest))
  scan_items-print (suc n) v (cons v' vs) rest hv hs k = rw (
    scan_once-print n v (print_items (cons v' vs) rest) hv (omega arith)
        (Stops-print_items (cons v' vs) rest),
    skip_space-print v' (print_items vs rest) hs.0,
    scan_items-print n v' vs rest hs.0 hs.1 (omega arith),
  )

  scan_fields-print :
      (f : ℕ) (key : Text) (v : Value) (fs : Fields) (rest : Text)
      → IsText key
      → IsPrintable v
      → HavePrintable fs
      → size_fields (field key v fs) ≤ f
      → scan_fields f (quote ∷ literal key (b':' ∷ print v (print_fields fs rest)))
        ≡ got (field key v fs) rest
  scan_fields-print zero key v fs rest hk hv hs k = absurd (omega arith)
  scan_fields-print (suc n) key v end rest hk hv hs k = rw (
    scan_string-literal key (b':' ∷ print v (print_fields end rest)) hk,
    skip_space-print v (print_fields end rest) hv,
    scan_once-print n v (print_fields end rest) hv (omega arith) (Stops-print_fields end rest),
  )
  scan_fields-print (suc n) key v (field key' v' fs) rest hk hv hs k = rw (
    scan_string-literal key (b':' ∷ print v (print_fields (field key' v' fs) rest)) hk,
    skip_space-print v (print_fields (field key' v' fs) rest) hv,
    scan_once-print n v (print_fields (field key' v' fs) rest) hv (omega arith)
        (Stops-print_fields (field key' v' fs) rest),
    scan_fields-print n key' v' fs rest hs.0 hs.1 hs.2 (omega arith),
  )

length-literal : (text rest : Text) → length rest < length (literal text rest)
unfolding literal
length-literal [] rest = omega arith
length-literal (c ∷ cs) rest =
    omega (arith, length-append (escape c) (literal cs rest), length-literal cs rest)

-- The text is long enough for the bound of `loads`.
mutual
  unfolding print

  size-print :
      (v : Value) (rest : Text)
      → IsPrintable v
      → size v + 3 * length rest ≤ 3 * length (print v rest)
  size-print null rest h = omega arith
  size-print true_ rest h = omega arith
  size-print false_ rest h = omega arith
  size-print (number []) rest h = absurd h
  size-print (number (c ∷ cs)) rest h = omega (arith, length-append cs rest)
  size-print (string text) rest h = omega (arith, length-literal text rest)
  size-print (array nil) rest h = omega arith
  size-print (array (cons v vs)) rest h =
      omega (arith, size-print v (print_items vs rest) h.0, size_items-print vs rest h.1)
  size-print (object end) rest h = omega arith
  size-print (object (field k v fs)) rest h = omega (
    arith,
    length-literal k (b':' ∷ print v (print_fields fs rest)),
    size-print v (print_fields fs rest) h.1,
    size_fields-print fs rest h.2,
  )

  size_items-print :
      (vs : Items) (rest : Text)
      → ArePrintable vs
      → size_items vs + 3 * length rest + 3 ≤ 3 * length (print_items vs rest)
  size_items-print nil rest h = omega arith
  size_items-print (cons v vs) rest h =
      omega (arith, size-print v (print_items vs rest) h.0, size_items-print vs rest h.1)

  size_fields-print :
      (fs : Fields) (rest : Text)
      → HavePrintable fs
      → size_fields fs + 3 * length rest + 3 ≤ 3 * length (print_fields fs rest)
  size_fields-print end rest h = omega arith
  size_fields-print (field k v fs) rest h = omega (
    arith,
    length-literal k (b':' ∷ print v (print_fields fs rest)),
    size-print v (print_fields fs rest) h.1,
    size_fields-print fs rest h.2,
  )

-- What `dumps` writes of a value, `loads` reads back to the same value: texts are without
-- surrogates, and the numbers are positive integers.
pub loads-dumps : (v : Value) → IsPrintable v → loads (dumps v) ≡ got v []
unfolding loads dumps skip_space
loads-dumps v h = rw (
  skip_space-print v [] h,
  scan_once-print (3 * length (print v []) + 1) v [] h (omega (arith, size-print v [] h)) tt,
)
