-- ===== src/Json/Parser.antt =====
-- `json.loads` of a text: the scanner of values, arrays and objects, which json's decoder is.
use mathlib.Core.Bool.{◌&&◌, ◌||◌}
use secure_vault.Prelude.{
  ℕ, zero, suc, ◌+◌, ◌*◌, Bool, Option, none, some, [], ◌∷◌, ◌++◌, Text, codes, leb, ltb, ◌==◌,
  if◌then◌else◌, length,
}
use secure_vault.Json.{
  Value, Items, Fields, null, true_, false_, number, string, array, object, nil, cons, end, field,
  Scan, stuck, bad, got, ◌>>=◌,
}
use secure_vault.Json.Strings.{quote}
use secure_vault.Json.Units.{scan_string}

abbrev pub is_space : ℕ → Bool
is_space c = c == 32 || c == 9 || c == 10 || c == 13

unfoldable pub skip_space : Text → Text
skip_space [] = []
skip_space (c ∷ cs) = let rest = skip_space cs in if is_space c then rest else c ∷ cs

abbrev pub is_digit : ℕ → Bool
is_digit c = leb 48 c && ltb c 58

-- The digits that a text starts with, and the rest.
unfoldable pub span_digits : Text → Text × Text
span_digits [] = ([], [])
span_digits (c ∷ cs) =
    let (ds, rest) = span_digits cs in if is_digit c then (c ∷ ds, rest) else ([], c ∷ cs)

-- An optional part of a number: it takes the digits after a mark, if there are any.
abbrev pub with_digits : Text → Text × Text → Text → Text × Text
with_digits mark ([], rest) before = ([], before)
with_digits mark (d ∷ ds, rest) before = (mark ++ (d ∷ ds), rest)

unfoldable pub span_fraction : Text → Text × Text
span_fraction [] = ([], [])
span_fraction (c ∷ cs) =
    if c == b'.' then with_digits (c ∷ []) (span_digits cs) (c ∷ cs) else ([], c ∷ cs)

abbrev pub signed_digits : ℕ → Text → Text → Text × Text
signed_digits e [] before = ([], before)
signed_digits e (s ∷ cs) before =
    if s == b'+' || s == b'-'
    then with_digits (e ∷ s ∷ []) (span_digits cs) before
    else with_digits (e ∷ []) (span_digits (s ∷ cs)) before

unfoldable pub span_exponent : Text → Text × Text
span_exponent [] = ([], [])
span_exponent (c ∷ cs) =
    if c == b'e' || c == b'E' then signed_digits c cs (c ∷ cs) else ([], c ∷ cs)

-- After the digits before the point.
abbrev pub number_tail : Text → Text → Scan Value
number_tail whole s =
    let (fraction, after) = span_fraction s in
    let (exponent, rest) = span_exponent after in
    got (number (whole ++ (fraction ++ exponent))) rest

abbrev pub more_digits : Text → Text × Text → Scan Value
more_digits first (ds, rest) = number_tail (first ++ ds) rest

-- `(-?(?:0|[1-9]\d*))(\.\d+)?([eE][-+]?\d+)?`, after the sign
unfoldable pub scan_number : Text → Text → Scan Value
unfolding span_digits span_fraction span_exponent
scan_number sign [] = bad
scan_number sign (c ∷ cs) =
    if c == 48
    then number_tail (sign ++ (c ∷ [])) cs
    else if is_digit c
    then more_digits (sign ++ (c ∷ [])) (span_digits cs)
    else bad

-- The rest of a text after a word.
unfoldable pub after_word : Text → Text → Option Text
after_word [] s = some s
after_word (w ∷ ws) [] = none
after_word (w ∷ ws) (c ∷ cs) = if w == c then after_word ws cs else none

abbrev pub or_bad : Value → Option Text → Scan Value
or_bad v none = bad
or_bad v (some rest) = got v rest

abbrev pub minus : Option Text → Text → Scan Value
minus (some rest) cs = got (number (codes "-Infinity")) rest
minus none cs = scan_number (b'-' ∷ []) cs

-- A value that is no string, array or object.
unfoldable pub scan_atom : Text → Scan Value
unfolding after_word scan_number
scan_atom [] = bad
scan_atom (c ∷ cs) =
    if c == b'n'
    then or_bad null (after_word (codes "ull") cs)
    else if c == b't'
    then or_bad true_ (after_word (codes "rue") cs)
    else if c == b'f'
    then or_bad false_ (after_word (codes "alse") cs)
    else if c == b'N'
    then or_bad (number (codes "NaN")) (after_word (codes "aN") cs)
    else if c == b'I'
    then or_bad (number (codes "Infinity")) (after_word (codes "nfinity") cs)
    else if c == b'-'
    then minus (after_word (codes "Infinity") cs) cs
    else scan_number [] (c ∷ cs)

pub data Kind : Type 0 where
  literal_kind array_kind object_kind atom_kind : Kind

abbrev pub kind_of : ℕ → Kind
kind_of c =
    if c == quote
    then literal_kind
    else if c == b'['
    then array_kind
    else if c == b'{'
    then object_kind
    else atom_kind

-- What stands at a place where a mark may close a list.
pub data Next : Type 0 where
  close : Text → Next
  comma : Text → Next
  other : Next

abbrev pub next_of : ℕ → Text → Next
next_of mark [] = other
next_of mark (c ∷ cs) = if c == mark then close cs else if c == b',' then comma cs else other

-- The rest after a character that has to stand here.
abbrev pub expect : ℕ → Text → Option Text
expect mark [] = none
expect mark (c ∷ cs) = if c == mark then some cs else none

-- The number bounds the calls within one another.
unfoldable mutual
  unfolding skip_space scan_string scan_atom

  pub scan_once : ℕ → Text → Scan Value
  scan_once zero s = stuck
  scan_once (suc n) [] = bad
  scan_once (suc n) (c ∷ cs) = elim (kind_of c) [
    | literal_kind ↦ scan_string cs >>= λ text rest. got (string text) rest
    | array_kind ↦ scan_array n (skip_space cs)
    | object_kind ↦ scan_object n (skip_space cs)
    | atom_kind ↦ scan_atom (c ∷ cs)
  ]

  pub scan_array : ℕ → Text → Scan Value
  scan_array zero s = stuck
  scan_array (suc n) s = elim (expect b']' s) [
    | some rest ↦ got (array nil) rest
    | none ↦ scan_items n s >>= λ vs rest. got (array vs) rest
  ]

  pub scan_items : ℕ → Text → Scan Items
  scan_items zero s = stuck
  scan_items (suc n) s = scan_once n s >>= λ v rest. elim (next_of b']' (skip_space rest)) [
    | close after ↦ got (cons v nil) after
    | comma after ↦ scan_items n (skip_space after) >>= λ vs last. got (cons v vs) last
    | other ↦ bad
  ]

  pub scan_object : ℕ → Text → Scan Value
  scan_object zero s = stuck
  scan_object (suc n) s = elim (expect b'}' s) [
    | some rest ↦ got (object end) rest
    | none ↦ scan_fields n s >>= λ fs rest. got (object fs) rest
  ]

  pub scan_fields : ℕ → Text → Scan Fields
  scan_fields zero s = stuck
  scan_fields (suc n) s = elim (expect quote s) [
    | none ↦ bad
    | some inside ↦ scan_string inside >>= λ k rest. elim (expect b':' (skip_space rest)) [
      | none ↦ bad
      | some at ↦ scan_once n (skip_space at) >>= λ v after.
          elim (next_of b'}' (skip_space after)) [
            | close left ↦ got (field k v end) left
            | comma left ↦ scan_fields n (skip_space left) >>= λ fs last. got (field k v fs) last
            | other ↦ bad
          ]
    ]
  ]

-- Nothing but space may follow the value.
abbrev pub at_end : Value → Text → Scan Value
at_end v [] = got v []
at_end v (c ∷ cs) = bad

-- `loads`: a text of n characters nests at most 3 * n + 1 calls.
unfoldable pub loads : Text → Scan Value
unfolding scan_once skip_space
loads s = scan_once (3 * length s + 1) (skip_space s) >>= λ v rest. at_end v (skip_space rest)
