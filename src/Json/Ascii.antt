-- ===== src/Json/Ascii.antt =====
-- `dumps` writes ASCII only.
use mathlib.Core.Bool.{◌&&◌}
use secure_vault.Prelude.{
  ℕ, ◌/◌, ◌%◌, ◌<◌, arith, Bool-cases, Bool, true, false, inl, inr, if◌then◌else◌, ◌==◌, [], ◌∷◌,
  ◌++◌, Text, codes, All-append, leb, ltb,
}
use secure_vault.Utf8.RoundTrip.{IsAscii}
use secure_vault.Json.{
  Value, Items, Fields, null, true_, false_, number, string, array, object, nil, cons, end, field,
}
use secure_vault.Json.Strings.{
  escape, escape_unit, hex_digit, high_unit, low_unit, quote, backslash,
}
use secure_vault.Json.Units.{literal}
use secure_vault.Json.Printer.{print, print_items, print_fields, dumps}

hex_digit-lt : (n : ℕ) → n < 16 → hex_digit n < 128
unfolding hex_digit
hex_digit-lt n h = ground arith

escape_unit-IsAscii : (u : ℕ) → IsAscii (escape_unit u)
escape_unit-IsAscii u =
    let a = hex_digit-lt (u / 4096 % 16) (omega arith) in
    let b = hex_digit-lt (u / 256 % 16) (omega arith) in
    let c = hex_digit-lt (u / 16 % 16) (omega arith) in
    let d = hex_digit-lt (u % 16) (omega arith) in omega (arith, a, b, c, d)

if-IsAscii : (b : Bool) (x y : Text) → IsAscii x → IsAscii y → IsAscii (if b then x else y)
if-IsAscii true x y hx hy = hx
if-IsAscii false x y hx hy = hy

graphic-IsAscii :
    (c : ℕ)
    → IsAscii (
        if leb 32 c && ltb c 127
        then c ∷ []
        else if ltb c 65536
        then escape_unit c
        else escape_unit (high_unit c) ++ escape_unit (low_unit c))
graphic-IsAscii c = elim (Bool-cases (leb 32 c && ltb c 127)) [
  | inl graphic ↦ rw graphic (ground arith, tt)
  | inr other ↦ rw other (
      if-IsAscii (ltb c 65536) _ _ (escape_unit-IsAscii c) (
        All-append (λ x. x < 128) (escape_unit (high_unit c)) (escape_unit (low_unit c))
          (escape_unit-IsAscii (high_unit c)) (escape_unit-IsAscii (low_unit c))))
]

escape-IsAscii : (c : ℕ) → IsAscii (escape c)
unfolding escape
escape-IsAscii c = if-IsAscii (c == quote) _ _ (omega arith) (
    if-IsAscii (c == backslash) _ _ (omega arith) (
      if-IsAscii (c == 10) _ _ (omega arith) (
        if-IsAscii (c == 13) _ _ (omega arith) (
          if-IsAscii (c == 9) _ _ (omega arith) (
            if-IsAscii (c == 12) _ _ (omega arith)
              (if-IsAscii (c == 8) _ _ (omega arith) (graphic-IsAscii c)))))))

literal-IsAscii : (text rest : Text) → IsAscii rest → IsAscii (literal text rest)
unfolding literal
literal-IsAscii [] rest h = (omega arith, h)
literal-IsAscii (c ∷ cs) rest h =
    All-append (λ x. x < 128) (escape c) (literal cs rest) (escape-IsAscii c)
      (literal-IsAscii cs rest h)

abbrev mutual
  -- The numbers of the value are written in ASCII.
  pub IsNumbered : Value → Type 0
  IsNumbered null = Unit
  IsNumbered true_ = Unit
  IsNumbered false_ = Unit
  IsNumbered (number lexeme) = IsAscii lexeme
  IsNumbered (string text) = Unit
  IsNumbered (array vs) = AreNumbered vs
  IsNumbered (object fs) = HaveNumbered fs

  pub AreNumbered : Items → Type 0
  AreNumbered nil = Unit
  AreNumbered (cons v vs) = IsNumbered v × AreNumbered vs

  pub HaveNumbered : Fields → Type 0
  HaveNumbered end = Unit
  HaveNumbered (field k v fs) = IsNumbered v × HaveNumbered fs

mutual
  unfolding print

  print-IsAscii : (v : Value) (rest : Text) → IsNumbered v → IsAscii rest → IsAscii (print v rest)
  print-IsAscii null rest h r = All-append (λ x. x < 128) (codes "null") rest (omega arith) r
  print-IsAscii true_ rest h r = All-append (λ x. x < 128) (codes "true") rest (omega arith) r
  print-IsAscii false_ rest h r = All-append (λ x. x < 128) (codes "false") rest (omega arith) r
  print-IsAscii (number lexeme) rest h r = All-append (λ x. x < 128) lexeme rest h r
  print-IsAscii (string text) rest h r = (omega arith, literal-IsAscii text rest r)
  print-IsAscii (array nil) rest h r = (omega arith, (omega arith, r))
  print-IsAscii (array (cons v vs)) rest h r =
      (omega arith, print-IsAscii v (print_items vs rest) h.0 (print_items-IsAscii vs rest h.1 r))
  print-IsAscii (object end) rest h r = (omega arith, (omega arith, r))
  print-IsAscii (object (field k v fs)) rest h r = (
    omega arith,
    (
      omega arith,
      literal-IsAscii k _ (
        omega arith,
        print-IsAscii v (print_fields fs rest) h.0 (print_fields-IsAscii fs rest h.1 r),
      ),
    ),
  )

  print_items-IsAscii :
      (vs : Items) (rest : Text) → AreNumbered vs → IsAscii rest → IsAscii (print_items vs rest)
  print_items-IsAscii nil rest h r = (omega arith, r)
  print_items-IsAscii (cons v vs) rest h r =
      (omega arith, print-IsAscii v (print_items vs rest) h.0 (print_items-IsAscii vs rest h.1 r))

  print_fields-IsAscii :
      (fs : Fields) (rest : Text) → HaveNumbered fs → IsAscii rest → IsAscii (print_fields fs rest)
  print_fields-IsAscii end rest h r = (omega arith, r)
  print_fields-IsAscii (field k v fs) rest h r = (
    omega arith,
    (
      omega arith,
      literal-IsAscii k _ (
        omega arith,
        print-IsAscii v (print_fields fs rest) h.0 (print_fields-IsAscii fs rest h.1 r),
      ),
    ),
  )

pub dumps-IsAscii : (v : Value) → IsNumbered v → IsAscii (dumps v)
unfolding dumps
dumps-IsAscii v h = print-IsAscii v [] h tt
