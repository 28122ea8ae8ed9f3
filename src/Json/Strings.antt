-- ===== src/Json/Strings.antt =====
-- The string literals of `json`: what `dumps` writes (ASCII only) and how `loads` scans it.
use mathlib.Core.Bool.{◌&&◌}
use secure_vault.Prelude.{
  ℕ, suc, ◌+◌, ◌-◌, ◌*◌, ◌/◌, ◌%◌, true, false, [], ◌∷◌, ◌++◌, Text, ltb, leb, ◌==◌, if◌then◌else◌,
  ◌<◌, ◌≡◌, arith, Bool-cases, inl, inr, refl, ap, sym, subst, ==_iff, ◌∙◌, append_assoc,
}
use secure_vault.Json.{Scan, stuck, bad, got, ◌>>=◌}

abbrev pub quote : ℕ
quote = 34

abbrev pub backslash : ℕ
backslash = 92

unfoldable pub hex_digit : ℕ → ℕ
hex_digit n = if ltb n 10 then 48 + n else 87 + n

-- `\uXXXX`
abbrev pub escape_unit : ℕ → Text
escape_unit u =
    backslash
    ∷ b'u'
    ∷ hex_digit (u / 4096 % 16)
    ∷ hex_digit (u / 256 % 16)
    ∷ hex_digit (u / 16 % 16)
    ∷ hex_digit (u % 16)
    ∷ []

-- The UTF-16 units of a code point.
abbrev pub high_unit : ℕ → ℕ
high_unit c = 55296 + (c - 65536) / 1024

abbrev pub low_unit : ℕ → ℕ
low_unit c = 56320 + (c - 65536) % 1024

abbrev pub units : ℕ → Text
units c = if ltb c 65536 then c ∷ [] else high_unit c ∷ low_unit c ∷ []

-- What is written for a character.
unfoldable pub escape : ℕ → Text
escape c =
    if c == quote
    then backslash ∷ quote ∷ []
    else if c == backslash
    then backslash ∷ backslash ∷ []
    else if c == 10
    then backslash ∷ b'n' ∷ []
    else if c == 13
    then backslash ∷ b'r' ∷ []
    else if c == 9
    then backslash ∷ b't' ∷ []
    else if c == 12
    then backslash ∷ b'f' ∷ []
    else if c == 8
    then backslash ∷ b'b' ∷ []
    else if leb 32 c && ltb c 127
    then c ∷ []
    else if ltb c 65536
    then escape_unit c
    else escape_unit (high_unit c) ++ escape_unit (low_unit c)

-- Where a scan of a literal stands: between characters, after a backslash, or in an escape with
-- `k + 1` hexadecimal digits to come.
pub data Place : Type 0 where
  plain : Place
  escaped : Place
  hex : ℕ → ℕ → Place

pub data Move : Type 0 where
  close : Move
  refuse : Move
  go : Place → Text → Move

-- The value of a hexadecimal digit; 16 is none.
unfoldable pub hex_value : ℕ → ℕ
hex_value c =
    if leb 48 c && ltb c 58
    then c - 48
    else if leb 97 c && ltb c 103
    then c - 87
    else if leb 65 c && ltb c 71
    then c - 55
    else 16

abbrev pub move_plain : ℕ → Move
move_plain c =
    if c == quote
    then close
    else if c == backslash
    then go escaped []
    else if ltb c 32
    then refuse
    else go plain (c ∷ [])

abbrev pub move_escaped : ℕ → Move
move_escaped c =
    if c == quote
    then go plain (quote ∷ [])
    else if c == backslash
    then go plain (backslash ∷ [])
    else if c == b'/'
    then go plain (b'/' ∷ [])
    else if c == b'b'
    then go plain (8 ∷ [])
    else if c == b'f'
    then go plain (12 ∷ [])
    else if c == b'n'
    then go plain (10 ∷ [])
    else if c == b'r'
    then go plain (13 ∷ [])
    else if c == b't'
    then go plain (9 ∷ [])
    else if c == b'u'
    then go (hex 3 0) []
    else refuse

abbrev pub move_hex : ℕ → ℕ → ℕ → Move
move_hex k bits c =
    if hex_value c == 16
    then refuse
    else if k == 0
    then go plain ((16 * bits + hex_value c) ∷ [])
    else go (hex (k - 1) (16 * bits + hex_value c)) []

abbrev pub move : Place → ℕ → Move
move plain c = move_plain c
move escaped c = move_escaped c
move (hex k bits) c = move_hex k bits c

abbrev pub then_more : Text → Scan Text → Scan Text
then_more out more = more >>= λ text rest. got (out ++ text) rest

abbrev pub continue : Move → Text → (Place → Scan Text) → Scan Text
continue close rest more = got [] rest
continue refuse rest more = bad
continue (go place out) rest more = then_more out (more place)

-- The units of a literal after its opening quote, and the text after the closing one.
unfoldable pub scan_units : Place → Text → Scan Text
scan_units place [] = bad
scan_units place (c ∷ cs) = continue (move place c) cs (λ place'. scan_units place' cs)

hex_value-hex_digit : (n : ℕ) → n < 16 → hex_value (hex_digit n) ≡ n
unfolding hex_value hex_digit
hex_value-hex_digit n h = ground arith

then_more_nil : (more : Scan Text) → then_more [] more ≡ more
then_more_nil stuck = refl
then_more_nil bad = refl
then_more_nil (got text rest) = refl

pub then_more_append :
    (xs ys : Text) (more : Scan Text) → then_more (xs ++ ys) more ≡ then_more xs (then_more ys more)
then_more_append xs ys stuck = refl
then_more_append xs ys bad = refl
then_more_append xs ys (got text rest) = ap (λ t. got t rest) (append_assoc xs ys text)

scan_hex :
    (k bits n : ℕ) (rest : Text)
    → n < 16
    → scan_units (hex (suc k) bits) (hex_digit n ∷ rest) ≡ scan_units (hex k (16 * bits + n)) rest
unfolding scan_units
scan_hex k bits n rest h =
    let value = hex_value-hex_digit n h in
    let small : (n == 16) ≡ false = ground arith in
    let inner : (suc k == 0) ≡ false = ground arith in
    let below : suc k - 1 ≡ k = omega arith in
    rw (value, small, inner, below) (then_more_nil (scan_units (hex k (16 * bits + n)) rest))

scan_last :
    (bits n : ℕ) (rest : Text)
    → n < 16
    → scan_units (hex 0 bits) (hex_digit n ∷ rest)
      ≡ then_more ((16 * bits + n) ∷ []) (scan_units plain rest)
unfolding scan_units
scan_last bits n rest h =
    let value = hex_value-hex_digit n h in
    let small : (n == 16) ≡ false = ground arith in rw (value, small)

scan_units-escape_unit :
    (u : ℕ) (rest : Text)
    → u < 65536
    → scan_units plain (escape_unit u ++ rest) ≡ then_more (u ∷ []) (scan_units plain rest)
unfolding scan_units
scan_units-escape_unit u rest h =
    let value : 16 * (16 * (16 * (16 * 0 + u / 4096 % 16) + u / 256 % 16) + u / 16 % 16) + u % 16
        ≡ u =
      omega arith in
    then_more_nil _
    ∙ then_more_nil _
    ∙ scan_hex 2 0 (u / 4096 % 16) _ (omega arith)
    ∙ scan_hex 1 _ (u / 256 % 16) _ (omega arith)
    ∙ scan_hex 0 _ (u / 16 % 16) _ (omega arith)
    ∙ scan_last _ (u % 16) rest (omega arith)
    ∙ ap (λ x. then_more (x ∷ []) (scan_units plain rest)) value

scan_units-pair :
    (c : ℕ) (rest : Text)
    → c < 1114112
    → scan_units plain ((escape_unit (high_unit c) ++ escape_unit (low_unit c)) ++ rest)
      ≡ then_more (high_unit c ∷ low_unit c ∷ []) (scan_units plain rest)
scan_units-pair c rest h =
    scan_units-escape_unit (high_unit c) (escape_unit (low_unit c) ++ rest) (omega arith)
    ∙ ap (then_more (high_unit c ∷ [])) (scan_units-escape_unit (low_unit c) rest (omega arith))
    ∙ sym (then_more_append (high_unit c ∷ []) (low_unit c ∷ []) (scan_units plain rest))

unescaped :
    (c : ℕ) (rest : Text)
    → c < 1114112
    → (c == 34) ≡ false
    → (c == 92) ≡ false
    → (c == 10) ≡ false
    → (c == 13) ≡ false
    → (c == 9) ≡ false
    → (c == 12) ≡ false
    → (c == 8) ≡ false
    → scan_units plain (escape c ++ rest) ≡ then_more (units c) (scan_units plain rest)
unfolding scan_units escape
unescaped c rest h n0 n1 n2 n3 n4 n5 n6 = elim (Bool-cases (leb 32 c && ltb c 127)) [
  | inl printed ↦
      let graphic : ltb c 32 ≡ false = ground arith in
      let small : ltb c 65536 ≡ true = ground arith in
      rw (n0, n1, n2, n3, n4, n5, n6, printed, n0, n1, graphic, small)
  | inr other ↦ elim (Bool-cases (ltb c 65536)) [
    | inl small ↦
        rw (n0, n1, n2, n3, n4, n5, n6, other, small) (scan_units-escape_unit c rest (ground arith))
    | inr large ↦ rw (n0, n1, n2, n3, n4, n5, n6, other, large) (scan_units-pair c rest h)
  ]
]

-- Reading what was written for a character.
pub scan_units-escape :
    (c : ℕ) (rest : Text)
    → c < 1114112
    → scan_units plain (escape c ++ rest) ≡ then_more (units c) (scan_units plain rest)
unfolding scan_units escape
scan_units-escape c rest h =
    let Reads = (λ (x : ℕ).
      scan_units plain (escape x ++ rest) ≡ then_more (units x) (scan_units plain rest)) in
    elim (Bool-cases (c == 34)) [
      | inl e ↦ subst Reads (sym ((==_iff c 34).0 e)) (then_more_nil _)
      | inr n0 ↦ elim (Bool-cases (c == 92)) [
        | inl e ↦ subst Reads (sym ((==_iff c 92).0 e)) (then_more_nil _)
        | inr n1 ↦ elim (Bool-cases (c == 10)) [
          | inl e ↦ subst Reads (sym ((==_iff c 10).0 e)) (then_more_nil _)
          | inr n2 ↦ elim (Bool-cases (c == 13)) [
            | inl e ↦ subst Reads (sym ((==_iff c 13).0 e)) (then_more_nil _)
            | inr n3 ↦ elim (Bool-cases (c == 9)) [
              | inl e ↦ subst Reads (sym ((==_iff c 9).0 e)) (then_more_nil _)
              | inr n4 ↦ elim (Bool-cases (c == 12)) [
                | inl e ↦ subst Reads (sym ((==_iff c 12).0 e)) (then_more_nil _)
                | inr n5 ↦ elim (Bool-cases (c == 8)) [
                  | inl e ↦ subst Reads (sym ((==_iff c 8).0 e)) (then_more_nil _)
                  | inr n6 ↦ unescaped c rest h n0 n1 n2 n3 n4 n5 n6
                ]
              ]
            ]
          ]
        ]
      ]
    ]
