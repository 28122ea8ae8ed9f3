-- ===== src/Json/Units.antt =====
-- Surrogate pairs: `loads` joins an escaped high unit and the escaped low one after it.
use mathlib.Core.Bool.{◌&&◌}
use secure_vault.Prelude.{
  ℕ, ◌+◌, ◌-◌, ◌*◌, Bool, true, Option, none, some, [], ◌∷◌, ◌++◌, Text, ltb, leb, if◌then◌else◌,
  ◌≡◌, arith, refl, ap, ◌∙◌, Bool-cases, inl, inr,
}
use secure_vault.Utf8.{is_scalar}
use secure_vault.Utf8.RoundTrip.{IsText}
use secure_vault.Json.{Scan, got, ◌>>=◌}
use secure_vault.Json.Strings.{
  units, quote, escape, plain, scan_units, then_more, scan_units-escape,
}

abbrev pub is_high : ℕ → Bool
is_high u = leb 55296 u && ltb u 56320

abbrev pub is_low : ℕ → Bool
is_low u = leb 56320 u && ltb u 57344

abbrev pub join_units : ℕ → ℕ → ℕ
join_units high low = 65536 + 1024 * (high - 55296) + (low - 56320)

-- A high unit waits for the next unit.
abbrev pub join_step : Option ℕ → ℕ → Option ℕ × Text
join_step none u = if is_high u then (some u, []) else (none, u ∷ [])
join_step (some high) u =
    if is_low u
    then (none, join_units high u ∷ [])
    else if is_high u
    then (some u, high ∷ [])
    else (none, high ∷ u ∷ [])

unfoldable pub join_from : Option ℕ → Text → Text
join_from none [] = []
join_from (some high) [] = high ∷ []
join_from waiting (u ∷ us) = let (next, out) = join_step waiting u in out ++ join_from next us

-- A literal after its opening quote.
unfoldable pub scan_string : Text → Scan Text
scan_string s = scan_units plain s >>= λ us rest. got (join_from none us) rest

-- The literal of a text without its opening quote, in front of what follows.
unfoldable pub literal : Text → Text → Text
literal [] rest = quote ∷ rest
literal (c ∷ cs) rest = escape c ++ literal cs rest

abbrev all_units : Text → Text
all_units [] = []
all_units (c ∷ cs) = units c ++ all_units cs

join_from-units :
    (c : ℕ) (us : Text)
    → is_scalar c ≡ true
    → join_from none (units c ++ us) ≡ c ∷ join_from none us
unfolding join_from
join_from-units c us h = elim (Bool-cases (ltb c 65536)) [
  | inl small ↦ ground arith
  | inr large ↦ ground arith
]

join_from-all_units : (text : Text) → IsText text → join_from none (all_units text) ≡ text
unfolding join_from
join_from-all_units [] h = refl
join_from-all_units (c ∷ cs) h =
    join_from-units c (all_units cs) h.0 ∙ ap (λ t. c ∷ t) (join_from-all_units cs h.1)

scan_units-literal :
    (text rest : Text)
    → IsText text
    → scan_units plain (literal text rest) ≡ got (all_units text) rest
unfolding literal scan_units
scan_units-literal [] rest h = refl
scan_units-literal (c ∷ cs) rest h =
    scan_units-escape c (literal cs rest) (ground arith)
    ∙ ap (then_more (units c)) (scan_units-literal cs rest h.1)

-- A literal is read back.
pub scan_string-literal :
    (text rest : Text) → IsText text → scan_string (literal text rest) ≡ got text rest
unfolding scan_string
scan_string-literal text rest h = rw (scan_units-literal text rest h, join_from-all_units text h)
