-- ===== src/PasswordGen/Strength.antt =====
-- `estimate_entropy_bits`: the size of the apparent pool. The product of the length and the pool's
-- base-2 logarithm, a float, is left as the pair that it is computed from.
use mathlib.Core.Bool.{not, ◌&&◌, ◌||◌}
use secure_vault.Prelude.{
  ℕ, ◌+◌, ◌≤◌, ◌≡◌, arith, Bool, true, false, [], ◌∷◌, Text, contains, length, if◌then◌else◌, ◌==◌,
  Option, none, some,
}
use secure_vault.PasswordGen.{upper, lower, digits, symbols, is_empty}

-- `any(c in pool for c in password)`
abbrev pub any_in : Text → Text → Bool
any_in [] pool = false
any_in (c ∷ cs) pool = contains c pool || any_in cs pool

-- `any(c not in UPPER and c not in LOWER and c not in DIGITS for c in password)`
unfoldable pub any_other : Text → Bool
any_other [] = false
any_other (c ∷ cs) =
    (not (contains c upper) && not (contains c lower) && not (contains c digits)) || any_other cs

unfoldable pub apparent_pool : Text → ℕ
apparent_pool password =
    (if any_in password upper then length upper else 0)
    + (if any_in password lower then length lower else 0)
    + (if any_in password digits then length digits else 0)
    + (if any_other password then length symbols else 0)

-- The length and the pool whose entropy is returned; `none` where the code returns 0.0 at once.
unfoldable pub entropy_of : Text → Option (ℕ × ℕ)
entropy_of password =
    if is_empty password
    then none
    else if apparent_pool password == 0
    then none
    else some (length password, apparent_pool password)

some_class :
    (c : ℕ) (cs : Text)
    → any_in (c ∷ cs) upper ≡ false
    → any_in (c ∷ cs) lower ≡ false
    → any_in (c ∷ cs) digits ≡ false
    → any_other (c ∷ cs) ≡ true
unfolding any_other
some_class c cs no_upper no_lower no_digit = ground arith

pool_positive : (c : ℕ) (cs : Text) → 10 ≤ apparent_pool (c ∷ cs)
unfolding apparent_pool upper lower digits symbols
pool_positive c cs = ground (arith, some_class c cs)

pool_bounded : (password : Text) → apparent_pool password ≤ 88
unfolding apparent_pool upper lower digits symbols
pool_bounded password = ground arith

-- A password that is not empty is always estimated from a pool of 10 to 88 characters, so the
-- second test of the code, on an empty pool, never fires.
pub entropy_of_lem :
    (password : Text)
    → is_empty password ≡ false
    → (entropy_of password ≡ some (length password, apparent_pool password))
      × (10 ≤ apparent_pool password)
      × (apparent_pool password ≤ 88)
unfolding entropy_of
entropy_of_lem [] h = cc
entropy_of_lem (c ∷ cs) h =
    (ground (arith, pool_positive c cs), pool_positive c cs, pool_bounded (c ∷ cs))
