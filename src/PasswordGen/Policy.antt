-- ===== src/PasswordGen/Policy.antt =====
-- Which policies are accepted, and what their pools hold.
use mathlib.Core.Bool.{◌||◌}
use secure_vault.Prelude.{
  ◌≤◌, ◌≡◌, ◌↔◌, ◌⊎◌, inl, inr, refl, arith, Bool-cases, true, false, List, Text, All, length,
}
use secure_vault.Errors.{Error, value_error, no_category, length_range}
use secure_vault.Errors.Result.{ok, err}
use secure_vault.PasswordGen.{
  PasswordPolicy, pools, validate_policy, selected_pools, kept_pools, strip, upper, lower, digits,
  symbols, ambiguous, is_empty, min_length, max_length,
}

-- At least one category is on.
abbrev pub HasCategory : PasswordPolicy → Type 0
HasCategory p = (p.use_upper || p.use_lower || p.use_digits || p.use_symbols) ≡ true

-- Stripping leaves every category some characters.
strip_some :
    (is_empty (strip upper) ≡ false)
    × (is_empty (strip lower) ≡ false)
    × (is_empty (strip digits) ≡ false)
    × (is_empty (strip symbols) ≡ false)
unfolding strip upper lower digits symbols ambiguous
strip_some = (refl, refl, refl, refl)

pub pools_lem : (p : PasswordPolicy) → HasCategory p → pools p ≡ ok (kept_pools p)
unfolding pools kept_pools selected_pools
pools_lem p h = ground (arith, strip_some)

abbrev pub IsFull : List Text → Type 0
IsFull = All (λ pool. is_empty pool ≡ false)

pub kept_pools-IsFull :
    (p : PasswordPolicy) → HasCategory p → IsFull (kept_pools p) × (length (kept_pools p) ≤ 4)
unfolding kept_pools selected_pools upper lower digits symbols
kept_pools-IsFull p h = ground (arith, strip_some)

pub kept_pools_some : (p : PasswordPolicy) → HasCategory p → is_empty (kept_pools p) ≡ false
unfolding kept_pools selected_pools
kept_pools_some p h = ground (arith, strip_some)

pools_none : (p : PasswordPolicy) → ¬ HasCategory p → pools p ≡ err (value_error no_category)
unfolding pools selected_pools
pools_none p h = ground arith

validate_policy-accepts :
    (p : PasswordPolicy)
    → validate_policy p ≡ ok tt
    → (min_length ≤ p.length) × (p.length ≤ max_length) × HasCategory p
unfolding validate_policy
validate_policy-accepts p e =
    elim (Bool-cases (p.use_upper || p.use_lower || p.use_digits || p.use_symbols)) [
      | inl some_on ↦ ground arith
      | inr all_off ↦ ground (arith, pools_none p)
    ]

accepts-validate_policy :
    (p : PasswordPolicy)
    → (min_length ≤ p.length) × (p.length ≤ max_length) × HasCategory p
    → validate_policy p ≡ ok tt
unfolding validate_policy
accepts-validate_policy p (low, high, on) =
    ground (arith, pools_lem p on, (kept_pools-IsFull p on).1)

-- A policy is accepted exactly when its length lies between 8 and 256 and a category is on: the
-- ambiguous characters and the number of categories never refuse one.
pub validate_policy_iff :
    (p : PasswordPolicy)
    → (validate_policy p ≡ ok tt)
      ↔ ((min_length ≤ p.length) × (p.length ≤ max_length) × HasCategory p)
validate_policy_iff p = (validate_policy-accepts p, accepts-validate_policy p)

-- A policy is refused for its length or for having no category, and for nothing else.
pub validate_policy_errors :
    (p : PasswordPolicy) (e : Error)
    → validate_policy p ≡ err e
    → (e ≡ value_error length_range) ⊎ (e ≡ value_error no_category)
unfolding validate_policy
validate_policy_errors p e h =
    elim (Bool-cases (p.use_upper || p.use_lower || p.use_digits || p.use_symbols)) [
      | inl some_on ↦ ground (arith, pools_lem p some_on, (kept_pools-IsFull p some_on).1)
      | inr all_off ↦ ground (arith, pools_none p)
    ]

-- A policy of a proper length that has no category is refused for that.
pub validate_policy_none :
    (p : PasswordPolicy)
    → min_length ≤ p.length
    → p.length ≤ max_length
    → ¬ HasCategory p
    → validate_policy p ≡ err (value_error no_category)
unfolding validate_policy
validate_policy_none p low high off = ground (arith, pools_none p off)
