-- ===== src/PasswordGen.antt =====
-- passwordgen.py: the character pools of a policy and its check.
pub mod Policy
pub mod Draw
pub mod Generate
pub mod Clear
pub mod Strength
use mathlib.Core.Bool.{not, ◌&&◌, ◌||◌}
use secure_vault.Prelude.{
  ℕ, zero, suc, ◌+◌, ◌-◌, Bool, true, false, List, [], ◌∷◌, ◌++◌, map, leb, ltb, ◌==◌,
  if◌then◌else◌, length, Text, codes, contains,
}
use secure_vault.Errors.{value_error, no_category, all_ambiguous, length_range, length_short}
use secure_vault.Errors.Result.{Result, ok, raise_if, ◌>>=◌, ◌>>◌}

unfoldable pub upper : Text
upper = codes "ABCDEFGHIJKLMNOPQRSTUVWXYZ"

unfoldable pub lower : Text
lower = codes "abcdefghijklmnopqrstuvwxyz"

unfoldable pub digits : Text
digits = codes "0123456789"

unfoldable pub symbols : Text
symbols = codes "!@#$%^&*()-_=+[]{};:,.<>?/"

unfoldable pub ambiguous : Text
ambiguous = codes "Il1O0"

abbrev pub min_length : ℕ
min_length = 8

abbrev pub max_length : ℕ
max_length = 256

pub record PasswordPolicy : Type 0 where
  pub length : ℕ
  pub use_upper : Bool
  pub use_lower : Bool
  pub use_digits : Bool
  pub use_symbols : Bool
  pub exclude_ambiguous : Bool

-- `if flag: selected.append(pool)`
abbrev pub append_if : Bool → Text → List Text → List Text
append_if flag pool selected = if flag then selected ++ (pool ∷ []) else selected

-- `"".join(c for c in pool if c not in AMBIGUOUS)`
unfoldable pub strip : Text → Text
strip [] = []
strip (c ∷ cs) = let rest = strip cs in if contains c ambiguous then rest else c ∷ rest

abbrev pub is_empty {ℓ} : {A : Type ℓ} → List A → Bool
is_empty [] = true
is_empty (x ∷ xs) = false

-- `[pool for pool in selected if pool]`
abbrev pub non_empty : List Text → List Text
non_empty [] = []
non_empty (x ∷ xs) = let rest = non_empty xs in if is_empty x then rest else x ∷ rest

unfoldable pub selected_pools : PasswordPolicy → List Text
selected_pools p =
    append_if p.use_symbols symbols
      (append_if p.use_digits digits (append_if p.use_lower lower (append_if p.use_upper upper [])))

-- The list after the ambiguous characters are dropped, if they are to be.
unfoldable pub kept_pools : PasswordPolicy → List Text
kept_pools p =
    if p.exclude_ambiguous then non_empty (map strip (selected_pools p)) else selected_pools p

unfoldable pub pools : PasswordPolicy → Result (List Text)
pools p = do
  raise_if (is_empty (selected_pools p)) (value_error no_category)
  raise_if (is_empty (kept_pools p)) (value_error all_ambiguous)
  ok (kept_pools p)

-- `PasswordPolicy.validate`
unfoldable pub validate_policy : PasswordPolicy → Result (Unit {0})
validate_policy p = do
  raise_if (not (leb min_length p.length && leb p.length max_length)) (value_error length_range)
  found ← pools p
  raise_if (ltb p.length (length found)) (value_error (length_short p.length (length found)))
