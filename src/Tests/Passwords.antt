-- ===== src/Tests/Passwords.antt =====
-- The theorems of passwordgen.py at concrete inputs.
use secure_vault.Prelude.{
  ◌≡◌, ◌≤◌, ◌↔◌, ◌+◌, ◌*◌, refl, true, false, contains, All, length, Text, codes,
}
use secure_vault.Errors.Result.{ok}
use secure_vault.Random.{Entropy, advance, shuffle_from}
use secure_vault.PasswordGen.{
  PasswordPolicy, validate_policy, kept_pools, selected_pools, pools, strip, ambiguous, upper,
  lower, digits, symbols, min_length, max_length,
}
use secure_vault.PasswordGen.Policy.{HasCategory, validate_policy_iff}
use secure_vault.PasswordGen.Draw.{join, choose_each, choose_many, draw_password, generate_password}
use secure_vault.PasswordGen.Generate.{Covers, generate_password_total}
use secure_vault.PasswordGen.Clear.{IsClear, generate_password_unambiguous}

-- Ten characters, digits and upper-case letters, none of them ambiguous.
abbrev pin : PasswordPolicy
pin = record {
  length = 10;
  use_upper = true;
  use_lower = false;
  use_digits = true;
  use_symbols = false;
  exclude_ambiguous = true;
}

abbrev source : Entropy
source i = 7 * i + 3

pin_accepted : validate_policy pin ≡ ok tt
unfolding validate_policy pools kept_pools selected_pools strip ambiguous upper lower digits symbols
pin_accepted = refl

abbrev pin_password : Text
pin_password = codes "D4T9PGCW52"

validate_policy_iff_example :
    (validate_policy pin ≡ ok tt) ↔ ((min_length ≤ 10) × (10 ≤ max_length) × HasCategory pin)
validate_policy_iff_example = validate_policy_iff pin

generate_password_total_example :
    (pw : Text) × (length pw ≡ 10)
    × All (λ c. contains c (join (kept_pools pin)) ≡ true) pw
    × Covers (kept_pools pin) pw
    × ((generate_password pin source).0 ≡ ok pw)
generate_password_total_example = generate_password_total pin source pin_accepted

generate_password_unambiguous_example : IsClear pin_password
unfolding generate_password draw_password choose_each choose_many shuffle_from validate_policy pools
    kept_pools selected_pools strip ambiguous upper lower digits symbols advance
generate_password_unambiguous_example =
    generate_password_unambiguous pin source pin_password refl refl
