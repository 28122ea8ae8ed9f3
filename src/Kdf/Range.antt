-- ===== src/Kdf/Range.antt =====
-- What the range check of the Argon2 parameters promises.
use secure_vault.Prelude.{ℕ, ◌≤◌, ◌≡◌, ◌↔◌, arith, length, Bytes}
use secure_vault.Errors.Result.{ok}
use secure_vault.Crypto.{Crypto}
use secure_vault.Kdf.{Argon2Parameters, validate, derive_key, salt_length}
use secure_vault.Kdf.{min_memory_kib, max_memory_kib, min_time_cost, max_time_cost}
use secure_vault.Kdf.{min_parallelism, max_parallelism}

-- The parameters lie in the six bounds of kdf.py.
pub record IsInRange (p : Argon2Parameters) : Type 0 where
  pub memory_low : min_memory_kib ≤ p.memory_kib
  pub memory_high : p.memory_kib ≤ max_memory_kib
  pub time_low : min_time_cost ≤ p.time_cost
  pub time_high : p.time_cost ≤ max_time_cost
  pub parallelism_low : min_parallelism ≤ p.parallelism
  pub parallelism_high : p.parallelism ≤ max_parallelism

pub validate-IsInRange : (p : Argon2Parameters) → validate p ≡ ok tt → IsInRange p
unfolding validate
validate-IsInRange p h = ground arith

pub IsInRange-validate : (p : Argon2Parameters) → IsInRange p → validate p ≡ ok tt
unfolding validate
IsInRange-validate p h = ground arith

-- The check passes exactly when the parameters lie in the bounds.
pub validate_iff : (p : Argon2Parameters) → (validate p ≡ ok tt) ↔ IsInRange p
validate_iff p = (validate-IsInRange p, IsInRange-validate p)

-- With valid parameters and a salt of the right length the key is what Argon2 gives.
pub derive_key_lem :
    (c : Crypto) (password salt : Bytes) (p : Argon2Parameters) (n : ℕ)
    → IsInRange p
    → length salt ≡ salt_length
    → derive_key c password salt p n
      ≡ c.argon2id password salt p.time_cost p.memory_kib p.parallelism n
unfolding derive_key
derive_key_lem c password salt p n r s = ground (arith, IsInRange-validate p r)
