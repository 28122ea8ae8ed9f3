-- ===== src/Kdf.antt =====
-- kdf.py: the cost parameters of Argon2id, their range check, and `derive_key`.
pub mod Range
use mathlib.Core.Bool.{not, ◌&&◌}
use secure_vault.Prelude.{ℕ, leb, ◌==◌, length, Bytes}
use secure_vault.Errors.{Error, format_error, memory_range, time_range, parallelism_range}
use secure_vault.Errors.{bad_salt_length}
use secure_vault.Errors.Result.{Result, raise_if, ◌>>=◌, ◌>>◌}
use secure_vault.Crypto.{Crypto}

abbrev pub key_length : ℕ
key_length = 32

abbrev pub salt_length : ℕ
salt_length = 16

abbrev pub min_memory_kib : ℕ
min_memory_kib = 19_456

abbrev pub max_memory_kib : ℕ
max_memory_kib = 1_048_576

abbrev pub min_time_cost : ℕ
min_time_cost = 1

abbrev pub max_time_cost : ℕ
max_time_cost = 16

abbrev pub min_parallelism : ℕ
min_parallelism = 1

abbrev pub max_parallelism : ℕ
max_parallelism = 8

pub record Argon2Parameters : Type 0 where
  pub memory_kib : ℕ
  pub time_cost : ℕ
  pub parallelism : ℕ

-- `Argon2Parameters()`
abbrev pub default_parameters : Argon2Parameters
default_parameters = record { memory_kib = 65_536; time_cost = 3; parallelism = 4 }

-- `Argon2Parameters.validate`
unfoldable pub validate : Argon2Parameters → Result (Unit {0})
validate p = do
  raise_if (not (leb min_memory_kib p.memory_kib && leb p.memory_kib max_memory_kib))
      (format_error (memory_range p.memory_kib))
  raise_if (not (leb min_time_cost p.time_cost && leb p.time_cost max_time_cost))
      (format_error (time_range p.time_cost))
  raise_if (not (leb min_parallelism p.parallelism && leb p.parallelism max_parallelism))
      (format_error (parallelism_range p.parallelism))

module _ (c : Crypto) where
  unfoldable pub derive_key : Bytes → Bytes → Argon2Parameters → ℕ → Result Bytes
  derive_key password salt params n = do
    validate params
    raise_if (not (length salt == salt_length)) (format_error (bad_salt_length (length salt)))
    c.argon2id password salt params.time_cost params.memory_kib params.parallelism n
