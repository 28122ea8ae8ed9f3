-- ===== src/Crypto.antt =====
-- The third-party code that the program calls: `argon2.low_level.hash_secret_raw` (kdf.py) and
-- `AESGCM(key).encrypt` and `.decrypt` of `cryptography` (aead.py), with their documented behaviour.
use secure_vault.Prelude.{ℕ, ◌+◌, ◌≤◌, ◌≡◌, length, Bytes}
use secure_vault.Errors.Result.{Result, ok, err}
use secure_vault.Errors.{Error, invalid_tag, hashing_error}

pub record Crypto : Type 0 where
  -- secret, salt, time_cost, memory_cost, parallelism, hash_len
  pub argon2id : Bytes → Bytes → ℕ → ℕ → ℕ → ℕ → Result Bytes
  -- key, nonce, data, associated data
  pub seal : Bytes → Bytes → Bytes → Bytes → Result Bytes
  pub unseal : Bytes → Bytes → Bytes → Bytes → Result Bytes

-- The largest text that AESGCM takes: more raises `OverflowError`.
abbrev pub max_text : ℕ
max_text = 2147483647

pub record IsCrypto (c : Crypto) : Type 0 where
  pub length-argon2id :
      (secret salt : Bytes) (t m p n : ℕ) (key : Bytes)
      → c.argon2id secret salt t m p n ≡ ok key
      → length key ≡ n
  -- Hashing fails by `HashingError` only, for one where the memory cannot be had.
  pub argon2id_fails :
      (secret salt : Bytes) (t m p n : ℕ) (e : Error)
      → c.argon2id secret salt t m p n ≡ err e
      → e ≡ hashing_error
  -- The result is the ciphertext, as long as the text, and a tag of 16 bytes.
  pub seal_total :
      (k n x a : Bytes)
      → length k ≡ 32
      → length n ≡ 12
      → length x ≤ max_text
      → length a ≤ max_text
      → (b : Bytes) × (c.seal k n x a ≡ ok b)
  pub length-seal : (k n x a b : Bytes) → c.seal k n x a ≡ ok b → length b ≡ length x + 16
  pub unseal-seal : (k n x a b : Bytes) → c.seal k n x a ≡ ok b → c.unseal k n b a ≡ ok x
  -- GCM is deterministic: a text that passes its tag is the one that sealing gives.
  pub seal-unseal : (k n x a b : Bytes) → c.unseal k n b a ≡ ok x → c.seal k n x a ≡ ok b
  -- With a key, a nonce and a blob of the right sizes, `decrypt` fails by `InvalidTag` only.
  pub unseal_fails :
      (k n b a : Bytes) (e : Error)
      → length k ≡ 32
      → length n ≡ 12
      → 16 ≤ length b
      → c.unseal k n b a ≡ err e
      → e ≡ invalid_tag
