-- ===== src/Vault/Opening.antt =====
-- `open_vault` on a file whose parts were sealed.
use secure_vault.Prelude.{
  ℕ, ◌+◌, ◌≡◌, ◌⊎◌, inl, inr, sym, ap, [], ◌∙◌, arith, ◌++◌, false, length, Bytes, pack_le,
}
use secure_vault.Errors.{Error}
use secure_vault.Errors.Result.{Result, ok, err, Result-cases}
use secure_vault.Crypto.{Crypto, IsCrypto}
use secure_vault.Kdf.{Argon2Parameters}
use secure_vault.Kdf.Range.{IsInRange, IsInRange-validate, derive_key_lem}
use secure_vault.Aead.RoundTrip.{decrypt_sealed}
use secure_vault.FileFormat.{serialize}
use secure_vault.FileFormat.Header.{header_bytes, build_kdf_header_lem, build_full_header_lem}
use secure_vault.FileFormat.RoundTrip.{parse-serialize, serialize-eq-ok}
use secure_vault.Memory.{World, update}
use secure_vault.Memory.Wipe.{update_self, update_ne}
use secure_vault.Vault.{UnlockedVault, open_vault}

abbrev pub or_empty : Result Bytes → Bytes
or_empty (ok key) = key
or_empty (err e) = []

-- The key that the password gives under some parameters and a salt, if Argon2 does not fail.
abbrev pub kek_of : Crypto → Bytes → Argon2Parameters → Bytes → Bytes
kek_of c password p salt =
    or_empty (c.argon2id password salt p.time_cost p.memory_kib p.parallelism 32)

-- Argon2 gives the key of the password under some parameters and a salt.
abbrev pub IsHashed : Crypto → Bytes → Argon2Parameters → Bytes → Type 0
IsHashed c password p salt =
    c.argon2id password salt p.time_cost p.memory_kib p.parallelism 32
    ≡ ok (kek_of c password p salt)

-- Argon2 gave some key, or it failed.
pub IsHashed-cases :
    (c : Crypto) (password : Bytes) (p : Argon2Parameters) (salt : Bytes)
    → ((e : Error) × (c.argon2id password salt p.time_cost p.memory_kib p.parallelism 32 ≡ err e))
      ⊎ IsHashed c password p salt
IsHashed-cases c password p salt =
    elim (Result-cases (c.argon2id password salt p.time_cost p.memory_kib p.parallelism 32)) [
      | inl failed ↦ inl failed
      | inr (key, hashed) ↦ inr (hashed ∙ ap ok (sym (ap or_empty hashed)))
    ]

-- The header with the counter.
abbrev pub full_bytes : Argon2Parameters → Bytes → ℕ → Bytes
full_bytes p salt n = header_bytes p salt ++ pack_le 8 n

-- What is on disk: the data key `dek` sealed under the key of the password, and the text sealed
-- under `dek`.
pub record IsVaultFile (c : Crypto) (password : Bytes) (p : Argon2Parameters) (salt : Bytes) (n : ℕ)
    (dek text dn db bn bb d : Bytes) : Type 0 where
  pub range : IsInRange p
  pub salt_size : length salt ≡ 16
  pub dek_size : length dek ≡ 32
  pub hashed : IsHashed c password p salt
  pub wrapped : c.seal (kek_of c password p salt) dn dek (header_bytes p salt) ≡ ok db
  pub sealed : c.seal dek bn text (full_bytes p salt n) ≡ ok bb
  pub written : serialize (header_bytes p salt) n dn db bn bb ≡ ok d

-- The object that `open_vault` makes, and the two bytearrays that it allocates.
abbrev pub opened : Argon2Parameters → Bytes → ℕ → Bytes → Bytes → World → UnlockedVault
opened p salt n dn db w = record {
  params = p;
  salt = salt;
  counter = n;
  kdf_header = header_bytes p salt;
  dek_nonce = dn;
  dek_blob = db;
  dek = w.next;
  plaintext = w.next + 1;
  closed = false;
}

abbrev pub opened_world : Bytes → Bytes → World → World
opened_world dek text w = record w {
  heap = update (update w.heap w.next dek) (w.next + 1) text;
  next = w.next + 1 + 1;
}

-- The two buffers hold the key and the text.
pub opened_buffers :
    (dek text : Bytes) (w : World)
    → ((opened_world dek text w).heap w.next ≡ dek)
      × ((opened_world dek text w).heap (w.next + 1) ≡ text)
opened_buffers dek text w =
    let below = update w.heap w.next dek in
    (
      update_ne below (w.next + 1) w.next text (omega arith) ∙ update_self w.heap w.next dek,
      update_self below (w.next + 1) text,
    )

module _ (c : Crypto) (L : IsCrypto c) where
  pub open_sealed :
      (password : Bytes) (p : Argon2Parameters) (salt : Bytes) (n : ℕ)
      (dek text dn db bn bb d : Bytes) (w : World)
      → IsVaultFile c password p salt n dek text dn db bn bb d
      → open_vault c password d w ≡ (ok (opened p salt n dn db w), opened_world dek text w)
  unfolding open_vault
  open_sealed password p salt n dek text dn db bn bb d w f =
      let header = header_bytes p salt in
      let (sizes, _) = serialize-eq-ok header n dn db bn bb d f.written in
      let full = full_bytes p salt n in
      let parsed =
        parse-serialize p salt header full dn db bn bb d n (IsInRange-validate p f.range)
          (build_kdf_header_lem p salt f.range f.salt_size)
          (build_full_header_lem p salt n f.range f.salt_size sizes.counter_fits) f.written in
      let key = derive_key_lem c password salt p 32 f.range f.salt_size ∙ f.hashed in
      let kek_size =
        L.length-argon2id password salt p.time_cost p.memory_kib p.parallelism 32 _ f.hashed in
      let unwrapped =
        decrypt_sealed c L _ dn dek header db kek_size sizes.dek_nonce_size f.wrapped in
      let read_body =
        decrypt_sealed c L dek bn text full bb f.dek_size sizes.body_nonce_size f.sealed in
      rw (parsed, key, unwrapped, read_body)
