-- ===== src/Vault/Written.antt =====
-- A file that holds a text for a password, and that sealed parts of the right sizes make one.
use secure_vault.Prelude.{ℕ, ◌≤◌, ◌≡◌, arith, length, Bytes, pack_le, length-append, length-pack_le}
use secure_vault.Errors.Result.{ok}
use secure_vault.Crypto.{Crypto, IsCrypto, max_text}
use secure_vault.Kdf.{Argon2Parameters}
use secure_vault.Kdf.Range.{IsInRange}
use secure_vault.FileFormat.{serialize, max_counter}
use secure_vault.FileFormat.Header.{header_bytes, length-header_bytes}
use secure_vault.FileFormat.RoundTrip.{HasSizes, file_bytes, serialize_lem}
use secure_vault.Vault.Opening.{kek_of, IsHashed, full_bytes, IsVaultFile}

-- `d` holds `text` for `password`, with these parameters and counter; the record has the parts.
pub record WrittenVault (c : Crypto) (password : Bytes) (p : Argon2Parameters) (n : ℕ)
    (text d : Bytes) : Type 0 where
  pub salt : Bytes
  pub dek : Bytes
  pub dek_nonce : Bytes
  pub dek_blob : Bytes
  pub body_nonce : Bytes
  pub body_blob : Bytes
  pub file : IsVaultFile c password p salt n dek text dek_nonce dek_blob body_nonce body_blob d

pub length-full_bytes :
    (p : Argon2Parameters) (salt : Bytes) (n : ℕ)
    → length salt ≡ 16
    → length (full_bytes p salt n) ≡ 44
length-full_bytes p salt n h = omega (
  arith,
  length-append (header_bytes p salt) (pack_le 8 n),
  length-header_bytes p salt h,
  length-pack_le 8 n,
)

module _ (c : Crypto) (L : IsCrypto c) where
  pub length-kek_of :
      (password : Bytes) (p : Argon2Parameters) (salt : Bytes)
      → IsHashed c password p salt
      → length (kek_of c password p salt) ≡ 32
  length-kek_of password p salt hashed =
      L.length-argon2id password salt p.time_cost p.memory_kib p.parallelism 32 _ hashed

  pub write_sealed :
      (password : Bytes) (p : Argon2Parameters) (salt : Bytes) (n : ℕ)
      (dek text dn db bn bb : Bytes)
      → IsInRange p
      → length salt ≡ 16
      → length dek ≡ 32
      → length dn ≡ 12
      → length bn ≡ 12
      → n ≤ max_counter
      → length text ≤ max_text
      → IsHashed c password p salt
      → c.seal (kek_of c password p salt) dn dek (header_bytes p salt) ≡ ok db
      → c.seal dek bn text (full_bytes p salt n) ≡ ok bb
      → (d : Bytes) × (serialize (header_bytes p salt) n dn db bn bb ≡ ok d)
        × IsVaultFile c password p salt n dek text dn db bn bb d
  write_sealed password p salt n dek text dn db bn bb r hs hd hdn hbn hn ht hashed wrapped sealed =
      let header = header_bytes p salt in
      let blob_size = L.length-seal _ dn dek header db wrapped in
      let body_size = L.length-seal dek bn text (full_bytes p salt n) bb sealed in
      let sizes : HasSizes header n dn db bn bb = record {
        header_size = length-header_bytes p salt hs;
        counter_fits = hn;
        dek_nonce_size = hdn;
        dek_blob_size = omega (arith, blob_size, hd);
        body_nonce_size = hbn;
        body_tag = omega (arith, body_size);
        body_fits = omega (arith, body_size, ht);
      } in
      let written = serialize_lem header n dn db bn bb sizes in
      (
        file_bytes header n dn db bn bb,
        written,
        record {
          range = r;
          salt_size = hs;
          dek_size = hd;
          hashed = hashed;
          wrapped = wrapped;
          sealed = sealed;
          written = written;
        },
      )
