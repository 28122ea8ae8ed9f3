-- ===== src/Vault/Opened.antt =====
-- An open session: what `open_vault` establishes and every method keeps.
use secure_vault.Prelude.{ℕ, ◌<◌, ◌≡◌, ◌≢◌, ◌∙◌, refl, ap, arith, length, Bytes, false}
use secure_vault.Errors.Result.{ok}
use secure_vault.Random.{Entropy}
use secure_vault.Crypto.{Crypto, IsCrypto}
use secure_vault.Kdf.{Argon2Parameters}
use secure_vault.Kdf.Range.{IsInRange}
use secure_vault.FileFormat.Header.{header_bytes}
use secure_vault.FileFormat.RoundTrip.{serialize-eq-ok}
use secure_vault.Memory.{World}
use secure_vault.Vault.{UnlockedVault, Session, open_vault}
use secure_vault.Vault.Opening.{
  kek_of, IsHashed, IsVaultFile, opened, opened_world, open_sealed, opened_buffers,
}
use secure_vault.Vault.Written.{WrittenVault}

-- The session is open on a vault with this password and text: its header is that of its
-- parameters and salt, its wrapped key is its data key sealed under the key of the password, and
-- its two buffers are different ones, with the data key of 32 bytes and the text.
pub record IsOpenWith (c : Crypto) (password text : Bytes) (s : Session) : Type 0 where
  pub is_open : s.vault.closed ≡ false
  pub range : IsInRange s.vault.params
  pub salt_size : length s.vault.salt ≡ 16
  pub header_eq : s.vault.kdf_header ≡ header_bytes s.vault.params s.vault.salt
  pub dek_size : length (s.world.heap s.vault.dek) ≡ 32
  pub nonce_size : length s.vault.dek_nonce ≡ 12
  pub hashed : IsHashed c password s.vault.params s.vault.salt
  pub wrapped :
      c.seal
        (kek_of c password s.vault.params s.vault.salt)
        s.vault.dek_nonce
        (s.world.heap s.vault.dek)
        (header_bytes s.vault.params s.vault.salt)
      ≡ ok s.vault.dek_blob
  pub text_eq : s.world.heap s.vault.plaintext ≡ text
  pub dek_allocated : s.vault.dek < s.world.next
  pub text_allocated : s.vault.plaintext < s.world.next
  pub apart : s.vault.dek ≢ s.vault.plaintext

-- Random numbers that were taken since do not matter.
pub redrawn-IsOpenWith :
    (c : Crypto) {password text : Bytes} {s : Session} (e : Entropy)
    → IsOpenWith c password text s
    → IsOpenWith c password text (record s { world = record s.world { entropy = e } })
redrawn-IsOpenWith c e o = record {
  is_open = o.is_open;
  range = o.range;
  salt_size = o.salt_size;
  header_eq = o.header_eq;
  dek_size = o.dek_size;
  nonce_size = o.nonce_size;
  hashed = o.hashed;
  wrapped = o.wrapped;
  text_eq = o.text_eq;
  dek_allocated = o.dek_allocated;
  text_allocated = o.text_allocated;
  apart = o.apart;
}

-- `open_vault` on the file returns an open session with the password, the text, the parameters and
-- the counter.
abbrev pub Opens : Crypto → Bytes → Bytes → World → Argon2Parameters → ℕ → Bytes → Type 0
Opens c password d later p n text =
    (v : UnlockedVault) × (w : World) × (open_vault c password d later ≡ (ok v, w))
    × IsOpenWith c password text (record { vault = v; world = w })
    × (v.counter ≡ n)
    × (v.params ≡ p)

module _ (c : Crypto) (L : IsCrypto c) where
  pub opened-IsOpenWith :
      (password : Bytes) (p : Argon2Parameters) (salt : Bytes) (n : ℕ)
      (dek text dn db bn bb d : Bytes) (w : World)
      → IsVaultFile c password p salt n dek text dn db bn bb d
      → IsOpenWith c password text
          (record { vault = opened p salt n dn db w; world = opened_world dek text w })
  opened-IsOpenWith password p salt n dek text dn db bn bb d w f =
      let (sizes, _) = serialize-eq-ok (header_bytes p salt) n dn db bn bb d f.written in
      let (key, body) = opened_buffers dek text w in
      record {
        is_open = refl;
        range = f.range;
        salt_size = f.salt_size;
        header_eq = refl;
        dek_size = ap length key ∙ f.dek_size;
        nonce_size = sizes.dek_nonce_size;
        hashed = f.hashed;
        wrapped =
            ap (λ k. c.seal (kek_of c password p salt) dn k (header_bytes p salt)) key ∙ f.wrapped;
        text_eq = body;
        dek_allocated = omega arith;
        text_allocated = omega arith;
        apart = omega arith;
      }

  pub written-Opens :
      (password : Bytes) (p : Argon2Parameters) (n : ℕ) (text d : Bytes) (later : World)
      → WrittenVault c password p n text d
      → Opens c password d later p n text
  written-Opens password p n text d later v = (
    _,
    _,
    open_sealed c L password p v.salt n v.dek text _ _ _ _ d later v.file,
    opened-IsOpenWith password p v.salt n v.dek text _ _ _ _ d later v.file,
    refl,
    refl,
  )
