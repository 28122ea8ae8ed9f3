-- ===== src/Vault/Authenticity.antt =====
-- What a successful `open_vault` says of the file, and how it fails.
use secure_vault.Prelude.{
  ℕ, false, ◌+◌, ◌≡◌, ◌⊎◌, inl, inr, sym, ap, ◌∙◌, subst, subst₂, arith, length, Bytes, IsBytes,
  take, length-take,
}
use secure_vault.Errors.{Error, authentication_error, hashing_error}
use secure_vault.Errors.Result.{ok, err, err_inj, ok_inj, Result-cases}
use secure_vault.Errors.Raises.{Raises, IsFormatError, raises_rules}
use secure_vault.Crypto.{Crypto, IsCrypto}
use secure_vault.Kdf.{Argon2Parameters, validate, derive_key}
use secure_vault.Kdf.Range.{IsInRange, validate-IsInRange, derive_key_lem}
use secure_vault.Aead.{decrypt}
use secure_vault.Aead.RoundTrip.{decrypt-eq-ok, decrypt_fails}
use secure_vault.FileFormat.{ParsedVaultFile, parse, check_header}
use secure_vault.FileFormat.RoundTrip.{serialize-eq-ok}
use secure_vault.FileFormat.Slices.{length-slice}
use secure_vault.FileFormat.Header.{
  check_header_valid, header_bytes, build_kdf_header-eq-ok, build_full_header_lem,
}
use secure_vault.FileFormat.Sound.{parse-Parses, serialize-parse}
use secure_vault.Memory.{World}
use secure_vault.Vault.{UnlockedVault, open_vault}
use secure_vault.Vault.Opening.{
  kek_of, IsHashed, IsHashed-cases, opened_world, IsVaultFile, full_bytes, opened, opened_buffers,
}
use secure_vault.Vault.Written.{WrittenVault, length-kek_of}
use secure_vault.Vault.Opened.{IsOpenWith, opened-IsOpenWith}

-- `parse` fails by `VaultFormatError` only.
pub parse-Raises : (d : Bytes) → Raises IsFormatError (parse d)
unfolding parse check_header validate
parse-Raises d = search raises_rules depth 30

-- What `parse` guarantees of the fields that the keys depend on.
record HasKeyFields (f : ParsedVaultFile) : Type 0 where
  range : IsInRange f.params
  salt_size : length f.salt ≡ 16
  blob_size : length f.dek_blob ≡ 48

parse-HasKeyFields : (d : Bytes) (f : ParsedVaultFile) → parse d ≡ ok f → HasKeyFields f
parse-HasKeyFields d f e =
    let q = parse-Parses d f e in
    record {
      range = validate-IsInRange f.params (check_header_valid (take 36 d) f.params q.header_good);
      salt_size =
          ap length q.salt_eq
          ∙ length-slice 20 36 (take 36 d) (omega arith) (omega (arith, q, length-take 36 d));
      blob_size = ap length q.dek_blob_eq ∙ length-slice 56 104 d (omega arith) (omega (arith, q));
    }

module _ (c : Crypto) (L : IsCrypto c) (password : Bytes) (f : ParsedVaultFile)
    (k : HasKeyFields f) where
  -- The password's key, for the parameters and the salt of the file.
  abbrev file_kek : Bytes
  file_kek = kek_of c password f.params f.salt

  derived :
      derive_key c password f.salt f.params 32
      ≡ c.argon2id password f.salt f.params.time_cost f.params.memory_kib f.params.parallelism 32
  derived = derive_key_lem c password f.salt f.params 32 k.range k.salt_size

  -- The data key that is unwrapped has 32 bytes.
  unwrapped_size :
      (dek : Bytes)
      → decrypt c file_kek f.dek_nonce f.dek_blob f.kdf_header ≡ ok dek
      → length dek ≡ 32
  unwrapped_size dek e =
      let (_, _, sealed) = decrypt-eq-ok c L file_kek f.dek_nonce f.dek_blob f.kdf_header dek e in
      omega
        (arith, L.length-seal file_kek f.dek_nonce dek f.kdf_header f.dek_blob sealed, k.blob_size)

  -- Once the file is parsed and its key derived, the only error is the authentication error.
  decrypts-Raises :
      (w : World) (e : Error) (d : Bytes)
      → parse d ≡ ok f
      → IsHashed c password f.params f.salt
      → (open_vault c password d w).0 ≡ err e
      → e ≡ authentication_error
  unfolding open_vault
  decrypts-Raises w e d parsed hashed failed =
      let key = derived ∙ hashed in
      elim (Result-cases (decrypt c file_kek f.dek_nonce f.dek_blob f.kdf_header)) [
        | inl (e1, h1) ↦
            let auth =
              decrypt_fails c L file_kek _ _ _ e1
                (length-kek_of c L password f.params f.salt hashed) h1 in
            err_inj {A = UnlockedVault} e e1 (sym failed ∙ rw (parsed, key, h1)) ∙ auth
        | inr (dek, h1) ↦
            elim (Result-cases (decrypt c dek f.body_nonce f.body_blob f.full_header)) [
              | inl (e2, h2) ↦
                  let auth = decrypt_fails c L dek _ _ _ e2 (unwrapped_size dek h1) h2 in
                  err_inj {A = UnlockedVault} e e2 (sym failed ∙ rw (parsed, key, h1, h2)) ∙ auth
              | inr (body, h2) ↦ cc (rw (parsed, key, h1, h2) at failed)
            ]
      ]

  -- What a successful call has decrypted.
  record HasDecrypted (w : World) (v : UnlockedVault) (w' : World) : Type 0 where
    pub key : Bytes
    pub hashed : IsHashed c password f.params f.salt
    pub text : Bytes
    pub key_opened : decrypt c file_kek f.dek_nonce f.dek_blob f.kdf_header ≡ ok key
    pub text_opened : decrypt c key f.body_nonce f.body_blob f.full_header ≡ ok text
    pub vault_eq : v ≡ record {
      params = f.params;
      salt = f.salt;
      counter = f.counter;
      kdf_header = f.kdf_header;
      dek_nonce = f.dek_nonce;
      dek_blob = f.dek_blob;
      dek = w.next;
      plaintext = w.next + 1;
      closed = false;
    }
    pub world_eq : w' ≡ opened_world key text w

  open_vault-HasDecrypted :
      (d : Bytes) (w w' : World) (v : UnlockedVault)
      → parse d ≡ ok f
      → open_vault c password d w ≡ (ok v, w')
      → HasDecrypted w v w'
  unfolding open_vault
  open_vault-HasDecrypted d w w' v parsed opens = elim (IsHashed-cases c password f.params f.salt) [
    | inl (e, failed) ↦ let raised = derived ∙ failed in cc (rw (parsed, raised) at opens)
    | inr hashed ↦
        let key = derived ∙ hashed in
        elim (Result-cases (decrypt c file_kek f.dek_nonce f.dek_blob f.kdf_header)) [
          | inl (e1, h1) ↦ cc (rw (parsed, key, h1) at opens)
          | inr (dek, h1) ↦
              elim (Result-cases (decrypt c dek f.body_nonce f.body_blob f.full_header)) [
                | inl (e2, h2) ↦ cc (rw (parsed, key, h1, h2) at opens)
                | inr (body, h2) ↦
                    let done = rw (parsed, key, h1, h2) at opens in
                    record {
                      key = dek;
                      hashed = hashed;
                      text = body;
                      key_opened = h1;
                      text_opened = h2;
                      vault_eq = ok_inj _ _ (ap (λ x. x.0) (sym done));
                      world_eq = ap (λ x. x.1) (sym done);
                    }
              ]
        ]
  ]

-- The file that was opened, as the image of sealing.
opened_file :
    (c : Crypto) (password d : Bytes) (f : ParsedVaultFile) (key text : Bytes)
    → IsCrypto c
    → IsBytes d
    → parse d ≡ ok f
    → length key ≡ 32
    → IsHashed c password f.params f.salt
    → c.seal (kek_of c password f.params f.salt) f.dek_nonce key f.kdf_header ≡ ok f.dek_blob
    → c.seal key f.body_nonce text f.full_header ≡ ok f.body_blob
    → (f.kdf_header ≡ header_bytes f.params f.salt)
      × IsVaultFile c password f.params f.salt f.counter key text f.dek_nonce f.dek_blob
          f.body_nonce f.body_blob d
opened_file c password d f key text L b parsed size hashed wrapped sealed =
    let k = parse-HasKeyFields d f parsed in
    let (built, built_full, written) = serialize-parse d f b parsed in
    let (_, header_eq) = build_kdf_header-eq-ok f.params f.salt built in
    let (sizes, _) = serialize-eq-ok f.kdf_header f.counter _ _ _ _ d written in
    let full_eq : f.full_header ≡ full_bytes f.params f.salt f.counter = ok_inj _ _ (
      sym built_full
      ∙ build_full_header_lem f.params f.salt f.counter k.range k.salt_size sizes.counter_fits) in
    (
      header_eq,
      record {
        range = k.range;
        salt_size = k.salt_size;
        dek_size = size;
        hashed = hashed;
        wrapped = rw header_eq at wrapped;
        sealed = rw full_eq at sealed;
        written = rw header_eq at written;
      },
    )

-- A file that is refused by `parse` is refused for every password, and nothing has changed.
pub open_vault_refused :
    (c : Crypto) (password d : Bytes) (w : World) (e : Error)
    → parse d ≡ err e
    → open_vault c password d w ≡ (err e, w)
unfolding open_vault
open_vault_refused c password d w e refused = rw refused

-- `v` and `w'` are an open session on the file.
abbrev pub OpenedFrom : Crypto → Bytes → Bytes → UnlockedVault → World → Type 0
OpenedFrom c password d v w' =
    WrittenVault c password v.params v.counter (w'.heap v.plaintext) d
    × IsOpenWith c password (w'.heap v.plaintext) (record { vault = v; world = w' })

opened-OpenedFrom :
    (c : Crypto) (password : Bytes) (p : Argon2Parameters) (salt : Bytes) (n : ℕ)
    (key text dn db bn bb d : Bytes) (w : World)
    → IsCrypto c
    → IsVaultFile c password p salt n key text dn db bn bb d
    → OpenedFrom c password d (opened p salt n dn db w) (opened_world key text w)
opened-OpenedFrom c password p salt n key text dn db bn bb d w L file =
    subst
      (λ t.
        WrittenVault c password p n t d
        × IsOpenWith c password t
            (record { vault = opened p salt n dn db w; world = opened_world key text w }))
      (sym (opened_buffers key text w).1)
      (
        record {
          salt = salt;
          dek = key;
          dek_nonce = dn;
          dek_blob = db;
          body_nonce = bn;
          body_blob = bb;
          file = file;
        },
        opened-IsOpenWith c L password p salt n key text dn db bn bb d w file,
      )

-- Only what was sealed with the password opens: if `open_vault` returns, then the whole file is
-- the one that `serialize` makes of a data key sealed under the password's key with this header as
-- associated data, and of the returned text sealed under that data key with the full header; and
-- the session is an open one with this password and this text.
pub open_vault_authentic :
    (c : Crypto) (password d : Bytes) (w w' : World) (v : UnlockedVault)
    → IsCrypto c
    → IsBytes d
    → open_vault c password d w ≡ (ok v, w')
    → OpenedFrom c password d v w'
open_vault_authentic c password d w w' v L b opens = elim (Result-cases (parse d)) [
  | inl (e, refused) ↦ cc (rw (open_vault_refused c password d w e refused) at opens)
  | inr (f, parsed) ↦
      let k = parse-HasKeyFields d f parsed in
      let h = open_vault-HasDecrypted c L password f k d w w' v parsed opens in
      let (_, _, wrapped) = decrypt-eq-ok c L _ _ _ _ h.key h.key_opened in
      let (_, _, sealed) = decrypt-eq-ok c L _ _ _ _ h.text h.text_opened in
      let size = unwrapped_size c L password f k h.key h.key_opened in
      let (header_eq, file) =
        opened_file c password d f h.key h.text L b parsed size h.hashed wrapped sealed in
      let vault_eq : v ≡ opened f.params f.salt f.counter f.dek_nonce f.dek_blob w =
        h.vault_eq ∙ rw header_eq in
      subst₂ (OpenedFrom c password d) (sym vault_eq) (sym h.world_eq)
        (opened-OpenedFrom c password f.params f.salt f.counter h.key h.text _ _ _ _ d w L file)
]

-- The errors of `open_vault` in full: a `VaultFormatError` that `parse` raises, the same one for
-- every password; or the file is parsed, Argon2 fails on the password and the file's salt and
-- parameters, and this is its HashingError; or the one authentication error, whatever did not
-- match.
pub open_vault_errors :
    (c : Crypto) (password d : Bytes) (w : World) (e : Error)
    → IsCrypto c
    → (open_vault c password d w).0 ≡ err e
    → ((parse d ≡ err e) × IsFormatError e)
      ⊎ ((f : ParsedVaultFile) × (parse d ≡ ok f)
          × (c.argon2id password f.salt f.params.time_cost f.params.memory_kib f.params.parallelism
                32
              ≡ err e)
          × (e ≡ hashing_error))
      ⊎ (e ≡ authentication_error)
unfolding open_vault
open_vault_errors c password d w e L failed = elim (Result-cases (parse d)) [
  | inl (e', refused) ↦
      let same : e' ≡ e =
        err_inj {A = UnlockedVault} e' e
          (ap (λ x. x.0) (sym (open_vault_refused c password d w e' refused)) ∙ failed) in
      inl (refused ∙ ap err same, (parse-Raises d).at e (refused ∙ ap err same))
  | inr (f, parsed) ↦
      let k = parse-HasKeyFields d f parsed in
      elim (IsHashed-cases c password f.params f.salt) [
        | inl (e', hash_failed) ↦
            let raised = derived c L password f k ∙ hash_failed in
            let same : e' ≡ e =
              err_inj {A = UnlockedVault} e' e (sym (rw (parsed, raised)) ∙ failed) in
            let out = hash_failed ∙ ap err same in
            inr (inl (f, parsed, out, L.argon2id_fails _ _ _ _ _ _ e out))
        | inr hashed ↦ inr (inr (decrypts-Raises c L password f k w e d parsed hashed failed))
      ]
]
