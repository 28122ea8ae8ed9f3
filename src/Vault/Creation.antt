-- ===== src/Vault/Creation.antt =====
-- `create`: it always returns a file, which opens with the same password to the same text.
use secure_vault.Prelude.{
  ℕ, ◌+◌, ◌≤◌, ◌⊎◌, inl, inr, ◌≢◌, sym, replicate, ◌≡◌, refl, ap, ◌∙◌, arith, length, Bytes, Option,
}
use secure_vault.Errors.{Error}
use secure_vault.Errors.Result.{Result, ok, err, Result-cases}
use secure_vault.Random.{draw_bytes, advance, length-draw_bytes}
use secure_vault.Crypto.{Crypto, IsCrypto, max_text}
use secure_vault.Kdf.{Argon2Parameters, default_parameters, validate}
use secure_vault.Kdf.Range.{IsInRange, IsInRange-validate, validate-IsInRange, derive_key_lem}
use secure_vault.Aead.RoundTrip.{encrypt_total}
use secure_vault.FileFormat.Header.{
  header_bytes, length-header_bytes, build_kdf_header_lem, build_full_header_lem,
}
use secure_vault.Memory.{World, update, mutable, wipe, zeros}
use secure_vault.Memory.Wipe.{update_self, update_ne, wipe-zeros, wipe_others, next-wipe}
use secure_vault.Vault.{or_else, create, create_body}
use secure_vault.Vault.Opening.{kek_of, IsHashed, IsHashed-cases, full_bytes}
use secure_vault.Vault.Opened.{Opens, written-Opens}
use secure_vault.Vault.Written.{WrittenVault, length-full_bytes, length-kek_of, write_sealed}

-- The random bytes of the salt and of the data key.
abbrev pub after_keys : World → World
after_keys w = record {
  entropy = advance 32 (advance 16 w.entropy);
  heap = update w.heap w.next (draw_bytes 32 (advance 16 w.entropy));
  next = w.next + 1;
}

module _ (c : Crypto) (L : IsCrypto c) where
  create_body_total :
      (password text salt dek : Bytes) (p : Argon2Parameters) (a : ℕ) (w : World)
      → IsInRange p
      → length salt ≡ 16
      → length dek ≡ 32
      → w.heap a ≡ dek
      → length text ≤ max_text
      → IsHashed c password p salt
      → (d : Bytes) × WrittenVault c password p 0 text d
        × (create_body c text p salt a (kek_of c password p salt) w
            ≡ (ok d, record w { entropy = advance 12 (advance 12 w.entropy) }))
  unfolding create_body
  create_body_total password text salt dek p a w r hs hd ha ht hashed =
      let e = w.entropy in
      let header = header_bytes p salt in
      let kek = kek_of c password p salt in
      let (db, wrapped, enc1) =
        encrypt_total c L kek dek header e (length-kek_of c L password p salt hashed)
          (omega (arith, hd)) (omega (arith, length-header_bytes p salt hs)) in
      let (bb, sealed, enc2) =
        encrypt_total c L dek text (full_bytes p salt 0) (advance 12 e) hd ht
          (omega (arith, length-full_bytes p salt 0 hs)) in
      let (d, written, file) =
        write_sealed c L password p salt 0 dek text _ db _ bb r hs hd (length-draw_bytes 12 e)
          (length-draw_bytes 12 (advance 12 e)) (omega arith) ht hashed wrapped sealed in
      let built = build_kdf_header_lem p salt r hs in
      let built_full = build_full_header_lem p salt 0 r hs (omega arith) in
      (
        d,
        record {
          salt = salt;
          dek = dek;
          dek_nonce = draw_bytes 12 e;
          dek_blob = db;
          body_nonce = draw_bytes 12 (advance 12 e);
          body_blob = bb;
          file = file;
        },
        rw (built, ha, enc1, built_full, enc2, written),
      )

  pub create_total :
      (password text : Bytes) (given : Option Argon2Parameters) (w : World)
      → IsInRange (or_else given default_parameters)
      → length text ≤ max_text
      → IsHashed c password (or_else given default_parameters) (draw_bytes 16 w.entropy)
      → (d : Bytes) × WrittenVault c password (or_else given default_parameters) 0 text d
        × (create c password text given w ≡ (
          ok d,
          wipe
              (mutable w.next)
              (record (after_keys w) { entropy = advance 12 (advance 12 (after_keys w).entropy) }),
        ))
  unfolding create
  create_total password text given w r ht hashed =
      let p = or_else given default_parameters in
      let salt = draw_bytes 16 w.entropy in
      let dek = draw_bytes 32 (advance 16 w.entropy) in
      let hs = length-draw_bytes 16 w.entropy in
      let hd = length-draw_bytes 32 (advance 16 w.entropy) in
      let (d, written, body) =
        create_body_total password text salt dek p w.next (after_keys w) r hs hd
          (update_self w.heap w.next dek) ht hashed in
      (
        d,
        written,
        rw (IsInRange-validate p r, derive_key_lem c password salt p 32 r hs ∙ hashed, body),
      )

-- For parameters in range and a text that AESGCM takes, and where Argon2 does not fail on the
-- password and the new salt, `create` returns a file; and whenever that file is opened later with the
-- same password, the result is an open session with this text, these parameters and counter 0.
pub open_vault-create :
    (c : Crypto) (password text : Bytes) (given : Option Argon2Parameters) (w later : World)
    → IsCrypto c
    → IsInRange (or_else given default_parameters)
    → length text ≤ max_text
    → IsHashed c password (or_else given default_parameters) (draw_bytes 16 w.entropy)
    → (d : Bytes) × ((create c password text given w).0 ≡ ok d)
      × Opens c password d later (or_else given default_parameters) 0 text
open_vault-create c password text given w later L r h hashed =
    let (d, written, made) = create_total c L password text given w r h hashed in
    (d, ap (λ x. x.0) made, written-Opens c L password _ 0 text d later written)

create_body_heap :
    (c : Crypto) (text salt kek : Bytes) (p : Argon2Parameters) (a : ℕ) (w : World)
    → ((create_body c text p salt a kek w).1.heap ≡ w.heap)
      × ((create_body c text p salt a kek w).1.next ≡ w.next)
unfolding create_body
create_body_heap c text salt kek p a w = ground arith

module _ (w w' : World) where
  -- At most one bytearray is new, and it was wiped.
  abbrev pub KeyWiped : Type 0
  KeyWiped =
      ((w'.next ≡ w.next) ⊎ ((w'.next ≡ w.next + 1) × (w'.heap w.next ≡ replicate 32 0)))
      × ((q : ℕ) → q ≢ w.next → w'.heap q ≡ w.heap q)

wiped_key :
    (w v : World) (key : Bytes)
    → length key ≡ 32
    → v.heap ≡ update w.heap w.next key
    → v.next ≡ w.next + 1
    → KeyWiped w (wipe (mutable w.next) v)
wiped_key w v key size heap_eq next_eq = (
  inr (
    next-wipe (mutable w.next) v ∙ next_eq,
    wipe-zeros w.next v
        ∙ (ap zeros (ap (λ f. f w.next) heap_eq ∙ update_self w.heap w.next key)
            ∙ ap (λ n. replicate n 0) size),
  ),
  λ q h.
      wipe_others w.next q v (λ e. h (sym e))
      ∙ (ap (λ f. f q) heap_eq ∙ update_ne w.heap w.next q key (λ e. h (sym e))),
)

-- Argon2 failed on the new salt: `create` raises that, and the bytearray of the data key stands as it
-- was filled.
abbrev pub KeyLeft : Crypto → Bytes → Argon2Parameters → World → Result Bytes × World → Type 0
KeyLeft c password p w (r, w') =
    (e : Error) × (c.argon2id password (draw_bytes 16 w.entropy) p.time_cost p.memory_kib
        p.parallelism 32
      ≡ err e)
    × (r ≡ err e)
    × (w'.next ≡ w.next + 1)
    × (w'.heap w.next ≡ draw_bytes 32 (advance 16 w.entropy))
    × ((q : ℕ) → q ≢ w.next → w'.heap q ≡ w.heap q)

-- However `create` ends, it allocated nothing, or one bytearray for the data key, which now holds 32
-- zeros; or Argon2 failed, which create raises, and this bytearray still holds the data key. All
-- other bytearrays are as they were.
pub create_wipes :
    (c : Crypto) (password text : Bytes) (given : Option Argon2Parameters) (w : World)
    → let x = create c password text given w in
      KeyWiped w x.1 ⊎ KeyLeft c password (or_else given default_parameters) w x
unfolding create
create_wipes c password text given w =
    let p = or_else given default_parameters in
    let salt = draw_bytes 16 w.entropy in
    let dek = draw_bytes 32 (advance 16 w.entropy) in
    elim (Result-cases (validate p)) [
      | inl (e, refused) ↦ inl (rw refused (inl refl, λ q h. refl))
      | inr (u, valid) ↦
          let range = validate-IsInRange p valid in
          let derived =
            derive_key_lem c password salt p 32 range (length-draw_bytes 16 w.entropy) in
          elim (IsHashed-cases c password p salt) [
            | inl (e, failed) ↦
                let raised = derived ∙ failed in
                inr (
                  rw (valid, raised)
                    (
                      e,
                      failed,
                      refl,
                      refl,
                      update_self w.heap w.next dek,
                      λ q h. update_ne w.heap w.next q dek (λ e. h (sym e)),
                    ))
            | inr hashed ↦
                let (heap_eq, next_eq) =
                  create_body_heap c text salt (kek_of c password p salt) p w.next (after_keys w) in
                let key = derived ∙ hashed in
                inl (rw (valid, key) (wiped_key w _ dek (length-draw_bytes 32 _) heap_eq next_eq))
          ]
    ]
