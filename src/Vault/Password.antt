-- ===== src/Vault/Password.antt =====
-- `change_password`: the same data key and text under a new password.
use secure_vault.Prelude.{◌+◌, ◌≤◌, ◌<◌, ◌≡◌, refl, ◌∙◌, ap, subst, arith, length, Bytes, Option}
use secure_vault.Errors.{Error}
use secure_vault.Errors.Result.{ok, err}
use secure_vault.Random.{draw_bytes, advance, length-draw_bytes}
use secure_vault.Crypto.{Crypto, IsCrypto, max_text}
use secure_vault.Kdf.{Argon2Parameters}
use secure_vault.Kdf.Range.{IsInRange, IsInRange-validate, derive_key_lem}
use secure_vault.Aead.RoundTrip.{encrypt_total}
use secure_vault.FileFormat.{max_counter}
use secure_vault.FileFormat.Header.{header_bytes, length-header_bytes, build_kdf_header_lem}
use secure_vault.FileFormat.Header.{build_full_header_lem}
use secure_vault.Memory.{World}
use secure_vault.Vault.{Session, or_else, change_password}
use secure_vault.Vault.Opening.{kek_of, IsHashed, full_bytes}
use secure_vault.Vault.Written.{WrittenVault, length-full_bytes, length-kek_of, write_sealed}
use secure_vault.Vault.Opened.{IsOpenWith, Opens, written-Opens}

-- The session after a change of password: new parameters, salt and wrapped key, the same buffers.
abbrev pub changed : Argon2Parameters → Bytes → Session → Session
changed p blob s =
    let e = s.world.entropy in
    let salt = draw_bytes 16 e in
    record {
      vault = record s.vault {
        params = p;
        salt = salt;
        kdf_header = header_bytes p salt;
        dek_nonce = draw_bytes 12 (advance 16 e);
        dek_blob = blob;
        counter = s.vault.counter + 1;
      };
      world = record s.world { entropy = advance 12 (advance 12 (advance 16 e)) };
    }

module _ (c : Crypto) (L : IsCrypto c) where
  pub change_password_total :
      (password text new_password : Bytes) (given : Option Argon2Parameters) (s : Session)
      → IsOpenWith c password text s
      → IsInRange (or_else given s.vault.params)
      → length text ≤ max_text
      → s.vault.counter + 1 ≤ max_counter
      → IsHashed c new_password (or_else given s.vault.params) (draw_bytes 16 s.world.entropy)
      → (d : Bytes) × (blob : Bytes) × WrittenVault c new_password
          (or_else given s.vault.params)
          (s.vault.counter + 1)
          text
          d
        × IsOpenWith c new_password text (changed (or_else given s.vault.params) blob s)
        × (change_password c new_password given s
            ≡ (ok d, changed (or_else given s.vault.params) blob s))
  unfolding change_password
  change_password_total password text new_password given s o r ht hn hashed =
      let v = s.vault in
      let p = or_else given v.params in
      let e = s.world.entropy in
      let salt = draw_bytes 16 e in
      let hs = length-draw_bytes 16 e in
      let dek = s.world.heap v.dek in
      let body = s.world.heap v.plaintext in
      let body_size : length body ≤ max_text = omega (arith, ap length o.text_eq) in
      let n = v.counter + 1 in
      let header = header_bytes p salt in
      let (db, wrapped, enc1) =
        encrypt_total c L (kek_of c new_password p salt) dek header (advance 16 e)
          (length-kek_of c L new_password p salt hashed) (omega (arith, o.dek_size))
          (omega (arith, length-header_bytes p salt hs)) in
      let (bb, sealed, enc2) =
        encrypt_total c L dek body (full_bytes p salt n) (advance 12 (advance 16 e)) o.dek_size
          body_size (omega (arith, length-full_bytes p salt n hs)) in
      let dn = draw_bytes 12 (advance 16 e) in
      let bn = draw_bytes 12 (advance 12 (advance 16 e)) in
      let (d, written, file) =
        write_sealed c L new_password p salt n dek body dn db bn bb r hs o.dek_size
          (length-draw_bytes 12 _) (length-draw_bytes 12 _) hn body_size hashed wrapped sealed in
      (
        d,
        db,
        subst (λ t. WrittenVault c new_password p n t d) o.text_eq
            (record {
              salt = salt;
              dek = dek;
              dek_nonce = dn;
              dek_blob = db;
              body_nonce = bn;
              body_blob = bb;
              file = file;
            }),
        record {
          is_open = o.is_open;
          range = r;
          salt_size = hs;
          header_eq = refl;
          dek_size = o.dek_size;
          nonce_size = length-draw_bytes 12 (advance 16 e);
          hashed = hashed;
          wrapped = wrapped;
          text_eq = o.text_eq;
          dek_allocated = o.dek_allocated;
          text_allocated = o.text_allocated;
          apart = o.apart;
        },
        rw (
          o.is_open,
          IsInRange-validate p r,
          derive_key_lem c new_password salt p 32 r hs ∙ hashed,
          build_kdf_header_lem p salt r hs,
          enc1,
          build_full_header_lem p salt n r hs hn,
          enc2,
          written,
        ),
      )

-- Where Argon2 fails on the new password and salt, `change_password` raises that, and nothing but the
-- random bytes of the salt was used.
pub change_password_unhashed :
    (c : Crypto) (password text new_password : Bytes) (given : Option Argon2Parameters)
    (s : Session) (e : Error)
    → IsOpenWith c password text s
    → IsInRange (or_else given s.vault.params)
    → let p = or_else given s.vault.params in
      c.argon2id new_password
          (draw_bytes 16 s.world.entropy)
          p.time_cost
          p.memory_kib
          p.parallelism
          32
        ≡ err e
      → change_password c new_password given s
        ≡ (err e, record s { world = record s.world { entropy = advance 16 s.world.entropy } })
unfolding change_password
change_password_unhashed c password text new_password given s e o r failed =
    let p = or_else given s.vault.params in
    let raised =
      derive_key_lem c new_password (draw_bytes 16 s.world.entropy) p 32 r
        (length-draw_bytes 16 s.world.entropy)
      ∙ failed in
    rw (o.is_open, IsInRange-validate p r, raised)

-- `change_password` in an open session, with parameters in range, a text that AESGCM takes (2 ^ 31 - 1
-- bytes), room for the counter, and where Argon2 does not fail on the new password and salt, returns
-- a file. The session goes on with the new password, the same text and the same data key, the
-- counter is one higher, and the file opens later with the new password to the text, the new
-- parameters and that counter.
pub open_vault-change_password :
    (c : Crypto) (password text new_password : Bytes) (given : Option Argon2Parameters)
    (s : Session) (later : World)
    → IsCrypto c
    → IsOpenWith c password text s
    → IsInRange (or_else given s.vault.params)
    → length text ≤ max_text
    → s.vault.counter < max_counter
    → IsHashed c new_password (or_else given s.vault.params) (draw_bytes 16 s.world.entropy)
    → (d : Bytes) × (s' : Session) × (change_password c new_password given s ≡ (ok d, s'))
      × IsOpenWith c new_password text s'
      × (s'.vault.counter ≡ s.vault.counter + 1)
      × (s'.world.heap s'.vault.dek ≡ s.world.heap s.vault.dek)
      × Opens c new_password d later (or_else given s.vault.params) (s.vault.counter + 1) text
open_vault-change_password c password text new_password given s later L o r ht hn hashed =
    let (d, blob, written, session, made) =
      change_password_total c L password text new_password given s o r ht (omega arith) hashed in
    (
      d,
      changed (or_else given s.vault.params) blob s,
      made,
      session,
      refl,
      refl,
      written-Opens c L new_password _ _ text d later written,
    )

-- A `change_password` that raises leaves the object and every buffer as they were.
pub change_password_fails :
    (c : Crypto) (new_password : Bytes) (given : Option Argon2Parameters) (s : Session) (e : Error)
    → (change_password c new_password given s).0 ≡ err e
    → let s' = (change_password c new_password given s).1 in
      (s'.vault ≡ s.vault) × (s'.world.heap ≡ s.world.heap) × (s'.world.next ≡ s.world.next)
unfolding change_password
change_password_fails c new_password given s e h = ground arith
