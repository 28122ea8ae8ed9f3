-- ===== src/Vault/Saving.antt =====
-- `save`: a new text under the same data key.
use secure_vault.Prelude.{◌+◌, ◌≤◌, ◌<◌, ◌≡◌, ◌∙◌, refl, sym, ap, arith, length, Bytes, false}
use secure_vault.Errors.{Error, value_error, counter_range}
use secure_vault.Errors.Result.{ok, err}
use secure_vault.Random.{draw_bytes, advance, length-draw_bytes}
use secure_vault.Crypto.{Crypto, IsCrypto, max_text}
use secure_vault.Aead.RoundTrip.{encrypt_total}
use secure_vault.FileFormat.{max_counter, build_full_header, serialize}
use secure_vault.FileFormat.Header.{header_bytes, build_full_header_lem}
use secure_vault.Memory.{World, mutable, wipe, zeros, update}
use secure_vault.Memory.Wipe.{wipe-zeros, wipe_others, next-wipe, update_self, update_ne}
use secure_vault.Vault.{Session, save}
use secure_vault.Vault.Opening.{full_bytes, kek_of}
use secure_vault.Vault.Written.{WrittenVault, length-full_bytes, write_sealed}
use secure_vault.Vault.Opened.{IsOpenWith, Opens, written-Opens}

-- The session after a save: the old text wiped, the new one in a new buffer.
abbrev pub saved : Bytes → Session → Session
saved text s =
    let w =
      wipe (mutable s.vault.plaintext) (record s.world { entropy = advance 12 s.world.entropy }) in
    record {
      vault = record s.vault { plaintext = w.next; counter = s.vault.counter + 1 };
      world = record w { heap = update w.heap w.next text; next = w.next + 1 };
    }

module _ (c : Crypto) (L : IsCrypto c) where
  pub save_total :
      (password text new_text : Bytes) (s : Session)
      → IsOpenWith c password text s
      → length new_text ≤ max_text
      → s.vault.counter + 1 ≤ max_counter
      → (d : Bytes) × WrittenVault c password s.vault.params (s.vault.counter + 1) new_text d
        × (save c new_text s ≡ (ok d, saved new_text s))
  unfolding save
  save_total password text new_text s o ht hn =
      let v = s.vault in
      let dek = s.world.heap v.dek in
      let e = s.world.entropy in
      let n = v.counter + 1 in
      let built = build_full_header_lem v.params v.salt n o.range o.salt_size hn in
      let (bb, sealed, enc) =
        encrypt_total c L dek new_text (full_bytes v.params v.salt n) e o.dek_size ht
          (omega (arith, length-full_bytes v.params v.salt n o.salt_size)) in
      let (d, written, file) =
        write_sealed c L password v.params v.salt n dek new_text v.dek_nonce v.dek_blob _ bb o.range
          o.salt_size o.dek_size o.nonce_size (length-draw_bytes 12 e) hn ht o.hashed o.wrapped
          sealed in
      let written' =
        ap (λ h. serialize h n v.dek_nonce v.dek_blob (draw_bytes 12 e) bb) o.header_eq ∙ written in
      (
        d,
        record {
          salt = v.salt;
          dek = dek;
          dek_nonce = v.dek_nonce;
          dek_blob = v.dek_blob;
          body_nonce = draw_bytes 12 e;
          body_blob = bb;
          file = file;
        },
        rw (o.is_open, built, enc, written'),
      )

  pub saved-IsOpenWith :
      (password text new_text : Bytes) (s : Session)
      → IsOpenWith c password text s
      → IsOpenWith c password new_text (saved new_text s)
  saved-IsOpenWith password text new_text s o =
      let v = s.vault in
      let w0 = record s.world { entropy = advance 12 s.world.entropy } in
      let w = wipe (mutable v.plaintext) w0 in
      let grown : w.next ≡ s.world.next = next-wipe (mutable v.plaintext) w0 in
      let key : (saved new_text s).world.heap v.dek ≡ s.world.heap v.dek =
        update_ne w.heap w.next v.dek new_text (omega (arith, grown, o))
        ∙ wipe_others v.plaintext v.dek w0 (λ e. o.apart (sym e)) in
      record {
        is_open = o.is_open;
        range = o.range;
        salt_size = o.salt_size;
        header_eq = o.header_eq;
        dek_size = ap length key ∙ o.dek_size;
        nonce_size = o.nonce_size;
        hashed = o.hashed;
        wrapped =
            ap
              (λ k.
                c.seal (kek_of c password v.params v.salt) v.dek_nonce k
                  (header_bytes v.params v.salt))
              key
            ∙ o.wrapped;
        text_eq = update_self w.heap w.next new_text;
        dek_allocated = omega (arith, grown, o);
        text_allocated = omega arith;
        apart = omega (arith, grown, o);
      }

-- `save` in an open session, of a text that AESGCM takes (at most 2 ^ 31 - 1 bytes) and with room for
-- the counter, returns a file. The session goes on with the
-- new text, the counter is one higher, the buffer of the old text holds zeros, and the file opens
-- later with the same password to the new text, the same parameters and that counter.
pub open_vault-save :
    (c : Crypto) (password text new_text : Bytes) (s : Session) (later : World)
    → IsCrypto c
    → IsOpenWith c password text s
    → length new_text ≤ max_text
    → s.vault.counter < max_counter
    → (d : Bytes) × (s' : Session) × (save c new_text s ≡ (ok d, s'))
      × IsOpenWith c password new_text s'
      × (s'.vault.counter ≡ s.vault.counter + 1)
      × (s'.world.heap s.vault.plaintext ≡ zeros text)
      × Opens c password d later s.vault.params (s.vault.counter + 1) new_text
open_vault-save c password text new_text s later L o ht hn =
    let (d, written, made) = save_total c L password text new_text s o ht (omega arith) in
    let w0 = record s.world { entropy = advance 12 s.world.entropy } in
    let w = wipe (mutable s.vault.plaintext) w0 in
    let grown : w.next ≡ s.world.next = next-wipe (mutable s.vault.plaintext) w0 in
    let kept = update_ne w.heap w.next s.vault.plaintext new_text (omega (arith, grown, o)) in
    (
      d,
      saved new_text s,
      made,
      saved-IsOpenWith c L password text new_text s o,
      refl,
      kept ∙ (wipe-zeros s.vault.plaintext w0 ∙ ap zeros o.text_eq),
      written-Opens c L password s.vault.params (s.vault.counter + 1) new_text d later written,
    )

-- A `save` that raises leaves the object and every buffer as they were, whatever raised.
pub save_fails :
    (c : Crypto) (new_text : Bytes) (s : Session) (e : Error)
    → (save c new_text s).0 ≡ err e
    → let s' = (save c new_text s).1 in
      (s'.vault ≡ s.vault) × (s'.world.heap ≡ s.world.heap) × (s'.world.next ≡ s.world.next)
unfolding save
save_fails c new_text s e h = ground arith

-- At the last counter of 64 bits `save` refuses and changes nothing at all.
pub save_last_counter :
    (c : Crypto) (new_text : Bytes) (s : Session)
    → s.vault.closed ≡ false
    → max_counter ≤ s.vault.counter
    → save c new_text s ≡ (err (value_error counter_range), s)
unfolding save build_full_header
save_last_counter c new_text s o h = ground arith
