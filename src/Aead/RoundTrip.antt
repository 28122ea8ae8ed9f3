-- ===== src/Aead/RoundTrip.antt =====
-- What `encrypt` produces, and when `decrypt` accepts it.

use secure_vault.Prelude.{◌≤◌, ◌≡◌, arith, length, Bytes}
use secure_vault.Errors.{Error, authentication_error}
use secure_vault.Errors.Result.{ok, err}
use secure_vault.Random.{Entropy, draw_bytes, advance, length-draw_bytes}
use secure_vault.Crypto.{Crypto, IsCrypto, max_text}
use secure_vault.Aead.{encrypt, decrypt}

module _ (c : Crypto) (L : IsCrypto c) where
  -- `encrypt` with a key of the right length returns, with the next 12 random bytes as its nonce.
  pub encrypt_total :
      (key plaintext aad : Bytes) (e : Entropy)
      → length key ≡ 32
      → length plaintext ≤ max_text
      → length aad ≤ max_text
      → (blob : Bytes) × (c.seal key (draw_bytes 12 e) plaintext aad ≡ ok blob)
        × (encrypt c key plaintext aad e
            ≡ (ok (record { nonce = draw_bytes 12 e; blob = blob }), advance 12 e))
  unfolding encrypt
  encrypt_total key plaintext aad e hk hx ha =
      let (blob, sealed) =
        L.seal_total key (draw_bytes 12 e) plaintext aad hk (length-draw_bytes 12 e) hx ha in
      (blob, sealed, ground (arith, sealed))

  -- A text that was sealed under the same four inputs is decrypted.
  pub decrypt_sealed :
      (key nonce plaintext aad blob : Bytes)
      → length key ≡ 32
      → length nonce ≡ 12
      → c.seal key nonce plaintext aad ≡ ok blob
      → decrypt c key nonce blob aad ≡ ok plaintext
  unfolding decrypt
  decrypt_sealed key nonce plaintext aad blob hk hn sealed = ground (
    arith,
    L.length-seal key nonce plaintext aad blob sealed,
    L.unseal-seal key nonce plaintext aad blob sealed,
  )

  -- What is decrypted was sealed under the same four inputs.
  pub decrypt-eq-ok :
      (key nonce blob aad plaintext : Bytes)
      → decrypt c key nonce blob aad ≡ ok plaintext
      → (length key ≡ 32) × (length nonce ≡ 12) × (c.seal key nonce plaintext aad ≡ ok blob)
  unfolding decrypt
  decrypt-eq-ok key nonce blob aad plaintext h =
      ground (arith, L.seal-unseal key nonce plaintext aad blob)

  -- With a key of the right length `decrypt` fails in one way, whatever the cause.
  pub decrypt_fails :
      (key nonce blob aad : Bytes) (e : Error)
      → length key ≡ 32
      → decrypt c key nonce blob aad ≡ err e
      → e ≡ authentication_error
  unfolding decrypt
  decrypt_fails key nonce blob aad e hk h = ground (arith, L.unseal_fails key nonce blob aad e hk)
