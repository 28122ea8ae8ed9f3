-- ===== src/Aead.antt =====
-- aead.py: AES-256-GCM with a nonce drawn inside `encrypt`.
pub mod RoundTrip
use mathlib.Core.Bool.{not, ◌||◌}
use secure_vault.Prelude.{ℕ, ltb, ◌==◌, length, Bytes}
use secure_vault.Errors.{Error, value_error, bad_key, authentication_error, invalid_tag}
use secure_vault.Errors.Result
use secure_vault.Errors.Result.{Result, ok, err}
use secure_vault.Errors.Action.{Action, pure, lift, raise_if, ◌>>=◌, ◌>>◌}
use secure_vault.Random.{Entropy, urandom}
use secure_vault.Crypto.{Crypto}

-- `KEY_LENGTH` of aead.py
abbrev pub aead_key_length : ℕ
aead_key_length = 32

abbrev pub nonce_length : ℕ
nonce_length = 12

abbrev pub tag_length : ℕ
tag_length = 16

pub record AeadCiphertext : Type 0 where
  pub nonce : Bytes
  pub blob : Bytes

-- `except InvalidTag`
abbrev pub on_invalid_tag : Result Bytes → Result Bytes
on_invalid_tag (ok x) = ok x
on_invalid_tag (err invalid_tag) = err authentication_error
on_invalid_tag (err e) = err e

module _ (c : Crypto) where
  unfoldable pub encrypt : Bytes → Bytes → Bytes → Action Entropy AeadCiphertext
  encrypt key plaintext aad = do
    raise_if (not (length key == aead_key_length)) (value_error (bad_key (length key)))
    nonce ← urandom nonce_length
    blob ← lift (c.seal key nonce plaintext aad)
    pure (record { nonce = nonce; blob = blob })

  unfoldable pub decrypt : Bytes → Bytes → Bytes → Bytes → Result Bytes
  decrypt key nonce blob aad =
      Result.◌>>◌
        (Result.raise_if (not (length key == aead_key_length)) (value_error (bad_key (length key))))
        (Result.◌>>◌
          (Result.raise_if (not (length nonce == nonce_length) || ltb (length blob) tag_length)
            authentication_error)
          (on_invalid_tag (c.unseal key nonce blob aad)))
