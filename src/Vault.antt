-- ===== src/Vault.antt =====
-- vault.py: `create`, `open_vault` and the methods of `UnlockedVault`.
pub mod Opening
pub mod Written
pub mod Creation
pub mod Opened
pub mod Saving
pub mod Password
pub mod Closing
pub mod Authenticity
use secure_vault.Prelude.{ℕ, ◌+◌, Bool, true, false, Bytes, Option, none, some}
use secure_vault.Errors.{value_error, vault_closed}
use secure_vault.Errors.Action.{Action, pure, lift, gets, modify, raise_if, ◌>>=◌, ◌>>◌}
use secure_vault.Random.{urandom}
use secure_vault.Crypto.{Crypto}
use secure_vault.Kdf.{Argon2Parameters, default_parameters, validate, derive_key, key_length}
use secure_vault.Kdf.{salt_length}
use secure_vault.Aead.{encrypt, decrypt}
use secure_vault.FileFormat.{build_kdf_header, build_full_header, serialize, parse, dek_length}
use secure_vault.Memory.{World, bytearray, load, with_entropy, finally, mutable, wipe}

-- `params or fallback`: a parameters object is never false.
abbrev pub or_else : Option Argon2Parameters → Argon2Parameters → Argon2Parameters
or_else none fallback = fallback
or_else (some p) fallback = p

-- The fields of an `UnlockedVault`; `dek` and `plaintext` are bytearrays.
pub record UnlockedVault : Type 0 where
  pub params : Argon2Parameters
  pub salt : Bytes
  pub counter : ℕ
  pub kdf_header : Bytes
  pub dek_nonce : Bytes
  pub dek_blob : Bytes
  pub dek : ℕ
  pub plaintext : ℕ
  pub closed : Bool

-- A method runs on the object and on what the process shares.
pub record Session : Type 0 where
  pub vault : UnlockedVault
  pub world : World

abbrev pub with_world : {A : Type 0} → Action World A → Action Session A
with_world m s = let (r, w) = m s.world in (r, record s { world = w })

abbrev pub set_vault : (UnlockedVault → UnlockedVault) → Action Session (Unit {0})
set_vault f = modify (λ (s : Session). record s { vault = f s.vault })

-- `_check_open`
unfoldable pub check_open : Action Session (Unit {0})
check_open s = raise_if s.vault.closed (value_error vault_closed) s

-- `read`
unfoldable pub read : Action Session Bytes
unfolding check_open
read = do check_open; p ← gets (λ (s : Session). s.vault.plaintext); with_world (load p)

-- `close`
unfoldable pub close : Session → Session
close s = elim s.vault.closed [
  | true ↦ s
  | false ↦ record {
    vault = record s.vault { closed = true };
    world = wipe (mutable s.vault.plaintext) (wipe (mutable s.vault.dek) s.world);
  }
]

-- `with vault: body`
unfoldable pub with_vault : {A : Type 0} → Action Session A → Action Session A
unfolding close
with_vault body s = let (r, t) = body s in (r, close t)

-- The properties of an object.
abbrev pub save_counter : UnlockedVault → ℕ
save_counter v = v.counter

abbrev pub parameters : UnlockedVault → Argon2Parameters
parameters v = v.params

module _ (c : Crypto) where
  -- The body of the `try` in `create`.
  unfoldable pub create_body : Bytes → Argon2Parameters → Bytes → ℕ → Bytes → Action World Bytes
  create_body plaintext params salt dek kek = do
    kdf_header ← lift (build_kdf_header params salt)
    dek_bytes ← load dek
    wrapped ← with_entropy (encrypt c kek dek_bytes kdf_header)
    full_header ← lift (build_full_header params salt 0)
    body ← with_entropy (encrypt c dek_bytes plaintext full_header)
    lift (serialize kdf_header 0 wrapped.nonce wrapped.blob body.nonce body.blob)

  unfoldable pub create : Bytes → Bytes → Option Argon2Parameters → Action World Bytes
  create password plaintext given = do
    let params = or_else given default_parameters
    lift (validate params)
    salt ← with_entropy (urandom salt_length)
    dek_bytes ← with_entropy (urandom dek_length)
    dek ← bytearray dek_bytes
    kek ← lift (derive_key c password salt params key_length)
    finally (create_body plaintext params salt dek kek) (wipe (mutable dek))

  unfoldable pub open_vault : Bytes → Bytes → Action World UnlockedVault
  open_vault password d = do
    f ← lift (parse d)
    kek ← lift (derive_key c password f.salt f.params key_length)
    dek_bytes ← lift (decrypt c kek f.dek_nonce f.dek_blob f.kdf_header)
    dek ← bytearray dek_bytes
    body ← lift (decrypt c dek_bytes f.body_nonce f.body_blob f.full_header)
    plaintext ← bytearray body
    pure (record {
      params = f.params;
      salt = f.salt;
      counter = f.counter;
      kdf_header = f.kdf_header;
      dek_nonce = f.dek_nonce;
      dek_blob = f.dek_blob;
      dek = dek;
      plaintext = plaintext;
      closed = false;
    })

  -- `save`
  unfoldable pub save : Bytes → Action Session Bytes
  unfolding check_open
  save new_plaintext = do
    check_open
    v ← gets (λ (s : Session). s.vault)
    let new_counter = v.counter + 1
    full_header ← lift (build_full_header v.params v.salt new_counter)
    dek ← with_world (load v.dek)
    body ← with_world (with_entropy (encrypt c dek new_plaintext full_header))
    d ← lift (serialize v.kdf_header new_counter v.dek_nonce v.dek_blob body.nonce body.blob)
    modify (λ (s : Session). record s { world = wipe (mutable v.plaintext) s.world })
    plaintext ← with_world (bytearray new_plaintext)
    set_vault (λ u. record u { plaintext = plaintext })
    set_vault (λ u. record u { counter = new_counter })
    pure d

  -- `change_password`
  unfoldable pub change_password : Bytes → Option Argon2Parameters → Action Session Bytes
  unfolding check_open
  change_password new_password given = do
    check_open
    v ← gets (λ (s : Session). s.vault)
    let params = or_else given v.params
    lift (validate params)
    new_salt ← with_world (with_entropy (urandom salt_length))
    kek ← lift (derive_key c new_password new_salt params key_length)
    new_kdf_header ← lift (build_kdf_header params new_salt)
    dek ← with_world (load v.dek)
    wrapped ← with_world (with_entropy (encrypt c kek dek new_kdf_header))
    let new_counter = v.counter + 1
    full_header ← lift (build_full_header params new_salt new_counter)
    text ← with_world (load v.plaintext)
    body ← with_world (with_entropy (encrypt c dek text full_header))
    d ← lift (serialize new_kdf_header new_counter wrapped.nonce wrapped.blob body.nonce body.blob)
    set_vault (λ u. record u {
      params = params;
      salt = new_salt;
      kdf_header = new_kdf_header;
      dek_nonce = wrapped.nonce;
      dek_blob = wrapped.blob;
      counter = new_counter;
    })
    pure d
