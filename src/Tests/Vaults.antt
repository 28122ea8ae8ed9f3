-- ===== src/Tests/Vaults.antt =====
-- Vault files made and read with the toy cipher, and the theorems of vault.py at them.
use secure_vault.Prelude.{
  ℕ, ◌+◌, ◌*◌, ◌≡◌, ◌⊎◌, refl, arith, [], ◌∷◌, ◌++◌, true, false, none, some, replicate, Bytes, ◌≢◌,
  ◌==◌, if◌then◌else◌, pack_le, unpack_le, bytes_eq,
}
use secure_vault.Errors.{
  format_error, too_short, value_error, counter_range, authentication_error, hashing_error,
}
use secure_vault.Errors.Result.{Result, ok, err}
use secure_vault.Errors.Raises.{IsFormatError}
use secure_vault.Random.{draw_bytes, advance}
use secure_vault.Kdf.{Argon2Parameters, default_parameters, validate, derive_key}
use secure_vault.Aead.{encrypt, decrypt}
use secure_vault.FileFormat.{
  ParsedVaultFile, parse, serialize, build_full_header, check_header, max_counter,
}
use secure_vault.FileFormat.Header.{header_bytes}
use secure_vault.Memory.{World, zeros, wipe}
use secure_vault.Vault.{
  UnlockedVault, Session, create, create_body, open_vault, save, change_password, close,
}
use secure_vault.Vault.Opening.{kek_of}
use secure_vault.Vault.Opened.{Opens, IsOpenWith}
use secure_vault.Vault.Creation.{open_vault-create, create_wipes, KeyWiped, KeyLeft}
use secure_vault.Vault.Saving.{open_vault-save, save_last_counter}
use secure_vault.Vault.Password.{open_vault-change_password}
use secure_vault.Vault.Closing.{close_wipes}
use secure_vault.Vault.Authenticity.{OpenedFrom, open_vault_authentic, open_vault_errors}
use secure_vault.Tests.Toy.{toy, toy-IsCrypto, tag, derive, unseal}

abbrev pub start : World
start = record { entropy = λ i. i * 7 + 3; heap = λ p. []; next = 0 }

abbrev pub password : Bytes
password = 1 ∷ 2 ∷ 3 ∷ []

abbrev text : Bytes
text = 104 ∷ 105 ∷ []

abbrev pub costs : Argon2Parameters
costs = record { memory_kib = 19456; time_cost = 2; parallelism = 1 }

made : Result Bytes × World
unfolding create create_body validate derive_key encrypt build_full_header serialize draw_bytes
    pack_le advance wipe tag derive
made = create toy password text (some costs) start

abbrev reopen : Bytes → Bytes → Result UnlockedVault × World
reopen secret d = open_vault toy secret d start

-- The file has the least size and the two bytes of the text, and opens to them.
made_and_opened :
    let open_made : Result Bytes → Result Bytes = elim [
      | ok d ↦ (elim (reopen password d).0 [
        | ok v ↦ ok ((reopen password d).1.heap v.plaintext)
        | err e ↦ err e
      ])
      | err e ↦ err e
    ] in
    open_made made.0 ≡ ok text
unfolding made open_vault parse check_header derive_key decrypt unseal unpack_le bytes_eq
made_and_opened = refl

-- With another password the same file fails to authenticate.
wrong_password :
    let open_made : Result Bytes → Result UnlockedVault = elim [
      | ok d ↦ (reopen text d).0
      | err e ↦ err e
    ] in
    open_made made.0 ≡ err authentication_error
unfolding made open_vault parse check_header derive_key decrypt unseal unpack_le bytes_eq
wrong_password = refl

abbrev pub salt : Bytes
salt = replicate 16 5

abbrev pub dek : Bytes
dek = replicate 32 9

abbrev pub nonce : Bytes
nonce = replicate 12 1

abbrev pub blob : Bytes
blob = dek ++ tag (kek_of toy password costs salt) nonce (header_bytes costs salt)

-- An open session at some counter.
abbrev session : ℕ → Session
session n = record {
  vault = record {
    params = costs;
    salt = salt;
    counter = n;
    kdf_header = header_bytes costs salt;
    dek_nonce = nonce;
    dek_blob = blob;
    dek = 0;
    plaintext = 1;
    closed = false;
  };
  world = record {
    entropy = λ i. i + 1;
    heap = λ p. if p == 0 then dek else if p == 1 then text else [];
    next = 2;
  };
}

session-IsOpenWith : (n : ℕ) → IsOpenWith toy password text (session n)
session-IsOpenWith n = record {
  is_open = refl;
  range = omega arith;
  salt_size = refl;
  header_eq = refl;
  dek_size = refl;
  nonce_size = refl;
  hashed = refl;
  wrapped = refl;
  text_eq = refl;
  dek_allocated = omega arith;
  text_allocated = omega arith;
  apart = omega arith;
}

open_vault-create_example :
    (d : Bytes) × ((create toy password text (some costs) start).0 ≡ ok d)
    × Opens toy password d start costs 0 text
open_vault-create_example =
    open_vault-create toy password text (some costs) start start toy-IsCrypto (omega arith)
      (omega arith) refl

create_wipes_example :
    KeyWiped start (create toy password text none start).1
    ⊎ KeyLeft toy password default_parameters start (create toy password text none start)
create_wipes_example = create_wipes toy password text none start

open_vault-save_example :
    (d : Bytes) × (s' : Session) × (save toy password (session 3) ≡ (ok d, s'))
    × IsOpenWith toy password password s'
    × (s'.vault.counter ≡ 3 + 1)
    × (s'.world.heap 1 ≡ zeros text)
    × Opens toy password d start costs (3 + 1) password
open_vault-save_example =
    open_vault-save toy password text password (session 3) start toy-IsCrypto (session-IsOpenWith 3)
      (omega arith) (omega arith)

save_last_counter_example :
    save toy text (session max_counter) ≡ (err (value_error counter_range), session max_counter)
save_last_counter_example = save_last_counter toy text (session max_counter) refl (omega arith)

open_vault-change_password_example :
    (d : Bytes) × (s' : Session) × (change_password toy text none (session 3) ≡ (ok d, s'))
    × IsOpenWith toy text text s'
    × (s'.vault.counter ≡ 3 + 1)
    × (s'.world.heap s'.vault.dek ≡ dek)
    × Opens toy text d start costs (3 + 1) text
open_vault-change_password_example =
    open_vault-change_password toy password text text none (session 3) start toy-IsCrypto
      (session-IsOpenWith 3) (omega arith) (omega arith) (omega arith) refl

close_wipes_example :
    let s = session 3 in
    ((close s).vault.closed ≡ true)
    × ((close s).world.heap 0 ≡ zeros dek)
    × ((close s).world.heap 1 ≡ zeros text)
    × ((q : ℕ) → q ≢ 0 → q ≢ 1 → (close s).world.heap q ≡ s.world.heap q)
    × (close (close s) ≡ close s)
close_wipes_example = close_wipes toy password text (session 3) (session-IsOpenWith 3)

-- The bytes of `made`, and what opening them gives.
abbrev bytes_of : Result Bytes → Bytes
bytes_of (ok d) = d
bytes_of (err e) = []

open_vault_errors_example :
    ((parse (1 ∷ []) ≡ err (format_error (too_short 1)))
      × IsFormatError (format_error (too_short 1)))
    ⊎ ((f : ParsedVaultFile) × (parse (1 ∷ []) ≡ ok f)
        × (toy.argon2id password f.salt f.params.time_cost f.params.memory_kib f.params.parallelism
              32
            ≡ err (format_error (too_short 1)))
        × (format_error (too_short 1) ≡ hashing_error))
    ⊎ (format_error (too_short 1) ≡ authentication_error)
unfolding open_vault parse
open_vault_errors_example =
    open_vault_errors toy password (1 ∷ []) start (format_error (too_short 1)) toy-IsCrypto refl

abbrev file : Bytes
file = bytes_of made.0

abbrev vault_of : Result UnlockedVault → UnlockedVault
vault_of (ok v) = v
vault_of (err e) = (session 0).vault

open_vault_authentic_example :
    OpenedFrom toy password file (vault_of (reopen password file).0) (reopen password file).1
unfolding made open_vault parse check_header derive_key decrypt unseal unpack_le bytes_eq
open_vault_authentic_example =
    open_vault_authentic toy password file start (reopen password file).1
      (vault_of (reopen password file).0) toy-IsCrypto (omega arith) refl
