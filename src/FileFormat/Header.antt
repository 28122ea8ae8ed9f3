-- ===== src/FileFormat/Header.antt =====
-- The header of 36 bytes: how it is built, and that `check_header` reads back what was built.

use secure_vault.Prelude.{ℕ, ◌^◌, ◌≤◌, ◌<◌, ◌≡◌, refl, ◌∙◌, ap, ◌++◌, arith, length}
use secure_vault.Prelude.{Bytes, IsBytes, pack_le, unpack_le}
use secure_vault.Prelude.{bytes_eq}
use secure_vault.Errors.Result.{ok}
use secure_vault.Kdf.{Argon2Parameters, validate}
use secure_vault.Kdf.Range.{IsInRange, IsInRange-validate, validate-IsInRange}
use secure_vault.FileFormat.{slice, magic, build_kdf_header, build_full_header, check_header}
use secure_vault.FileFormat.{header_params, pack_field, max_counter}
use secure_vault.FileFormat.Slices.{drop_split, drop-eq-slice, slice-eq-pack_le}
use secure_vault.Prelude.{take_all, All-append, bytes_eq_iff}

-- The bytes of a header, from its parameters and salt.
unfoldable pub header_bytes : Argon2Parameters → Bytes → Bytes
header_bytes p salt =
    magic
    ++ (pack_le 2 1
        ++ (pack_le 1 1
            ++ (pack_le 1 1
                ++ (pack_le 4 p.memory_kib
                    ++ (pack_le 4 p.time_cost ++ (pack_le 4 p.parallelism ++ salt))))))

-- The header up to the salt, in one piece.
prefix_bytes : Argon2Parameters → Bytes
prefix_bytes p =
    magic
    ++ (pack_le 2 1
        ++ (pack_le 1 1
            ++ (pack_le 1 1
                ++ (pack_le 4 p.memory_kib ++ (pack_le 4 p.time_cost ++ pack_le 4 p.parallelism)))))

pack_field_lem : (w n : ℕ) → n < 256 ^ w → pack_field w n ≡ ok (pack_le w n)
pack_field_lem w n h = ground arith

pub length-header_bytes :
    (p : Argon2Parameters) (salt : Bytes) → length salt ≡ 16 → length (header_bytes p salt) ≡ 36
unfolding header_bytes pack_le
length-header_bytes p salt h = omega arith

pub header_bytes-IsBytes :
    (p : Argon2Parameters) (salt : Bytes) → IsBytes salt → IsBytes (header_bytes p salt)
unfolding header_bytes prefix_bytes pack_le
header_bytes-IsBytes p salt h = All-append (λ b. b < 256) (prefix_bytes p) salt (omega arith) h

-- Valid parameters and a salt of 16 bytes always make a header.
pub build_kdf_header_lem :
    (p : Argon2Parameters) (salt : Bytes)
    → IsInRange p
    → length salt ≡ 16
    → build_kdf_header p salt ≡ ok (header_bytes p salt)
unfolding build_kdf_header header_bytes
build_kdf_header_lem p salt r h = ground arith

pub build_kdf_header-eq-ok :
    (p : Argon2Parameters) (salt : Bytes) {h : Bytes}
    → build_kdf_header p salt ≡ ok h
    → (length salt ≡ 16) × (h ≡ header_bytes p salt)
unfolding build_kdf_header header_bytes
build_kdf_header-eq-ok p salt e = ground arith

-- The full header is the header and 8 bytes for the counter.
pub build_full_header_lem :
    (p : Argon2Parameters) (salt : Bytes) (n : ℕ)
    → IsInRange p
    → length salt ≡ 16
    → n ≤ max_counter
    → build_full_header p salt n ≡ ok (header_bytes p salt ++ pack_le 8 n)
unfolding build_full_header
build_full_header_lem p salt n r h k = ground (arith, build_kdf_header_lem p salt r h)

header_params-header_bytes :
    (p : Argon2Parameters) (salt : Bytes) → IsInRange p → header_params (header_bytes p salt) ≡ p
unfolding header_bytes pack_le unpack_le
header_params-header_bytes p salt r = ground arith

-- `check_header` reads back the parameters.
pub check_header-header_bytes :
    (p : Argon2Parameters) (salt : Bytes)
    → IsInRange p
    → length salt ≡ 16
    → check_header (header_bytes p salt) ≡ ok p
unfolding check_header header_bytes pack_le unpack_le bytes_eq
check_header-header_bytes p salt r h =
    rw (header_params-header_bytes p salt r) (rw (IsInRange-validate p r))

pub salt-header_bytes :
    (p : Argon2Parameters) (salt : Bytes)
    → length salt ≡ 16
    → slice 20 36 (header_bytes p salt) ≡ salt
unfolding header_bytes pack_le
salt-header_bytes p salt h = take_all 16 salt h

-- The fields of a string of 36 bytes.
header_layout :
    (h : Bytes)
    → length h ≡ 36
    → h
      ≡ slice 0 4 h
        ++ (slice 4 6 h
            ++ (slice 6 7 h
                ++ (slice 7 8 h
                    ++ (slice 8 12 h ++ (slice 12 16 h ++ (slice 16 20 h ++ slice 20 36 h))))))
header_layout h l = cc (
  drop_split 0 4 h (omega arith),
  drop_split 4 6 h (omega arith),
  drop_split 6 7 h (omega arith),
  drop_split 7 8 h (omega arith),
  drop_split 8 12 h (omega arith),
  drop_split 12 16 h (omega arith),
  drop_split 16 20 h (omega arith),
  drop-eq-slice 20 36 h l,
)

-- What the checks on a header have seen when they pass.
record PassesChecks (h : Bytes) (p : Argon2Parameters) : Type 0 where
  magic_eq : slice 0 4 h ≡ magic
  version_eq : unpack_le (slice 4 6 h) ≡ 1
  kdf_eq : unpack_le (slice 6 7 h) ≡ 1
  aead_eq : unpack_le (slice 7 8 h) ≡ 1
  valid : validate p ≡ ok tt
  params_eq : header_params h ≡ p

check_header-PassesChecks :
    (h : Bytes) (p : Argon2Parameters) → check_header h ≡ ok p → PassesChecks h p
unfolding check_header
check_header-PassesChecks h p e = ground (arith, bytes_eq_iff (slice 0 4 h) magic)

pub check_header_valid :
    (h : Bytes) (p : Argon2Parameters) → check_header h ≡ ok p → validate p ≡ ok tt
check_header_valid h p e = (check_header-PassesChecks h p e).valid

-- A header that passes the checks is the one that its parameters and its salt make.
pub check_header-eq-ok :
    (h : Bytes) (p : Argon2Parameters)
    → IsBytes h
    → length h ≡ 36
    → check_header h ≡ ok p
    → (IsInRange p) × (h ≡ header_bytes p (slice 20 36 h))
unfolding header_bytes
check_header-eq-ok h p b l e =
    let c = check_header-PassesChecks h p e in
    let field = λ (a b' w v : ℕ). slice-eq-pack_le a b' w v h b in
    (
      validate-IsInRange p c.valid,
      header_layout h l
          ∙ cc (
            c.magic_eq,
            slice-eq-pack_le 4 6 2 1 h b (omega arith) (omega arith) refl c.version_eq,
            slice-eq-pack_le 6 7 1 1 h b (omega arith) (omega arith) refl c.kdf_eq,
            slice-eq-pack_le 7 8 1 1 h b (omega arith) (omega arith) refl c.aead_eq,
            slice-eq-pack_le 8 12 4 _ h b (omega arith) (omega arith) refl
                (ap Argon2Parameters.memory_kib c.params_eq),
            slice-eq-pack_le 12 16 4 _ h b (omega arith) (omega arith) refl
                (ap Argon2Parameters.time_cost c.params_eq),
            slice-eq-pack_le 16 20 4 _ h b (omega arith) (omega arith) refl
                (ap Argon2Parameters.parallelism c.params_eq),
          ),
    )
