-- ===== src/FileFormat.antt =====
-- fileformat.py: the byte layout of a vault file, `serialize` and `parse`.
pub mod Slices
pub mod Header
pub mod RoundTrip
pub mod Sound
use mathlib.Core.Bool.{not, ◌||◌}
use secure_vault.Prelude.{ℕ, ◌+◌, ◌-◌, ◌^◌, ltb, leb, ◌==◌, [], ◌∷◌, ◌++◌, length, take, drop}
use secure_vault.Prelude.{Bytes, pack_le, unpack_le, bytes_eq}
use secure_vault.Errors.{format_error, value_error, struct_error, too_short, bad_magic}
use secure_vault.Errors.{unsupported_version, unsupported_kdf, unsupported_aead, body_too_small}
use secure_vault.Errors.{length_mismatch, bad_salt, counter_range, bad_kdf_header, bad_nonce}
use secure_vault.Errors.{bad_dek_blob, short_body_blob}
use secure_vault.Errors.Result.{Result, ok, raise_if, ◌>>=◌, ◌>>◌}
use secure_vault.Kdf.{Argon2Parameters, validate, salt_length}
use secure_vault.Aead.{nonce_length, tag_length}

-- b"SVLT"
abbrev pub magic : Bytes
magic = 0x53 ∷ 0x56 ∷ 0x4c ∷ 0x54 ∷ []

abbrev pub format_version : ℕ
format_version = 1

abbrev pub kdf_argon2id : ℕ
kdf_argon2id = 1

abbrev pub aead_aes256gcm : ℕ
aead_aes256gcm = 1

abbrev pub dek_length : ℕ
dek_length = 32

abbrev pub dek_blob_length : ℕ
dek_blob_length = dek_length + tag_length

-- The size of "<4sHBBIII16s".
abbrev pub kdf_header_length : ℕ
kdf_header_length = 36

-- With the counter, "<Q".
abbrev pub full_header_length : ℕ
full_header_length = kdf_header_length + 8

abbrev pub dek_nonce_offset : ℕ
dek_nonce_offset = full_header_length

abbrev pub dek_blob_offset : ℕ
dek_blob_offset = dek_nonce_offset + nonce_length

abbrev pub body_nonce_offset : ℕ
body_nonce_offset = dek_blob_offset + dek_blob_length

abbrev pub body_len_offset : ℕ
body_len_offset = body_nonce_offset + nonce_length

abbrev pub body_offset : ℕ
body_offset = body_len_offset + 4

abbrev pub min_file_length : ℕ
min_file_length = body_offset + tag_length

-- `xs[a:b]`
abbrev pub slice : ℕ → ℕ → Bytes → Bytes
slice a b xs = take (b - a) (drop a xs)

-- `struct.pack` of one unsigned field of `w` bytes, which refuses a value that does not fit.
abbrev pub pack_field : ℕ → ℕ → Result Bytes
pack_field w n = do raise_if (leb (256 ^ w) n) struct_error; ok (pack_le w n)

-- `_KDF_HEADER_STRUCT.pack` of the three constants and the parameters.
unfoldable pub build_kdf_header : Argon2Parameters → Bytes → Result Bytes
build_kdf_header p salt = do
  raise_if (not (length salt == salt_length)) (value_error (bad_salt (length salt)))
  m ← pack_field 4 p.memory_kib
  t ← pack_field 4 p.time_cost
  l ← pack_field 4 p.parallelism
  ok (
      magic
      ++ (pack_le 2 format_version
          ++ (pack_le 1 kdf_argon2id ++ (pack_le 1 aead_aes256gcm ++ (m ++ (t ++ (l ++ salt)))))))

abbrev pub max_counter : ℕ
max_counter = 0xFFFF_FFFF_FFFF_FFFF

-- The test `counter < 0` is void for a natural number.
unfoldable pub build_full_header : Argon2Parameters → Bytes → ℕ → Result Bytes
unfolding build_kdf_header
build_full_header p salt counter = do
  raise_if (ltb max_counter counter) (value_error counter_range)
  header ← build_kdf_header p salt
  packed ← pack_field 8 counter
  ok (header ++ packed)

unfoldable pub serialize : Bytes → ℕ → Bytes → Bytes → Bytes → Bytes → Result Bytes
serialize kdf_header counter dek_nonce dek_blob body_nonce body_blob = do
  raise_if (not (length kdf_header == kdf_header_length)) (value_error bad_kdf_header)
  raise_if (not (length dek_nonce == nonce_length) || not (length body_nonce == nonce_length))
      (value_error bad_nonce)
  raise_if (not (length dek_blob == dek_blob_length)) (value_error bad_dek_blob)
  raise_if (ltb (length body_blob) tag_length) (value_error short_body_blob)
  packed ← pack_field 8 counter
  body_len ← pack_field 4 (length body_blob)
  ok (
      kdf_header
      ++ (packed ++ (dek_nonce ++ (dek_blob ++ (body_nonce ++ (body_len ++ body_blob))))))

pub record ParsedVaultFile : Type 0 where
  pub params : Argon2Parameters
  pub salt : Bytes
  pub counter : ℕ
  pub kdf_header : Bytes
  pub full_header : Bytes
  pub dek_nonce : Bytes
  pub dek_blob : Bytes
  pub body_nonce : Bytes
  pub body_blob : Bytes

-- The three costs in the header of 36 bytes.
abbrev pub header_params : Bytes → Argon2Parameters
header_params h = record {
  memory_kib = unpack_le (slice 8 12 h);
  time_cost = unpack_le (slice 12 16 h);
  parallelism = unpack_le (slice 16 20 h);
}

-- The tests of `parse` on the header of 36 bytes, which give the parameters.
unfoldable pub check_header : Bytes → Result Argon2Parameters
check_header h = do
  raise_if (not (bytes_eq (slice 0 4 h) magic)) (format_error bad_magic)
  let version = unpack_le (slice 4 6 h)
  raise_if (not (version == format_version)) (format_error (unsupported_version version))
  let kdf_id = unpack_le (slice 6 7 h)
  raise_if (not (kdf_id == kdf_argon2id)) (format_error (unsupported_kdf kdf_id))
  let aead_id = unpack_le (slice 7 8 h)
  raise_if (not (aead_id == aead_aes256gcm)) (format_error (unsupported_aead aead_id))
  validate (header_params h)
  ok (header_params h)

unfoldable pub parse : Bytes → Result ParsedVaultFile
parse d = do
  raise_if (ltb (length d) min_file_length) (format_error (too_short (length d)))
  params ← check_header (take kdf_header_length d)
  let body_len = unpack_le (slice body_len_offset body_offset d)
  raise_if (ltb body_len tag_length) (format_error body_too_small)
  raise_if (not (body_offset + body_len == length d)) (format_error length_mismatch)
  ok (record {
    params = params;
    salt = slice 20 36 (take kdf_header_length d);
    counter = unpack_le (slice kdf_header_length full_header_length d);
    kdf_header = take kdf_header_length d;
    full_header = take full_header_length d;
    dek_nonce = slice dek_nonce_offset dek_blob_offset d;
    dek_blob = slice dek_blob_offset body_nonce_offset d;
    body_nonce = slice body_nonce_offset body_len_offset d;
    body_blob = drop body_offset d;
  })
