-- ===== src/Tests/Formats.antt =====
-- The theorems of kdf.py, aead.py and fileformat.py at concrete inputs.
use secure_vault.Prelude.{
  ◌≡◌, ◌↔◌, refl, arith, ◌++◌, replicate, Bytes, pack_le, unpack_le, bytes_eq,
}
use secure_vault.Errors.Result.{ok}
use secure_vault.Kdf.{Argon2Parameters, default_parameters, validate}
use secure_vault.Kdf.Range.{IsInRange, validate_iff}
use secure_vault.FileFormat.{
  ParsedVaultFile, parse, serialize, build_kdf_header, build_full_header, check_header,
}
use secure_vault.FileFormat.Header.{header_bytes}
use secure_vault.FileFormat.RoundTrip.{file_bytes, parse-serialize}
use secure_vault.FileFormat.Sound.{serialize-parse}

validate_iff_example : (validate default_parameters ≡ ok tt) ↔ IsInRange default_parameters
validate_iff_example = validate_iff default_parameters

abbrev p : Argon2Parameters
p = record { memory_kib = 20000; time_cost = 16; parallelism = 8 }

abbrev salt : Bytes
salt = replicate 16 7

abbrev header : Bytes
header = header_bytes p salt

abbrev parsed : ParsedVaultFile
parsed = record {
  params = p;
  salt = salt;
  counter = 258;
  kdf_header = header;
  full_header = header ++ pack_le 8 258;
  dek_nonce = replicate 12 1;
  dek_blob = replicate 48 2;
  body_nonce = replicate 12 3;
  body_blob = replicate 17 4;
}

abbrev file : Bytes
file = file_bytes header 258 (replicate 12 1) (replicate 48 2) (replicate 12 3) (replicate 17 4)

parse-serialize_example : parse file ≡ ok parsed
unfolding validate build_kdf_header build_full_header serialize header_bytes pack_le file_bytes
parse-serialize_example =
    parse-serialize p salt header (header ++ pack_le 8 258) (replicate 12 1) (replicate 48 2)
      (replicate 12 3) (replicate 17 4) file 258 refl refl refl refl

serialize-parse_example :
    (build_kdf_header p salt ≡ ok header)
    × (build_full_header p salt 258 ≡ ok (header ++ pack_le 8 258))
    × (serialize header 258 (replicate 12 1) (replicate 48 2) (replicate 12 3) (replicate 17 4)
        ≡ ok file)
unfolding parse check_header validate header_bytes file_bytes pack_le unpack_le bytes_eq
serialize-parse_example = serialize-parse file parsed (omega arith) refl
