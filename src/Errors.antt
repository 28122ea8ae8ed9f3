-- ===== src/Errors.antt =====
-- errors.py, and the exceptions of Python and its libraries that the modelled code raises or lets
-- through. A raise carries what its message says, so a message is a constructor and its values.
pub mod Result
pub mod Action
pub mod Raises
pub mod Keeps
use secure_vault.Prelude.{ℕ, Bool, true, false}
use secure_vault.Prelude.{Bytes}

-- The messages of `VaultFormatError`.
pub data FormatReason : Type 0 where
  too_short : ℕ → FormatReason
  bad_magic : FormatReason
  unsupported_version unsupported_kdf unsupported_aead : ℕ → FormatReason
  memory_range time_range parallelism_range : ℕ → FormatReason
  bad_salt_length : ℕ → FormatReason
  body_too_small length_mismatch : FormatReason
  body_not_json missing_entries bad_schema entries_not_list : FormatReason
  missing_field : Bytes → FormatReason

-- The messages of `ValueError`.
pub data ValueReason : Type 0 where
  bad_salt bad_key : ℕ → ValueReason
  counter_range bad_kdf_header bad_nonce bad_dek_blob short_body_blob : ValueReason
  vault_closed : ValueReason
  no_category all_ambiguous length_range : ValueReason
  length_short : ℕ → ℕ → ValueReason

-- `authentication_error` has no argument: the code always raises it with its default message.
pub data Error : Type 0 where
  format_error : FormatReason → Error
  authentication_error : Error
  locked_error : Error
  clipboard_unavailable : Error
  value_error : ValueReason → Error
  struct_error : Error
  invalid_tag : Error
  overflow_error : Error
  index_error : Error
  os_error file_not_found file_exists : Error
  keyboard_interrupt system_exit pyperclip_error : Error
  type_error unicode_error hashing_error : Error
  entry_not_found : Bytes → Error
  out_of_fuel crash : Error
