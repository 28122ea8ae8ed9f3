-- ===== src/Tests/Bodies.antt =====
-- The JSON of entries at concrete inputs.
use secure_vault.Prelude.{
  ◌+◌, ◌≡◌, refl, arith, [], ◌∷◌, false, List, Bytes, Text, codes, All, bytes_eq,
}
use secure_vault.Errors.{type_error, format_error, bad_schema}
use secure_vault.Errors.Result.{ok, err}
use secure_vault.Random.{draw_bytes, advance}
use secure_vault.Utf8.{decode, decode_from}
use secure_vault.Json.{number, string, nil}
use secure_vault.Json.Printer.{dumps}
use secure_vault.Json.Parser.{loads}
use secure_vault.Json.Units.{literal, join_from}
use secure_vault.Json.Strings.{escape, hex_digit, scan_units}
use secure_vault.Entries.{
  Entry, Builtins, new_entry_id, serialize_entries, deserialize_entries, get,
}
use secure_vault.Entries.RoundTrip.{IsEntry, deserialize_entries-serialize_entries}
use secure_vault.Entries.Failing.{
  IsBodyError, deserialize_entries_errors, deserialize_entries_leaks,
}

-- The text of a value that is no string, and of a number of another form, are not looked at here.
abbrev pub python : Builtins
python = record { str = λ v. codes "?"; float_is_one = λ lexeme. false }

-- A line feed and an euro sign are escaped.
dumps_small : dumps (string (8364 ∷ 10 ∷ [])) ≡ codes "\"\\u20ac\\n\""
unfolding dumps literal escape hex_digit
dumps_small = refl

new_entry_id_run : (new_entry_id (λ i. 171 + i)).0 ≡ ok (codes "abacadae")
unfolding new_entry_id draw_bytes advance hex_digit
new_entry_id_run = refl

abbrev pub mail : Entry
mail = record {
  id = codes "a1";
  service = codes "m";
  username = 8364 ∷ [];
  password = codes "p";
  notes = [];
  created_at = codes "0";
  updated_at = codes "0";
}

abbrev pub bank : Entry
bank = record {
  id = codes "b2";
  service = codes "b";
  username = [];
  password = codes "\"";
  notes = codes "n";
  created_at = codes "0";
  updated_at = codes "1";
}

abbrev pub two : List Entry
two = mail ∷ bank ∷ []

pub two-IsEntry : All IsEntry two
two-IsEntry = ground arith

deserialize_entries-serialize_entries_example :
    (body : Bytes) × (serialize_entries two ≡ ok body) × (deserialize_entries python body ≡ ok two)
deserialize_entries-serialize_entries_example =
    deserialize_entries-serialize_entries python two two-IsEntry

abbrev not_dicts : Text
not_dicts = codes "{\"schema_version\": 1, \"entries\": [7]}"

deserialize_entries_leaks_example : deserialize_entries python not_dicts ≡ err type_error
unfolding decode decode_from loads get bytes_eq scan_units join_from
deserialize_entries_leaks_example =
    deserialize_entries_leaks python not_dicts not_dicts [] _ (number (codes "7")) nil refl refl
      refl refl refl

deserialize_entries_errors_example : IsBodyError (format_error bad_schema)
unfolding deserialize_entries decode decode_from loads get bytes_eq scan_units join_from
deserialize_entries_errors_example =
    deserialize_entries_errors python (codes "{\"schema_version\":2,\"entries\":[]}")
      (format_error bad_schema) refl
