-- ===== src/Entries.antt =====
-- entries.py: the entries of a vault and their JSON.
pub mod RoundTrip
pub mod Failing
use mathlib.Core.Bool.{not, ◌||◌}
use secure_vault.Prelude.{
  ℕ, ◌/◌, ◌%◌, Bool, true, false, Option, none, some, List, [], ◌∷◌, map, Bytes, Text, codes, take,
  bytes_eq, if◌then◌else◌,
}
use secure_vault.Errors.{
  format_error, body_not_json, missing_entries, bad_schema, entries_not_list, missing_field,
  type_error, unicode_error,
}
use secure_vault.Errors.Result.{Result, ok, err, raise_if, ◌>>=◌, ◌>>◌}
use secure_vault.Errors.Action.{Action}
use secure_vault.Random.{Entropy, advance, draw_bytes}
use secure_vault.Utf8.{encode, decode}
use secure_vault.Json.{
  Value, Items, Fields, null, true_, false_, number, string, array, object, nil, cons, end, field,
  Scan, stuck, bad, got,
}
use secure_vault.Json.Strings.{hex_digit}
use secure_vault.Json.Printer.{dumps}
use secure_vault.Json.Parser.{loads}

pub record Entry : Type 0 where
  pub id : Text
  pub service : Text
  pub username : Text
  pub password : Text
  pub notes : Text
  pub created_at : Text
  pub updated_at : Text

abbrev pub hex_text : Bytes → Text
hex_text [] = []
hex_text (b ∷ bs) = hex_digit (b / 16 % 16) ∷ hex_digit (b % 16) ∷ hex_text bs

-- `uuid.uuid4().hex[:8]`: 16 random bytes, of which the first 4 are written as they are.
unfoldable pub new_entry_id : Action Entropy Text
new_entry_id e = (ok (hex_text (take 4 (draw_bytes 16 e))), advance 16 e)

-- `Entry.to_dict`
unfoldable pub to_dict : Entry → Value
to_dict e = object (
    field (codes "id") (string e.id) (
      field (codes "service") (string e.service) (
        field (codes "username") (string e.username) (
          field (codes "password") (string e.password) (
            field (codes "notes") (string e.notes) (
              field (codes "created_at") (string e.created_at)
                (field (codes "updated_at") (string e.updated_at) end)))))))

abbrev pub prefer : Option Value → Bool → Value → Option Value
prefer (some later) same v = some later
prefer none true v = some v
prefer none false v = none

-- The value of a key; of two with the same key the later one counts.
unfoldable pub get : Text → Fields → Option Value
get key end = none
get key (field k v fs) = prefer (get key fs) (bytes_eq k key) v

abbrev pub items_of : List Value → Items
items_of [] = nil
items_of (v ∷ vs) = cons v (items_of vs)

abbrev pub schema_version : Text
schema_version = codes "1"

-- The value that is serialized.
unfoldable pub payload : List Entry → Value
payload entries = object (
    field (codes "schema_version") (number schema_version)
      (field (codes "entries") (array (items_of (map to_dict entries))) end))

abbrev pub or_unicode_error : Option Bytes → Result Bytes
or_unicode_error none = err unicode_error
or_unicode_error (some bs) = ok bs

unfoldable pub serialize_entries : List Entry → Result Bytes
serialize_entries entries = or_unicode_error (encode (dumps (payload entries)))

-- What Python computes of a JSON value and this development does not: `str` of a value that is no
-- text, and whether the float that a number with a point or an exponent stands for equals 1.
pub record Builtins : Type 0 where
  pub str : Value → Text
  pub float_is_one : Text → Bool

module _ (python : Builtins) where
  -- `str(value)`
  abbrev pub text_of : Value → Text
  text_of (string text) = text
  text_of v = python.str v

  abbrev pub required : Text → Option Value → Result Text
  required key none = err (format_error (missing_field key))
  required key (some v) = ok (text_of v)

  -- `str(data.get("notes", ""))`
  abbrev pub optional : Option Value → Text
  optional none = []
  optional (some v) = text_of v

  abbrev pub from_fields : Fields → Result Entry
  from_fields fs = do
    id ← required (codes "id") (get (codes "id") fs)
    service ← required (codes "service") (get (codes "service") fs)
    username ← required (codes "username") (get (codes "username") fs)
    password ← required (codes "password") (get (codes "password") fs)
    let notes = optional (get (codes "notes") fs)
    created_at ← required (codes "created_at") (get (codes "created_at") fs)
    updated_at ← required (codes "updated_at") (get (codes "updated_at") fs)
    ok (record {
      id = id;
      service = service;
      username = username;
      password = password;
      notes = notes;
      created_at = created_at;
      updated_at = updated_at;
    })

  -- `Entry.from_dict`: `data["id"]` of what is no dict is a TypeError.
  unfoldable pub from_dict : Value → Result Entry
  from_dict (object fs) = from_fields fs
  from_dict v = err type_error

  -- `[Entry.from_dict(e) for e in raw_entries]`
  unfoldable pub from_dicts : Items → Result (List Entry)
  unfolding from_dict
  from_dicts nil = ok []
  from_dicts (cons v vs) = do e ← from_dict v; es ← from_dicts vs; ok (e ∷ es)

  -- `payload.get("schema_version") != _SCHEMA_VERSION`, negated: `True` equals 1 too.
  abbrev pub is_current : Option Value → Bool
  is_current (some (number lexeme)) = bytes_eq lexeme schema_version || python.float_is_one lexeme
  is_current (some true_) = true
  is_current _ = false

  abbrev pub is_none : Option Value → Bool
  is_none none = true
  is_none (some v) = false

  abbrev pub entries_from : Option Value → Result (List Entry)
  entries_from (some (array vs)) = from_dicts vs
  entries_from _ = err (format_error entries_not_list)

  abbrev pub from_payload : Value → Result (List Entry)
  from_payload (object fs) = do
    raise_if (is_none (get (codes "entries") fs)) (format_error missing_entries)
    raise_if (not (is_current (get (codes "schema_version") fs))) (format_error bad_schema)
    entries_from (get (codes "entries") fs)
  from_payload v = err (format_error missing_entries)

  abbrev pub parsed : Scan Value → Result Value
  parsed (got v rest) = ok v
  parsed bad = err (format_error body_not_json)
  parsed stuck = err (format_error body_not_json)

  -- `json.loads(data.decode("utf-8"))`
  abbrev pub loads_bytes : Option Text → Result Value
  loads_bytes none = err (format_error body_not_json)
  loads_bytes (some text) = parsed (loads text)

  unfoldable pub deserialize_entries : Bytes → Result (List Entry)
  deserialize_entries body = do value ← loads_bytes (decode body); from_payload value
