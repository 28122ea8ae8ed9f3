-- ===== src/Entries/Failing.antt =====
-- How reading a body fails.
use secure_vault.Prelude.{Bool, ◌∷◌, ◌≡◌, refl, true, false, Option, none, some, Bytes, Text, codes}
use secure_vault.Errors.{Error, FormatReason, format_error, type_error}
use secure_vault.Errors.Result.{err}
use secure_vault.Errors.Raises.{Raises, err-Raises, ok-Raises, raise_if-Raises, bind-Raises}
use secure_vault.Utf8.{decode}
use secure_vault.Json.{
  Value, Items, Fields, null, true_, false_, number, string, array, object, nil, cons, Scan, got,
  bad, stuck,
}
use secure_vault.Json.Parser.{loads}
use secure_vault.Entries.{
  Builtins, get, required, from_fields, from_dict, from_dicts, entries_from, from_payload,
  loads_bytes, parsed, is_current, deserialize_entries,
}

-- A `VaultFormatError`, or the `TypeError` of an element that is no dict.
pub data IsBodyError : Error → Type 0 where
  is_format : (r : FormatReason) → IsBodyError (format_error r)
  is_type : IsBodyError type_error

ruleset body_rules = (ok-Raises, err-Raises, raise_if-Raises, bind-Raises, is_format, is_type)

abbrev pub is_object : Value → Bool
is_object (object fs) = true
is_object _ = false

module _ (python : Builtins) where
  required-Raises : (key : Text) (o : Option Value) → Raises IsBodyError (required python key o)
  required-Raises key none = search body_rules
  required-Raises key (some v) = search body_rules

  from_fields-Raises : (fs : Fields) → Raises IsBodyError (from_fields python fs)
  from_fields-Raises fs = search (body_rules, required-Raises) depth 30

  from_dict-Raises : (v : Value) → Raises IsBodyError (from_dict python v)
  unfolding from_dict
  from_dict-Raises (object fs) = from_fields-Raises fs
  from_dict-Raises null = search body_rules
  from_dict-Raises true_ = search body_rules
  from_dict-Raises false_ = search body_rules
  from_dict-Raises (number lexeme) = search body_rules
  from_dict-Raises (string text) = search body_rules
  from_dict-Raises (array vs) = search body_rules

  from_dicts-Raises : (vs : Items) → Raises IsBodyError (from_dicts python vs)
  unfolding from_dicts
  from_dicts-Raises nil = search body_rules
  from_dicts-Raises (cons v vs) =
      bind-Raises (from_dict python v) _ (from_dict-Raises v) (λ e.
        bind-Raises (from_dicts python vs) _ (from_dicts-Raises vs) (λ es. ok-Raises (e ∷ es)))

  entries_from-Raises : (o : Option Value) → Raises IsBodyError (entries_from python o)
  entries_from-Raises (some (array vs)) = from_dicts-Raises vs
  entries_from-Raises none = search body_rules
  entries_from-Raises (some v) = search body_rules

  from_payload-Raises : (v : Value) → Raises IsBodyError (from_payload python v)
  from_payload-Raises (object fs) = search (body_rules, entries_from-Raises) depth 20
  from_payload-Raises v = search body_rules

  loads_bytes-Raises : (o : Option Text) → Raises IsBodyError (loads_bytes python o)
  loads_bytes-Raises none = search body_rules
  loads_bytes-Raises (some text) = parsed-Raises (loads text)
    where
      parsed-Raises : (r : Scan Value) → Raises IsBodyError (parsed python r)
      parsed-Raises (got v rest) = search body_rules
      parsed-Raises bad = search body_rules
      parsed-Raises stuck = search body_rules

  -- Reading a body fails by a VaultFormatError, or by the TypeError of an element of its list of
  -- entries that is no dict, and by nothing else.
  pub deserialize_entries_errors :
      (body : Bytes) (e : Error) → deserialize_entries python body ≡ err e → IsBodyError e
  unfolding deserialize_entries
  deserialize_entries_errors body e h =
      (bind-Raises (loads_bytes python (decode body)) (from_payload python)
          (loads_bytes-Raises (decode body)) from_payload-Raises).at
        e h

  not_object : (v : Value) → is_object v ≡ false → from_dict python v ≡ err type_error
  unfolding from_dict
  not_object (object fs) h = cc
  not_object null h = refl
  not_object true_ h = refl
  not_object false_ h = refl
  not_object (number lexeme) h = refl
  not_object (string text) h = refl
  not_object (array vs) h = refl

  -- A JSON body of the current schema whose list of entries starts with something else than an
  -- object raises a TypeError, which is no VaultFormatError.
  pub deserialize_entries_leaks :
      (body : Bytes) (text rest : Text) (fs : Fields) (v : Value) (vs : Items)
      → decode body ≡ some text
      → loads text ≡ got (object fs) rest
      → get (codes "entries") fs ≡ some (array (cons v vs))
      → is_current python (get (codes "schema_version") fs) ≡ true
      → is_object v ≡ false
      → deserialize_entries python body ≡ err type_error
  unfolding deserialize_entries from_dicts
  deserialize_entries_leaks body text rest fs v vs decoded loaded listed current other =
      rw (decoded, loaded, listed, current, not_object v other)
