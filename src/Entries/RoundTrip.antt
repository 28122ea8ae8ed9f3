-- ===== src/Entries/RoundTrip.antt =====
-- Entries that are written are read back.
use secure_vault.Prelude.{◌≡◌, refl, List, [], ◌∷◌, map, Bytes, All, bytes_eq, arith}
use secure_vault.Errors.Result.{ok}
use secure_vault.Utf8.RoundTrip.{encode-IsAscii, IsText, decode-encode}
use secure_vault.Json.Printer.{dumps}
use secure_vault.Json.Ascii.{AreNumbered, IsNumbered, dumps-IsAscii}
use secure_vault.Json.RoundTrip.{IsPrintable, ArePrintable, loads-dumps}
use secure_vault.Entries.{
  Entry, Builtins, to_dict, get, items_of, payload, serialize_entries, from_dict, from_dicts,
  from_payload, deserialize_entries,
}

-- No field of the entry holds a surrogate.
pub record IsEntry (e : Entry) : Type 0 where
  pub id_text : IsText e.id
  pub service_text : IsText e.service
  pub username_text : IsText e.username
  pub password_text : IsText e.password
  pub notes_text : IsText e.notes
  pub created_at_text : IsText e.created_at
  pub updated_at_text : IsText e.updated_at

to_dict-IsPrintable : (e : Entry) → IsEntry e → IsPrintable (to_dict e)
unfolding to_dict
to_dict-IsPrintable e h = ground arith

dicts-ArePrintable : (es : List Entry) → All IsEntry es → ArePrintable (items_of (map to_dict es))
dicts-ArePrintable [] h = tt
dicts-ArePrintable (e ∷ es) h = (to_dict-IsPrintable e h.0, dicts-ArePrintable es h.1)

dicts-AreNumbered : (es : List Entry) → AreNumbered (items_of (map to_dict es))
unfolding to_dict
dicts-AreNumbered [] = tt
dicts-AreNumbered (e ∷ es) = (ground arith, dicts-AreNumbered es)

payload-IsNumbered : (es : List Entry) → IsNumbered (payload es)
unfolding payload
payload-IsNumbered es = ((omega arith, tt), (dicts-AreNumbered es, tt))

payload-IsPrintable : (es : List Entry) → All IsEntry es → IsPrintable (payload es)
unfolding payload
payload-IsPrintable es h = let items = dicts-ArePrintable es h in ground arith

-- Serializing never fails: the JSON is ASCII, whatever the entries hold.
pub serialize_entries_total : (es : List Entry) → serialize_entries es ≡ ok (dumps (payload es))
unfolding serialize_entries
serialize_entries_total es =
    rw (encode-IsAscii (dumps (payload es)) (dumps-IsAscii (payload es) (payload-IsNumbered es)))

module _ (python : Builtins) where
  pub from_dict-to_dict : (e : Entry) → from_dict python (to_dict e) ≡ ok e
  unfolding from_dict to_dict get bytes_eq
  from_dict-to_dict e = refl

  from_dicts-map : (es : List Entry) → from_dicts python (items_of (map to_dict es)) ≡ ok es
  unfolding from_dicts
  from_dicts-map [] = refl
  from_dicts-map (e ∷ es) = rw (from_dict-to_dict e, from_dicts-map es)

  from_payload-payload : (es : List Entry) → from_payload python (payload es) ≡ ok es
  unfolding payload get bytes_eq
  from_payload-payload es = from_dicts-map es

  -- Entries without surrogates are serialized, and deserializing gives the same entries back, in
  -- their order and in every field.
  pub deserialize_entries-serialize_entries :
      (es : List Entry)
      → All IsEntry es
      → (body : Bytes) × (serialize_entries es ≡ ok body)
        × (deserialize_entries python body ≡ ok es)
  unfolding serialize_entries deserialize_entries
  deserialize_entries-serialize_entries es h =
      let ascii = dumps-IsAscii (payload es) (payload-IsNumbered es) in
      let encoded = encode-IsAscii (dumps (payload es)) ascii in
      let decoded = decode-encode (dumps (payload es)) _ encoded in
      (
        dumps (payload es),
        rw encoded,
        rw (decoded, loads-dumps (payload es) (payload-IsPrintable es h)) (from_payload-payload es),
      )
