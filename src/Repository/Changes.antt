-- ===== src/Repository/Changes.antt =====
-- The queries and changes of a `VaultRepository`.
use mathlib.Core.Bool.{◌&&◌, ◌||◌}
use secure_vault.Prelude.{
  ℕ, zero, suc, Bool, true, false, Option, none, some, List, [], ◌∷◌, ◌++◌, Text, bytes_eq,
  if◌then◌else◌,
}
use secure_vault.Errors.{entry_not_found, out_of_fuel}
use secure_vault.Errors.Result.{Result, ok, err}
use secure_vault.Errors.Action.{Action, pure, raise, gets, ◌>>=◌, ◌>>◌}
use secure_vault.Random.{Entropy}
use secure_vault.Memory.{with_entropy}
use secure_vault.Entries.{Entry, new_entry_id}
use secure_vault.Repository.{
  Platform, VaultRepository, State, on_world, on_machine, set_self, now_iso, persist,
}

-- `==` of two entries compares every field.
abbrev pub entry_eq : Entry → Entry → Bool
entry_eq a b =
    bytes_eq a.id b.id
    && bytes_eq a.service b.service
    && bytes_eq a.username b.username
    && bytes_eq a.password b.password
    && bytes_eq a.notes b.notes
    && bytes_eq a.created_at b.created_at
    && bytes_eq a.updated_at b.updated_at

unfoldable pub find : Text → List Entry → Result Entry
find id [] = err (entry_not_found id)
find id (e ∷ es) = if bytes_eq e.id id then ok e else find id es

-- `self._entries[self._entries.index(current)] = updated`
unfoldable pub replace_first : Entry → Entry → List Entry → List Entry
replace_first current updated [] = []
replace_first current updated (e ∷ es) =
    let rest = replace_first current updated es in
    if entry_eq e current then updated ∷ es else e ∷ rest

-- `self._entries.remove(entry)`
unfoldable pub remove_first : Entry → List Entry → List Entry
remove_first entry [] = []
remove_first entry (e ∷ es) =
    let rest = remove_first entry es in if entry_eq e entry then es else e ∷ rest

-- `any(existing.id == entry.id for existing in self._entries)`
unfoldable pub has_id : Text → List Entry → Bool
has_id id [] = false
has_id id (e ∷ es) = bytes_eq e.id id || has_id id es

-- The loop draws ids until one is new, at most as often as the bound says.
unfoldable pub fresh_id : ℕ → List Entry → Text → Action Entropy Text
fresh_id zero es id = raise out_of_fuel
fresh_id (suc n) es id = elim (has_id id es) [
  | true ↦ do next ← new_entry_id; fresh_id n es next
  | false ↦ pure id
]

-- A keyword argument that is None leaves the field.
abbrev pub or_current : Option Text → Text → Text
or_current none current = current
or_current (some new) current = new

abbrev pub list_entries : Action State (List Entry)
list_entries = gets (λ (s : State). s.self.entries)

unfoldable pub get_entry : Text → Action State Entry
unfolding find
get_entry id s = (find id s.self.entries, s)

abbrev pub set_entries : (List Entry → List Entry) → Action State (Unit {0})
set_entries f = set_self (λ (r : VaultRepository). record r { entries = f r.entries })

-- The entry that `add_entry` makes, with an id that no other entry has.
unfoldable pub made_entry : ℕ → Text → Text → Text → Text → Action State Entry
made_entry bound service username password notes = do
  first ← on_machine (on_world (with_entropy new_entry_id))
  created ← on_machine now_iso
  updated ← on_machine now_iso
  existing ← list_entries
  id ← on_machine (on_world (with_entropy (fresh_id bound existing first)))
  pure (record {
    id = id;
    service = service;
    username = username;
    password = password;
    notes = notes;
    created_at = created;
    updated_at = updated;
  })

-- The entry that `update_entry` makes of the current one.
abbrev pub updated_entry :
    Option Text → Option Text → Option Text → Option Text → Text → Entry → Entry
updated_entry service username password notes now current = record current {
  service = or_current service current.service;
  username = or_current username current.username;
  password = or_current password current.password;
  notes = or_current notes current.notes;
  updated_at = now;
}

module _ (p : Platform) where
  unfoldable pub add_entry : ℕ → Text → Text → Text → Text → Action State Entry
  add_entry bound service username password notes = do
    entry ← made_entry bound service username password notes
    set_entries (λ es. es ++ (entry ∷ []))
    persist p
    pure entry

  unfoldable pub update_entry :
      Text → Option Text → Option Text → Option Text → Option Text → Action State Entry
  unfolding get_entry
  update_entry id service username password notes = do
    current ← get_entry id
    now ← on_machine now_iso
    let updated = updated_entry service username password notes now current
    set_entries (replace_first current updated)
    persist p
    pure updated

  unfoldable pub delete_entry : Text → Action State (Unit {0})
  unfolding get_entry
  delete_entry id = do entry ← get_entry id; set_entries (remove_first entry); persist p
