-- ===== src/Repository/Editing.antt =====
-- `update_entry` and `delete_entry`.
use secure_vault.Prelude.{
  ◌≤◌, ◌<◌, ◌≡◌, ◌≢◌, refl, ap, ◌∙◌, false, Option, length, List, ◌∷◌, ◌++◌, Bytes, Text,
}
use secure_vault.Errors.{entry_not_found}
use secure_vault.Errors.Result.{ok, err}
use secure_vault.Crypto.{IsCrypto, max_text}
use secure_vault.FileFormat.{max_counter}
use secure_vault.Entries.{Entry}
use secure_vault.Repository.{Platform, State}
use secure_vault.Repository.Stored.{IsSynced}
use secure_vault.Repository.Outcomes.{Changed, persist-Changed, body_of}
use secure_vault.Repository.Changes.{
  find, has_id, get_entry, update_entry, delete_entry, remove_first,
}
use secure_vault.Repository.FirstMatch.{find_first, remove_first_lem, find_missing}

-- Without an entry of that id, get_entry, update_entry and delete_entry raise EntryNotFoundError and
-- change nothing.
pub missing_entry :
    (p : Platform) (id : Text) (service username password notes : Option Text) (s : State)
    → has_id id s.self.entries ≡ false
    → (get_entry id s ≡ (err (entry_not_found id), s))
      × (update_entry p id service username password notes s ≡ (err (entry_not_found id), s))
      × (delete_entry p id s ≡ (err (entry_not_found id), s))
unfolding get_entry update_entry delete_entry
missing_entry p id service username password notes s h =
    let missing = find_missing id s.self.entries h in rw missing (refl, refl, refl)

module _ (p : Platform) (L : IsCrypto p.crypto) where
  -- delete_entry removes the first entry with the id and no other. However it ends, the file holds
  -- the old entries or the new ones; if it returns, the file holds the new ones. The object and the
  -- file agree before the call, there is room for the text and for the counter, and the temporary
  -- name is not the vault's.
  pub delete_entry-Changed :
      (master : Bytes) (id : Text) (before after : List Entry) (current : Entry) (s : State)
      → IsSynced p master s
      → s.self.entries ≡ before ++ (current ∷ after)
      → has_id id before ≡ false
      → current.id ≡ id
      → length (body_of (before ++ after)) ≤ max_text
      → s.self.unlocked.counter < max_counter
      → s.self.path ≢ s.machine.temps 0
      → Changed p master s.self (before ++ after) tt (delete_entry p id s)
  unfolding delete_entry get_entry
  delete_entry-Changed master id before after current s synced shape unseen same fits room apart =
      let found : find id s.self.entries ≡ ok current =
        ap (find id) shape ∙ find_first id current same before after unseen in
      let removed : remove_first current s.self.entries ≡ before ++ after =
        ap (remove_first current) shape ∙ remove_first_lem id current same before after unseen in
      let t = record s { self = record s.self { entries = before ++ after } } in
      rw (found, removed)
        (persist-Changed p L master synced.body s.self.entries t synced.session synced.stored fits
          room apart)
