-- ===== src/Tests/Methods.antt =====
-- The theorems of repository.py at concrete inputs.
use secure_vault.Prelude.{
  ◌≤◌, ◌≡◌, ◌⊎◌, refl, arith, [], ◌∷◌, ◌++◌, some, none, length, codes, bytes_eq,
}
use secure_vault.Errors.Result.{ok}
use secure_vault.Random.{draw_bytes, advance}
use secure_vault.Crypto.{max_text}
use secure_vault.Memory.{zeros}
use secure_vault.Json.Printer.{dumps}
use secure_vault.Json.Units.{literal}
use secure_vault.Json.Strings.{escape, hex_digit}
use secure_vault.Locking.{acquire}
use secure_vault.Entries.{Entry, payload, to_dict, new_entry_id}
use secure_vault.Repository.{
  Machine, VaultRepository, open_repository, create, change_master_password, close, returned,
}
use secure_vault.Repository.Stored.{IsSynced}
use secure_vault.Repository.Outcomes.{body_of, Changed}
use secure_vault.Repository.Changes.{
  has_id, fresh_id, made_entry, add_entry, updated_entry, delete_entry,
}
use secure_vault.Repository.Adding.{IsMade, add_entry-Changed}
use secure_vault.Repository.Editing.{delete_entry-Changed}
use secure_vault.Repository.Opening.{locking, open_repository-Stores}
use secure_vault.Repository.Creating.{Returns, create-Returns}
use secure_vault.Repository.Rekeying.{Unchanged, Rekeyed, change_master_password_safe}
use secure_vault.Repository.Closing.{close_lem}
use secure_vault.Tests.Toy.{toy-IsCrypto}
use secure_vault.Tests.Vaults.{costs, password, salt, dek}
use secure_vault.Tests.Bodies.{mail, bank, two, two-IsEntry}
use secure_vault.Tests.Repositories.{
  away, files, fits, full, open-IsSynced, open_state, platform, third, three_fit, two-IsOpenWith,
  two-Stores, closed_machine,
}

add_entry-Changed_example :
    IsMade (codes "s") (codes "u") (codes "p") [] two third
    × Changed platform password
        (open_state full).self
        (two ++ (third ∷ []))
        third
        (add_entry platform 3 (codes "s") (codes "u") (codes "p") [] (open_state full))
unfolding made_entry new_entry_id fresh_id has_id bytes_eq draw_bytes advance hex_digit
add_entry-Changed_example =
    add_entry-Changed platform toy-IsCrypto 3 password (codes "s") (codes "u") (codes "p") [] third
      (open_state full) (open-IsSynced full refl) refl three_fit (omega arith) away

abbrev new_bank : Entry
new_bank = updated_entry none none (some (codes "q")) none (codes "2") bank

bank_fits : length (body_of (bank ∷ [])) ≤ max_text
unfolding dumps payload literal escape to_dict
bank_fits = omega arith

delete_entry-Changed_example :
    Changed platform password
      (open_state full).self
      (bank ∷ [])
      tt
      (delete_entry platform (codes "a1") (open_state full))
unfolding has_id
delete_entry-Changed_example =
    delete_entry-Changed platform toy-IsCrypto password (codes "a1") [] (bank ∷ []) mail
      (open_state full) (open-IsSynced full refl) refl refl refl bank_fits (omega arith) away

open_repository-Stores_example :
    let m = closed_machine files in
    (r : VaultRepository) × (m' : Machine) × (open_repository platform 5 password m ≡ (ok r, m'))
    × (r.path ≡ 5)
    × (r.entries ≡ two)
    × (r.lock ≡ (locking platform 5 m).1.self)
    × IsSynced platform password (record { self = r; machine = m' })
    × (m'.disk ≡ m.disk)
    × (m'.kernel ≡ (locking platform 5 m).1.kernel)
unfolding acquire
open_repository-Stores_example =
    open_repository-Stores platform toy-IsCrypto 5 password two (closed_machine files) two-IsEntry
      two-Stores refl

abbrev pub empty_machine : Machine
empty_machine = closed_machine (λ n. none)

create-Returns_example :
    Returns platform 5 password [] empty_machine
      (create platform 5 password (some costs) empty_machine)
unfolding acquire
create-Returns_example =
    create-Returns platform toy-IsCrypto 5 password (some costs) empty_machine refl (omega arith)
      refl refl away refl (λ i. refl)

change_master_password_safe_example :
    let s = open_state full in
    let run = change_master_password platform salt none s in
    (run.1.self.entries ≡ two)
    × (Unchanged platform password salt costs s run ⊎ Rekeyed platform password salt s run)
change_master_password_safe_example =
    change_master_password_safe platform toy-IsCrypto password salt none (open_state full)
      (open-IsSynced full refl) (omega arith) (omega (arith, fits)) (omega arith) away

close_lem_example :
    let s = open_state full in
    let run = close platform s in
    (run.1.machine.world.heap 0 ≡ zeros dek)
    × (run.1.machine.world.heap 1 ≡ zeros (body_of two))
    × (run.1.self.entries ≡ [])
    × (run.1.self.lock.fd ≡ none)
    × (run.1.machine.kernel.holder 5 ≡ none)
    × (run.1.machine.disk ≡ full)
    × (run.1.self.closed ≡ returned run.0)
close_lem_example =
    close_lem platform password (body_of two) 2 (open_state full) (two-IsOpenWith full) refl refl
      refl
