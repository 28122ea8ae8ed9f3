-- ===== src/Processes/Framing.antt =====
-- What the methods of a repository leave alone: the lock, the path, and the files of other vaults.
use secure_vault.Prelude.{ℕ, ◌+◌, ◌≡◌, ◌≢◌, inl, inr, sym, ◌∙◌, subst, List, Option, Bytes, Text}
use secure_vault.Errors.Action.{Action, lift, gets, ◌>>=◌}
use secure_vault.Errors.Keeps.{Keeps, pure-Keeps, lift-Keeps, bind-Keeps}
use secure_vault.Kdf.{Argon2Parameters}
use secure_vault.Memory.{World}
use secure_vault.Storage.{Files}
use secure_vault.Storage.Crash.{OldOrNew, write_atomic_safe}
use secure_vault.Locking.{FileLock, Kernel}
use secure_vault.Vault
use secure_vault.Vault.{Session}
use secure_vault.Entries.{Entry, serialize_entries}
use secure_vault.Repository.Changes.{
  list_entries, get_entry, set_entries, made_entry, add_entry, update_entry, delete_entry,
}
use secure_vault.Processes.{Method, add, update, delete, rekey, run}
use secure_vault.Repository.{
  Platform, Machine, VaultRepository, State, on_world, on_machine, on_vault, now_iso, storage_write,
  persist, change_master_password,
}

-- How a method, an open or a create of the vault at `path` changes the machine: no file of another
-- vault, and no lock.
module _ (IsVault : ℕ → Type 0) (path : ℕ) (own : IsVault path) (start : Files) (k : Kernel) where
  -- No temporary name is a vault's, the other vaults' files are those of the start, and the kernel is
  -- this one.
  abbrev pub Apart : Machine → Type 0
  Apart m =
      ((i : ℕ) → ¬ IsVault (m.temps i))
      × ((n : ℕ) → IsVault n → n ≢ path → m.disk.files n ≡ start n)
      × (m.kernel ≡ k)

  OldOrNew-at :
      (old files : Files) (tmp n : ℕ) (bytes : Bytes) (apart : path ≢ tmp)
      → n ≢ tmp
      → n ≢ path
      → OldOrNew old tmp path bytes apart files
      → files n ≡ old n
  OldOrNew-at old files tmp n bytes apart other aside (inl untouched) = untouched n other
  OldOrNew-at old files tmp n bytes apart other aside (inr (at, others)) = others n other aside

  pub storage_write-Keeps :
      (p : Platform) (bytes : Bytes) → Keeps Apart (storage_write p path bytes)
  storage_write-Keeps p bytes = record {
    at = λ m h.
        let away : path ≢ m.temps 0 = λ e. h.0 0 (subst IsVault e own) in
        (
          (λ i. h.0 (1 + i)),
          (λ n vault aside.
              OldOrNew-at m.disk.files _ (m.temps 0) n bytes away
                (λ e. h.0 0 (subst IsVault e vault)) aside
                (write_atomic_safe p.has_fchmod (m.temps 0) path bytes m.disk away)
              ∙ h.1 n vault aside),
          h.2,
        );
  }

  module _ (l : FileLock) where
    -- The same of the state of an object, whose path and lock stay.
    abbrev pub Aside : State → Type 0
    Aside s = (s.self.path ≡ path) × (s.self.lock ≡ l) × Apart s.machine

    on_vault-Keeps : {A : Type 0} (f : Action Session A) → Keeps Aside (on_vault f)
    on_vault-Keeps f = record { at = λ s h. h }

    on_world-Keeps : {A : Type 0} (f : Action World A) → Keeps Aside (on_machine (on_world f))
    on_world-Keeps f = record { at = λ s h. h }

    now_iso-Keeps : Keeps Aside (on_machine now_iso)
    now_iso-Keeps = record { at = λ s h. h }

    set_entries-Keeps : (f : List Entry → List Entry) → Keeps Aside (set_entries f)
    set_entries-Keeps f = record { at = λ s h. h }

    list_entries-Keeps : Keeps Aside list_entries
    list_entries-Keeps = record { at = λ s h. h }

    get_entry-Keeps : (id : Text) → Keeps Aside (get_entry id)
    unfolding get_entry
    get_entry-Keeps id = record { at = λ s h. h }

    write-Keeps :
        (p : Platform) (x : ℕ) (bytes : Bytes)
        → x ≡ path
        → Keeps Aside (on_machine (storage_write p x bytes))
    write-Keeps p x bytes at = record {
      at = λ s h. (
        h.0,
        h.1,
        subst (λ y. Apart (storage_write p y bytes s.machine).1) (sym at)
            ((storage_write-Keeps p bytes).at s.machine h.2),
      );
    }

    -- What follows may use the path of the object that it reads.
    self-Keeps :
        {B : Type 0} (f : VaultRepository → Action State B)
        → ((x : VaultRepository) → x.path ≡ path → Keeps Aside (f x))
        → Keeps Aside (gets (λ (s : State). s.self) >>= f)
    self-Keeps f l = record { at = λ s h. (l s.self h.0).at s h }

    persist-Keeps : (p : Platform) → Keeps Aside (persist p)
    unfolding persist
    persist-Keeps p = self-Keeps _ (λ x at.
        bind-Keeps (lift (serialize_entries x.entries)) _ (lift-Keeps _) (λ body.
          bind-Keeps (on_vault (Vault.save p.crypto body)) _
            (on_vault-Keeps (Vault.save p.crypto body)) (λ bytes. write-Keeps p x.path bytes at)))

    rekey-Keeps :
        (p : Platform) (password : Bytes) (params : Option Argon2Parameters)
        → Keeps Aside (change_master_password p password params)
    unfolding change_master_password
    rekey-Keeps p password params =
        bind-Keeps (on_vault (Vault.change_password p.crypto password params)) _
          (on_vault-Keeps (Vault.change_password p.crypto password params))
          (λ bytes. self-Keeps _ (λ x at. write-Keeps p x.path bytes at))

    ruleset method_rules = (
      pure-Keeps, lift-Keeps, bind-Keeps, on_world-Keeps, now_iso-Keeps, set_entries-Keeps,
      list_entries-Keeps, get_entry-Keeps, persist-Keeps,
    )

    made_entry-Keeps :
        (bound : ℕ) (service username password notes : Text)
        → Keeps Aside (made_entry bound service username password notes)
    unfolding made_entry
    made_entry-Keeps bound service username password notes = search method_rules depth 30

    pub run-Keeps : (p : Platform) (m : Method) → Keeps Aside (run p m)
    unfolding add_entry update_entry delete_entry
    run-Keeps p (add bound service username password notes) =
        search (method_rules, made_entry-Keeps) depth 30
    run-Keeps p (update id service username password notes) = search method_rules depth 30
    run-Keeps p (delete id) = search method_rules depth 30
    run-Keeps p (rekey password params) = rekey-Keeps p password params
