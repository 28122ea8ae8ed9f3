-- ===== src/Processes/Bodies.antt =====
-- What the code of `open` and `create` under the lock makes and leaves alone.
use secure_vault.Prelude.{ℕ, ◌≡◌, arith, Option, [], Bytes}
use secure_vault.Errors.Result.{ok}
use secure_vault.Errors.Action.{Action, lift}
use secure_vault.Errors.Keeps.{Keeps, pure-Keeps, lift-Keeps, bind-Keeps}
use secure_vault.Kdf.{Argon2Parameters}
use secure_vault.Memory.{World}
use secure_vault.Storage.{Files}
use secure_vault.Locking.{FileLock, Kernel}
use secure_vault.Vault
use secure_vault.Vault.{UnlockedVault, open_vault}
use secure_vault.Repository.{
  Platform, Machine, VaultRepository, on_world, storage_read, storage_write, init, create_locked,
  open_locked,
}
use secure_vault.Entries.{serialize_entries}
use secure_vault.Processes.Framing.{Apart, storage_write-Keeps}

-- A new object has its path and its lock.
init_fields :
    (p : Platform) (path : ℕ) (v : UnlockedVault) (lock : FileLock) (m : Machine)
    (r : VaultRepository)
    → (init p path v lock m).0 ≡ ok r
    → (r.path ≡ path) × (r.lock ≡ lock)
unfolding init
init_fields p path v lock m r h = ground arith

pub open_fields :
    (p : Platform) (path : ℕ) (password : Bytes) (lock : FileLock) (m : Machine)
    (r : VaultRepository)
    → (open_locked p path password lock m).0 ≡ ok r
    → (r.path ≡ path) × (r.lock ≡ lock)
unfolding open_locked init
open_fields p path password lock m r h = ground arith

pub create_fields :
    (p : Platform) (path : ℕ) (password : Bytes) (params : Option Argon2Parameters)
    (lock : FileLock) (m : Machine) (r : VaultRepository)
    → (create_locked p path password params lock m).0 ≡ ok r
    → (r.path ≡ path) × (r.lock ≡ lock)
unfolding create_locked init
create_fields p path password params lock m r h = ground arith

module _ (IsVault : ℕ → Type 0) (path : ℕ) (own : IsVault path) (start : Files) (k : Kernel) where
  abbrev Kept : Machine → Type 0
  Kept = Apart IsVault path own start k

  on_world-Keeps : {A : Type 0} (f : Action World A) → Keeps Kept (on_world f)
  on_world-Keeps f = record { at = λ m h. h }

  storage_read-Keeps : (x : ℕ) → Keeps Kept (storage_read x)
  storage_read-Keeps x = record { at = λ m h. h }

  init-Keeps :
      (p : Platform) (v : UnlockedVault) (lock : FileLock) → Keeps Kept (init p path v lock)
  unfolding init
  init-Keeps p v lock = search (pure-Keeps, lift-Keeps, bind-Keeps, on_world-Keeps) depth 20

  pub open_locked-Keeps :
      (p : Platform) (password : Bytes) (lock : FileLock)
      → Keeps Kept (open_locked p path password lock)
  unfolding open_locked
  open_locked-Keeps p password lock =
      search (bind-Keeps, on_world-Keeps, storage_read-Keeps, init-Keeps) depth 20

  pub create_locked-Keeps :
      (p : Platform) (password : Bytes) (params : Option Argon2Parameters) (lock : FileLock)
      → Keeps Kept (create_locked p path password params lock)
  unfolding create_locked
  create_locked-Keeps p password params lock =
      bind-Keeps (lift (serialize_entries [])) _ (lift-Keeps _) (λ empty.
        bind-Keeps (on_world (Vault.create p.crypto password empty params)) _
          (on_world-Keeps (Vault.create p.crypto password empty params))
          (λ bytes.
            bind-Keeps (storage_write p path bytes) _
              (storage_write-Keeps IsVault path own start k p bytes)
              (λ _.
                bind-Keeps (on_world (open_vault p.crypto password bytes)) _
                  (on_world-Keeps (open_vault p.crypto password bytes))
                  (λ unlocked. init-Keeps p unlocked lock))))
