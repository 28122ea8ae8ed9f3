-- ===== src/Repository.antt =====
-- repository.py: the entries of an open vault, its file and its lock. A method runs on the object
-- and on the machine: the memory and random bytes of the process, the disk, the kernel's locks, the
-- clock, and the names that mkstemp will try.
pub mod Changes
pub mod Stored
pub mod Persisting
pub mod FirstMatch
pub mod Outcomes
pub mod Adding
pub mod Editing
pub mod Opening
pub mod Creating
pub mod Rekeying
pub mod Closing
use secure_vault.Prelude.{
  ℕ, zero, suc, ◌+◌, Bool, true, false, Option, none, some, List, [], ◌∷◌, ◌++◌, Bytes, Text,
  bytes_eq, if◌then◌else◌,
}
use mathlib.Core.Bool.{◌&&◌, ◌||◌}
use secure_vault.Errors.{
  Error, os_error, keyboard_interrupt, file_not_found, file_exists, entry_not_found, out_of_fuel,
  crash,
}
use secure_vault.Errors.Result.{Result, ok, err}
use secure_vault.Errors.Action.{Action, pure, raise, lift, gets, modify, ◌>>=◌, ◌>>◌}
use secure_vault.Random.{Entropy}
use secure_vault.Crypto.{Crypto}
use secure_vault.Kdf.{Argon2Parameters}
use secure_vault.Memory.{World, with_entropy}
use secure_vault.Vault
use secure_vault.Vault.{UnlockedVault, Session, open_vault}
use secure_vault.Storage
use secure_vault.Storage.{Disk, Command, Ending, finished, raised, crashed, write_atomic}
use secure_vault.Locking.{FileLock, Kernel, acquire, release}
use secure_vault.Locking
use secure_vault.Entries.{Entry, Builtins, new_entry_id, serialize_entries, deserialize_entries}

-- What the code runs on.
pub record Platform : Type 0 where
  pub crypto : Crypto
  pub python : Builtins
  pub has_fchmod : Bool
  pub has_fcntl : Bool

pub record Machine : Type 0 where
  pub world : World
  pub disk : Disk
  pub kernel : Kernel
  pub clock : ℕ → Text
  pub temps : ℕ → ℕ

-- The fields of a `VaultRepository`.
pub record VaultRepository : Type 0 where
  pub path : ℕ
  pub unlocked : UnlockedVault
  pub lock : FileLock
  pub entries : List Entry
  pub closed : Bool

pub record State : Type 0 where
  pub self : VaultRepository
  pub machine : Machine

-- How a part of the machine is run on.
abbrev pub on_world : {A : Type 0} → Action World A → Action Machine A
on_world f m = let (r, w) = f m.world in (r, record m { world = w })

abbrev pub on_machine : {A : Type 0} → Action Machine A → Action State A
on_machine f s = let (r, m) = f s.machine in (r, record s { machine = m })

abbrev pub set_self : (VaultRepository → VaultRepository) → Action State (Unit {0})
set_self f = modify (λ (s : State). record s { self = f s.self })

-- A method of the unlocked vault.
abbrev pub on_vault : {A : Type 0} → Action Session A → Action State A
on_vault f s =
    let (r, t) = f (record { vault = s.self.unlocked; world = s.machine.world }) in
    (
      r,
      record {
        self = record s.self { unlocked = t.vault };
        machine = record s.machine { world = t.world };
      },
    )

-- A crash is no exception: no handler runs after it.
abbrev pub of_ending : Ending → Result (Unit {0})
of_ending finished = ok tt
of_ending (raised Storage.os_error) = err os_error
of_ending (raised Storage.interrupt) = err keyboard_interrupt
of_ending crashed = err crash

-- `now_iso()`
abbrev pub now_iso : Action Machine Text
now_iso m = (ok (m.clock 0), record m { clock = λ i. m.clock (1 + i) })

abbrev pub found : Option Bytes → Result Bytes
found none = err file_not_found
found (some bytes) = ok bytes

-- `storage.read(path)`
abbrev pub storage_read : ℕ → Action Machine Bytes
storage_read path m = (found (Storage.read path m.disk).0, m)

abbrev pub is_file : Option Storage.File → Bool
is_file none = false
is_file (some f) = true

-- `os.path.exists(path)`
abbrev pub exists : ℕ → Machine → Bool
exists path m = is_file (m.disk.files path)

-- A method of the lock, on the machine.
abbrev pub on_lock :
    Action Locking.Scope (Unit {0}) → FileLock → Machine → Result (Unit {0}) × FileLock × Machine
on_lock f lock m =
    let (r, t) = f (record { self = lock; kernel = m.kernel }) in
    (r, t.self, record m { kernel = t.kernel })

-- The exception of a handler takes the place of the one it handles.
abbrev pub reraise :
    Error → Result (Unit {0}) × FileLock × Machine → Result VaultRepository × Machine
reraise e (ok done, lock, m) = (err e, m)
reraise e (err e', lock, m) = (err e', m)

abbrev pub returned : Result (Unit {0}) → Bool
returned (ok done) = true
returned (err e) = false

module _ (p : Platform) where
  -- `storage.write_atomic(path, bytes)`
  abbrev pub storage_write : ℕ → Bytes → Action Machine (Unit {0})
  storage_write path bytes m =
      let (ending, disk) = write_atomic p.has_fchmod (m.temps 0) path bytes m.disk in
      (of_ending ending, record m { disk = disk; temps = λ i. m.temps (1 + i) })

  -- `VaultRepository.__init__`
  unfoldable pub init : ℕ → UnlockedVault → FileLock → Action Machine VaultRepository
  init path unlocked lock = do
    body ←
        on_world
          (λ w. let (r, s) = Vault.read (record { vault = unlocked; world = w }) in (r, s.world))
    entries ← lift (deserialize_entries p.python body)
    pure (record {
      path = path;
      unlocked = unlocked;
      lock = lock;
      entries = entries;
      closed = false;
    })

  -- `try: body except BaseException: lock.release(); raise`, with the lock held.
  abbrev pub or_release :
      FileLock → Result VaultRepository × Machine → Result VaultRepository × Machine
  or_release lock (ok r, m) = (ok r, m)
  or_release lock (err crash, m) = (err crash, m)
  or_release lock (err e, m) = reraise e (on_lock (release p.has_fcntl) lock m)

  abbrev pub locked :
      (FileLock → Action Machine VaultRepository)
      → Result (Unit {0}) × FileLock × Machine
      → Result VaultRepository × Machine
  locked body (ok done, lock, m) = or_release lock (body lock m)
  locked body (err e, lock, m) = (err e, m)

  -- `lock = FileLock(path); lock.acquire()`, and the body with the lock.
  abbrev pub with_lock :
      ℕ → (FileLock → Action Machine VaultRepository) → Action Machine VaultRepository
  with_lock path body m =
      locked body (on_lock (acquire p.has_fcntl) (record { lock_path = path; fd = none }) m)

  -- The `try` of `create`.
  unfoldable pub create_locked :
      ℕ → Bytes → Option Argon2Parameters → FileLock → Action Machine VaultRepository
  unfolding init
  create_locked path master_password params lock = do
    empty ← lift (serialize_entries [])
    bytes ← on_world (Vault.create p.crypto master_password empty params)
    storage_write path bytes
    unlocked ← on_world (open_vault p.crypto master_password bytes)
    init path unlocked lock

  -- `create` after its check.
  unfoldable pub create_checked :
      ℕ → Bytes → Option Argon2Parameters → Action Machine VaultRepository
  unfolding create_locked
  create_checked path master_password params =
      with_lock path (create_locked path master_password params)

  unfoldable pub create : ℕ → Bytes → Option Argon2Parameters → Action Machine VaultRepository
  unfolding create_checked
  create path master_password params m =
      if exists path m then (err file_exists, m) else create_checked path master_password params m

  -- The `try` of `open`.
  unfoldable pub open_locked : ℕ → Bytes → FileLock → Action Machine VaultRepository
  unfolding init
  open_locked path master_password lock = do
    bytes ← storage_read path
    unlocked ← on_world (open_vault p.crypto master_password bytes)
    init path unlocked lock

  -- `open`
  unfoldable pub open_repository : ℕ → Bytes → Action Machine VaultRepository
  unfolding open_locked
  open_repository path master_password = with_lock path (open_locked path master_password)

  -- `_persist`
  unfoldable pub persist : Action State (Unit {0})
  persist = do
    r ← gets (λ (s : State). s.self)
    body ← lift (serialize_entries r.entries)
    bytes ← on_vault (Vault.save p.crypto body)
    on_machine (storage_write r.path bytes)

  unfoldable pub change_master_password : Bytes → Option Argon2Parameters → Action State (Unit {0})
  change_master_password new_password params = do
    bytes ← on_vault (Vault.change_password p.crypto new_password params)
    r ← gets (λ (s : State). s.self)
    on_machine (storage_write r.path bytes)

  -- `close`
  unfoldable pub close : Action State (Unit {0})
  close s = elim s.self.closed [
    | true ↦ (ok tt, s)
    | false ↦
        let t = Vault.close (record { vault = s.self.unlocked; world = s.machine.world }) in
        let m = record s.machine { world = t.world } in
        let (r, lock, m') = on_lock (release p.has_fcntl) s.self.lock m in
        (
          r,
          record {
            self = record s.self {
              unlocked = t.vault;
              entries = [];
              lock = lock;
              closed = returned r;
            };
            machine = m';
          },
        )
  ]
