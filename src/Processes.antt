-- ===== src/Processes.antt =====
-- Several processes with repositories on one machine. A step of a process is a whole method of its
-- repository, an open, a create after its check, a close, or its exit. Where the model of the disk
-- ends a call in a crash, the process was killed there and the others go on.
pub mod Framing
pub mod Bodies
pub mod Handlers
pub mod Opening
pub mod Locks
pub mod Effects
pub mod Beginning
pub mod Reachable
pub mod Isolation
pub mod Recovery
use secure_vault.Prelude.{
  ℕ, ◌≡◌, ◌≢◌, Option, none, some, Bool, true, false, Bytes, Text, ◌==◌, if◌then◌else◌,
}
use secure_vault.Errors.{crash}
use secure_vault.Errors.Result.{Result, ok, err}
use secure_vault.Errors.Action.{Action, ◌>>=◌, pure}
use secure_vault.Kdf.{Argon2Parameters}
use secure_vault.Memory.{World}
use secure_vault.Storage.{Disk}
use secure_vault.Locking.{FileLock, Kernel, acquire, release_fd}
use secure_vault.Repository.{
  Platform, Machine, VaultRepository, State, on_lock, open_repository, create_checked,
  change_master_password, close,
}
use secure_vault.Repository.Changes.{add_entry, update_entry, delete_entry}

-- The methods that change a repository, with their arguments.
pub data Method : Type 0 where
  add : ℕ → Text → Text → Text → Text → Method
  update : Text → Option Text → Option Text → Option Text → Option Text → Method
  delete : Text → Method
  rekey : Bytes → Option Argon2Parameters → Method

-- A run of which only the end and the new state count.
abbrev pub ignored : {A : Type 0} → Action State A → Action State (Unit {0})
ignored m = m >>= λ _. pure tt

abbrev pub run : Platform → Method → Action State (Unit {0})
run p (add bound service username password notes) =
    ignored (add_entry p bound service username password notes)
run p (update id service username password notes) =
    ignored (update_entry p id service username password notes)
run p (delete id) = delete_entry p id
run p (rekey password params) = change_master_password p password params

-- What a process has for itself. Its repository is the last one that it had: it is in use while its
-- lock has a file.
pub record Process : Type 0 where
  pub repository : VaultRepository
  pub world : World
  pub clock : ℕ → Text
  pub temps : ℕ → ℕ

pub record System : Type 0 where
  pub disk : Disk
  pub kernel : Kernel
  pub processes : ℕ → Process

abbrev pub machine_of : ℕ → System → Machine
machine_of q s = record {
  world = (s.processes q).world;
  disk = s.disk;
  kernel = s.kernel;
  clock = (s.processes q).clock;
  temps = (s.processes q).temps;
}

abbrev pub state_of : ℕ → System → State
state_of q s = record { self = (s.processes q).repository; machine = machine_of q s }

abbrev pub set_process : ℕ → Process → (ℕ → Process) → ℕ → Process
set_process q p processes n = if n == q then p else processes n

-- The system after process `q` ran to this state.
abbrev pub put_state : ℕ → State → System → System
put_state q t s = record {
  disk = t.machine.disk;
  kernel = t.machine.kernel;
  processes =
      set_process q
        (record {
          repository = t.self;
          world = t.machine.world;
          clock = t.machine.clock;
          temps = t.machine.temps;
        })
        s.processes;
}

-- An open or a create that raised leaves the process without a repository in use.
abbrev pub or_old : VaultRepository → Result VaultRepository → VaultRepository
or_old old (ok new) = new
or_old old (err e) = old

abbrev pub put_opened : ℕ → Result VaultRepository × Machine → System → System
put_opened q (r, m) s =
    put_state q (record { self = or_old (s.processes q).repository r; machine = m }) s

-- The kernel closes the lock file of a process that exits or is killed.
abbrev pub exited : State → State
exited s =
    let (r, lock, m) = on_lock (release_fd false s.self.lock.fd) s.self.lock s.machine in
    record { self = record s.self { lock = lock }; machine = m }

-- The state after a method. A process that was killed in the middle of it has exited.
abbrev pub settled : Result (Unit {0}) × State → State
settled (err crash, s) = exited s
settled (r, s) = s

-- The machine after an open or a create with this lock. If the process was killed in the middle of
-- it, the kernel closes the file of the lock.
abbrev pub reaped : FileLock → Result VaultRepository × Machine → Result VaultRepository × Machine
reaped lock (err crash, m) = (
  err crash,
  record m {
    kernel = (release_fd false lock.fd record { self = lock; kernel = m.kernel }).1.kernel;
  },
)
reaped lock (r, m) = (r, m)

-- The lock that an open or a create of a path goes on with.
abbrev pub lock_at : Platform → ℕ → Machine → FileLock
lock_at p path m =
    (acquire p.has_fcntl
      record { self = record { lock_path = path; fd = none }; kernel = m.kernel }).1.self

-- `IsVault` says which names are those of vaults; a temporary name never is.
module _ (p : Platform) (IsVault : ℕ → Type 0) where
  pub data Step : ℕ → System → System → Type 0 where
    opens :
        (q path : ℕ) (password : Bytes) (s : System)
        → IsVault path
        → (s.processes q).repository.lock.fd ≡ none
        → Step q s (
            put_opened q
              (reaped
                (lock_at p path (machine_of q s))
                (open_repository p path password (machine_of q s)))
              s)
    creates :
        (q path : ℕ) (password : Bytes) (params : Option Argon2Parameters) (s : System)
        → IsVault path
        → (s.processes q).repository.lock.fd ≡ none
        → Step q s (
            put_opened q
              (reaped
                (lock_at p path (machine_of q s))
                (create_checked p path password params (machine_of q s)))
              s)
    changes :
        (q f : ℕ) (m : Method) (s : System)
        → (s.processes q).repository.lock.fd ≡ some f
        → Step q s (put_state q (settled (run p m (state_of q s))) s)
    closes : (q : ℕ) (s : System) → Step q s (put_state q (close p (state_of q s)).1 s)
    exits : (q : ℕ) (s : System) → Step q s (put_state q (exited (state_of q s)) s)
