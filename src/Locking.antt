-- ===== src/Locking.antt =====
-- locking.py: `FileLock` over a table of the kernel's exclusive locks. An open file has a number of
-- its own; the sidecar of a vault is named by the number of the vault's path.
pub mod Cases
pub mod Sound
pub mod Exclusion
pub mod Idle
use secure_vault.Prelude.{
  ℕ, zero, suc, ◌+◌, Bool, true, false, not, Option, none, some, ◌==◌, if◌then◌else◌,
}
use secure_vault.Errors.{Error, os_error, locked_error, crash}
use secure_vault.Errors.Result.{Result, ok, err, or_exception}
use secure_vault.Errors.Action.{Action, pure, raise, gets, modify, ◌>>=◌, ◌>>◌}

pub record FileLock : Type 0 where
  pub lock_path : ℕ
  pub fd : Option ℕ

-- `holder` is the open file that holds the lock on a path; `fails` says which calls to come fail.
pub record Kernel : Type 0 where
  pub holder : ℕ → Option ℕ
  pub next : ℕ
  pub fails : ℕ → Bool

-- What a method runs on: the object and the kernel.
pub record Scope : Type 0 where
  pub self : FileLock
  pub kernel : Kernel

abbrev pub set_holder : ℕ → Option ℕ → (ℕ → Option ℕ) → ℕ → Option ℕ
set_holder path v holder n = if n == path then v else holder n

abbrev pub is_fd : Option ℕ → ℕ → Bool
is_fd none fd = false
is_fd (some f) fd = f == fd

-- The lock on a path is free once the open file that holds it is closed or unlocked.
abbrev pub without : ℕ → ℕ → (ℕ → Option ℕ) → ℕ → Option ℕ
without path fd holder n =
    if is_fd (holder path) fd then set_holder path none holder n else holder n

abbrev pub later : Kernel → Kernel
later k = record k { fails = λ i. k.fails (1 + i) }

abbrev pub drop_holder : ℕ → ℕ → Kernel → Kernel
drop_holder path fd k = record k { holder = without path fd k.holder }

abbrev pub set_kernel : (Kernel → Kernel) → Scope → Scope
set_kernel f s = record s { kernel = f s.kernel }

-- A call that fails with an OSError if the kernel says so.
abbrev pub attempt : {A : Type 0} → Action Scope A → Action Scope A
attempt m s =
    if s.kernel.fails 0 then (err os_error, set_kernel later s) else m (set_kernel later s)

-- `os.open(self._lock_path, os.O_CREAT | os.O_RDWR, 0o600)`
abbrev pub open_lock : Action Scope ℕ
open_lock = attempt (λ s. (ok s.kernel.next, set_kernel (λ k. record k { next = k.next + 1 }) s))

abbrev pub grant : Option ℕ → ℕ → Action Scope (Unit {0})
grant none fd s = (
  ok tt,
  set_kernel (λ k. record k { holder = set_holder s.self.lock_path (some fd) k.holder }) s,
)
grant (some f) fd s = (err os_error, s)

-- `fcntl.flock(fd, LOCK_EX | LOCK_NB)`: an OSError if another open file holds the lock.
abbrev pub flock_exclusive : ℕ → Action Scope (Unit {0})
flock_exclusive fd = attempt (λ s. grant (s.kernel.holder s.self.lock_path) fd s)

-- `fcntl.flock(fd, LOCK_UN)`
abbrev pub flock_unlock : ℕ → Action Scope (Unit {0})
flock_unlock fd = attempt (λ s. (ok tt, set_kernel (drop_holder s.self.lock_path fd) s))

-- `os.close(fd)` of an open file.
abbrev pub close_fd : ℕ → Scope → Scope
close_fd fd s = set_kernel (drop_holder s.self.lock_path fd) s

abbrev pub set_fd : Option ℕ → Scope → Scope
set_fd v s = record s { self = record s.self { fd = v } }

-- `try: m except OSError: clean up; raise VaultLockedError`
abbrev pub or_locked : (Scope → Scope) → Result (Unit {0}) × Scope → Result (Unit {0}) × Scope
or_locked cleanup (ok x, s) = (ok x, s)
or_locked cleanup (err e, s) = (err locked_error, cleanup s)

-- `acquire`; `has_fcntl` says whether the module fcntl could be imported.
unfoldable pub acquire : Bool → Action Scope (Unit {0})
acquire false = pure tt
acquire true = do
  fd ← open_lock
  λ s. or_locked (close_fd fd) (flock_exclusive fd s)
  modify (set_fd (some fd))

abbrev pub release_fd : Bool → Option ℕ → Action Scope (Unit {0})
release_fd has_fcntl none s = (ok tt, s)
release_fd has_fcntl (some fd) s =
    let (r, s') = (if has_fcntl then flock_unlock fd else pure tt) s in
    (r, set_fd none (close_fd fd s'))

-- `release`
unfoldable pub release : Bool → Action Scope (Unit {0})
release has_fcntl s = release_fd has_fcntl s.self.fd s

-- `__exit__`, after a block that did not crash.
abbrev pub then_release : {A : Type 0} → Bool → Result A × Scope → Result A × Scope
then_release has_fcntl (err crash, s) = (err crash, s)
then_release has_fcntl (r, s) = let (c, t) = release has_fcntl s in (or_exception c r, t)

-- `with lock: body`
unfoldable pub with_file_lock : {A : Type 0} → Bool → Action Scope A → Action Scope A
with_file_lock has_fcntl body = do acquire has_fcntl; λ s. then_release has_fcntl (body s)
