-- ===== src/Processes/Handlers.antt =====
-- How `open` and `create` end once the lock is held.
use secure_vault.Prelude.{
  ℕ, ◌≡◌, ◌⊎◌, inl, inr, refl, Bool-cases, Bool, true, false, Option, some, none,
}
use secure_vault.Errors.{Error, os_error, crash}
use secure_vault.Errors.Result.{Result, ok, err}
use secure_vault.Locking.{FileLock, Scope, release, release_fd}
use secure_vault.Repository.{Platform, Machine, VaultRepository, or_release}
use secure_vault.Processes.{reaped}

abbrev pub Raised : {A : Type 0} → Result A → Type 0
Raised r = (e : Error) × (r ≡ err e)

-- Releasing raises nothing but an OSError.
release_errors :
    (has_fcntl : Bool) (x : Scope)
    → ((release has_fcntl x).0 ≡ ok tt) ⊎ ((release has_fcntl x).0 ≡ err os_error)
unfolding release
release_errors has_fcntl x = of_fd has_fcntl x.self.fd
  where
    of_fd :
        (b : Bool) (fd : Option ℕ)
        → ((release_fd b fd x).0 ≡ ok tt) ⊎ ((release_fd b fd x).0 ≡ err os_error)
    of_fd b none = inl refl
    of_fd false (some f) = inl refl
    of_fd true (some f) = elim (Bool-cases (x.kernel.fails 0)) [
      | inl fails ↦ rw fails (inr refl)
      | inr answers ↦ rw answers (inl refl)
    ]

-- What is left of the lock of an object that was not made.
abbrev pub dropped : Bool → FileLock → Machine → Machine
dropped has_fcntl lock m = record m {
  kernel = (release has_fcntl record { self = lock; kernel = m.kernel }).1.kernel;
}

-- How the handler ends that releases the lock, or the kernel where the process died.
pub or_release_cases :
    (p : Platform) (lock : FileLock) (r : Result VaultRepository) (m : Machine)
    → ((x : VaultRepository) × (r ≡ ok x) × (reaped lock (or_release p lock (r, m)) ≡ (ok x, m)))
      ⊎ ((b : Bool) × Raised (reaped lock (or_release p lock (r, m))).0
          × ((reaped lock (or_release p lock (r, m))).1 ≡ dropped b lock m))
unfolding release
or_release_cases p lock (ok x) m = inl (x, refl, refl)
or_release_cases p lock (err crash) m = inr (false, (crash, refl), refl)
or_release_cases p lock (err e) m =
    elim (release_errors p.has_fcntl record { self = lock; kernel = m.kernel }) [
      | inl freed ↦ inr (p.has_fcntl, rw freed (e, refl), rw freed refl)
      | inr fails ↦ inr (p.has_fcntl, rw fails (os_error, refl), rw fails refl)
    ]
