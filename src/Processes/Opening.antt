-- ===== src/Processes/Opening.antt =====
-- `open` and `create` of a repository among other processes.
use secure_vault.Prelude.{
  ℕ, ◌≡◌, ◌≢◌, ◌⊎◌, inl, inr, refl, sym, ap, subst, Bool, true, false, Option, none, Bytes,
}
use secure_vault.Errors.{Error, crash}
use secure_vault.Errors.Result.{Result, ok, err, Result-cases}
use secure_vault.Errors.Action.{Action}
use secure_vault.Errors.Keeps.{Keeps}
use secure_vault.Kdf.{Argon2Parameters}
use secure_vault.Locking.{FileLock, Kernel, Scope, acquire, release, release_fd}
use secure_vault.Locking.Cases.{IsKnown, Refused, Granted, acquire_cases}
use secure_vault.Repository.{
  Platform, Machine, VaultRepository, or_release, with_lock, create_locked, create_checked,
  open_locked, open_repository,
}
use secure_vault.Repository.Opening.{locking}
use secure_vault.Processes.Framing.{Apart}
use secure_vault.Processes.{reaped, lock_at}
use secure_vault.Processes.Bodies.{
  open_fields, create_fields, open_locked-Keeps, create_locked-Keeps,
}
use secure_vault.Processes.Handlers.{Raised, dropped, or_release_cases}

abbrev pub new_scope : ℕ → Machine → Scope
new_scope path m = record { self = record { lock_path = path; fd = none }; kernel = m.kernel }

-- What an open or a create of a path does among other processes. The lock was refused and nothing
-- else happened; or it was granted and the object holds it; or it was granted, the code raised and
-- released it. Where it was granted, no file of another vault changed.
module _ (p : Platform) (IsVault : ℕ → Type 0) (path : ℕ) (m : Machine)
    (run : Result VaultRepository × Machine) where
  abbrev pub OtherFiles : Type 0
  OtherFiles = (n : ℕ) → IsVault n → n ≢ path → run.1.disk.files n ≡ m.disk.files n

  abbrev pub WasRefused : Type 0
  WasRefused =
      Refused (new_scope path m) (locking p path m).1
      × Raised run.0
      × (run.1.kernel ≡ (locking p path m).1.kernel)
      × (run.1.disk ≡ m.disk)

  abbrev pub WasGranted : Type 0
  WasGranted =
      Granted (new_scope path m) (locking p path m).1
      × OtherFiles
      × (((r : VaultRepository) × (run.0 ≡ ok r)
            × (r.path ≡ path)
            × (r.lock ≡ (locking p path m).1.self)
            × (run.1.kernel ≡ (locking p path m).1.kernel))
          ⊎ ((b : Bool) × Raised run.0
              × (run.1.kernel ≡ (release b (locking p path m).1).1.kernel)))

  pub record Begun : Type 0 where
    pub temps_apart : (i : ℕ) → ¬ IsVault (run.1.temps i)
    pub lock_case : WasRefused ⊎ WasGranted

module _ (p : Platform) (IsVault : ℕ → Type 0) (path : ℕ) (own : IsVault path) (m : Machine)
    (body : FileLock → Action Machine VaultRepository) (posix : p.has_fcntl ≡ true)
    (known : IsKnown m.kernel) (apart : (i : ℕ) → ¬ IsVault (m.temps i))
    (keeps : (k : Kernel) (lock : FileLock)
      → Keeps (Apart IsVault path own m.disk.files k) (body lock))
    (fields : (lock : FileLock) (m' : Machine) (r : VaultRepository)
      → (body lock m').0 ≡ ok r
      → (r.path ≡ path) × (r.lock ≡ lock)) where
  abbrev granted_machine : Machine
  granted_machine = record m { kernel = (locking p path m).1.kernel }

  abbrev granted_lock : FileLock
  granted_lock = (locking p path m).1.self

  lock_cases :
      (((locking p path m).0 ≢ ok tt) × Refused (new_scope path m) (locking p path m).1)
      ⊎ (((locking p path m).0 ≡ ok tt) × Granted (new_scope path m) (locking p path m).1)
  lock_cases =
      let new = new_scope path m in
      subst
        (λ b.
          (((acquire b new).0 ≢ ok tt) × Refused new (acquire b new).1)
          ⊎ (((acquire b new).0 ≡ ok tt) × Granted new (acquire b new).1))
        (sym posix) (acquire_cases new known)

  body_kept :
      Apart IsVault path own m.disk.files
        (locking p path m).1.kernel
        (body granted_lock granted_machine).1
  body_kept =
      (keeps (locking p path m).1.kernel granted_lock).at granted_machine
        (apart, (λ n vault aside. refl), refl)

  abbrev ended : Result VaultRepository × Machine
  ended = reaped (lock_at p path m) (with_lock p path body m)

  Refused-Begun :
      (e : Error)
      → (locking p path m).0 ≡ err e
      → Refused (new_scope path m) (locking p path m).1
      → Begun p IsVault path m ended
  Refused-Begun e refusal refused =
      let run : with_lock p path body m ≡ (err e, granted_machine) = rw refusal in
      rw run (refused_as e)
    where
      refused_as :
          (e : Error) → Begun p IsVault path m (reaped (lock_at p path m) (err e, granted_machine))
      refused_as crash = record {
        temps_apart = apart;
        lock_case = inl (
          refused,
          (crash, refl),
          ap
              (λ (l : FileLock).
                (release_fd false l.fd
                  record { self = l; kernel = (locking p path m).1.kernel }).1.kernel)
              refused.0,
          refl,
        );
      }
      refused_as e = record {
        temps_apart = apart;
        lock_case = inl (refused, (e, refl), refl, refl);
      }

  Granted-Begun :
      (locking p path m).0 ≡ ok tt
      → Granted (new_scope path m) (locking p path m).1
      → Begun p IsVault path m ended
  Granted-Begun grant granted =
      let t = body granted_lock granted_machine in
      let run : with_lock p path body m ≡ or_release p granted_lock t = rw grant in
      let (temps, files, kernel) = body_kept in
      elim (or_release_cases p granted_lock t.0 t.1) [
        | inl (r, made, ends) ↦
            let (at, lock) = fields granted_lock granted_machine r made in
            rw (run, ends)
              record {
                temps_apart = temps;
                lock_case = inr (granted, files, inl (r, refl, at, lock, kernel));
              }
        | inr (b, (e, raises), ends) ↦
            let all : reaped granted_lock (or_release p granted_lock t)
                ≡ (err e, dropped b granted_lock t.1) =
              λ i. (raises i, ends i) in
            rw (run, all)
              record {
                temps_apart = temps;
                lock_case = inr (
                  granted,
                  files,
                  inr (
                    b,
                    (e, refl),
                    ap (λ k. (release b record { self = granted_lock; kernel = k }).1.kernel)
                        kernel,
                  ),
                );
              }
      ]

  pub with_lock-Begun : Begun p IsVault path m ended
  with_lock-Begun = elim (Result-cases (locking p path m).0) [
    | inl (e, refusal) ↦ elim lock_cases [
      | inl (fails, refused) ↦ Refused-Begun e refusal refused
      | inr (grant, granted) ↦ Granted-Begun grant granted
    ]
    | inr (_, grant) ↦ elim lock_cases [
      | inl (fails, refused) ↦ absurd (fails grant)
      | inr (_, granted) ↦ Granted-Begun grant granted
    ]
  ]

module _ (p : Platform) (IsVault : ℕ → Type 0) (path : ℕ) (own : IsVault path) (m : Machine)
    (posix : p.has_fcntl ≡ true) (known : IsKnown m.kernel)
    (apart : (i : ℕ) → ¬ IsVault (m.temps i)) where
  pub open_repository-Begun :
      (password : Bytes)
      → Begun p IsVault path m (reaped (lock_at p path m) (open_repository p path password m))
  unfolding open_repository
  open_repository-Begun password =
      with_lock-Begun p IsVault path own m (open_locked p path password) posix known apart
        (λ k lock. open_locked-Keeps IsVault path own m.disk.files k p password lock)
        (open_fields p path password)

  pub create_checked-Begun :
      (password : Bytes) (params : Option Argon2Parameters)
      → Begun p IsVault path m (reaped (lock_at p path m) (create_checked p path password params m))
  unfolding create_checked
  create_checked-Begun password params =
      with_lock-Begun p IsVault path own m (create_locked p path password params) posix known apart
        (λ k lock. create_locked-Keeps IsVault path own m.disk.files k p password params lock)
        (create_fields p path password params)
