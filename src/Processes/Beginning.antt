-- ===== src/Processes/Beginning.antt =====
-- What an open and a create do to the locks and to the files of the other processes.
use secure_vault.Prelude.{ℕ, ◌≡◌, ◌≢◌, inl, inr, refl, sym, ap, ◌∙◌, subst, arith, Bool, some, none}
use secure_vault.Errors.Result.{Result}
use secure_vault.Storage
use secure_vault.Locking.{FileLock, Kernel, Scope, release}
use secure_vault.Locking.Cases.{some≢none, Refused, Granted, release-Released}
use secure_vault.Locking.Sound
use secure_vault.Locking.Sound.{put_back, scope_of, put-Released}
use secure_vault.Locking.Idle.{new-Granted-IsSound, new-Released-IsSound}
use secure_vault.Repository.{Platform, Machine, VaultRepository}
use secure_vault.Repository.Opening.{locking}
use secure_vault.Processes.{System, machine_of, or_old}
use secure_vault.Processes.Opening.{new_scope, Begun}
use secure_vault.Processes.Locks.{locks_of, IsOrdered}
use secure_vault.Processes.Effects.{Effect}

module _ (p : Platform) (IsVault : ℕ → Type 0) (q : ℕ) (s : System) (h : IsOrdered IsVault s) where
  module _ (path : ℕ) (vault : IsVault path)
      (idle : (s.processes q).repository.lock.fd ≡ none) where
    abbrev new_lock : FileLock
    new_lock = record { lock_path = path; fd = none }

    abbrev lock_after : Scope
    lock_after = (locking p path (machine_of q s)).1

    -- Nobody else has the repository of a path whose lock was free.
    elsewhere :
        (q' f : ℕ)
        → s.kernel.holder path ≡ none
        → (s.processes q').repository.lock.fd ≡ some f
        → (s.processes q').repository.path ≢ path
    elsewhere q' f free e at =
        some≢none f (sym (h.locks.held q' f e) ∙ ap s.kernel.holder ((h.own q' f e).0 ∙ at) ∙ free)

    Refused-Effect :
        (m : Machine)
        → Refused (new_scope path (machine_of q s)) lock_after
        → m.kernel ≡ lock_after.kernel
        → m.disk ≡ s.disk
        → ((i : ℕ) → ¬ IsVault (m.temps i))
        → Effect IsVault q s record { self = (s.processes q).repository; machine = m }
    Refused-Effect m (same, later, kept) kernel disk temps = record {
      locks =
          Sound.put-Refused q _ (locks_of s)
            (
              refl,
              omega (arith, later, ap (λ (k : Kernel). k.next) kernel),
              λ n. ap (λ (k : Kernel). k.holder n) kernel ∙ kept n,
            )
            h.locks;
      own = h.own q;
      temps_apart = temps;
      others =
          λ q' f other e. ap (λ (d : Storage.Disk). d.files (s.processes q').repository.path) disk;
    }

    Granted-Effect :
        (m : Machine) (r : VaultRepository)
        → Granted (new_scope path (machine_of q s)) lock_after
        → ((n : ℕ) → IsVault n → n ≢ path → m.disk.files n ≡ s.disk.files n)
        → r.path ≡ path
        → r.lock ≡ lock_after.self
        → m.kernel ≡ lock_after.kernel
        → ((i : ℕ) → ¬ IsVault (m.temps i))
        → Effect IsVault q s record { self = r; machine = m }
    Granted-Effect m r granted files at lock kernel temps =
        let all : lock_after ≡ record { self = r.lock; kernel = m.kernel } =
          λ i. record { self = (sym lock) i; kernel = (sym kernel) i } in
        record {
          locks =
              subst (λ x. Sound.IsSound (put_back q x (locks_of s))) all
                (new-Granted-IsSound q new_lock (locks_of s) lock_after idle refl granted h.locks);
          own = λ f e. (
            ap (λ (l : FileLock). l.lock_path) (lock ∙ granted.1) ∙ sym at,
            subst IsVault (sym at) vault,
          );
          temps_apart = temps;
          others = λ q' f other e. files _ (h.own q' f e).1 (elsewhere q' f granted.0 e);
        }

    raised-Effect :
        (m : Machine) (b : Bool)
        → Granted (new_scope path (machine_of q s)) lock_after
        → ((n : ℕ) → IsVault n → n ≢ path → m.disk.files n ≡ s.disk.files n)
        → m.kernel ≡ (release b lock_after).1.kernel
        → ((i : ℕ) → ¬ IsVault (m.temps i))
        → Effect IsVault q s record { self = (s.processes q).repository; machine = m }
    raised-Effect m b granted files kernel temps = record {
      locks =
          subst
            (λ (k : Kernel). Sound.IsSound (
              put_back q record { self = (s.processes q).repository.lock; kernel = k }
                (locks_of s)))
            (sym kernel)
            (new-Released-IsSound q new_lock (locks_of s) lock_after (release b lock_after).1 idle
              refl granted (release-Released b lock_after) h.locks);
      own = h.own q;
      temps_apart = temps;
      others = λ q' f other e. files _ (h.own q' f e).1 (elsewhere q' f granted.0 e);
    }

    pub begun-Effect :
        (r : Result VaultRepository) (m : Machine)
        → Begun p IsVault path (machine_of q s) (r, m)
        → Effect IsVault q s record { self = or_old (s.processes q).repository r; machine = m }
    begun-Effect r m b = elim b.lock_case [
      | inl (refused, (e, raises), kernel, disk) ↦
          rw raises (Refused-Effect m refused kernel disk b.temps_apart)
      | inr (granted, files, inl (x, returns, at, lock, kernel)) ↦
          rw returns (Granted-Effect m x granted files at lock kernel b.temps_apart)
      | inr (granted, files, inr (b', (e, raises), kernel)) ↦
          rw raises (raised-Effect m b' granted files kernel b.temps_apart)
    ]
