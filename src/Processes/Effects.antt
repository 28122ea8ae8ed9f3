-- ===== src/Processes/Effects.antt =====
-- What a method, a close and an exit do to the locks and to the files of the other processes.
use secure_vault.Prelude.{
  ℕ, ◌≡◌, ◌≢◌, inl, inr, refl, sym, ap, ◌∙◌, subst, arith, Bool-cases, Bool, false, some,
}
use secure_vault.Errors.{crash}
use secure_vault.Errors.Result.{Result, err}
use secure_vault.Locking.{FileLock, Kernel, Scope, release, release_fd}
use secure_vault.Locking.Cases.{some≢none, release-Released}
use secure_vault.Locking.Sound
use secure_vault.Locking.Sound.{put_back, scope_of, put-Released}
use secure_vault.Locking.Idle.{Released-idle}
use secure_vault.Repository.{Platform, State, close}
use secure_vault.Processes.{Method, System, state_of, exited, settled, run}
use secure_vault.Processes.Framing.{Aside, run-Keeps}
use secure_vault.Processes.Locks.{locks_of, lock_scope, IsOwn, IsOrdered, IsOrdered-apart}

-- Process `q` ran to the state `t`.
pub record Effect (IsVault : ℕ → Type 0) (q : ℕ) (s : System) (t : State) : Type 0 where
  pub locks : Sound.IsSound (put_back q (lock_scope t) (locks_of s))
  pub own : IsOwn IsVault t.self
  pub temps_apart : (i : ℕ) → ¬ IsVault (t.machine.temps i)
  pub others :
      (q' f : ℕ)
      → q' ≢ q
      → (s.processes q').repository.lock.fd ≡ some f
      → t.machine.disk.files (s.processes q').repository.path
        ≡ s.disk.files (s.processes q').repository.path

module _ (p : Platform) (IsVault : ℕ → Type 0) (q : ℕ) (s : System) (h : IsOrdered IsVault s) where
  same_lock :
      (l : FileLock) (k : Kernel)
      → l ≡ (s.processes q).repository.lock
      → k ≡ s.kernel
      → Sound.IsSound (put_back q record { self = l; kernel = k } (locks_of s))
  same_lock l k lock kernel =
      Sound.put-Refused q record { self = l; kernel = k } (locks_of s)
        (
          lock,
          omega (arith, ap (λ (x : Kernel). x.next) kernel),
          λ n. ap (λ (x : Kernel). x.holder n) kernel,
        )
        h.locks

  -- The kernel's closing of the lock file.
  freed-IsSound :
      (has_fcntl : Bool)
      → Sound.IsSound (put_back q (release has_fcntl (scope_of q (locks_of s))).1 (locks_of s))
  freed-IsSound has_fcntl =
      let scope = scope_of q (locks_of s) in
      put-Released q (release has_fcntl scope).1 (locks_of s) scope.self.fd refl
        (release-Released has_fcntl scope) h.locks

  -- A step after which the lock object is the old one, released.
  release-Effect :
      (has_fcntl : Bool) (t : State)
      → lock_scope t ≡ (release has_fcntl (scope_of q (locks_of s))).1
      → ((i : ℕ) → ¬ IsVault (t.machine.temps i))
      → ((q' f : ℕ)
          → q' ≢ q
          → (s.processes q').repository.lock.fd ≡ some f
          → t.machine.disk.files (s.processes q').repository.path
            ≡ s.disk.files (s.processes q').repository.path)
      → Effect IsVault q s t
  release-Effect has_fcntl t ends temps others =
      let scope = scope_of q (locks_of s) in
      let no_file = Released-idle scope.self.fd scope _ refl (release-Released has_fcntl scope) in
      record {
        locks =
            subst (λ x. Sound.IsSound (put_back q x (locks_of s))) (sym ends)
              (freed-IsSound has_fcntl);
        own = λ f e. absurd (some≢none f (sym e ∙ ap (λ (x : Scope). x.self.fd) ends ∙ no_file));
        temps_apart = temps;
        others = others;
      }

  module _ (f : ℕ) (used : (s.processes q).repository.lock.fd ≡ some f) where
    -- What a method keeps.
    abbrev AsideOf : State → Type 0
    AsideOf =
        let r = (s.processes q).repository in
        Aside IsVault r.path (h.own q f used).1 s.disk.files s.kernel r.lock

    others_kept :
        (t : State)
        → AsideOf t
        → (q' f' : ℕ) → q' ≢ q
        → (s.processes q').repository.lock.fd ≡ some f'
        → t.machine.disk.files (s.processes q').repository.path
          ≡ s.disk.files (s.processes q').repository.path
    others_kept t (path, lock, (temps, files, kernel)) q' f' other e =
        files _ (h.own q' f' e).1 (λ x. IsOrdered-apart IsVault s q q' f f' h used e other (sym x))

    settled-Effect :
        (r : Result (Unit {0})) (t : State) → AsideOf t → Effect IsVault q s (settled (r, t))
    unfolding release
    settled-Effect (err crash) t (path, lock, (temps, files, kernel)) =
        let at : scope_of q (locks_of s) ≡ lock_scope t =
          λ i. record { self = (sym lock) i; kernel = (sym kernel) i } in
        release-Effect false (exited t)
          (ap (λ (x : Scope). (release_fd false x.self.fd x).1) (sym at)) temps
          (others_kept t (path, lock, (temps, files, kernel)))
    settled-Effect r t (path, lock, (temps, files, kernel)) = record {
      locks = same_lock _ _ lock kernel;
      own = λ f' e'.
          let (name, vault) = h.own q f' (ap (λ (l : FileLock). l.fd) (sym lock) ∙ e') in
          (
            ap (λ (l : FileLock). l.lock_path) lock ∙ name ∙ sym path,
            subst IsVault (sym path) vault,
          );
      temps_apart = temps;
      others = others_kept t (path, lock, (temps, files, kernel));
    }

    pub change-Effect : (m : Method) → Effect IsVault q s (settled (run p m (state_of q s)))
    change-Effect m =
        let r = (s.processes q).repository in
        let t = run p m (state_of q s) in
        settled-Effect t.0 t.1 (
          (run-Keeps IsVault r.path (h.own q f used).1 s.disk.files s.kernel r.lock p m).at
            (state_of q s) (refl, refl, (h.temps_apart q, (λ n vault aside. refl), refl)))

  pub exit-Effect : Effect IsVault q s (exited (state_of q s))
  unfolding release
  exit-Effect =
      release-Effect false (exited (state_of q s)) refl (h.temps_apart q) (λ q' f other e. refl)

  pub close-Effect : Effect IsVault q s (close p (state_of q s)).1
  unfolding close
  close-Effect = elim (Bool-cases (s.processes q).repository.closed) [
    | inl closed ↦ rw closed record {
      locks = same_lock _ _ refl refl;
      own = h.own q;
      temps_apart = h.temps_apart q;
      others = λ q' f other e. refl;
    }
    | inr opened ↦
        rw opened (release-Effect p.has_fcntl _ refl (h.temps_apart q) (λ q' f other e. refl))
  ]
