-- ===== src/Processes/Locks.antt =====
-- The locks of the processes, and what every step keeps of them.
use secure_vault.Prelude.{
  ℕ, ◌≡◌, ◌≢◌, ◌⊎◌, inl, inr, refl, sym, ap, ◌∙◌, subst, arith, Bool-cases, some, ◌==◌,
  if◌then◌else◌,
}
use secure_vault.Locking.{Scope}
use secure_vault.Locking.Cases.{some_inj}
use secure_vault.Locking.Sound
use secure_vault.Locking.Sound.{set_lock, put_back, scope_of, put-Released}
use secure_vault.Locking.Idle.{ext-IsSound}
use secure_vault.Repository.{VaultRepository, State}
use secure_vault.Processes.{Process, System, put_state}

abbrev pub locks_of : System → Sound.System
locks_of s = record { locks = λ q. (s.processes q).repository.lock; kernel = s.kernel }

-- What a process has once it ran to this state.
abbrev pub process_of : State → Process
process_of t = record {
  repository = t.self;
  world = t.machine.world;
  clock = t.machine.clock;
  temps = t.machine.temps;
}

abbrev pub lock_scope : State → Scope
lock_scope t = record { self = t.self.lock; kernel = t.machine.kernel }

-- The processes after one of them was put back.
pub put_state_cases :
    (q : ℕ) (t : State) (s : System) (n : ℕ)
    → ((n ≡ q) × ((put_state q t s).processes n ≡ process_of t))
      ⊎ ((n ≢ q) × ((put_state q t s).processes n ≡ s.processes n))
put_state_cases q t s n = elim (Bool-cases (n == q)) [
  | inl same ↦ inl (ground (arith, same), rw same)
  | inr other ↦ inr (λ e. ground (arith, other, e), rw other)
]

locks-put_state :
    (q : ℕ) (t : State) (s : System) (n : ℕ)
    → (if n == q then process_of t else s.processes n).repository.lock
      ≡ set_lock q t.self.lock (locks_of s).locks n
locks-put_state q t s n = elim (Bool-cases (n == q)) [ inl same ↦ rw same | inr other ↦ rw other ]

module _ (IsVault : ℕ → Type 0) where
  -- The lock object of a repository in use is that of its path, which is a vault's.
  abbrev pub IsOwn : VaultRepository → Type 0
  IsOwn r = (f : ℕ) → r.lock.fd ≡ some f → (r.lock.lock_path ≡ r.path) × IsVault r.path

  -- The locks are sound, every repository in use has the lock of its own path, and no temporary name
  -- is a vault's.
  pub record IsOrdered (s : System) : Type 0 where
    pub locks : Sound.IsSound (locks_of s)
    pub own : (q : ℕ) → IsOwn (s.processes q).repository
    pub temps_apart : (q i : ℕ) → ¬ IsVault ((s.processes q).temps i)

  pub put_state-IsOrdered :
      (q : ℕ) (t : State) (s : System)
      → Sound.IsSound (put_back q (lock_scope t) (locks_of s))
      → IsOwn t.self
      → ((i : ℕ) → ¬ IsVault (t.machine.temps i))
      → IsOrdered s
      → IsOrdered (put_state q t s)
  put_state-IsOrdered q t s sound own apart h = record {
    locks =
        ext-IsSound (put_back q (lock_scope t) (locks_of s)) _ (locks-put_state q t s) refl sound;
    own = λ n. elim (put_state_cases q t s n) [
      | inl (at, new) ↦ subst (λ (x : Process). IsOwn x.repository) (sym new) own
      | inr (aside, old) ↦ subst (λ (x : Process). IsOwn x.repository) (sym old) (h.own n)
    ];
    temps_apart = λ n. elim (put_state_cases q t s n) [
      | inl (at, new) ↦ subst (λ (x : Process). (i : ℕ) → ¬ IsVault (x.temps i)) (sym new) apart
      | inr (aside, old) ↦
          subst (λ (x : Process). (i : ℕ) → ¬ IsVault (x.temps i)) (sym old) (h.temps_apart n)
    ];
  }

  -- Two repositories in use have different paths.
  pub IsOrdered-apart :
      (s : System) (q q' f f' : ℕ)
      → IsOrdered s
      → (s.processes q).repository.lock.fd ≡ some f
      → (s.processes q').repository.lock.fd ≡ some f'
      → q' ≢ q
      → (s.processes q).repository.path ≢ (s.processes q').repository.path
  IsOrdered-apart s q q' f f' h e e' other same =
      let names = (h.own q f e).0 ∙ same ∙ sym (h.own q' f' e').0 in
      let one =
        some_inj f f'
          (sym (h.locks.held q f e) ∙ ap s.kernel.holder names ∙ h.locks.held q' f' e') in
      other (h.locks.own q' q f' e' (e ∙ ap some one))
