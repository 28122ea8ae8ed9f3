-- ===== src/Processes/Reachable.antt =====
-- The systems that the processes reach by their steps.
use secure_vault.Prelude.{ℕ, ◌≡◌, ◌≢◌, inl, inr, refl, sym, ap, ◌∙◌, subst, true, some, none}
use secure_vault.Locking.Cases.{some≢none}
use secure_vault.Repository.{Platform, State, open_repository, create_checked, close}
use secure_vault.Processes.{
  Process, System, Step, machine_of, state_of, put_state, or_old, exited, settled, reaped, lock_at,
  run, opens, creates, changes, closes, exits,
}
use secure_vault.Processes.Opening.{open_repository-Begun, create_checked-Begun}
use secure_vault.Processes.Locks.{IsOrdered, put_state-IsOrdered, put_state_cases}
use secure_vault.Processes.Effects.{Effect, change-Effect, exit-Effect, close-Effect}
use secure_vault.Processes.Beginning.{begun-Effect}

-- No process has a repository in use, no lock is held, and no temporary name is a vault's.
pub record IsStart (IsVault : ℕ → Type 0) (s : System) : Type 0 where
  pub no_files : (q : ℕ) → (s.processes q).repository.lock.fd ≡ none
  pub no_holders : (n : ℕ) → s.kernel.holder n ≡ none
  pub temps_apart : (q i : ℕ) → ¬ IsVault ((s.processes q).temps i)

start-IsOrdered : (IsVault : ℕ → Type 0) (s : System) → IsStart IsVault s → IsOrdered IsVault s
start-IsOrdered IsVault s start = record {
  locks = record {
    held = λ q f e. absurd (some≢none f (sym e ∙ start.no_files q));
    own = λ q q' f e e'. absurd (some≢none f (sym e ∙ start.no_files q));
    known = λ n f e. absurd (some≢none f (sym e ∙ start.no_holders n));
  };
  own = λ q f e. absurd (some≢none f (sym e ∙ start.no_files q));
  temps_apart = start.temps_apart;
}

module _ (p : Platform) (IsVault : ℕ → Type 0) where
  pub data Reachable : System → Type 0 where
    starts : (s : System) → IsStart IsVault s → Reachable s
    steps : (q : ℕ) (s s' : System) → Reachable s → Step p IsVault q s s' → Reachable s'

  -- What the processes other than `q` do, one step after another.
  pub data Others (q : ℕ) : System → System → Type 0 where
    nothing : (s : System) → Others q s s
    other :
        (q' : ℕ) (s s' s'' : System)
        → Others q s s'
        → q' ≢ q
        → Step p IsVault q' s' s''
        → Others q s s''

  module _ (posix : p.has_fcntl ≡ true) where
    Step-Effect :
        (q : ℕ) (s s' : System)
        → Step p IsVault q s s'
        → IsOrdered IsVault s
        → (t : State) × (s' ≡ put_state q t s) × Effect IsVault q s t
    Step-Effect q s s' (opens _ path password _ vault idle) h =
        let x =
          reaped (lock_at p path (machine_of q s))
            (open_repository p path password (machine_of q s)) in
        (
          record { self = or_old (s.processes q).repository x.0; machine = x.1 },
          refl,
          begun-Effect p IsVault q s h path vault idle x.0 x.1 (
              open_repository-Begun p IsVault path vault (machine_of q s) posix h.locks.known
                (h.temps_apart q) password),
        )
    Step-Effect q s s' (creates _ path password params _ vault idle) h =
        let x =
          reaped (lock_at p path (machine_of q s))
            (create_checked p path password params (machine_of q s)) in
        (
          record { self = or_old (s.processes q).repository x.0; machine = x.1 },
          refl,
          begun-Effect p IsVault q s h path vault idle x.0 x.1 (
              create_checked-Begun p IsVault path vault (machine_of q s) posix h.locks.known
                (h.temps_apart q) password params),
        )
    Step-Effect q s s' (changes _ f m _ e) h =
        (settled (run p m (state_of q s)), refl, change-Effect p IsVault q s h f e m)
    Step-Effect q s s' (closes _ _) h =
        ((close p (state_of q s)).1, refl, close-Effect p IsVault q s h)
    Step-Effect q s s' (exits _ _) h = (exited (state_of q s), refl, exit-Effect p IsVault q s h)

    pub Step-IsOrdered :
        (q : ℕ) (s s' : System) → Step p IsVault q s s' → IsOrdered IsVault s → IsOrdered IsVault s'
    Step-IsOrdered q s s' step h =
        let (t, ends, effect) = Step-Effect q s s' step h in
        subst (IsOrdered IsVault) (sym ends)
          (put_state-IsOrdered IsVault q t s effect.locks effect.own effect.temps_apart h)

    pub Reachable-IsOrdered : (s : System) → Reachable s → IsOrdered IsVault s
    Reachable-IsOrdered s (starts _ start) = start-IsOrdered IsVault s start
    Reachable-IsOrdered s (steps q before _ r step) =
        Step-IsOrdered q before s step (Reachable-IsOrdered before r)

    -- A process and the file of its repository are as they were.
    abbrev pub IsUntouched : ℕ → System → System → Type 0
    IsUntouched q s s' =
        (s'.processes q ≡ s.processes q)
        × (s'.disk.files (s.processes q).repository.path
            ≡ s.disk.files (s.processes q).repository.path)

    pub Step-IsUntouched :
        (q f q' : ℕ) (s s' : System)
        → Step p IsVault q' s s'
        → q' ≢ q
        → IsOrdered IsVault s
        → (s.processes q).repository.lock.fd ≡ some f
        → IsUntouched q s s'
    Step-IsUntouched q f q' s s' step aside h e =
        let (t, ends, effect) = Step-Effect q' s s' step h in
        subst (IsUntouched q s) (sym ends) (
          elim (put_state_cases q' t s q) [
            | inl (at, new) ↦ absurd (aside (sym at))
            | inr (elsewhere, old) ↦ old
          ],
          effect.others q f (λ x. aside (sym x)) e,
        )

    -- However many steps the others do.
    pub Others-IsUntouched :
        (q f : ℕ) (s s' : System)
        → Others q s s'
        → IsOrdered IsVault s
        → (s.processes q).repository.lock.fd ≡ some f
        → IsOrdered IsVault s' × IsUntouched q s s'
    Others-IsUntouched q f s s' (nothing _) h e = (h, (refl, refl))
    Others-IsUntouched q f s s' (other q' _ between _ before aside step) h e =
        let (h', (same, file)) = Others-IsUntouched q f s between before h e in
        let (same', file') =
          Step-IsUntouched q f q' between s' step aside h'
            (ap (λ (x : Process). x.repository.lock.fd) same ∙ e) in
        (
          Step-IsOrdered q' between s' step h',
          (
            same' ∙ same,
            ap (λ (x : Process). s'.disk.files x.repository.path) (sym same)
                ∙ file'
                ∙ ap (λ (x : Process). between.disk.files x.repository.path) same
                ∙ file,
          ),
        )
