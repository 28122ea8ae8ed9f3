-- ===== src/Processes/Isolation.antt =====
-- What a process may rely on while others run, and what it leaves to them.
use secure_vault.Prelude.{ℕ, ◌≡◌, ◌≢◌, sym, ap, ◌∙◌, subst, true, some, Bytes}
use secure_vault.Repository.{Platform}
use secure_vault.Repository.Stored.{IsSynced, same-Stores}
use secure_vault.Processes.{Process, System, machine_of, state_of}
use secure_vault.Processes.Locks.{IsOrdered-apart}
use secure_vault.Processes.Reachable.{Reachable, Others, Reachable-IsOrdered, Others-IsUntouched}

module _ (p : Platform) (posix : p.has_fcntl ≡ true) (IsVault : ℕ → Type 0) where
  -- Whatever the processes did, two of them with a repository in use have different vaults, and each
  -- holds the lock of its own: whichever of them open, create, change or close, and whichever of
  -- these calls raise. fcntl is there, and no temporary name is a vault's.
  pub one_repository_per_vault :
      (s : System) (q q' f f' : ℕ)
      → Reachable p IsVault s
      → (s.processes q).repository.lock.fd ≡ some f
      → (s.processes q').repository.lock.fd ≡ some f'
      → q' ≢ q
      → ((s.processes q).repository.path ≢ (s.processes q').repository.path)
        × (s.kernel.holder (s.processes q).repository.path ≡ some f)
        × (s.kernel.holder (s.processes q').repository.path ≡ some f')
  one_repository_per_vault s q q' f f' reached e e' other =
      let h = Reachable-IsOrdered p IsVault posix s reached in
      let at : (n g : ℕ)
          → (s.processes n).repository.lock.fd ≡ some g
          → s.kernel.holder (s.processes n).repository.path ≡ some g =
        λ n g used. ap s.kernel.holder (sym (h.own n g used).0) ∙ h.locks.held n g used in
      (IsOrdered-apart IsVault s q q' f f' h e e' other, at q f e, at q' f' e')

  -- While a process has a repository in use that agrees with its file, it stays so whatever the other
  -- processes do: they open, create, change and close their repositories and exit, in any order, and
  -- the object, the memory of the process and the file are as they were. fcntl is there, and no
  -- temporary name is a vault's.
  pub Others-IsSynced :
      (password : Bytes) (q f : ℕ) (s s' : System)
      → Reachable p IsVault s
      → (s.processes q).repository.lock.fd ≡ some f
      → IsSynced p password (state_of q s)
      → Others p IsVault q s s'
      → IsSynced p password (state_of q s')
        × (s'.processes q ≡ s.processes q)
        × (s'.disk.files (s.processes q).repository.path
            ≡ s.disk.files (s.processes q).repository.path)
  Others-IsSynced password q f s s' reached e synced others =
      let (h, (same, file)) =
        Others-IsUntouched p IsVault posix q f s s' others
          (Reachable-IsOrdered p IsVault posix s reached) e in
      let still : IsSynced p password record {
        self = (s.processes q).repository;
        machine = record (machine_of q s) { disk = s'.disk; kernel = s'.kernel };
      } =
        record {
          body = synced.body;
          serialized = synced.serialized;
          session = synced.session;
          stored =
              same-Stores p password (s.processes q).repository.path
                (s.processes q).repository.entries s.disk.files s'.disk.files file synced.stored;
        } in
      (
        subst
            (λ (x : Process). IsSynced p password record {
              self = x.repository;
              machine = record {
                world = x.world;
                disk = s'.disk;
                kernel = s'.kernel;
                clock = x.clock;
                temps = x.temps;
              };
            })
            (sym same) still,
        same,
        file,
      )
