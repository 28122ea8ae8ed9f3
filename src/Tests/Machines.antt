-- ===== src/Tests/Machines.antt =====
-- The theorems of several processes at concrete inputs: two vaults stand at the paths 5 and 9.
use secure_vault.Prelude.{
  ℕ, ◌+◌, ◌*◌, ◌≡◌, ◌≢◌, refl, sym, ap, ◌∙◌, subst, arith, [], true, some, none, ◌==◌, ==_refl,
  if◌then◌else◌,
}
use secure_vault.Errors.Result.{ok}
use secure_vault.Storage.{Files}
use secure_vault.Locking.{acquire}
use secure_vault.Repository.{open_repository}
use secure_vault.Repository.Outcomes.{body_of}
use secure_vault.Entries.RoundTrip.{serialize_entries_total}
use secure_vault.Repository.Opening.{locking, open_repository-Stores}
use secure_vault.Repository.Stored.{Stores, IsSynced}
use secure_vault.Processes.{
  Process, System, Step, machine_of, state_of, put_opened, reaped, lock_at, opens,
}
use secure_vault.Processes.Reachable.{IsStart, Reachable, starts, steps, nothing, other}
use secure_vault.Processes.Isolation.{one_repository_per_vault, Others-IsSynced}
use secure_vault.Tests.Toy.{toy-IsCrypto}
use secure_vault.Tests.Vaults.{password, costs, start}
use secure_vault.Tests.Bodies.{two, two-IsEntry}
use secure_vault.Tests.Repositories.{platform, file, calm, kernel, two_written, open_state}

abbrev both : Files
both n = if n == 5 then some file else if n == 9 then some file else none

-- The odd numbers are the names of vaults.
abbrev IsVault : ℕ → Type 0
IsVault n = (k : ℕ) × (n ≡ 2 * k + 1)

abbrev idle_process : Process
idle_process = record {
  repository = record (open_state (calm both)).self { lock = record { lock_path = 0; fd = none } };
  world = start;
  clock = λ i. [];
  temps = λ i. 2 * i;
}

abbrev idle : System
idle = record { disk = calm both; kernel = kernel; processes = λ q. idle_process }

idle-IsStart : IsStart IsVault idle
idle-IsStart = record {
  no_files = λ q. refl;
  no_holders = λ n. refl;
  temps_apart = λ q i (k, e). omega (arith, e);
}

abbrev opened_by : ℕ → ℕ → System → System
opened_by q path s =
    put_opened q
      (reaped (lock_at platform path (machine_of q s))
        (open_repository platform path password (machine_of q s)))
      s

-- What an open of a stored vault does to the system.
record Opened (q path : ℕ) (s : System) : Type 0 where
  in_use :
      ((opened_by q path s).processes q).repository.lock
      ≡ (locking platform path (machine_of q s)).1.self
  at : ((opened_by q path s).processes q).repository.path ≡ path
  synced : IsSynced platform password (state_of q (opened_by q path s))
  same_disk : (opened_by q path s).disk ≡ s.disk
  locks : (opened_by q path s).kernel ≡ (locking platform path (machine_of q s)).1.kernel

opened_lem :
    (q path : ℕ) (s : System)
    → Stores platform password path two s.disk.files
    → (locking platform path (machine_of q s)).0 ≡ ok tt
    → Opened q path s
opened_lem q path s stored granted =
    let (r, m', run, at, entries, lock, synced, disk, kernel) =
      open_repository-Stores platform toy-IsCrypto path password two (machine_of q s) two-IsEntry
        stored granted in
    record {
      in_use = rw (==_refl q, run) lock;
      at = rw (==_refl q, run) at;
      synced = rw (==_refl q, run) synced;
      same_disk = rw run disk;
      locks = rw run kernel;
    }

stored_at : (path : ℕ) → both path ≡ some file → Stores platform password path two both
stored_at path found = record {
  file = file;
  found = found;
  params = costs;
  counter = 3;
  body = body_of two;
  serialized = serialize_entries_total two;
  written = two_written;
}

-- Process 0 opens the vault 5, and then process 1 the vault 9.
abbrev first : System
first = opened_by 0 5 idle

abbrev second : System
second = opened_by 1 9 first

first-Opened : Opened 0 5 idle
unfolding acquire
first-Opened = opened_lem 0 5 idle (stored_at 5 refl) refl

first_in_use : (first.processes 0).repository.lock.fd ≡ some 3
unfolding acquire
first_in_use = ap (λ l. l.fd) first-Opened.in_use

second-Opened : Opened 1 9 first
unfolding acquire
second-Opened =
    opened_lem 1 9 first
      (subst (λ d. Stores platform password 9 two d.files) (sym first-Opened.same_disk)
        (stored_at 9 refl))
      (subst
        (λ k.
          (acquire true record { self = record { lock_path = 9; fd = none }; kernel = k }).0
          ≡ ok tt)
        (sym first-Opened.locks) refl)

second_in_use : (second.processes 1).repository.lock.fd ≡ some 4
unfolding acquire
second_in_use =
    ap (λ l. l.fd) second-Opened.in_use
    ∙ subst
        (λ k.
          (acquire true record { self = record { lock_path = 9; fd = none }; kernel = k }).1.self.fd
          ≡ some 4)
        (sym first-Opened.locks) refl

first-Reachable : Reachable platform IsVault first
first-Reachable =
    steps 0 idle first (starts idle idle-IsStart) (opens 0 5 password idle (2, refl) refl)

second-Step : Step platform IsVault 1 first second
second-Step = opens 1 9 password first (4, refl) refl

second-Reachable : Reachable platform IsVault second
second-Reachable = steps 1 first second first-Reachable second-Step

one_repository_per_vault_example :
    ((second.processes 0).repository.path ≢ (second.processes 1).repository.path)
    × (second.kernel.holder (second.processes 0).repository.path ≡ some 3)
    × (second.kernel.holder (second.processes 1).repository.path ≡ some 4)
one_repository_per_vault_example =
    one_repository_per_vault platform refl IsVault second 0 1 3 4 second-Reachable first_in_use
      second_in_use (λ e. omega (arith, e))

Others-IsSynced_example :
    IsSynced platform password (state_of 0 second)
    × (second.processes 0 ≡ first.processes 0)
    × (second.disk.files (first.processes 0).repository.path
        ≡ first.disk.files (first.processes 0).repository.path)
Others-IsSynced_example =
    Others-IsSynced platform refl IsVault password 0 3 first second first-Reachable first_in_use
      first-Opened.synced
      (other 1 first first second (nothing first) (λ e. omega (arith, e)) second-Step)
