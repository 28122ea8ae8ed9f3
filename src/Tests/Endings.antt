-- ===== src/Tests/Endings.antt =====
-- The theorems of processes that end, at concrete inputs.
use secure_vault.Prelude.{
  ℕ, zero, suc, ◌*◌, ◌≡◌, refl, sym, arith, [], ◌∷◌, ◌++◌, none, some, codes, bytes_eq,
}
use secure_vault.Random.{draw_bytes, advance}
use secure_vault.Json.Strings.{hex_digit}
use secure_vault.Entries.{new_entry_id}
use secure_vault.Locking.Cases.{IsKnown, some≢none}
use secure_vault.Repository.Changes.{has_id, fresh_id, made_entry, add_entry}
use secure_vault.Processes.{Process, System, machine_of, state_of, put_state, exited}
use secure_vault.Processes.Locks.{IsOrdered, IsOwn, process_of}
use secure_vault.Processes.Recovery.{Left, add_entry_recovers}
use secure_vault.Tests.Toy.{toy-IsCrypto}
use secure_vault.Tests.Vaults.{password, start}
use secure_vault.Tests.Bodies.{two, two-IsEntry}
use secure_vault.Tests.Repositories.{platform, full, third, three_fit, open_state, open-IsSynced}

-- One vault, at the path 5.
abbrev IsFive : ℕ → Type 0
IsFive n = n ≡ 5

abbrev idle_process : Process
idle_process = record {
  repository = record (open_state full).self { lock = record { lock_path = 0; fd = none } };
  world = start;
  clock = λ i. [];
  temps = λ i. 2 * i;
}

abbrev one_using : ℕ → Process
one_using zero = process_of (open_state full)
one_using (suc q) = idle_process

-- Process 0 has the vault 5 in use, on a disk that is full when the data of a write is flushed.
abbrev using : System
using = record { disk = full; kernel = (open_state full).machine.kernel; processes = one_using }

using-IsOrdered : IsOrdered IsFive using
using-IsOrdered = record {
  locks = record { held = held; own = own; known = known };
  own = own_path;
  temps_apart = temps;
}
  where
    held :
        (q f : ℕ)
        → ((using.processes q).repository.lock.fd ≡ some f)
        → using.kernel.holder (using.processes q).repository.lock.lock_path ≡ some f
    held zero f e = e
    held (suc q) f e = absurd (some≢none f (sym e))

    own :
        (q q' f : ℕ)
        → ((using.processes q).repository.lock.fd ≡ some f)
        → ((using.processes q').repository.lock.fd ≡ some f)
        → q ≡ q'
    own zero zero f e e' = refl
    own zero (suc q') f e e' = absurd (some≢none f (sym e'))
    own (suc q) q' f e e' = absurd (some≢none f (sym e))

    known : IsKnown using.kernel
    known n f e = ground (arith, e)

    own_path : (q : ℕ) → IsOwn IsFive (using.processes q).repository
    own_path zero f e = (refl, refl)
    own_path (suc q) f e = absurd (some≢none f (sym e))

    temps : (q i : ℕ) → ¬ IsFive ((using.processes q).temps i)
    temps zero i e = omega (arith, e)
    temps (suc q) i e = omega (arith, e)

add_entry_recovers_example :
    let x = add_entry platform 3 (codes "s") (codes "u") (codes "p") [] (state_of 0 using) in
    Left platform 5 password two
      (two ++ (third ∷ []))
      (machine_of 1 (put_state 0 (exited x.1) using))
      third
      x.0
unfolding made_entry new_entry_id fresh_id has_id bytes_eq draw_bytes advance hex_digit
add_entry_recovers_example =
    add_entry_recovers platform refl toy-IsCrypto IsFive 0 2 1 using using-IsOrdered refl refl refl
      3 password (codes "s") (codes "u") (codes "p") [] third (open-IsSynced full refl) refl
      three_fit (omega arith) two-IsEntry (ground arith)
