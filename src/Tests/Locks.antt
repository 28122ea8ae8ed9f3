-- ===== src/Tests/Locks.antt =====
-- The theorems of locking.py at concrete inputs.
use secure_vault.Prelude.{ℕ, ◌≡◌, ◌≢◌, refl, false, true, none}
use secure_vault.Errors.Result.{ok}
use secure_vault.Locking.{acquire}
use secure_vault.Locking.Cases.{Refused}
use secure_vault.Locking.Sound.{System, Reachable, starts, steps, acquires, scope_of, put_back}
use secure_vault.Locking.Exclusion.{mutual_exclusion, acquire_while_held}

-- Every process works on the vault 5.
abbrev first : System
first = record {
  locks = λ p. record { lock_path = 5; fd = none };
  kernel = record { holder = λ n. none; next = 3; fails = λ i. false };
}

-- Process 1 has taken the lock.
taken : System
unfolding acquire
taken = put_back 1 (acquire true (scope_of 1 first)).1 first

taken-Reachable : Reachable taken
unfolding taken acquire
taken-Reachable =
    steps first taken (starts first record { no_files = λ p. refl; no_holders = λ n. refl })
      (acquires 1 first)

mutual_exclusion_example : ◌≡◌ {A = ℕ} 1 1
unfolding taken acquire
mutual_exclusion_example = mutual_exclusion taken 1 1 3 3 taken-Reachable refl refl refl

acquire_while_held_example :
    ((acquire true (scope_of 2 taken)).0 ≢ ok tt)
    × Refused (scope_of 2 taken) (acquire true (scope_of 2 taken)).1
unfolding taken acquire
acquire_while_held_example = acquire_while_held taken 2 1 3 taken-Reachable refl refl
