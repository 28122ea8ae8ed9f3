-- ===== src/Repository/Creating.antt =====
-- `create`: a new file of no entries, and an object that agrees with it.
use secure_vault.Prelude.{
  ℕ, ◌+◌, ◌≤◌, ◌≡◌, ◌≢◌, refl, ap, arith, length, false, Option, List, [], none, Bytes,
}
use secure_vault.Errors.Result.{Result, ok}
use secure_vault.Crypto.{IsCrypto, max_text}
use secure_vault.Kdf.{Argon2Parameters, default_parameters}
use secure_vault.Kdf.Range.{IsInRange}
use secure_vault.Random.{advance, draw_bytes}
use secure_vault.Memory.{mutable, wipe}
use secure_vault.Json.Printer.{dumps}
use secure_vault.Json.Units.{literal}
use secure_vault.Json.Strings.{escape}
use secure_vault.Vault.{or_else}
use secure_vault.Vault.Creation.{create_total, after_keys}
use secure_vault.Vault.Opened.{written-Opens}
use secure_vault.Vault.Opening.{IsHashed}
use secure_vault.Storage.{write_atomic}
use secure_vault.Storage.Calm.{IsCalm, write_atomic_ends}
use secure_vault.Storage.Crash.{write_atomic_returns}
use secure_vault.Entries.{Entry, payload}
use secure_vault.Entries.RoundTrip.{serialize_entries_total}
use secure_vault.Repository.{
  Platform, Machine, VaultRepository, create, create_checked, create_locked, exists,
}
use secure_vault.Repository.Stored.{IsSynced}
use secure_vault.Repository.Outcomes.{body_of}
use secure_vault.Repository.Persisting.{written-Stores}
use secure_vault.Repository.Opening.{locking, init_lem, opened_repository}

-- The call returned an object of these entries, which holds the lock and agrees with the file.
pub record Returns (p : Platform) (path : ℕ) (password : Bytes) (es : List Entry) (m : Machine)
    (run : Result VaultRepository × Machine) : Type 0 where
  pub repository : VaultRepository
  pub returned : run.0 ≡ ok repository
  pub path_eq : repository.path ≡ path
  pub entries_eq : repository.entries ≡ es
  pub lock_eq : repository.lock ≡ (locking p path m).1.self
  pub synced : IsSynced p password (record { self = repository; machine = run.1 })

empty_fits : length (body_of []) ≤ max_text
unfolding dumps payload literal escape
empty_fits = omega arith

module _ (p : Platform) (L : IsCrypto p.crypto) where
  create_checked-Returns :
      (path : ℕ) (password : Bytes) (params : Option Argon2Parameters) (m : Machine)
      → IsInRange (or_else params default_parameters)
      → IsHashed p.crypto password
          (or_else params default_parameters)
          (draw_bytes 16 m.world.entropy)
      → (locking p path m).0 ≡ ok tt
      → path ≢ m.temps 0
      → m.disk.files (m.temps 0) ≡ none
      → IsCalm m.disk
      → Returns p path password [] m (create_checked p path password params m)
  unfolding create_checked create_locked
  create_checked-Returns path password params m range hashed granted apart free calm =
      let lock = (locking p path m).1.self in
      let serialized = serialize_entries_total [] in
      let (bytes, written, made) =
        create_total p.crypto L password (body_of []) params m.world range empty_fits hashed in
      let w1 = wipe (mutable m.world.next) (record (after_keys m.world) {
        entropy = advance 12 (advance 12 (after_keys m.world).entropy);
      }) in
      let disk = write_atomic p.has_fchmod (m.temps 0) path bytes m.disk in
      let ended = write_atomic_ends p.has_fchmod (m.temps 0) path bytes m.disk free calm in
      let (all, reads) =
        write_atomic_returns p.has_fchmod (m.temps 0) path bytes m.disk disk.1 apart
          (ap (λ x. (x, disk.1)) ended) in
      let (v, w2, opens, session, counter, same) =
        written-Opens p.crypto L password _ 0 (body_of []) bytes w1 written in
      let m2 = record m {
        world = w2;
        disk = disk.1;
        temps = λ i. m.temps (1 + i);
        kernel = (locking p path m).1.kernel;
      } in
      let started = init_lem p L path v lock [] (body_of []) password m2 tt serialized session in
      let run : create_checked p path password params m
          ≡ (ok (opened_repository path v lock []), m2) =
        rw (granted, serialized, made, ended, opens, started) in
      rw run record {
        repository = opened_repository path v lock [];
        returned = refl;
        path_eq = refl;
        entries_eq = refl;
        lock_eq = refl;
        synced = record {
          body = body_of [];
          serialized = serialized;
          session = session;
          stored =
              written-Stores p L password path 0 [] (body_of []) bytes _ disk.1.files _ (all.0.0)
                refl serialized written;
        };
      }

  -- Where no file is, `create` makes a file of no entries and returns an object that agrees with it
  -- and holds the lock. The parameters are in range, Argon2 does not fail, the lock is granted, and
  -- the write has a temporary name that is free and not the vault's, and no failing call.
  pub create-Returns :
      (path : ℕ) (password : Bytes) (params : Option Argon2Parameters) (m : Machine)
      → exists path m ≡ false
      → IsInRange (or_else params default_parameters)
      → IsHashed p.crypto password
          (or_else params default_parameters)
          (draw_bytes 16 m.world.entropy)
      → (locking p path m).0 ≡ ok tt
      → path ≢ m.temps 0
      → m.disk.files (m.temps 0) ≡ none
      → IsCalm m.disk
      → Returns p path password [] m (create p path password params m)
  unfolding create
  create-Returns path password params m missing range hashed granted apart free calm =
      rw missing
        (create_checked-Returns path password params m range hashed granted apart free calm)
