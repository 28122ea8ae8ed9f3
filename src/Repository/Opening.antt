-- ===== src/Repository/Opening.antt =====
-- `open`: from a file of entries to an object that agrees with it.
use secure_vault.Prelude.{ℕ, ◌≡◌, refl, sym, ◌∙◌, subst, false, List, none, Bytes, All}
use secure_vault.Errors.Result.{Result, ok, ok_inj}
use secure_vault.Crypto.{IsCrypto}
use secure_vault.Vault.{UnlockedVault, read}
use secure_vault.Vault.Opened.{IsOpenWith, written-Opens}
use secure_vault.Storage
use secure_vault.Locking.{FileLock, Scope, acquire}
use secure_vault.Entries.{Entry, serialize_entries, deserialize_entries}
use secure_vault.Entries.RoundTrip.{IsEntry, deserialize_entries-serialize_entries}
use secure_vault.Repository.{Platform, Machine, VaultRepository, init, open_repository}
use secure_vault.Repository.Stored.{Stores, IsSynced}

-- What `lock.acquire()` of a new lock of the path does.
abbrev pub locking : Platform → ℕ → Machine → Result (Unit {0}) × Scope
locking p path m =
    acquire p.has_fcntl record { self = record { lock_path = path; fd = none }; kernel = m.kernel }

-- A new object on an open session.
abbrev pub opened_repository : ℕ → UnlockedVault → FileLock → List Entry → VaultRepository
opened_repository path v lock es = record {
  path = path;
  unlocked = v;
  lock = lock;
  entries = es;
  closed = false;
}

module _ (p : Platform) (L : IsCrypto p.crypto) where
  -- The entries that were serialized are the ones read.
  deserialized :
      (es : List Entry) (body : Bytes)
      → All IsEntry es
      → serialize_entries es ≡ ok body
      → deserialize_entries p.python body ≡ ok es
  deserialized es body texts serialized =
      let (body', made, back) = deserialize_entries-serialize_entries p.python es texts in
      subst (λ b. deserialize_entries p.python b ≡ ok es)
        (ok_inj body' body (sym made ∙ serialized)) back

  pub init_lem :
      (path : ℕ) (v : UnlockedVault) (lock : FileLock) (es : List Entry) (body password : Bytes)
      (m : Machine)
      → All IsEntry es
      → serialize_entries es ≡ ok body
      → IsOpenWith p.crypto password body (record { vault = v; world = m.world })
      → init p path v lock m ≡ (ok (opened_repository path v lock es), m)
  unfolding init read
  init_lem path v lock es body password m texts serialized o =
      rw (o.is_open, o.text_eq, deserialized es body texts serialized) refl

  -- A file of entries opens with its password to an object with these entries, the same in every
  -- field and in the same order, which agrees with the file and holds the lock; the disk is as it
  -- was. The entries hold no surrogates, and the lock was granted.
  pub open_repository-Stores :
      (path : ℕ) (password : Bytes) (es : List Entry) (m : Machine)
      → All IsEntry es
      → Stores p password path es m.disk.files
      → (locking p path m).0 ≡ ok tt
      → (r : VaultRepository) × (m' : Machine) × (open_repository p path password m ≡ (ok r, m'))
        × (r.path ≡ path)
        × (r.entries ≡ es)
        × (r.lock ≡ (locking p path m).1.self)
        × IsSynced p password (record { self = r; machine = m' })
        × (m'.disk ≡ m.disk)
        × (m'.kernel ≡ (locking p path m).1.kernel)
  unfolding open_repository Storage.read
  open_repository-Stores path password es m texts stored granted =
      let lock = (locking p path m).1.self in
      let m1 = record m { kernel = (locking p path m).1.kernel } in
      let (v, w, opens, session, counter, params) =
        written-Opens p.crypto L password stored.params stored.counter stored.body
          stored.file.content m.world stored.written in
      let m2 = record m1 { world = w } in
      let started =
        init_lem path v lock es stored.body password m2 texts stored.serialized session in
      (
        opened_repository path v lock es,
        m2,
        rw (granted, stored.found, opens, started),
        refl,
        refl,
        refl,
        record {
          body = stored.body;
          serialized = stored.serialized;
          session = session;
          stored = stored;
        },
        refl,
        refl,
      )
