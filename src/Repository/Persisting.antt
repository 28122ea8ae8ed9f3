-- ===== src/Repository/Persisting.antt =====
-- `_persist`: a save of the vault and an atomic write of its file.
use secure_vault.Prelude.{
  ℕ, ◌+◌, ◌≤◌, ◌<◌, ◌≡◌, ◌≢◌, ◌⊎◌, inl, inr, refl, sym, ap, ◌∙◌, subst, arith, length, List, some,
  Bytes,
}
use secure_vault.Errors.{Error}
use secure_vault.Errors.Result.{ok, err, Result-cases}
use secure_vault.Crypto.{IsCrypto, max_text}
use secure_vault.Kdf.{Argon2Parameters}
use secure_vault.FileFormat.{max_counter}
use secure_vault.Vault.Written.{WrittenVault}
use secure_vault.Vault.Opened.{IsOpenWith}
use secure_vault.Vault.Saving.{save_total, saved, saved-IsOpenWith}
use secure_vault.Storage.{
  Disk, Files, File, Ending, finished, raised, crashed, write_atomic, interrupt,
}
use secure_vault.Storage
use secure_vault.Storage.Crash.{OldOrNew, write_atomic_safe, write_atomic_returns}
use secure_vault.Entries.{Entry, serialize_entries}
use secure_vault.Repository.{Platform, Machine, State, persist, of_ending}
use secure_vault.Repository.Stored.{Stores, IsSynced, same-Stores, session_of}

-- The state after a persist that wrote these bytes.
abbrev pub persisted : Platform → Bytes → Bytes → State → Disk → State
persisted p body bytes s disk =
    let t = saved body (session_of s) in
    record {
      self = record s.self { unlocked = t.vault };
      machine = record s.machine {
        world = t.world;
        disk = disk;
        temps = λ i. s.machine.temps (1 + i);
      };
    }

module _ (p : Platform) (L : IsCrypto p.crypto) where
  pub persist_lem :
      (password old_body body : Bytes) (s : State)
      → IsOpenWith p.crypto password old_body (session_of s)
      → serialize_entries s.self.entries ≡ ok body
      → length body ≤ max_text
      → s.self.unlocked.counter < max_counter
      → (bytes : Bytes) × WrittenVault p.crypto password s.self.unlocked.params
          (s.self.unlocked.counter + 1)
          body
          bytes
        × (let w = write_atomic p.has_fchmod (s.machine.temps 0) s.self.path bytes s.machine.disk in
            persist p s ≡ (of_ending w.0, persisted p body bytes s w.1))
  unfolding persist
  persist_lem password old_body body s opened serialized fits room =
      let (bytes, written, made) =
        save_total p.crypto L password old_body body (session_of s) opened fits (omega arith) in
      (bytes, written, rw (serialized, made))

  -- A written file holds the new entries, whatever else is on the disk.
  pub written-Stores :
      (password : Bytes) (path n : ℕ) (es : List Entry) (body bytes : Bytes) (q : Argon2Parameters)
      (files : Files) (f : File)
      → files path ≡ some f
      → f.content ≡ bytes
      → serialize_entries es ≡ ok body
      → WrittenVault p.crypto password q n body bytes
      → Stores p password path es files
  written-Stores password path n es body bytes q files f at content serialized written = record {
    file = f;
    found = at;
    params = q;
    counter = n;
    body = body;
    serialized = serialized;
    written = subst (WrittenVault p.crypto password q n body) (sym content) written;
  }

  OldOrNew-Stores :
      (old_password new_password : Bytes) (old new : List Entry) (path n : ℕ) (q : Argon2Parameters)
      (body bytes : Bytes) (m : Machine) (files : Files) (apart : path ≢ m.temps 0)
      → OldOrNew m.disk.files (m.temps 0) path bytes apart files
      → Stores p old_password path old m.disk.files
      → serialize_entries new ≡ ok body
      → WrittenVault p.crypto new_password q n body bytes
      → Stores p old_password path old files ⊎ Stores p new_password path new files
  OldOrNew-Stores old_password new_password old new path n q body bytes m files apart
        (inl untouched) stored serialized written =
      inl (same-Stores p old_password path old m.disk.files files (untouched path apart) stored)
  OldOrNew-Stores old_password new_password old new path n q body bytes m files apart
        (inr (at, others)) stored serialized written =
      inr (written-Stores new_password path n new body bytes q files _ at refl serialized written)

  pub of_ending-ok : (e : Ending) → of_ending e ≡ ok tt → e ≡ finished
  of_ending-ok finished h = refl
  of_ending-ok (raised Storage.os_error) h = cc
  of_ending-ok (raised interrupt) h = cc
  of_ending-ok crashed h = cc

  -- What the write of a new vault leaves: the file of before or the new one; and if it returns, the
  -- new one.
  pub write-Stores :
      (old_password new_password : Bytes) (old new : List Entry) (path n : ℕ) (q : Argon2Parameters)
      (body bytes : Bytes) (m : Machine)
      → path ≢ m.temps 0
      → Stores p old_password path old m.disk.files
      → serialize_entries new ≡ ok body
      → WrittenVault p.crypto new_password q n body bytes
      → let w = write_atomic p.has_fchmod (m.temps 0) path bytes m.disk in
        (Stores p old_password path old w.1.files ⊎ Stores p new_password path new w.1.files)
        × (((e : Error) × (of_ending w.0 ≡ err e))
            ⊎ ((of_ending w.0 ≡ ok tt) × Stores p new_password path new w.1.files))
  write-Stores old_password new_password old new path n q body bytes m apart stored serialized
        written =
      let w = write_atomic p.has_fchmod (m.temps 0) path bytes m.disk in
      (
        OldOrNew-Stores old_password new_password old new path n q body bytes m w.1.files apart
            (write_atomic_safe p.has_fchmod (m.temps 0) path bytes m.disk apart) stored serialized
            written,
        elim (Result-cases (of_ending w.0)) [
          | inl failure ↦ inl failure
          | inr (_, returned) ↦
              let (all, reads) =
                write_atomic_returns p.has_fchmod (m.temps 0) path bytes m.disk w.1 apart
                  (ap (λ x. (x, w.1)) (of_ending-ok w.0 returned)) in
              inr (
                returned,
                written-Stores new_password path n new body bytes q w.1.files _ (all.0.0) refl
                    serialized written,
              )
        ],
      )

  -- However _persist ends, by returning, by an exception or by a crash in any call of the atomic
  -- write, the file at the path is the vault of the old entries or the vault of the new ones, under
  -- the same password; and the object goes on with an open session.
  pub persist_safe :
      (password old_body body : Bytes) (old : List Entry) (s : State)
      → IsOpenWith p.crypto password old_body (session_of s)
      → Stores p password s.self.path old s.machine.disk.files
      → serialize_entries s.self.entries ≡ ok body
      → length body ≤ max_text
      → s.self.unlocked.counter < max_counter
      → s.self.path ≢ s.machine.temps 0
      → let files = (persist p s).1.machine.disk.files in
        (Stores p password s.self.path old files
          ⊎ Stores p password s.self.path s.self.entries files)
        × IsOpenWith p.crypto password body (session_of (persist p s).1)
  persist_safe password old_body body old s opened stored serialized fits room apart =
      let (bytes, written, run) =
        persist_lem password old_body body s opened serialized fits room in
      let (file, ended) =
        write-Stores password password old s.self.entries s.self.path _ _ body bytes s.machine apart
          stored serialized written in
      rw run (file, saved-IsOpenWith p.crypto L password old_body body (session_of s) opened)

  -- If _persist returns, the object and its file agree: the file is the vault of the entries in
  -- memory.
  pub persist-IsSynced :
      (password old_body body : Bytes) (s : State)
      → IsOpenWith p.crypto password old_body (session_of s)
      → serialize_entries s.self.entries ≡ ok body
      → length body ≤ max_text
      → s.self.unlocked.counter < max_counter
      → s.self.path ≢ s.machine.temps 0
      → (persist p s).0 ≡ ok tt
      → IsSynced p password (persist p s).1
  persist-IsSynced password old_body body s opened serialized fits room apart returned =
      let (bytes, written, run) =
        persist_lem password old_body body s opened serialized fits room in
      let w = write_atomic p.has_fchmod (s.machine.temps 0) s.self.path bytes s.machine.disk in
      let ended = of_ending-ok w.0 (sym (ap (λ x. x.0) run) ∙ returned) in
      let (all, reads) =
        write_atomic_returns p.has_fchmod (s.machine.temps 0) s.self.path bytes s.machine.disk w.1
          apart (ap (λ x. (x, w.1)) ended) in
      subst (λ x. IsSynced p password x) (sym (ap (λ x. x.1) run))
        record {
          body = body;
          serialized = serialized;
          session = saved-IsOpenWith p.crypto L password old_body body (session_of s) opened;
          stored =
              written-Stores password s.self.path _ s.self.entries body bytes _ w.1.files _
                (all.0.0) refl serialized written;
        }
