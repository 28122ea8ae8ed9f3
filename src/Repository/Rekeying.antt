-- ===== src/Repository/Rekeying.antt =====
-- `change_master_password`.
use secure_vault.Prelude.{
  ◌≤◌, ◌<◌, ◌≡◌, ◌≢◌, ◌⊎◌, inl, inr, refl, subst, arith, length, Option, Bytes,
}
use secure_vault.Errors.{Error}
use secure_vault.Errors.Result.{Result, ok, err}
use secure_vault.Random.{draw_bytes, advance}
use secure_vault.Crypto.{IsCrypto, max_text}
use secure_vault.Kdf.{Argon2Parameters}
use secure_vault.Kdf.Range.{IsInRange}
use secure_vault.FileFormat.{max_counter}
use secure_vault.Vault.{or_else}
use secure_vault.Vault.Opened.{IsOpenWith, redrawn-IsOpenWith}
use secure_vault.Vault.Password.{change_password_total, change_password_unhashed}
use secure_vault.Vault.Opening.{IsHashed, IsHashed-cases}
use secure_vault.Repository.{Platform, State, change_master_password}
use secure_vault.Repository.Stored.{Stores, IsSynced, session_of}
use secure_vault.Entries.RoundTrip.{serialize_entries_total}
use secure_vault.Repository.Outcomes.{body_of, body_of-IsSynced}
use secure_vault.Repository.Persisting.{write-Stores}

module _ (p : Platform) where
  -- The new password took effect in memory: the session is under it, and the file holds the same
  -- entries under the old password or under the new one; if the method returned, the object and the
  -- file agree under the new one.
  abbrev pub Rekeyed : Bytes → Bytes → State → Result (Unit {0}) × State → Type 0
  Rekeyed old_password new_password s run =
      let files = run.1.machine.disk.files in
      IsOpenWith p.crypto new_password (body_of s.self.entries) (session_of run.1)
      × (Stores p old_password s.self.path s.self.entries files
          ⊎ Stores p new_password s.self.path s.self.entries files)
      × (((e : Error) × (run.0 ≡ err e)) ⊎ ((run.0 ≡ ok tt) × IsSynced p new_password run.1))

  -- Argon2 failed on the new password and salt, and the method raised that: the object and the file
  -- agree under the old password as before, and nothing on the disk has changed.
  abbrev pub Unchanged :
      Bytes → Bytes → Argon2Parameters → State → Result (Unit {0}) × State → Type 0
  Unchanged old_password new_password q s run =
      (e : Error) × (p.crypto.argon2id new_password (draw_bytes 16 s.machine.world.entropy)
          q.time_cost q.memory_kib q.parallelism 32
        ≡ err e)
      × (run.0 ≡ err e)
      × IsSynced p old_password run.1
      × (run.1.machine.disk ≡ s.machine.disk)

module _ (p : Platform) (L : IsCrypto p.crypto) where
  redrawn_synced :
      (password : Bytes) (s : State)
      → IsSynced p password s
      → IsSynced p password (record s {
        machine = record s.machine {
          world = record s.machine.world { entropy = advance 16 s.machine.world.entropy };
        };
      })
  redrawn_synced password s synced = record {
    body = synced.body;
    serialized = synced.serialized;
    session = redrawn-IsOpenWith p.crypto (advance 16 s.machine.world.entropy) synced.session;
    stored = synced.stored;
  }

  rekeyed_lem :
      (old_password new_password : Bytes) (params : Option Argon2Parameters) (s : State)
      → IsSynced p old_password s
      → IsInRange (or_else params s.self.unlocked.params)
      → length (body_of s.self.entries) ≤ max_text
      → s.self.unlocked.counter < max_counter
      → s.self.path ≢ s.machine.temps 0
      → IsHashed p.crypto new_password
          (or_else params s.self.unlocked.params)
          (draw_bytes 16 s.machine.world.entropy)
      → let run = change_master_password p new_password params s in
        (run.1.self.entries ≡ s.self.entries) × Rekeyed p old_password new_password s run
  unfolding change_master_password
  rekeyed_lem old_password new_password params s synced range fits room apart hashed =
      let body = body_of s.self.entries in
      let serialized = serialize_entries_total s.self.entries in
      let before =
        subst (λ b. IsOpenWith p.crypto old_password b (session_of s))
          (body_of-IsSynced p old_password s synced) synced.session in
      let (bytes, blob, written, session, made) =
        change_password_total p.crypto L old_password body new_password params (session_of s) before
          range fits (omega arith) hashed in
      let (file, ended) =
        write-Stores p L old_password new_password s.self.entries s.self.entries s.self.path _ _
          body bytes s.machine apart synced.stored serialized written in
      rw made (
        refl,
        (
          session,
          file,
          elim ended [
            | inl failure ↦ inl failure
            | inr (returned, stored) ↦ inr (
              returned,
              record { body = body; serialized = serialized; session = session; stored = stored },
            )
          ],
        ),
      )

  -- change_master_password keeps the entries. If Argon2 fails, it raises that and the object and the
  -- file are under the old password as before. Else, however it ends, the object's session is under
  -- the new password, and the file holds the same entries under the old password or under the new
  -- one; if it returns, the object and the file agree under the new one. The object and the file
  -- agree before the call, the parameters are in range, there is room for the text and for the
  -- counter, and the temporary name is not the vault's.
  pub change_master_password_safe :
      (old_password new_password : Bytes) (params : Option Argon2Parameters) (s : State)
      → IsSynced p old_password s
      → IsInRange (or_else params s.self.unlocked.params)
      → length (body_of s.self.entries) ≤ max_text
      → s.self.unlocked.counter < max_counter
      → s.self.path ≢ s.machine.temps 0
      → let run = change_master_password p new_password params s in
        (run.1.self.entries ≡ s.self.entries)
        × (Unchanged p old_password new_password (or_else params s.self.unlocked.params) s run
            ⊎ Rekeyed p old_password new_password s run)
  unfolding change_master_password
  change_master_password_safe old_password new_password params s synced range fits room apart =
      let q = or_else params s.self.unlocked.params in
      elim (IsHashed-cases p.crypto new_password q (draw_bytes 16 s.machine.world.entropy)) [
        | inl (e, failed) ↦
            let kept =
              change_password_unhashed p.crypto old_password synced.body new_password params
                (session_of s) e synced.session range failed in
            rw kept (refl, inl (e, failed, refl, redrawn_synced old_password s synced, refl))
        | inr hashed ↦
            let (entries, rekeyed) =
              rekeyed_lem old_password new_password params s synced range fits room apart hashed in
            (entries, inr rekeyed)
      ]
