-- ===== src/Repository/Closing.antt =====
-- `close` of a repository.
use secure_vault.Prelude.{ℕ, ◌≡◌, refl, ap, ◌∙◌, subst, false, some, none, [], Bytes}
use secure_vault.Memory.{zeros}
use secure_vault.Vault.Opened.{IsOpenWith}
use secure_vault.Vault.Closing.{close_wipes}
use secure_vault.Locking.{FileLock, Scope, release}
use secure_vault.Locking.Cases.{Released, release-Released, without_self}
use secure_vault.Repository.{Platform, State, close, returned}
use secure_vault.Repository.Stored.{session_of}

module _ (p : Platform) where
  -- close of an open object that holds its lock leaves zeros in the buffers of the data key and of
  -- the text, drops the entries, and frees the lock, also when unlocking raises; the disk is as it
  -- was. The object is marked closed exactly when the call returns.
  pub close_lem :
      (password text : Bytes) (f : ℕ) (s : State)
      → IsOpenWith p.crypto password text (session_of s)
      → s.self.closed ≡ false
      → s.self.lock.fd ≡ some f
      → s.machine.kernel.holder s.self.lock.lock_path ≡ some f
      → let run = close p s in
        let heap = run.1.machine.world.heap in
        (heap s.self.unlocked.dek ≡ zeros (s.machine.world.heap s.self.unlocked.dek))
        × (heap s.self.unlocked.plaintext ≡ zeros text)
        × (run.1.self.entries ≡ [])
        × (run.1.self.lock.fd ≡ none)
        × (run.1.machine.kernel.holder s.self.lock.lock_path ≡ none)
        × (run.1.machine.disk ≡ s.machine.disk)
        × (run.1.self.closed ≡ returned run.0)
  unfolding close
  close_lem password text f s o opened fd held =
      let scope : Scope = record { self = s.self.lock; kernel = s.machine.kernel } in
      let (wiped_closed, key, body, others, twice) =
        close_wipes p.crypto password text (session_of s) o in
      let (self_eq, next_eq, freed) =
        subst (λ file. Released file scope (release p.has_fcntl scope).1) fd
          (release-Released p.has_fcntl scope) in
      rw opened (
        key,
        body,
        refl,
        ap (λ (l : FileLock). l.fd) self_eq,
        freed s.self.lock.lock_path
            ∙ without_self s.self.lock.lock_path s.machine.kernel.holder f held,
        refl,
        refl,
      )
