-- ===== src/Processes/Recovery.antt =====
-- What a process leaves to the others when it ends.
use secure_vault.Prelude.{
  ℕ, ◌≤◌, ◌<◌, ◌≡◌, ◌≢◌, ◌⊎◌, inl, inr, refl, sym, ap, ◌∙◌, subst, true, false, List, [], ◌∷◌, ◌++◌,
  Option, some, none, length, Bytes, Text, All, All-append,
}
use secure_vault.Errors.{Error}
use secure_vault.Errors.Result.{Result, ok, err}
use secure_vault.Errors.Action.{pure, continue}
use secure_vault.Crypto.{IsCrypto, max_text}
use secure_vault.FileFormat.{max_counter}
use secure_vault.Locking.{Scope, acquire, release, release_fd}
use secure_vault.Locking.Cases.{Released, release-Released, without_self}
use secure_vault.Locking.Exclusion.{acquire_free}
use secure_vault.Locking.Sound.{scope_of}
use secure_vault.Entries.{Entry}
use secure_vault.Entries.RoundTrip.{IsEntry}
use secure_vault.Repository.{Platform, Machine, VaultRepository, State, open_repository}
use secure_vault.Repository.Changes.{made_entry, add_entry}
use secure_vault.Repository.Adding.{add_entry-Changed}
use secure_vault.Repository.Outcomes.{Changed, body_of}
use secure_vault.Repository.Opening.{locking, open_repository-Stores}
use secure_vault.Repository.Stored.{Stores, IsSynced}
use secure_vault.Processes.{System, machine_of, state_of, put_state, exited, run, add}
use secure_vault.Processes.Framing.{Aside, run-Keeps}
use secure_vault.Processes.Locks.{IsOrdered, locks_of, lock_scope}

release_fd_fails :
    (fd : Option ℕ) (x : Scope) → (release_fd false fd x).1.kernel.fails ≡ x.kernel.fails
release_fd_fails none x = refl
release_fd_fails (some f) x = refl

-- Only the value is dropped.
ignored_state : {A : Type 0} (x : Result A × State) → (continue (λ _. pure tt) x).1 ≡ x.1
ignored_state (ok a, s) = refl
ignored_state (err e, s) = refl

module _ (p : Platform) where
  -- An open of the path returns these entries and an object that agrees with the file.
  abbrev pub OpensTo : ℕ → Bytes → List Entry → Machine → Type 0
  OpensTo path password es m =
      (r : VaultRepository) × (m' : Machine) × (open_repository p path password m ≡ (ok r, m'))
      × (r.entries ≡ es)
      × IsSynced p password (record { self = r; machine = m' })

  -- What a change that would make `new` of the entries leaves: it returned the value and an open gives
  -- `new`, or it raised and an open gives the old entries or the new ones.
  abbrev pub Left :
      {A : Type 0} → ℕ → Bytes → List Entry → List Entry → Machine → A → Result A → Type 0
  Left path password old new m value r =
      (((e : Error) × (r ≡ err e)) × (OpensTo path password old m ⊎ OpensTo path password new m))
      ⊎ ((r ≡ ok value) × OpensTo path password new m)

  module _ (posix : p.has_fcntl ≡ true) (L : IsCrypto p.crypto) where
    -- A stored vault whose lock is free.
    free-OpensTo :
        (path : ℕ) (password : Bytes) (es : List Entry) (m : Machine)
        → All IsEntry es
        → Stores p password path es m.disk.files
        → m.kernel.holder path ≡ none
        → m.kernel.fails 0 ≡ false
        → m.kernel.fails 1 ≡ false
        → OpensTo path password es m
    free-OpensTo path password es m texts stored free opens answers =
        let granted : (locking p path m).0 ≡ ok tt =
          subst
            (λ b.
              (acquire b
                record { self = record { lock_path = path; fd = none }; kernel = m.kernel }).0
              ≡ ok tt)
            (sym posix) (acquire_free _ opens answers free) in
        let (r, m', run, at, entries, held, synced, disk, kernel) =
          open_repository-Stores p L path password es m texts stored granted in
        (r, m', run, entries, synced)

    module _ (IsVault : ℕ → Type 0) (q f q' : ℕ) (s : System) (h : IsOrdered IsVault s)
        (used : (s.processes q).repository.lock.fd ≡ some f) (opens : s.kernel.fails 0 ≡ false)
        (answers : s.kernel.fails 1 ≡ false) where
      abbrev path : ℕ
      path = (s.processes q).repository.path

      -- The lock of a process that ends is free.
      freed :
          let x =
            (release_fd false (s.processes q).repository.lock.fd (scope_of q (locks_of s))).1 in
          (x.kernel.holder path ≡ none) × (x.kernel.fails ≡ s.kernel.fails)
      unfolding release
      freed =
          let lock = (s.processes q).repository.lock in
          let before = scope_of q (locks_of s) in
          let after = (release_fd false lock.fd before).1 in
          let (self, next, holder) =
            subst (λ file. Released file before after) used (release-Released false before) in
          (
            ap after.kernel.holder (sym (h.own q f used).0)
                ∙ holder lock.lock_path
                ∙ without_self lock.lock_path s.kernel.holder f (h.locks.held q f used),
            release_fd_fails lock.fd before,
          )

      -- The process ran to a state with the same lock and kernel.
      ended-OpensTo :
          (password : Bytes) (es : List Entry) (t : State)
          → lock_scope t ≡ scope_of q (locks_of s)
          → All IsEntry es
          → Stores p password path es t.machine.disk.files
          → OpensTo path password es (machine_of q' (put_state q (exited t) s))
      ended-OpensTo password es t same texts stored =
          let (free, fails) =
            subst
              (λ (x : Scope).
                let y = (release_fd false x.self.fd x).1 in
                (y.kernel.holder path ≡ none) × (y.kernel.fails ≡ s.kernel.fails))
              (sym same) freed in
          free-OpensTo path password es (machine_of q' (put_state q (exited t) s)) texts stored free
            (ap (λ x. x 0) fails ∙ opens) (ap (λ x. x 1) fails ∙ answers)

      -- After a process exits or is killed with a vault in use, another opens it with its password: open
      -- returns the entries that the file holds and an object that agrees with it. fcntl is there, no
      -- temporary name is a vault's, the entries hold no surrogates, and the two calls of acquire do not
      -- fail.
      pub reopens :
          (password : Bytes) (es : List Entry)
          → All IsEntry es
          → Stores p password path es s.disk.files
          → OpensTo path password es (machine_of q' (put_state q (exited (state_of q s)) s))
      reopens password es texts stored = ended-OpensTo password es (state_of q s) refl texts stored

      -- What a change of the entries leaves to an open after the process ended.
      Changed-OpensTo :
          {A : Type 0} (password : Bytes) (new : List Entry) (value : A) (x : Result A × State)
          → lock_scope x.1 ≡ scope_of q (locks_of s)
          → All IsEntry (s.processes q).repository.entries
          → All IsEntry new
          → Changed p password (s.processes q).repository new value x
          → Left path password
              (s.processes q).repository.entries
              new
              (machine_of q' (put_state q (exited x.1) s))
              value
              x.0
      Changed-OpensTo password new value x same old_texts new_texts changed = elim changed.ended [
        | inl raises ↦ inl (
          raises,
          elim changed.file [
            | inl old ↦ inl (ended-OpensTo password _ x.1 same old_texts old)
            | inr now ↦ inr (ended-OpensTo password new x.1 same new_texts now)
          ],
        )
        | inr (returns, synced) ↦ inr (
          returns,
          ended-OpensTo password new x.1 same new_texts (
              subst (λ n. Stores p password n new x.1.machine.disk.files) changed.path_eq
                (subst (λ es. Stores p password x.1.self.path es x.1.machine.disk.files)
                  changed.entries_eq synced.stored)),
        )
      ]

      -- A process that calls add_entry and then ends, or is killed at any point of the call, leaves a
      -- vault that another process opens with the master password: to the entries from before and the
      -- new one if the call returned, and else to these or the entries from before. The object and
      -- the file agreed before the call, the search of an id ends within its bound, there is room for
      -- the text and for the counter, no entry holds a surrogate, fcntl is there, no temporary name is
      -- a vault's, and the two calls of acquire do not fail.
      pub add_entry_recovers :
          (bound : ℕ) (master : Bytes) (service username password notes : Text) (entry : Entry)
          → let old = (s.processes q).repository.entries in
            let x = add_entry p bound service username password notes (state_of q s) in
            IsSynced p master (state_of q s)
            → (made_entry bound service username password notes (state_of q s)).0 ≡ ok entry
            → length (body_of (old ++ (entry ∷ []))) ≤ max_text
            → (s.processes q).repository.unlocked.counter < max_counter
            → All IsEntry old
            → IsEntry entry
            → Left path master old
                (old ++ (entry ∷ []))
                (machine_of q' (put_state q (exited x.1) s))
                entry
                x.0
      add_entry_recovers bound master service username password notes entry synced made fits room
            texts new =
          let r = (s.processes q).repository in
          let x = add_entry p bound service username password notes (state_of q s) in
          let own = (h.own q f used).1 in
          let away : r.path ≢ (s.processes q).temps 0 =
            λ e. h.temps_apart q 0 (subst IsVault e own) in
          let (made_as, changed) =
            add_entry-Changed p L bound master service username password notes entry (state_of q s)
              synced made fits room away in
          let (at, lock, (temps, files, kernel)) =
            subst (Aside IsVault r.path own s.disk.files s.kernel r.lock) (ignored_state x) (
              (run-Keeps IsVault r.path own s.disk.files s.kernel r.lock p
                  (add bound service username password notes)).at
                (state_of q s) (refl, refl, (h.temps_apart q, (λ n vault aside. refl), refl))) in
          Changed-OpensTo master _ entry x (λ i. record { self = lock i; kernel = kernel i }) texts
            (All-append IsEntry r.entries (entry ∷ []) texts (new, tt)) changed
