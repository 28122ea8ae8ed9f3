-- ===== src/Repository/Outcomes.antt =====
-- What a change leaves, however it ends.
use secure_vault.Prelude.{◌≤◌, ◌<◌, ◌≡◌, ◌≢◌, ◌⊎◌, inl, inr, refl, sym, ◌∙◌, length, List, Bytes}
use secure_vault.Errors.{Error}
use secure_vault.Errors.Result.{Result, ok, err, Result-cases, ok_inj}
use secure_vault.Errors.Action.{Action, pure, ◌>>=◌}
use secure_vault.Crypto.{IsCrypto, max_text}
use secure_vault.FileFormat.{max_counter}
use secure_vault.Json.Printer.{dumps}
use secure_vault.Vault.Opened.{IsOpenWith}
use secure_vault.Entries.{Entry, payload}
use secure_vault.Entries.RoundTrip.{serialize_entries_total}
use secure_vault.Repository.{Platform, VaultRepository, State, persist}
use secure_vault.Repository.Stored.{Stores, IsSynced, session_of}
use secure_vault.Repository.Persisting.{persist_lem, persist_safe, persist-IsSynced}

-- The serialized entries.
abbrev pub body_of : List Entry → Bytes
body_of es = dumps (payload es)

pub body_of-IsSynced :
    (p : Platform) (password : Bytes) (s : State)
    → (synced : IsSynced p password s) → synced.body ≡ body_of s.self.entries
body_of-IsSynced p password s synced =
    ok_inj _ _ (sym synced.serialized ∙ serialize_entries_total s.self.entries)

-- What a change does that makes `new` of the entries of the object and returns `value`. The object
-- has the new entries, an open session, and its path, its lock and whether it is closed as they were;
-- the file holds the old entries or the new ones; and the method raised, or it returned the value
-- and the file holds the entries of the object.
pub record Changed (p : Platform) {A : Type 0} (password : Bytes) (before : VaultRepository)
    (new : List Entry) (value : A) (run : Result A × State) : Type 0 where
  pub entries_eq : run.1.self.entries ≡ new
  pub path_eq : run.1.self.path ≡ before.path
  pub lock_eq : run.1.self.lock ≡ before.lock
  pub closed_eq : run.1.self.closed ≡ before.closed
  pub session : IsOpenWith p.crypto password (body_of new) (session_of run.1)
  pub file :
      Stores p password before.path before.entries run.1.machine.disk.files
      ⊎ Stores p password before.path new run.1.machine.disk.files
  pub ended : ((e : Error) × (run.0 ≡ err e)) ⊎ ((run.0 ≡ ok value) × IsSynced p password run.1)

-- What follows a change only returns.
pub Changed-pure :
    {p : Platform} {A B : Type 0} {password : Bytes} {before : VaultRepository} {new : List Entry}
    {a : A} (b : B) (m : Action State A) (s : State)
    → Changed p password before new a (m s)
    → Changed p password before new b ((m >>= λ _. pure b) s)
Changed-pure {p} {A} {B} {password} {before} {new} {a} b m s h = elim h.ended [
  | inl (e, raised) ↦ rw raised record {
    entries_eq = h.entries_eq;
    path_eq = h.path_eq;
    lock_eq = h.lock_eq;
    closed_eq = h.closed_eq;
    session = h.session;
    file = h.file;
    ended = inl (e, refl);
  }
  | inr (returned, synced) ↦ rw returned record {
    entries_eq = h.entries_eq;
    path_eq = h.path_eq;
    lock_eq = h.lock_eq;
    closed_eq = h.closed_eq;
    session = h.session;
    file = h.file;
    ended = inr (refl, synced);
  }
]

module _ (p : Platform) (L : IsCrypto p.crypto) where
  pub persist-Changed :
      (password old_body : Bytes) (old : List Entry) (s : State)
      → IsOpenWith p.crypto password old_body (session_of s)
      → Stores p password s.self.path old s.machine.disk.files
      → length (body_of s.self.entries) ≤ max_text
      → s.self.unlocked.counter < max_counter
      → s.self.path ≢ s.machine.temps 0
      → Changed p password (record s.self { entries = old }) s.self.entries tt (persist p s)
  persist-Changed password old_body old s opened stored fits room apart =
      let body = body_of s.self.entries in
      let serialized = serialize_entries_total s.self.entries in
      let (file, session) =
        persist_safe p L password old_body body old s opened stored serialized fits room apart in
      let (bytes, written, run) =
        persist_lem p L password old_body body s opened serialized fits room in
      record {
        entries_eq = rw run;
        path_eq = rw run;
        lock_eq = rw run;
        closed_eq = rw run;
        session = session;
        file = file;
        ended = elim (Result-cases (persist p s).0) [
          | inl raised ↦ inl raised
          | inr (_, returned) ↦ inr (
            returned,
            persist-IsSynced p L password old_body body s opened serialized fits room apart
                returned,
          )
        ];
      }
