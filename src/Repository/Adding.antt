-- ===== src/Repository/Adding.antt =====
-- `add_entry` and its ids.
use secure_vault.Prelude.{
  take, Bool-cases, ℕ, zero, suc, ◌+◌, ◌≤◌, ◌<◌, ◌≡◌, ◌≢◌, inl, inr, refl, sym, ap, ◌∙◌, subst,
  arith, true, false, length, List, [], ◌∷◌, ◌++◌, Bytes, Text,
}
use secure_vault.Errors.{Error}
use secure_vault.Errors.Result.{Result, ok, err, Result-cases, ok_inj}
use secure_vault.Random.{Entropy, advance, draw_bytes}
use secure_vault.Crypto.{IsCrypto, max_text}
use secure_vault.FileFormat.{max_counter}
use secure_vault.Vault.Opened.{redrawn-IsOpenWith}
use secure_vault.Entries.{Entry, new_entry_id, hex_text}
use secure_vault.Repository.{Platform, State, persist}
use secure_vault.Repository.Stored.{IsSynced}
use secure_vault.Repository.Outcomes.{Changed, Changed-pure, persist-Changed, body_of}
use secure_vault.Repository.Changes.{has_id, fresh_id, made_entry, add_entry}

-- The next id that is drawn.
abbrev pub next_id : Entropy → Text
next_id e = hex_text (take 4 (draw_bytes 16 e))

module _ (n : ℕ) (es : List Entry) (id : Text) (e : Entropy) where
  fresh_id_seen :
      has_id id es ≡ true → fresh_id (suc n) es id e ≡ fresh_id n es (next_id e) (advance 16 e)
  unfolding fresh_id new_entry_id
  fresh_id_seen h = rw (h, fresh_id)

  fresh_id_new : has_id id es ≡ false → fresh_id (suc n) es id e ≡ (ok id, e)
  unfolding fresh_id
  fresh_id_new h = rw (h, fresh_id)

-- The id that the loop ends with belongs to no entry.
fresh_id-unseen :
    (n : ℕ) (es : List Entry) (id result : Text) (e : Entropy)
    → (fresh_id n es id e).0 ≡ ok result
    → has_id result es ≡ false
unfolding fresh_id
fresh_id-unseen zero es id result e h = cc
fresh_id-unseen (suc n) es id result e h = elim (Bool-cases (has_id id es)) [
  | inl seen ↦
      fresh_id-unseen n es (next_id e) result (advance 16 e)
        (sym (ap (λ r. r.0) (fresh_id_seen n es id e seen)) ∙ h)
  | inr unseen ↦
      subst (λ i. has_id i es ≡ false)
        (ok_inj id result (sym (ap (λ r. r.0) (fresh_id_new n es id e unseen)) ∙ h)) unseen
]

-- The ids that the loop tries, the first of which is given.
unfoldable pub candidate : ℕ → Text → Entropy → Text
candidate zero id e = id
candidate (suc k) id e = candidate k (next_id e) (advance 16 e)

-- If one of the ids that the loop tries within the bound belongs to no entry, it returns.
fresh_id_total :
    (n k : ℕ) (es : List Entry) (id : Text) (e : Entropy)
    → k < n
    → has_id (candidate k id e) es ≡ false
    → (result : Text) × ((fresh_id n es id e).0 ≡ ok result)
unfolding candidate
fresh_id_total zero k es id e h unseen = absurd (omega arith)
fresh_id_total (suc n) zero es id e h unseen = (id, ap (λ r. r.0) (fresh_id_new n es id e unseen))
fresh_id_total (suc n) (suc k) es id e h unseen = elim (Bool-cases (has_id id es)) [
  | inl seen ↦
      let (result, returned) =
        fresh_id_total n k es (next_id e) (advance 16 e) (omega arith) unseen in
      (result, ap (λ r. r.0) (fresh_id_seen n es id e seen) ∙ returned)
  | inr new ↦ (id, ap (λ r. r.0) (fresh_id_new n es id e new))
]

-- A state in which random numbers and times were taken.
abbrev drawn : Entropy → (ℕ → Text) → State → State
drawn e clock s = record s {
  machine = record s.machine { world = record s.machine.world { entropy = e }; clock = clock };
}

-- The entry that add_entry makes has the given fields and an id that no entry has.
pub record IsMade (service username password notes : Text) (es : List Entry) (entry : Entry)
    : Type 0 where
  pub service_eq : entry.service ≡ service
  pub username_eq : entry.username ≡ username
  pub password_eq : entry.password ≡ password
  pub notes_eq : entry.notes ≡ notes
  pub unseen : has_id entry.id es ≡ false

abbrev made_of : Text → Text → Text → Text → Text → State → Entry
made_of service username password notes id s = record {
  id = id;
  service = service;
  username = username;
  password = password;
  notes = notes;
  created_at = s.machine.clock 0;
  updated_at = s.machine.clock 1;
}

err≢ok : {A : Type 0} (e : Error) (a : A) → ¬ (◌≡◌ {A = Result A} (err e) (ok a))
err≢ok e a h = cc

made_entry_lem :
    (bound : ℕ) (service username password notes : Text) (s : State) (entry : Entry)
    → (made_entry bound service username password notes s).0 ≡ ok entry
    → (e : Entropy) × (made_entry bound service username password notes s
        ≡ (ok entry, drawn e (λ i. s.machine.clock (1 + (1 + i))) s))
      × IsMade service username password notes s.self.entries entry
unfolding made_entry new_entry_id
made_entry_lem bound service username password notes s entry h =
    let e = s.machine.world.entropy in
    let run = fresh_id bound s.self.entries (next_id e) (advance 16 e) in
    elim (Result-cases run.0) [
      | inl (raised, eq) ↦ absurd (err≢ok raised entry (sym (rw (eq, made_entry)) ∙ h))
      | inr (id, eq) ↦
          let made = made_of service username password notes id s in
          let run_eq : made_entry bound service username password notes s
              ≡ (ok made, drawn run.1 (λ i. s.machine.clock (1 + (1 + i))) s) =
            rw (eq, made_entry) in
          let same = ok_inj made entry (sym (ap (λ r. r.0) run_eq) ∙ h) in
          (
            run.1,
            run_eq ∙ ap (λ m. (ok m, drawn run.1 (λ i. s.machine.clock (1 + (1 + i))) s)) same,
            subst (IsMade service username password notes s.self.entries) same record {
              service_eq = refl;
              username_eq = refl;
              password_eq = refl;
              notes_eq = refl;
              unseen = fresh_id-unseen bound s.self.entries (next_id e) id (advance 16 e) eq;
            },
          )
    ]

module _ (p : Platform) (L : IsCrypto p.crypto) where
  -- The entry that add_entry makes has the given fields and an id that no entry has, and it goes to
  -- the end. However the call ends, the file holds the old entries or the new ones; if it returns,
  -- it returns the entry and the file holds the new ones. The object and the file agree before the
  -- call, the search of an id ends within its bound, there is room for the text and for the counter,
  -- and the temporary name is not the vault's.
  pub add_entry-Changed :
      (bound : ℕ) (master : Bytes) (service username password notes : Text) (entry : Entry)
      (s : State)
      → IsSynced p master s
      → (made_entry bound service username password notes s).0 ≡ ok entry
      → length (body_of (s.self.entries ++ (entry ∷ []))) ≤ max_text
      → s.self.unlocked.counter < max_counter
      → s.self.path ≢ s.machine.temps 0
      → IsMade service username password notes s.self.entries entry
        × Changed p master s.self
            (s.self.entries ++ (entry ∷ []))
            entry
            (add_entry p bound service username password notes s)
  unfolding add_entry
  add_entry-Changed bound master service username password notes entry s synced made fits room
        apart =
      let (e, run, facts) = made_entry_lem bound service username password notes s entry made in
      let t = drawn e (λ i. s.machine.clock (1 + (1 + i))) s in
      let new = record t { self = record s.self { entries = s.self.entries ++ (entry ∷ []) } } in
      (
        facts,
        rw run (
            Changed-pure entry (persist p) new (
              persist-Changed p L master synced.body s.self.entries new
                (redrawn-IsOpenWith p.crypto e synced.session) synced.stored fits room apart)),
      )

-- The search of an id ends within the bound if one of the ids that it tries is new, and add_entry
-- then makes an entry.
pub made_entry_total :
    (bound k : ℕ) (service username password notes : Text) (s : State)
    → k < bound
    → let e = s.machine.world.entropy in
      has_id (candidate k (next_id e) (advance 16 e)) s.self.entries ≡ false
      → (entry : Entry) × ((made_entry bound service username password notes s).0 ≡ ok entry)
unfolding made_entry new_entry_id
made_entry_total bound k service username password notes s h unseen =
    let e = s.machine.world.entropy in
    let (id, found) = fresh_id_total bound k s.self.entries (next_id e) (advance 16 e) h unseen in
    (made_of service username password notes id s, rw found)
