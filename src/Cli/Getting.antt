-- ===== src/Cli/Getting.antt =====
-- `get` on a stored vault, from the prompt to what is printed.
use secure_vault.Prelude.{
  ℕ, ◌≡◌, ◌⊎◌, inl, inr, refl, sym, ap, ◌∙◌, subst, Bool, false, List, [], ◌∷◌, ◌++◌, Bytes, Text,
  All, if◌then◌else◌,
}
use secure_vault.Errors.{entry_not_found}
use secure_vault.Errors.Result.{ok, err}
use secure_vault.Errors.Action.{◌>>◌}
use secure_vault.Crypto.{IsCrypto}
use secure_vault.Locking.{Scope, release}
use secure_vault.PasswordGen.{is_empty}
use secure_vault.Entries.{Entry}
use secure_vault.Entries.RoundTrip.{IsEntry}
use secure_vault.Repository.{Platform, Machine, State, close}
use secure_vault.Repository.Changes.{get_entry, has_id, find}
use secure_vault.Repository.FirstMatch.{IsFirst, IsFirst-cases, find_first, find_missing}
use secure_vault.Repository.Opening.{locking}
use secure_vault.Repository.Stored.{Stores}
use secure_vault.Cli.{
  Shell, Line, fail, to_utf8, message_of, service_line, username_line, notes_line, created_line,
  updated_line,
}
use secure_vault.Cli.Commands.{with_repository, get_or_fail, password_or_mask}
use secure_vault.Cli.Session.{answered, open_or_fail_lem, close_returns}

module _ (p : Platform) where
  -- What `get` prints of an entry.
  abbrev pub entry_lines : Bool → Entry → List Line
  entry_lines show e =
      service_line e.service
      ∷ username_line e.username
      ∷ password_or_mask p show e.password
      ∷ ((if is_empty e.notes then [] else notes_line e.notes ∷ [])
          ++ (created_line e.created_at ∷ updated_line e.updated_at ∷ []))

module _ (p : Platform) (L : IsCrypto p.crypto) where
  -- The entry that get and copy work on, once the vault is closed again.
  pub with_repository_lem :
      (path : ℕ) (id : Text) (text : Text) (password : Bytes) (es : List Entry) (s : Shell)
      → All IsEntry es
      → Stores p password path es s.machine.disk.files
      → s.terminal.typed 0 ≡ ok text
      → to_utf8 text ≡ ok password
      → (locking p path s.machine).0 ≡ ok tt
      → (release p.has_fcntl (locking p path s.machine).1).0 ≡ ok tt
      → let x = with_repository p path (get_or_fail p id) s in
        (m : Machine) × (((before : List Entry) × (e : Entry) × (after : List Entry) × IsFirst id
              before e after es
            × (x ≡ (ok e, record { machine = m; terminal = answered s.terminal })))
          ⊎ ((has_id id es ≡ false)
              × (x
                  ≡ fail
                      (message_of (entry_not_found id))
                      record { machine = m; terminal = answered s.terminal })))
  unfolding with_repository get_entry
  with_repository_lem path id text password es s texts stored typed coded granted released =
      let (r, m, run, entries, scope) =
        open_or_fail_lem p L path text password es s texts stored typed coded granted in
      let state : State = record { self = r; machine = m } in
      let closed =
        close_returns p L state
          (subst (λ (x : Scope). (release p.has_fcntl x).0 ≡ ok tt) (sym scope) released) in
      (
        (close p state).1.machine,
        elim (IsFirst-cases id es) [
          | inl (before, e, after, first) ↦
              let found : find id r.entries ≡ ok e =
                ap (find id) (entries ∙ first.entries_eq)
                ∙ find_first id e first.id_eq before after first.unseen in
              inl (before, e, after, first, rw (run, found, closed) refl)
          | inr unseen ↦
              let missing : find id r.entries ≡ err (entry_not_found id) =
                ap (find id) entries ∙ find_missing id es unseen in
              inr (unseen, rw (run, missing, closed) refl)
        ],
      )
