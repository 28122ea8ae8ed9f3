-- ===== src/Cli/Session.antt =====
-- A command on a stored vault, from the prompt to what is printed.
use secure_vault.Prelude.{
  ℕ, ◌+◌, ◌≡◌, inl, inr, refl, sym, ap, ◌∙◌, subst, Bool-cases, List, ◌++◌, Bytes, Text, All,
}
use secure_vault.Errors.Result.{ok}
use secure_vault.Crypto.{IsCrypto}
use secure_vault.Locking.{Scope, release}
use secure_vault.Entries.{Entry}
use secure_vault.Entries.RoundTrip.{IsEntry}
use secure_vault.Repository.{Platform, Machine, VaultRepository, State, close}
use secure_vault.Repository.Opening.{locking, open_repository-Stores}
use secure_vault.Repository.Stored.{Stores}
use secure_vault.Cli.{Shell, Terminal, Line, to_utf8, open_or_fail}
use secure_vault.Cli.Commands.{with_repository, list_command, show_entries}
use secure_vault.Cli.Listing.{Shown, show_entries_lem}

-- The terminal after one answer.
abbrev pub answered : Terminal → Terminal
answered t = record t { typed = λ i. t.typed (1 + i) }

module _ (p : Platform) (L : IsCrypto p.crypto) where
  pub open_or_fail_lem :
      (path : ℕ) (text : Text) (password : Bytes) (es : List Entry) (s : Shell)
      → All IsEntry es
      → Stores p password path es s.machine.disk.files
      → s.terminal.typed 0 ≡ ok text
      → to_utf8 text ≡ ok password
      → (locking p path s.machine).0 ≡ ok tt
      → (r : VaultRepository) × (m : Machine) × (open_or_fail p path s
          ≡ (ok r, record { machine = m; terminal = answered s.terminal }))
        × (r.entries ≡ es)
        × (record { self = r.lock; kernel = m.kernel } ≡ (locking p path s.machine).1)
  unfolding open_or_fail
  open_or_fail_lem path text password es s texts stored typed coded granted =
      let (r, m, run, at, entries, held, synced, disk, kernel) =
        open_repository-Stores p L path password es s.machine texts stored granted in
      (
        r,
        m,
        rw (stored.found, typed, coded, run) refl,
        entries,
        λ i. record { self = held i; kernel = kernel i },
      )

  -- A close whose release returns does so too.
  pub close_returns :
      (s : State)
      → (release p.has_fcntl record { self = s.self.lock; kernel = s.machine.kernel }).0 ≡ ok tt
      → (close p s).0 ≡ ok tt
  unfolding close
  close_returns s released = elim (Bool-cases s.self.closed) [
    | inl closed ↦ rw closed refl
    | inr opened ↦ rw opened released
  ]

  -- list on a stored vault, with its password typed, shows its entries: their lines are all that is
  -- printed, and the call returns. The entries hold no surrogates, and the calls of acquire and
  -- release return.
  pub list_command_shows :
      (lower_case : Text → Text) (path : ℕ) (text : Text) (password : Bytes) (es : List Entry)
      (s : Shell)
      → All IsEntry es
      → Stores p password path es s.machine.disk.files
      → s.terminal.typed 0 ≡ ok text
      → to_utf8 text ≡ ok password
      → (locking p path s.machine).0 ≡ ok tt
      → (release p.has_fcntl (locking p path s.machine).1).0 ≡ ok tt
      → let x = list_command p lower_case path s in
        (lines : List Line) × Shown lower_case es lines
        × (x.0 ≡ ok tt)
        × (x.1.terminal.out_lines ≡ s.terminal.out_lines ++ lines)
        × (x.1.terminal.err_lines ≡ s.terminal.err_lines)
  unfolding list_command with_repository
  list_command_shows lower_case path text password es s texts stored typed coded granted released =
      let (r, m, run, entries, scope) =
        open_or_fail_lem path text password es s texts stored typed coded granted in
      let state : State = record { self = r; machine = m } in
      let closed =
        close_returns state
          (subst (λ (x : Scope). (release p.has_fcntl x).0 ≡ ok tt) (sym scope) released) in
      let (lines, shown, ends) =
        show_entries_lem lower_case es
          record { machine = (close p state).1.machine; terminal = answered s.terminal } in
      let all : list_command p lower_case path s
          ≡ show_entries lower_case es
              record { machine = (close p state).1.machine; terminal = answered s.terminal } =
        rw (run, closed, entries) refl in
      let whole = all ∙ ends in
      (
        lines,
        shown,
        ap (λ x. x.0) whole,
        ap (λ x. x.1.terminal.out_lines) whole,
        ap (λ x. x.1.terminal.err_lines) whole,
      )
