-- ===== src/Cli/Copied.antt =====
-- `copy` on a stored vault, from the prompt to what is printed.
use secure_vault.Prelude.{
  ℕ, ◌≡◌, ◌⊎◌, inl, inr, refl, ap, Bool, true, false, some, List, [], ◌∷◌, ◌++◌, Bytes, Text, All,
  bytes_eq,
}
use secure_vault.Errors.{entry_not_found, system_exit, clipboard_unavailable, Error}
use secure_vault.Errors.Result.{Result, ok, err, Result-cases}
use secure_vault.Errors.Action.{Action, continue, pure, ◌>>=◌}
use secure_vault.Errors.Keeps.{Keeps, pure-Keeps, bind-Keeps}
use secure_vault.Crypto.{IsCrypto}
use secure_vault.Locking.{release}
use secure_vault.Clipboard.{
  ClipboardBackend, ClipboardSessionResult, unavailable, reraise, note_interrupt, then_finally,
  reraise_after, pair_with, clear_if_equal, clear_if_unchanged, copy_and_autoclear,
}
use secure_vault.Entries.{Entry}
use secure_vault.Entries.RoundTrip.{IsEntry}
use secure_vault.Repository.{Platform}
use secure_vault.Repository.Changes.{has_id}
use secure_vault.Repository.FirstMatch.{IsFirst}
use secure_vault.Repository.Opening.{locking}
use secure_vault.Repository.Stored.{Stores}
use secure_vault.Cli.{
  Line, Terminal, to_utf8, failure, message_of, secret_copied, clipboard_changed, no_clipboard,
}
use secure_vault.Cli.Copying.{
  Desktop, on_clipboard, desktop_backend, announce, or_unavailable, cleared_line, show_result,
  copy_command,
}
use secure_vault.Cli.Session.{answered}
use secure_vault.Cli.Getting.{with_repository_lem}

-- The terminal with one more line.
abbrev pub with_line : Line → Terminal → Terminal
with_line line t = record t { out_lines = t.out_lines ++ (line ∷ []) }

-- The run ended in an exception with the lines of `t`, or with the message beside them that there is
-- no clipboard, after which it exits.
abbrev pub Failed : {C : Type 0} → Terminal → Result (Unit {0}) × Desktop C → Type 0
Failed t x =
    let after = x.1.shell.terminal in
    (after.out_lines ≡ t.out_lines)
    × (((e : Error) × (x.0 ≡ err e) × (after.err_lines ≡ t.err_lines))
        ⊎ ((x.0 ≡ err system_exit)
            × (after.err_lines ≡ t.err_lines ++ (failure no_clipboard ∷ []))))

-- The run returned after one more line than those of `t`: that the clipboard was cleared, that it was
-- cleared early, or that it had changed.
abbrev pub Finished : {C : Type 0} → Terminal → Result (Unit {0}) × Desktop C → Type 0
Finished t x =
    let after = x.1.shell.terminal in
    (x.0 ≡ ok tt)
    × (((interrupted : Bool) × (after.out_lines ≡ t.out_lines ++ (cleared_line interrupted ∷ []))
          × (after.err_lines ≡ t.err_lines))
        ⊎ ((after.out_lines ≡ t.out_lines)
            × (after.err_lines ≡ t.err_lines ++ (clipboard_changed ∷ []))))

abbrev AtTerminal : {C : Type 0} → Terminal → Desktop C → Type 0
AtTerminal t d = d.shell.terminal ≡ t

module _ {C : Type 0} (t : Terminal) where
  reraise-At :
      {A : Type 0} (r : Result A × Desktop C) → AtTerminal t r.1 → AtTerminal t (reraise r).1
  reraise-At (ok a, d) h = h
  reraise-At (err e, d) h = h

  finally-At :
      {B : Type 0} (last : Action (Desktop C) B)
      → Keeps (AtTerminal t) last
      → (r : Result Bool × Desktop C) → AtTerminal t r.1
      → AtTerminal t (then_finally last r).1
  finally-At last k (ok a, d) h = paired (last d) (k.at d h)
    where
      paired :
          {B : Type 0} (r : Result B × Desktop C)
          → AtTerminal t r.1
          → AtTerminal t (pair_with a r).1
      paired (ok b, d) h = h
      paired (err e, d) h = h
  finally-At last k (err e, d) h = again (last d) (k.at d h)
    where
      again :
          {B : Type 0} (r : Result B × Desktop C)
          → AtTerminal t r.1
          → AtTerminal t (reraise_after e r).1
      again (ok b, d) h = h
      again (err e', d) h = h

  noted-At :
      (r : Result (Unit {0}) × Desktop C) → AtTerminal t r.1 → AtTerminal t (note_interrupt r).1
  noted-At (ok x, d) h = h
  noted-At (err e, d) h = h

-- What follows the clipboard session, from a terminal that the session left.
module _ {C : Type 0} (t : Terminal) where
  shown :
      (cleared interrupted : Bool) (d : Desktop C)
      → AtTerminal t d
      → Finished t (show_result cleared interrupted d)
  shown true interrupted d h = (
    refl,
    inl (
      interrupted,
      ap (λ u. u.out_lines ++ (cleared_line interrupted ∷ [])) h,
      ap (λ u. u.err_lines) h,
    ),
  )
  shown false interrupted d h =
      (refl, inr (ap (λ u. u.out_lines) h, ap (λ u. u.err_lines ++ (clipboard_changed ∷ [])) h))

  abbrev pub show_session :
      Result ClipboardSessionResult × Desktop C → Result (Unit {0}) × Desktop C
  show_session r =
      continue (λ result. show_result result.cleared result.interrupted) (or_unavailable r)

  raised : (e : Error) (d : Desktop C) → AtTerminal t d → Failed t (show_session (err e, d))
  raised clipboard_unavailable d h =
      (ap (λ u. u.out_lines) h, inr (refl, ap (λ u. u.err_lines ++ (failure no_clipboard ∷ [])) h))
  raised e d h = (ap (λ u. u.out_lines) h, inl (e, refl, ap (λ u. u.err_lines) h))

  session_shown :
      (r : Result ClipboardSessionResult × Desktop C)
      → AtTerminal t r.1
      → Failed t (show_session r) ⊎ Finished t (show_session r)
  session_shown (ok result, d) h = inr (shown result.cleared result.interrupted d h)
  session_shown (err e, d) h = inl (raised e d h)

module _ (p : Platform) {C : Type 0} (pyperclip : ClipboardBackend C)
    (sleep : ℕ → Action C (Unit {0})) where
  clear_if_equal-Keeps :
      (t : Terminal) (b : Bool)
      → Keeps (AtTerminal t) (clear_if_equal (desktop_backend p pyperclip sleep) b)
  clear_if_equal-Keeps t true =
      bind-Keeps _ _ record { at = λ d h. reraise-At t (on_clipboard (pyperclip.copy []) d) h }
        (λ _. pure-Keeps true)
  clear_if_equal-Keeps t false = pure-Keeps false

  clear_if_unchanged-Keeps :
      (t : Terminal) (expected : Text)
      → Keeps (AtTerminal t) (clear_if_unchanged (desktop_backend p pyperclip sleep) expected)
  unfolding clear_if_unchanged
  clear_if_unchanged-Keeps t expected =
      bind-Keeps (desktop_backend p pyperclip sleep).paste _
        record { at = λ d h. reraise-At t (on_clipboard pyperclip.paste d) h }
        (λ current. clear_if_equal-Keeps t (bytes_eq current expected))

  -- The clipboard session after the announcement.
  abbrev waiting : Text → ℕ → Action (Desktop C) ClipboardSessionResult
  waiting secret timeout = do
    (interrupted, cleared) ← λ d.
        then_finally (clear_if_unchanged (desktop_backend p pyperclip sleep) secret)
          (note_interrupt (on_clipboard (sleep timeout) d))
    pure (record { cleared = cleared; interrupted = interrupted })

  waiting-Keeps :
      (t : Terminal) (secret : Text) (timeout : ℕ) → Keeps (AtTerminal t) (waiting secret timeout)
  waiting-Keeps t secret timeout =
      bind-Keeps _ _
        record {
          at = λ d h.
              finally-At t _ (clear_if_unchanged-Keeps t secret)
                (note_interrupt (on_clipboard (sleep timeout) d))
                (noted-At t (on_clipboard (sleep timeout) d) h);
        }
        (λ result. pure-Keeps (record { cleared = result.1; interrupted = result.0 }))

  -- The lines of copy: pyperclip refused the password, and no line says that it was copied; or it took
  -- it, and the line of that stands before the others.
  abbrev pub CopyEnds : Entry → ℕ → Terminal → C → Result (Unit {0}) × Desktop C → Type 0
  CopyEnds entry timeout t held x =
      let copied = with_line (secret_copied entry.service entry.username timeout) t in
      (((e : Error) × ((pyperclip.copy entry.password held).0 ≡ err e)) × Failed t x)
      ⊎ (((pyperclip.copy entry.password held).0 ≡ ok tt) × (Failed copied x ⊎ Finished copied x))

  copied_lem :
      (entry : Entry) (timeout : ℕ) (d : Desktop C)
      → CopyEnds entry timeout d.shell.terminal d.clipboard (
          show_session d.shell.terminal (
            copy_and_autoclear
              (desktop_backend p pyperclip sleep)
              entry.password
              (on_clipboard (sleep timeout))
              (some (announce p pyperclip sleep entry timeout))
              d))
  unfolding copy_and_autoclear
  copied_lem entry timeout d =
      let (r, held) = pyperclip.copy entry.password d.clipboard in
      let said = secret_copied entry.service entry.username timeout in
      elim (Result-cases r) [
        | inl (e, refused) ↦ inl (
          (e, refused),
          rw refused (raised d.shell.terminal (unavailable e) (record d { clipboard = held }) refl),
        )
        | inr (u, taken) ↦
            let t = with_line said d.shell.terminal in
            let next : Desktop C = record {
              shell = record { machine = d.shell.machine; terminal = t };
              clipboard = held;
            } in
            inr (
              taken,
              rw taken (
                  session_shown t (waiting entry.password timeout next)
                    ((waiting-Keeps t entry.password timeout).at next refl)),
            )
      ]

module _ (p : Platform) (L : IsCrypto p.crypto) {C : Type 0} (pyperclip : ClipboardBackend C)
    (sleep : ℕ → Action C (Unit {0})) where
  -- copy on a stored vault, with its password typed, prints these lines and no others. If no entry
  -- has the id, it prints the message of that, exits and leaves the clipboard. Else, for the first
  -- entry with the id: if pyperclip refuses its password, no line says that it was copied; if
  -- pyperclip takes it, a line names its service, its username and the timeout, and a run that
  -- returns has one more, which is that the clipboard was cleared, cleared early or had changed. A run
  -- that raises has no other line but, where it exits, the message that there is no clipboard. The
  -- entries hold no surrogates, and the calls of acquire and release return.
  pub copy_command_shows :
      (path : ℕ) (id : Text) (timeout : ℕ) (text : Text) (password : Bytes) (es : List Entry)
      (d : Desktop C)
      → All IsEntry es
      → Stores p password path es d.shell.machine.disk.files
      → d.shell.terminal.typed 0 ≡ ok text
      → to_utf8 text ≡ ok password
      → (locking p path d.shell.machine).0 ≡ ok tt
      → (release p.has_fcntl (locking p path d.shell.machine).1).0 ≡ ok tt
      → let x = copy_command p pyperclip sleep path id timeout d in
        let t = d.shell.terminal in
        ((before : List Entry) × (e : Entry) × (after : List Entry) × IsFirst id before e after es
          × CopyEnds p pyperclip sleep e timeout t d.clipboard x)
        ⊎ ((has_id id es ≡ false)
            × (x.0 ≡ err system_exit)
            × (x.1.shell.terminal.out_lines ≡ t.out_lines)
            × (x.1.shell.terminal.err_lines
                ≡ t.err_lines ++ (failure (message_of (entry_not_found id)) ∷ []))
            × (x.1.clipboard ≡ d.clipboard))
  unfolding copy_command
  copy_command_shows path id timeout text password es d texts stored typed coded granted released =
      let (m, cases) =
        with_repository_lem p L path id text password es d.shell texts stored typed coded granted
          released in
      elim cases [
        | inl (before, e, after, first, run) ↦ inl (
          before,
          e,
          after,
          first,
          rw run (
              copied_lem p pyperclip sleep e timeout
                record d { shell = record { machine = m; terminal = answered d.shell.terminal } }),
        )
        | inr (unseen, run) ↦ inr (unseen, rw run refl, rw run refl, rw run refl, rw run refl)
      ]
