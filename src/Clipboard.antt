-- ===== src/Clipboard.antt =====
-- clipboard.py: a backend with a state of its own, and the code that copies, waits and clears.
pub mod Clearing
use secure_vault.Prelude.{Bool, true, false, not, Text, [], bytes_eq, Option, none, some}
use secure_vault.Errors.{
  Error, clipboard_unavailable, pyperclip_error, keyboard_interrupt, system_exit,
}
use secure_vault.Errors.Result.{Result, ok, err}
use secure_vault.Errors.Action.{Action, pure, ◌>>=◌, ◌>>◌}

-- The protocol `ClipboardBackend`.
pub record ClipboardBackend (S : Type 0) : Type 0 where
  pub copy : Text → Action S (Unit {0})
  pub paste : Action S Text

pub record ClipboardSessionResult : Type 0 where
  pub cleared : Bool
  pub interrupted : Bool

-- `except pyperclip.PyperclipException as exc: raise ClipboardUnavailableError`
abbrev pub unavailable : Error → Error
unavailable pyperclip_error = clipboard_unavailable
unavailable e = e

abbrev pub reraise : {S A : Type 0} → Result A × S → Result A × S
reraise (ok a, s) = (ok a, s)
reraise (err e, s) = (err (unavailable e), s)

-- `PyperclipBackend`, over the functions of pyperclip.
abbrev pub pyperclip_backend : {S : Type 0} → ClipboardBackend S → ClipboardBackend S
pyperclip_backend pyperclip = record {
  copy = λ text s. reraise (pyperclip.copy text s);
  paste = λ s. reraise (pyperclip.paste s);
}

-- `except (KeyboardInterrupt, SystemExit): interrupted = True`
abbrev pub note_error : Error → Result Bool
note_error keyboard_interrupt = ok true
note_error system_exit = ok true
note_error e = err e

abbrev pub note_interrupt : {S : Type 0} → Result (Unit {0}) × S → Result Bool × S
note_interrupt (ok x, s) = (ok false, s)
note_interrupt (err e, s) = (note_error e, s)

-- What a `finally` block leaves to raise: its own exception, or else the one before it.
abbrev pub reraise_after : {S B : Type 0} → Error → Result B × S → Result (Bool × B) × S
reraise_after e (ok b, s) = (err e, s)
reraise_after e (err e', s) = (err e', s)

abbrev pub pair_with : {S B : Type 0} → Bool → Result B × S → Result (Bool × B) × S
pair_with a (ok b, s) = (ok (a, b), s)
pair_with a (err e, s) = (err e, s)

-- `try: ... finally: cleared = ...`
abbrev pub then_finally : {S B : Type 0} → Action S B → Result Bool × S → Result (Bool × B) × S
then_finally last (ok a, s) = pair_with a (last s)
then_finally last (err e, s) = reraise_after e (last s)

-- `if on_copied is not None: on_copied()`
abbrev pub notify : {S : Type 0} → Option (Action S (Unit {0})) → Action S (Unit {0})
notify none = pure tt
notify (some on_copied) = on_copied

module _ {S : Type 0} (backend : ClipboardBackend S) where
  abbrev pub clear_if_equal : Bool → Action S Bool
  clear_if_equal true = do backend.copy []; pure true
  clear_if_equal false = pure false

  unfoldable pub clear_if_unchanged : Text → Action S Bool
  clear_if_unchanged expected = do
    current ← backend.paste
    clear_if_equal (bytes_eq current expected)

  -- `sleep` is `sleep(timeout)`, with what the user copies meanwhile.
  unfoldable pub copy_and_autoclear :
      Text → Action S (Unit {0}) → Option (Action S (Unit {0})) → Action S ClipboardSessionResult
  copy_and_autoclear secret sleep on_copied = do
    backend.copy secret
    notify on_copied
    (interrupted, cleared) ←
        λ s. then_finally (clear_if_unchanged secret) (note_interrupt (sleep s))
    pure (record { cleared = cleared; interrupted = interrupted })
