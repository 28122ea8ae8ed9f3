-- ===== src/Cli/Copying.antt =====
-- The command `copy`: an entry of a vault and the clipboard session, over any clipboard of pyperclip
-- and any `time.sleep`. Its handler of SIGTERM raises what Ctrl-C raises, so it has no case here.
use secure_vault.Prelude.{ℕ, Bool, true, false, some, Text}
use secure_vault.Errors.{clipboard_unavailable}
use secure_vault.Errors.Result.{Result, err}
use secure_vault.Errors.Action.{Action, ◌>>=◌}
use secure_vault.Clipboard.{ClipboardBackend, pyperclip_backend, copy_and_autoclear}
use secure_vault.Entries.{Entry}
use secure_vault.Repository.{Platform}
use secure_vault.Cli.{
  Shell, Line, secret_copied, clipboard_cleared, cleared_early, clipboard_changed, no_clipboard,
  echo, echo_err, fail,
}
use secure_vault.Cli.Commands.{with_repository, get_or_fail}

-- The program and the clipboard.
pub record Desktop (C : Type 0) : Type 0 where
  pub shell : Shell
  pub clipboard : C

abbrev pub cleared_line : Bool → Line
cleared_line true = cleared_early
cleared_line false = clipboard_cleared

module _ {C : Type 0} where
  abbrev pub on_clipboard : {A : Type 0} → Action C A → Action (Desktop C) A
  on_clipboard f d = let (r, c) = f d.clipboard in (r, record d { clipboard = c })

  abbrev pub in_shell : {A : Type 0} → Action Shell A → Action (Desktop C) A
  in_shell f d = let (r, s) = f d.shell in (r, record d { shell = s })

  -- `except ClipboardUnavailableError as exc: _fail(...)`
  abbrev pub or_unavailable : {A : Type 0} → Result A × Desktop C → Result A × Desktop C
  or_unavailable (err clipboard_unavailable, d) = in_shell (fail no_clipboard) d
  or_unavailable (r, d) = (r, d)

  abbrev pub show_result : Bool → Bool → Action (Desktop C) (Unit {0})
  show_result true interrupted = in_shell (echo (cleared_line interrupted))
  show_result false interrupted = in_shell (echo_err clipboard_changed)

module _ (p : Platform) {C : Type 0} (pyperclip : ClipboardBackend C)
    (sleep : ℕ → Action C (Unit {0})) where
  abbrev pub desktop_backend : ClipboardBackend (Desktop C)
  desktop_backend = pyperclip_backend record {
    copy = λ text. on_clipboard (pyperclip.copy text);
    paste = on_clipboard pyperclip.paste;
  }

  -- `_announce`
  abbrev pub announce : Entry → ℕ → Action (Desktop C) (Unit {0})
  announce entry timeout = in_shell (echo (secret_copied entry.service entry.username timeout))

  unfoldable pub copy_command : ℕ → Text → ℕ → Action (Desktop C) (Unit {0})
  copy_command path id timeout = do
    entry ← in_shell (with_repository p path (get_or_fail p id))
    result ← λ d. or_unavailable (
        copy_and_autoclear desktop_backend entry.password (on_clipboard (sleep timeout))
          (some (announce entry timeout)) d)
    show_result result.cleared result.interrupted
