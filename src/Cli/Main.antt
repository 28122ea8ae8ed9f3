-- ===== src/Cli/Main.antt =====
-- `main` of cli.py: click reads the command line and calls the command.
use secure_vault.Prelude.{ℕ, Option, Text}
use secure_vault.Errors.Action.{Action, lift, ◌>>=◌}
use secure_vault.Clipboard.{ClipboardBackend}
use secure_vault.Repository.{Platform}
use secure_vault.Cli.{Shell}
use secure_vault.Cli.Copying.{Desktop, copy_command}
use secure_vault.Cli.Running.{run}
use secure_vault.Cli.Options.{Click, Invocation, timeout_option, command_of}

-- `bound` is the number of ids that add tries.
unfoldable pub main : Click → Platform → (Text → Text) → ℕ → Invocation → Action Shell (Unit {0})
main c p lower_case bound line = do
  command ← lift (command_of c line)
  run p lower_case bound command

-- `copy` on the command line, which runs on the clipboard too.
unfoldable pub copy_main :
    Click
    → Platform
    → {C : Type 0} → ClipboardBackend C
    → (ℕ → Action C (Unit {0}))
    → ℕ
    → Text
    → Option Text
    → Action (Desktop C) (Unit {0})
unfolding timeout_option copy_command
copy_main c p pyperclip sleep path id timeout = do
  seconds ← lift (timeout_option c timeout)
  copy_command p pyperclip sleep path id seconds
