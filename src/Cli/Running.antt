-- ===== src/Cli/Running.antt =====
-- The commands of cli.py as data, and what runs them.
use secure_vault.Prelude.{ℕ, Bool, Option, Text}
use secure_vault.Errors.Action.{Action}
use secure_vault.PasswordGen.{PasswordPolicy}
use secure_vault.Repository.{Platform}
use secure_vault.Cli.{Shell}
use secure_vault.Cli.Commands.{
  init_command, add_command, list_command, get_command, update_command, delete_command,
  passwd_command, generate_command,
}

-- The commands and their arguments. `copy` runs on the clipboard too and is by itself.
pub data Command : Type 0 where
  init : ℕ → Command
  add : ℕ → Text → Text → Text → Bool → PasswordPolicy → Command
  list : ℕ → Command
  get : ℕ → Text → (show : Bool) → Command
  update :
      ℕ → Text → (service username notes : Option Text) → Option Bool → PasswordPolicy → Command
  delete : ℕ → Text → Bool → Command
  passwd : ℕ → Command
  generate : PasswordPolicy → Command

-- `cli`: `bound` is the number of ids that add tries.
unfoldable pub run : Platform → (Text → Text) → ℕ → Command → Action Shell (Unit {0})
run p lower_case bound (init path) = init_command p path
run p lower_case bound (add path service username notes generated policy) =
    add_command p bound path service username notes generated policy
run p lower_case bound (list path) = list_command p lower_case path
run p lower_case bound (get path id show) = get_command p path id show
run p lower_case bound (update path id service username notes generated policy) =
    update_command p path id service username notes generated policy
run p lower_case bound (delete path id assume_yes) = delete_command p path id assume_yes
run p lower_case bound (passwd path) = passwd_command p path
run p lower_case bound (generate policy) = generate_command policy
