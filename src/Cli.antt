-- ===== src/Cli.antt =====
-- cli.py: the prompts and the commands. A prompt answers with what the user types, or raises; a line
-- that is printed is a constructor with the values that it shows, and printing is taken to succeed.
pub mod Commands
pub mod Running
pub mod Copying
pub mod Order
pub mod Listing
pub mod Session
pub mod Getting
pub mod Copied
pub mod Options
pub mod Main
pub mod Accepted
use mathlib.Core.Bool.{not, ◌&&◌}
use secure_vault.Prelude.{
  ℕ, ◌+◌, ◌^◌, Bool, true, false, Option, none, some, List, [], ◌∷◌, ◌++◌, Bytes, Text, bytes_eq,
  ltb, if◌then◌else◌,
}
use secure_vault.Errors.{
  Error, format_error, authentication_error, locked_error, entry_not_found, value_error,
  system_exit, crash,
}
use secure_vault.Errors.Result.{Result, ok, err}
use secure_vault.Errors.Action.{Action, pure, raise, lift, gets, modify, ◌>>=◌, ◌>>◌}
use secure_vault.Memory.{with_entropy}
use secure_vault.Utf8.{encode}
use secure_vault.Entries.{or_unicode_error}
use secure_vault.PasswordGen.{PasswordPolicy, is_empty}
use secure_vault.PasswordGen.Draw.{generate_password}
use secure_vault.PasswordGen.Strength.{entropy_of}
use secure_vault.Repository.{
  Platform, Machine, VaultRepository, State, exists, open_repository, close, on_world,
}

-- The messages of `_fail`.
pub data Failure : Type 0 where
  empty_master no_match weak_refused empty_entry_password : Failure
  no_clipboard : Failure
  missing_vault vault_exists : ℕ → Failure
  wrong_password in_use : Failure
  invalid_file : Error → Failure
  message_of : Error → Failure

pub data Line : Type 0 where
  failure : Failure → Line
  weak_warning : Option (ℕ × ℕ) → Line
  vault_made : ℕ → Line
  entry_added : Text → Text → Text → Line
  how_to_show : ℕ → Text → Line
  service_line username_line password_line notes_line created_line updated_line : Text → Line
  masked_line : Line
  entry_updated entry_deleted : Text → Line
  delete_aborted password_changed : Line
  generated_line : Text → Line
  no_entries : Line
  secret_copied : Text → Text → ℕ → Line
  clipboard_cleared cleared_early clipboard_changed : Line
  entry_listed : Text → Text → Text → Bool → Line

-- The answers to the prompts to come, and what was printed: on `out` and on `err`.
pub record Terminal : Type 0 where
  pub typed : ℕ → Result Text
  pub confirmed : ℕ → Result Bool
  pub out_lines : List Line
  pub err_lines : List Line

pub record Shell : Type 0 where
  pub machine : Machine
  pub terminal : Terminal

abbrev pub set_terminal : (Terminal → Terminal) → Action Shell (Unit {0})
set_terminal f = modify (λ (s : Shell). record s { terminal = f s.terminal })

abbrev pub on_shell : {A : Type 0} → Action Machine A → Action Shell A
on_shell f s = let (r, m) = f s.machine in (r, record s { machine = m })

-- `click.echo(line)`
abbrev pub echo : Line → Action Shell (Unit {0})
echo line = set_terminal (λ t. record t { out_lines = t.out_lines ++ (line ∷ []) })

-- `click.echo(line, err=True)`
abbrev pub echo_err : Line → Action Shell (Unit {0})
echo_err line = set_terminal (λ t. record t { err_lines = t.err_lines ++ (line ∷ []) })

-- `getpass.getpass(...)`
abbrev pub getpass : Action Shell Text
getpass s = (
  s.terminal.typed 0,
  record s { terminal = record s.terminal { typed = λ i. s.terminal.typed (1 + i) } },
)

-- `click.confirm(...)`
abbrev pub confirm : Action Shell Bool
confirm s = (
  s.terminal.confirmed 0,
  record s { terminal = record s.terminal { confirmed = λ i. s.terminal.confirmed (1 + i) } },
)

-- `_fail`
abbrev pub fail : {A : Type 0} → Failure → Action Shell A
fail message = do echo_err (failure message); raise system_exit

abbrev pub fail_if : Bool → Failure → Action Shell (Unit {0})
fail_if true message = fail message
fail_if false message = pure tt

-- `password.encode("utf-8")`
abbrev pub to_utf8 : Text → Result Bytes
to_utf8 text = or_unicode_error (encode text)

-- `hmac.compare_digest(a, b)` of the two encodings.
abbrev pub compare_digest : Result Bytes → Result Bytes → Result Bool
compare_digest (err e) b = err e
compare_digest (ok a) (err e) = err e
compare_digest (ok a) (ok b) = ok (bytes_eq a b)

-- `_passwords_match`
abbrev pub passwords_match : Text → Text → Result Bool
passwords_match a b = compare_digest (to_utf8 a) (to_utf8 b)

abbrev pub weak_bits : ℕ
weak_bits = 60

-- `bits < _WEAK_MASTER_PASSWORD_BITS`, of `length * log2(pool)`.
abbrev pub is_weak : Option (ℕ × ℕ) → Bool
is_weak none = true
is_weak (some (length, pool)) = ltb (pool ^ length) (2 ^ weak_bits)

-- `if bits < 60: ...`
abbrev pub warn_if : Bool → Option (ℕ × ℕ) → Action Shell (Unit {0})
warn_if false bits = pure tt
warn_if true bits = do
  echo_err (weak_warning bits)
  anyway ← confirm
  fail_if (not anyway) weak_refused

-- `if confirm: ...`
abbrev pub check_master : Bool → Text → Action Shell (Unit {0})
check_master false password = pure tt
check_master true password = do
  again ← getpass
  same ← lift (passwords_match password again)
  fail_if (not same) no_match
  warn_if (is_weak (entropy_of password)) (entropy_of password)

-- `_read_master_password`
unfoldable pub read_master_password : Bool → Action Shell Bytes
read_master_password confirm_it = do
  password ← getpass
  fail_if (is_empty password) empty_master
  check_master confirm_it password
  lift (to_utf8 password)

-- The message of a `ValueError`, which other exceptions do not get.
abbrev pub or_value_error : {A : Type 0} → Result A × Shell → Result A × Shell
or_value_error (ok a, s) = (ok a, s)
or_value_error (err (value_error r), s) = fail (message_of (value_error r)) s
or_value_error (err e, s) = (err e, s)

-- `_prompt_entry_password`
unfoldable pub prompt_entry_password : Bool → PasswordPolicy → Action Shell Text
prompt_entry_password true policy s =
    or_value_error (on_shell (on_world (with_entropy (generate_password policy))) s)
prompt_entry_password false policy s =
    (do
      first ← getpass
      second ← getpass
      same ← lift (passwords_match first second)
      fail_if (not same) no_match
      fail_if (is_empty first) empty_entry_password
      pure first)
      s

-- The handlers of `_open_repository`.
abbrev pub or_open_failure : {A : Type 0} → Result A × Shell → Result A × Shell
or_open_failure (ok a, s) = (ok a, s)
or_open_failure (err authentication_error, s) = fail wrong_password s
or_open_failure (err locked_error, s) = fail in_use s
or_open_failure (err (format_error r), s) = fail (invalid_file (format_error r)) s
or_open_failure (err e, s) = (err e, s)

-- `except EntryNotFoundError as exc: _fail(str(exc))`
abbrev pub or_not_found : {A : Type 0} → Result A × Shell → Result A × Shell
or_not_found (err (entry_not_found id), s) = fail (message_of (entry_not_found id)) s
or_not_found (r, s) = (r, s)

-- `except VaultError as exc: _fail(str(exc))`
abbrev pub or_vault_error : {A : Type 0} → Result A × Shell → Result A × Shell
or_vault_error (err authentication_error, s) = fail (message_of authentication_error) s
or_vault_error (err locked_error, s) = fail (message_of locked_error) s
or_vault_error (err (format_error r), s) = fail (message_of (format_error r)) s
or_vault_error (err (entry_not_found id), s) = fail (message_of (entry_not_found id)) s
or_vault_error (r, s) = (r, s)

module _ (p : Platform) where
  -- `_open_repository`
  unfoldable pub open_or_fail : ℕ → Action Shell VaultRepository
  open_or_fail path = do
    found ← gets (λ (s : Shell). exists path s.machine)
    fail_if (not found) (missing_vault path)
    password ← getpass
    λ s.
        or_open_failure
          ((do bytes ← lift (to_utf8 password); on_shell (open_repository p path bytes)) s)
