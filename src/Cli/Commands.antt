-- ===== src/Cli/Commands.antt =====
-- The commands of cli.py that work on a vault, and `generate`.
use mathlib.Core.Bool.{not, ◌&&◌, ◌||◌}
use secure_vault.Prelude.{
  ℕ, Bool, true, false, Option, none, some, List, [], ◌∷◌, Bytes, Text, if◌then◌else◌, ltb, ◌==◌,
  bytes_eq,
}
use secure_vault.Errors.{crash}
use secure_vault.Errors.Result.{Result, err, or_exception}
use secure_vault.Errors.Action.{Action, pure, gets, ◌>>=◌, ◌>>◌}
use secure_vault.Memory.{with_entropy}
use secure_vault.PasswordGen.{PasswordPolicy, is_empty}
use secure_vault.PasswordGen.Draw.{generate_password}
use secure_vault.Entries.{Entry}
use secure_vault.Repository.{
  Platform, Machine, State, exists, create, close, change_master_password, on_world,
}
use secure_vault.Repository.Changes.{list_entries, get_entry, add_entry, update_entry, delete_entry}
use secure_vault.Cli.{
  Line, vault_exists, vault_made, entry_added, how_to_show, service_line, username_line,
  password_line, masked_line, notes_line, created_line, updated_line, entry_updated, entry_deleted,
  delete_aborted, password_changed, generated_line, no_entries, entry_listed, Terminal, Shell,
  on_shell, echo, confirm, fail_if, read_master_password, prompt_entry_password, or_value_error,
  or_not_found, or_vault_error, open_or_fail,
}

-- What the body of `with _open_repository(path) as repo` runs on.
pub record Block : Type 0 where
  pub state : State
  pub terminal : Terminal

abbrev pub on_repository : {A : Type 0} → Action State A → Action Block A
on_repository f b = let (r, s) = f b.state in (r, record b { state = s })

abbrev pub outside : {A : Type 0} → Action Shell A → Action Block A
outside f b =
    let (r, s) = f record { machine = b.state.machine; terminal = b.terminal } in
    (r, record { state = record b.state { machine = s.machine }; terminal = s.terminal })

-- The handlers of the module, in a block.
abbrev pub in_block :
    {A : Type 0} → (Result A × Shell → Result A × Shell) → Action Block A → Action Block A
in_block handler m b = let (r, b') = m b in outside (λ s. handler (r, s)) b'

-- `<` of two texts.
unfoldable pub text_lt : Text → Text → Bool
text_lt xs [] = false
text_lt [] (y ∷ ys) = true
text_lt (x ∷ xs) (y ∷ ys) = ltb x y || (x == y && text_lt xs ys)

-- `<` of two pairs of texts.
abbrev pub key_lt : Text × Text → Text × Text → Bool
key_lt (a, b) (c, d) = text_lt a c || (bytes_eq a c && text_lt b d)

-- `sorted(entries, key=...)`, which keeps the order of equal keys.
unfoldable pub insert : (Entry → Text × Text) → Entry → List Entry → List Entry
insert key e [] = e ∷ []
insert key e (x ∷ xs) =
    let rest = insert key e xs in if key_lt (key x) (key e) then x ∷ rest else e ∷ x ∷ xs

unfoldable pub sorted : (Entry → Text × Text) → List Entry → List Entry
unfolding insert
sorted key [] = []
sorted key (e ∷ es) = insert key e (sorted key es)

-- The lines of `list`.
unfoldable pub list_lines : List Entry → Action Shell (Unit {0})
list_lines [] = pure tt
list_lines (e ∷ es) = do
  echo (entry_listed e.id e.service e.username (not (is_empty e.notes)))
  list_lines es

-- `lower_case` is Python's `str.lower`.
abbrev pub show_entries : (Text → Text) → List Entry → Action Shell (Unit {0})
show_entries lower_case [] = echo no_entries
show_entries lower_case (e ∷ es) =
    list_lines (sorted (λ x. (lower_case x.service, lower_case x.username)) (e ∷ es))

module _ (p : Platform) where
  -- The end of a `with` block.
  abbrev pub then_close : {A : Type 0} → Result A × Block → Result A × Shell
  then_close (err crash, b) =
      (err crash, record { machine = b.state.machine; terminal = b.terminal })
  then_close (r, b) =
      let (c, s) = close p b.state in
      (or_exception c r, record { machine = s.machine; terminal = b.terminal })

  -- `with _open_repository(path) as repo: body`
  unfoldable pub with_repository : {A : Type 0} → ℕ → Action Block A → Action Shell A
  with_repository path body = do
    repo ← open_or_fail p path
    λ s.
        then_close (
          body
            record { state = record { self = repo; machine = s.machine }; terminal = s.terminal })

  -- `VaultRepository.create(path, password).close()`
  abbrev pub create_and_close : ℕ → Bytes → Action Machine (Unit {0})
  create_and_close path password = do
    repo ← create p path password none
    λ m. let (r, s) = close p record { self = repo; machine = m } in (r, s.machine)

  unfoldable pub init_command : ℕ → Action Shell (Unit {0})
  init_command path = do
    found ← gets (λ (s : Shell). exists path s.machine)
    fail_if found (vault_exists path)
    password ← read_master_password true
    λ s. or_vault_error (on_shell (create_and_close path password) s)
    echo (vault_made path)

  -- `if generate: click.echo(...)`
  abbrev pub hint_if : Bool → ℕ → Text → Action Shell (Unit {0})
  hint_if true path id = echo (how_to_show path id)
  hint_if false path id = pure tt

  unfoldable pub add_command :
      ℕ → ℕ → Text → Text → Text → Bool → PasswordPolicy → Action Shell (Unit {0})
  add_command bound path service username notes generate policy = do
    entry ← with_repository path (do
      password ← outside (prompt_entry_password generate policy)
      in_block or_vault_error (on_repository (add_entry p bound service username password notes)))
    echo (entry_added entry.id entry.service entry.username)
    hint_if generate path entry.id

  -- `if entry.notes: click.echo(...)`
  abbrev pub notes_if : Text → Action Shell (Unit {0})
  notes_if notes = if is_empty notes then pure tt else echo (notes_line notes)

  abbrev pub password_or_mask : Bool → Text → Line
  password_or_mask true password = password_line password
  password_or_mask false password = masked_line

  abbrev pub get_or_fail : Text → Action Block Entry
  get_or_fail id = in_block or_not_found (on_repository (get_entry id))

  unfoldable pub get_command : ℕ → Text → Bool → Action Shell (Unit {0})
  get_command path id show = do
    entry ← with_repository path (get_or_fail id)
    echo (service_line entry.service)
    echo (username_line entry.username)
    echo (password_or_mask show entry.password)
    notes_if entry.notes
    echo (created_line entry.created_at)
    echo (updated_line entry.updated_at)

  unfoldable pub list_command : (Text → Text) → ℕ → Action Shell (Unit {0})
  unfolding list_lines sorted
  list_command lower_case path = do
    entries ← with_repository path (on_repository list_entries)
    show_entries lower_case entries

  -- `generate` is None if neither option is given.
  abbrev pub new_password : Option Bool → PasswordPolicy → Action Shell (Option Text)
  new_password none policy = pure none
  new_password (some generate) policy = do
    password ← prompt_entry_password generate policy
    pure (some password)

  abbrev pub is_true : Option Bool → Bool
  is_true none = false
  is_true (some b) = b

  unfoldable pub update_command :
      ℕ
      → Text
      → Option Text
      → Option Text
      → Option Text
      → Option Bool
      → PasswordPolicy
      → Action Shell (Unit {0})
  update_command path id service username notes generate policy = do
    entry ← with_repository path (do
      current ← get_or_fail id
      password ← outside (new_password generate policy)
      in_block or_vault_error (on_repository (update_entry p id service username password notes)))
    echo (entry_updated entry.id)
    hint_if (is_true generate) path entry.id

  -- `yes or click.confirm(...)`
  abbrev pub agreed : Bool → Action Shell Bool
  agreed true = pure true
  agreed false = confirm

  -- The rest of the block of `delete`, which says whether the entry was deleted.
  abbrev pub delete_if : Bool → Text → Action Block Bool
  delete_if true id = do on_repository (delete_entry p id); pure true
  delete_if false id = do outside (echo delete_aborted); pure false

  abbrev pub deleted_line : Bool → Text → Action Shell (Unit {0})
  deleted_line true id = echo (entry_deleted id)
  deleted_line false id = pure tt

  unfoldable pub delete_command : ℕ → Text → Bool → Action Shell (Unit {0})
  delete_command path id assume_yes = do
    deleted ←
        with_repository path
          (do entry ← get_or_fail id; answer ← outside (agreed assume_yes); delete_if answer id)
    deleted_line deleted id

  unfoldable pub passwd_command : ℕ → Action Shell (Unit {0})
  passwd_command path = do
    with_repository path (do
      password ← outside (read_master_password true)
      on_repository (change_master_password p password none))
    echo password_changed

-- `generate`
unfoldable pub generate_command : PasswordPolicy → Action Shell (Unit {0})
generate_command policy = do
  password ← λ s. or_value_error (on_shell (on_world (with_entropy (generate_password policy))) s)
  echo (generated_line password)
