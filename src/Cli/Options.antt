-- ===== src/Cli/Options.antt =====
-- The arguments and options that cli.py declares for its commands. click splits the command line; how
-- it reads an `IntRange` is a parameter with a law.
use secure_vault.Prelude.{ℕ, ◌≤◌, ◌≡◌, Bool, true, false, Option, none, some, [], Text}
use secure_vault.Errors.Result.{Result, ok, ◌>>=◌}
use secure_vault.PasswordGen.{PasswordPolicy, min_length, max_length}
use secure_vault.Cli.Running
use secure_vault.Cli.Running.{Command}

-- `click.IntRange(low, high)` reads the text of an option.
pub record Click : Type 0 where
  pub int_range : (low high : ℕ) → Text → Result ℕ

-- What an IntRange accepts lies in its range.
pub record IsClick (c : Click) : Type 0 where
  pub in_range :
      (low high n : ℕ) (text : Text) → c.int_range low high text ≡ ok n → (low ≤ n) × (n ≤ high)

-- `DEFAULT_LENGTH`
abbrev pub default_length : ℕ
default_length = 20

-- `DEFAULT_TIMEOUT_SECONDS`
abbrev pub default_timeout : ℕ
default_timeout = 20

-- An option that is not on the command line has its default.
abbrev pub or_default : {A : Type 0} → A → Option A → A
or_default default none = default
or_default default (some a) = a

-- The options of a password on the command line.
pub record Typed : Type 0 where
  pub length : Option Text
  pub upper : Option Bool
  pub lower : Option Bool
  pub digits : Option Bool
  pub symbols : Option Bool
  pub exclude_ambiguous : Bool

-- `gen_kwargs`
pub record Kwargs : Type 0 where
  pub length : ℕ
  pub upper : Bool
  pub lower : Bool
  pub digits : Bool
  pub symbols : Bool
  pub exclude_ambiguous : Bool

-- `_policy_from_kwargs`
abbrev pub policy_from_kwargs : Kwargs → PasswordPolicy
policy_from_kwargs k = record {
  length = k.length;
  use_upper = k.upper;
  use_lower = k.lower;
  use_digits = k.digits;
  use_symbols = k.symbols;
  exclude_ambiguous = k.exclude_ambiguous;
}

-- The command line of a command; a flag stands for whether it is there.
pub data Invocation : Type 0 where
  init : ℕ → Invocation
  add : ℕ → Text → Text → (notes : Option Text) → (generate : Option Bool) → Typed → Invocation
  list : ℕ → Invocation
  get : ℕ → Text → (show : Bool) → Invocation
  update :
      ℕ
      → Text
      → (service username notes : Option Text) → (generate : Option Bool) → Typed
      → Invocation
  delete : ℕ → Text → (assume_yes : Bool) → Invocation
  passwd : ℕ → Invocation
  generate : Typed → Invocation

module _ (c : Click) where
  -- An option of type `IntRange`.
  abbrev pub ranged : ℕ → ℕ → ℕ → Option Text → Result ℕ
  ranged low high default none = ok default
  ranged low high default (some text) = c.int_range low high text

  -- `_password_gen_options`
  unfoldable pub password_gen_options : Typed → Result Kwargs
  password_gen_options t = do
    length ← ranged min_length max_length default_length t.length
    ok (record {
      length = length;
      upper = or_default true t.upper;
      lower = or_default true t.lower;
      digits = or_default true t.digits;
      symbols = or_default true t.symbols;
      exclude_ambiguous = t.exclude_ambiguous;
    })

  -- `--timeout` of copy
  unfoldable pub timeout_option : Option Text → Result ℕ
  timeout_option text = ranged 1 600 default_timeout text

  unfoldable pub add_arguments :
      ℕ → Text → Text → Option Text → Option Bool → Typed → Result Command
  unfolding password_gen_options
  add_arguments path service username notes generated typed = do
    kwargs ← password_gen_options typed
    ok (
        Running.add path service username (or_default [] notes) (or_default false generated)
          (policy_from_kwargs kwargs))

  unfoldable pub update_arguments :
      ℕ → Text → Option Text → Option Text → Option Text → Option Bool → Typed → Result Command
  unfolding password_gen_options
  update_arguments path id service username notes generated typed = do
    kwargs ← password_gen_options typed
    ok (Running.update path id service username notes generated (policy_from_kwargs kwargs))

  unfoldable pub generate_arguments : Typed → Result Command
  unfolding password_gen_options
  generate_arguments typed = do
    kwargs ← password_gen_options typed
    ok (Running.generate (policy_from_kwargs kwargs))

  -- The call that click makes of a command.
  unfoldable pub command_of : Invocation → Result Command
  unfolding add_arguments update_arguments generate_arguments
  command_of (init path) = ok (Running.init path)
  command_of (add path service username notes generated typed) =
      add_arguments path service username notes generated typed
  command_of (list path) = ok (Running.list path)
  command_of (get path id show) = ok (Running.get path id show)
  command_of (update path id service username notes generated typed) =
      update_arguments path id service username notes generated typed
  command_of (delete path id assume_yes) = ok (Running.delete path id assume_yes)
  command_of (passwd path) = ok (Running.passwd path)
  command_of (generate typed) = generate_arguments typed
