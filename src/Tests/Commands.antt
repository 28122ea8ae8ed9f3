-- ===== src/Tests/Commands.antt =====
-- The commands of cli.py at concrete inputs.
use mathlib.Core.Bool.{◌&&◌}
use secure_vault.Prelude.{
  ℕ, ◌≤◌, ◌≡◌, ◌⊎◌, refl, arith, true, false, none, some, [], ◌∷◌, Text, codes, bytes_eq, leb,
  if◌then◌else◌, List, ◌++◌,
}
use secure_vault.Errors.{Error, system_exit, entry_not_found}
use secure_vault.Errors.Result.{ok, err}
use secure_vault.Cli.Options.{Click, IsClick, Typed, Kwargs, password_gen_options, generate}
use secure_vault.Cli.Main.{main}
use secure_vault.Cli.Accepted.{GenerateEnds, generate_ends}
use secure_vault.Utf8.{encode}
use secure_vault.PasswordGen.{upper, lower, digits}
use secure_vault.PasswordGen.Strength.{entropy_of, apparent_pool, any_other}
use secure_vault.Cli.{
  Shell, Line, empty_master, failure, message_of, weak_warning, weak_refused, read_master_password,
}
use secure_vault.Cli.Commands.{sorted, insert, text_lt, list_command}
use secure_vault.Entries.{Entry}
use secure_vault.Repository.Changes.{has_id}
use secure_vault.Repository.FirstMatch.{IsFirst}
use secure_vault.Errors.Action.{Action, pure}
use secure_vault.Clipboard.{ClipboardBackend}
use secure_vault.Cli.Copying.{Desktop, copy_command}
use secure_vault.Cli.Copied.{CopyEnds, copy_command_shows}
use secure_vault.Tests.Bodies.{mail, bank, two, two-IsEntry}
use secure_vault.Tests.Toy.{toy-IsCrypto}
use secure_vault.Tests.Vaults.{password}
use secure_vault.Locking.{acquire, release}
use secure_vault.Cli.Listing.{Shown}
use secure_vault.Cli.Session.{list_command_shows}
use secure_vault.Tests.Repositories.{platform, closed_machine, files, two-Stores}

-- The user types this and agrees to nothing.
abbrev shell : Text → Shell
shell text = record {
  machine = closed_machine files;
  terminal = record {
    typed = λ i. ok text;
    confirmed = λ i. ok false;
    out_lines = [];
    err_lines = [];
  };
}

empty_refused :
    (read_master_password true (shell [])).1.terminal.err_lines ≡ failure empty_master ∷ []
unfolding read_master_password
empty_refused = refl

-- Six digits are weak: 10 ^ 6 is below 2 ^ 60.
weak_refused_run :
    (read_master_password true (shell (codes "123456"))).1.terminal.err_lines
    ≡ weak_warning (some (6, 10)) ∷ failure weak_refused ∷ []
unfolding read_master_password encode bytes_eq entropy_of apparent_pool any_other upper lower digits
weak_refused_run = refl

sorted-two : sorted (λ e. (e.service, e.username)) two ≡ bank ∷ mail ∷ []
unfolding sorted insert text_lt
sorted-two = refl

-- A clipboard that holds a text and always works, and a wait in which nothing happens.
abbrev clipboard : ClipboardBackend Text
clipboard = record { copy = λ text held. (ok tt, text); paste = λ held. (ok held, held) }

abbrev wait : ℕ → Action Text (Unit {0})
wait seconds = pure tt

copy_command_shows_example :
    let d : Desktop Text = record { shell = shell password; clipboard = [] } in
    let x = copy_command platform clipboard wait 5 (codes "a1") 15 d in
    ((before : List Entry) × (e : Entry) × (after : List Entry) × IsFirst
        (codes "a1")
        before
        e
        after
        two
      × CopyEnds platform clipboard wait e 15 d.shell.terminal [] x)
    ⊎ ((has_id (codes "a1") two ≡ false)
        × (x.0 ≡ err system_exit)
        × (x.1.shell.terminal.out_lines ≡ d.shell.terminal.out_lines)
        × (x.1.shell.terminal.err_lines
            ≡ d.shell.terminal.err_lines
              ++ (failure (message_of (entry_not_found (codes "a1"))) ∷ []))
        × (x.1.clipboard ≡ d.clipboard))
unfolding encode acquire release
copy_command_shows_example =
    copy_command_shows platform toy-IsCrypto clipboard wait 5 (codes "a1") 15 password password two
      record { shell = shell password; clipboard = [] } two-IsEntry two-Stores refl refl refl refl

-- A click that reads every length as 12, where that is in the range.
abbrev click : Click
click = record {
  int_range = λ low high text. if leb low 12 && leb 12 high then ok 12 else err system_exit;
}

click-IsClick : IsClick click
click-IsClick = record { in_range = λ low high n text e. in_range low high n e }
  where
    in_range :
        (low high n : ℕ)
        → (if leb low 12 && leb 12 high then ok 12 else err system_exit) ≡ ok n
        → (low ≤ n) × (n ≤ high)
    in_range low high n e = ground arith

-- `generate --length 12 --no-symbols`
abbrev typed : Typed
typed = record {
  length = some (codes "12");
  upper = none;
  lower = none;
  digits = none;
  symbols = some false;
  exclude_ambiguous = false;
}

generate_ends_example :
    let x = main click platform (λ text. text) 3 (generate typed) (shell []) in
    ((e : Error) × (password_gen_options click typed ≡ err e) × (x ≡ (err e, shell [])))
    ⊎ ((k : Kwargs) × (password_gen_options click typed ≡ ok k) × GenerateEnds k (shell []) x)
generate_ends_example = generate_ends click click-IsClick platform (λ text. text) 3 typed (shell [])

list_command_shows_example :
    let s = shell password in
    let x = list_command platform (λ text. text) 5 s in
    (lines : List Line) × Shown (λ text. text) two lines
    × (x.0 ≡ ok tt)
    × (x.1.terminal.out_lines ≡ s.terminal.out_lines ++ lines)
    × (x.1.terminal.err_lines ≡ s.terminal.err_lines)
unfolding encode acquire release
list_command_shows_example =
    list_command_shows platform toy-IsCrypto (λ text. text) 5 password password two (shell password)
      two-IsEntry two-Stores refl refl refl refl
