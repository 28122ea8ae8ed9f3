-- ===== src/Cli/Accepted.antt =====
-- What the command line `generate` does.
use secure_vault.Prelude.{
  ℕ, ◌≤◌, ◌≡◌, ◌⊎◌, inl, inr, refl, ap, subst, arith, Bool-cases, Option, none, some, [], ◌∷◌, ◌++◌,
  length, Text,
}
use mathlib.Core.Bool.{◌||◌}
use secure_vault.Errors.{Error, value_error, no_category, system_exit}
use secure_vault.Errors.Result.{Result, ok, err, ok_inj, bind-eq-ok, Result-cases}
use secure_vault.PasswordGen.{min_length, max_length}
use secure_vault.PasswordGen.Policy.{HasCategory, validate_policy_iff, validate_policy_none}
use secure_vault.PasswordGen.Draw.{generate_password}
use secure_vault.PasswordGen.Generate.{generate_password_total}
use secure_vault.Repository.{Platform}
use secure_vault.Cli.{Shell, generated_line, failure, message_of}
use secure_vault.Cli.Commands.{generate_command}
use secure_vault.Cli.Running.{run}
use secure_vault.Cli.Main.{main}
use secure_vault.Cli.Options.{
  Click, IsClick, Typed, Kwargs, default_length, ranged, password_gen_options, policy_from_kwargs,
  command_of, generate_arguments, generate,
}

-- `generate` made a password and printed it, or every category is off.
abbrev pub GenerateEnds : Kwargs → Shell → Result (Unit {0}) × Shell → Type 0
GenerateEnds k s x =
    ((pw : Text) × (min_length ≤ length pw)
      × (length pw ≤ max_length)
      × (x.0 ≡ ok tt)
      × (x.1.terminal
          ≡ record s.terminal { out_lines = s.terminal.out_lines ++ (generated_line pw ∷ []) }))
    ⊎ (¬ HasCategory (policy_from_kwargs k)
        × (x.0 ≡ err system_exit)
        × (x.1.terminal ≡ record s.terminal {
          err_lines = s.terminal.err_lines ++ (failure (message_of (value_error no_category)) ∷ []);
        }))

generate_command_cases :
    (k : Kwargs)
    → (min_length ≤ k.length) × (k.length ≤ max_length)
    → (s : Shell) → GenerateEnds k s (generate_command (policy_from_kwargs k) s)
unfolding generate_command generate_password
generate_command_cases k (low, high) s =
    let q = policy_from_kwargs k in
    elim (Bool-cases (k.upper || k.lower || k.digits || k.symbols)) [
      | inl on ↦
          let (pw, size, inside, covers, made) =
            generate_password_total q s.machine.world.entropy
              ((validate_policy_iff q).1 (low, high, on)) in
          inl (pw, omega (arith, size, low), omega (arith, size, high), rw made refl, rw made refl)
      | inr off ↦
          let refused = validate_policy_none q low high (λ on. ground (arith, off, on)) in
          inr ((λ on. ground (arith, off, on)), rw refused refl, rw refused refl)
    ]

module _ (c : Click) (L : IsClick c) where
  ranged-IsInRange :
      (low high default : ℕ) (text : Option Text) (n : ℕ)
      → low ≤ default
      → default ≤ high
      → ranged c low high default text ≡ ok n
      → (low ≤ n) × (n ≤ high)
  ranged-IsInRange low high default none n least most e =
      omega (arith, ok_inj default n e, least, most)
  ranged-IsInRange low high default (some text) n least most e = L.in_range low high n text e

  -- What the options make of the policy.
  accepted-length :
      (t : Typed) (k : Kwargs)
      → password_gen_options c t ≡ ok k
      → (min_length ≤ k.length) × (k.length ≤ max_length)
  unfolding password_gen_options
  accepted-length t k e =
      let (n, read, rest) =
        bind-eq-ok (ranged c min_length max_length default_length t.length) _ e in
      let same = ap (λ (x : Kwargs). x.length) (ok_inj _ k rest) in
      subst (λ x. (min_length ≤ x) × (x ≤ max_length)) same
        (ranged-IsInRange min_length max_length default_length t.length n (omega arith)
          (omega arith) read)

  -- `generate` on the command line ends in one of three ways. click refused an option and nothing was
  -- done; or a password of 8 to 256 characters was made and is the one line that was printed; or every
  -- category of characters was switched off, nothing was printed but the message of that, and the
  -- program exits. Nothing else is refused: neither the length nor the characters that are left
  -- without the ambiguous ones. What click's IntRange accepts lies in its range.
  pub generate_ends :
      (p : Platform) (lower_case : Text → Text) (bound : ℕ) (t : Typed) (s : Shell)
      → let x = main c p lower_case bound (generate t) s in
        ((e : Error) × (password_gen_options c t ≡ err e) × (x ≡ (err e, s)))
        ⊎ ((k : Kwargs) × (password_gen_options c t ≡ ok k) × GenerateEnds k s x)
  unfolding main command_of generate_arguments run generate_command
  generate_ends p lower_case bound t s = elim (Result-cases (password_gen_options c t)) [
    | inl (e, refused) ↦ inl (e, refused, rw refused refl)
    | inr (k, read) ↦ inr (k, read, rw read (generate_command_cases k (accepted-length t k read) s))
  ]
