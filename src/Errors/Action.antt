-- ===== src/Errors/Action.antt =====
-- Code with a state that may raise. What was written before a raise stays written, so the state
-- comes back beside the error too.
use secure_vault.Prelude.{Bool, true, false}
use secure_vault.Errors.{Error}
use secure_vault.Errors.Result.{Result, ok, err}

abbrev pub Action : Type 0 → Type 0 → Type 0
Action S A = S → Result A × S

module _ {S A : Type 0} where
  abbrev pub pure : A → Action S A
  pure a s = (ok a, s)

  abbrev pub raise : Error → Action S A
  raise e s = (err e, s)

  abbrev pub lift : Result A → Action S A
  lift r s = (r, s)

  abbrev pub gets : (S → A) → Action S A
  gets f s = (ok (f s), s)

-- What follows a step: the rest of the block, or nothing after a raise.
abbrev pub continue : {S A B : Type 0} → (A → Action S B) → Result A × S → Result B × S
continue f (ok a, s) = f a s
continue f (err e, s) = (err e, s)

infixl 5 ◌>>=◌ ◌>>◌
abbrev pub ◌>>=◌ : {S A B : Type 0} → Action S A → (A → Action S B) → Action S B
◌>>=◌ m f s = continue f (m s)

abbrev pub ◌>>◌ : {S B : Type 0} → Action S (Unit {0}) → Action S B → Action S B
m >> k = m >>= λ _. k

abbrev pub modify : {S : Type 0} → (S → S) → Action S (Unit {0})
modify f s = (ok tt, f s)

-- `if c: raise e`
abbrev pub raise_if : {S : Type 0} → Bool → Error → Action S (Unit {0})
raise_if true e s = (err e, s)
raise_if false e s = (ok tt, s)
