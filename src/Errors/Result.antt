-- ===== src/Errors/Result.antt =====
-- A computation that returns or raises.
use secure_vault.Prelude.{◌≡◌, refl, ◌⊎◌, inl, inr, Bool, true, false}
use secure_vault.Errors.{Error}

pub data Result {ℓ} (A : Type ℓ) : Type ℓ where
  err : Error → Result A
  ok : A → Result A

module _ {ℓ κ} {A : Type ℓ} {B : Type κ} where
  -- The next statement runs on what the one before it returned; an exception skips it.
  infixl 5 ◌>>=◌
  abbrev pub ◌>>=◌ : Result A → (A → Result B) → Result B
  err raised >>= next = err raised
  ok returned >>= next = next returned

  -- A block returned, so its first statement did, and the rest of it on that value.
  pub bind-eq-ok :
      (step : Result A) (next : A → Result B) {result : B}
      → (step >>= next) ≡ ok result
      → (returned : A) × (step ≡ ok returned) × (next returned ≡ ok result)
  bind-eq-ok (err raised) next e = cc
  bind-eq-ok (ok returned) next e = (returned, refl, e)

-- `if c: raise e`
abbrev pub raise_if : Bool → Error → Result (Unit {0})
raise_if true e = err e
raise_if false e = ok tt

module _ {κ} {B : Type κ} where
  infixl 5 ◌>>◌
  abbrev pub ◌>>◌ : Result (Unit {0}) → Result B → Result B
  step >> next = step >>= λ _. next

  -- A block that returned has passed its guard.
  pub raise_if-eq-ok :
      (c : Bool) (e : Error) (k : Result B) {b : B}
      → (raise_if c e >> k) ≡ ok b
      → (c ≡ false) × (k ≡ ok b)
  raise_if-eq-ok true e k h = cc
  raise_if-eq-ok false e k h = (refl, h)

module _ {ℓ} {A : Type ℓ} where
  pub ok_inj : (a b : A) → ok a ≡ ok b → a ≡ b
  ok_inj a b h = cc

  pub err_inj : (e e' : Error) → ◌≡◌ {A = Result A} (err e) (err e') → e ≡ e'
  err_inj e e' h = cc

  pub Result-cases : (r : Result A) → ((e : Error) × (r ≡ err e)) ⊎ ((a : A) × (r ≡ ok a))
  Result-cases (err e) = inl (e, refl)
  Result-cases (ok a) = inr (a, refl)

-- An exception of what ends a block takes the place of what the block gave.
abbrev pub or_exception : {A : Type 0} → Result (Unit {0}) → Result A → Result A
or_exception (ok done) r = r
or_exception (err e) r = err e
