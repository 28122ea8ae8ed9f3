-- ===== src/Errors/Raises.antt =====
-- Which errors a block can raise, one rule for each way to build it.
use secure_vault.Prelude.{◌≡◌, ap, subst, Bool, true, false}
use secure_vault.Errors.{Error, FormatReason, format_error}
use secure_vault.Errors.Result.{Result, ok, err, ◌>>=◌, raise_if, err_inj}

-- `isinstance(e, VaultFormatError)`
pub data IsFormatError : Error → Type 0 where
  is_format_error : (r : FormatReason) → IsFormatError (format_error r)

-- Every error that `m` raises satisfies `P`.
pub record Raises {A : Type 0} (P : Error → Type 0) (m : Result A) : Type 0 where
  pub at : (e : Error) → m ≡ err e → P e

module _ {P : Error → Type 0} where
  pub ok-Raises : {A : Type 0} (a : A) → Raises P (ok a)
  ok-Raises a = record { at = λ e h. cc }

  pub err-Raises : {A : Type 0} (e : Error) → P e → Raises {A = A} P (err e)
  err-Raises {A} e p = record { at = λ e' h. subst P (err_inj {A = A} e e' h) p }

  pub raise_if-Raises : (b : Bool) (e : Error) → P e → Raises P (raise_if b e)
  raise_if-Raises true e p = record { at = λ e' h. subst P (err_inj e e' h) p }
  raise_if-Raises false e p = record { at = λ e' h. cc }

  pub bind-Raises :
      {A B : Type 0} (m : Result A) (f : A → Result B)
      → Raises P m
      → ((a : A) → Raises P (f a))
      → Raises P (m >>= f)
  bind-Raises {B = B} (ok a) f hm hf = hf a
  bind-Raises {B = B} (err e) f hm hf = record {
    at = λ e' h. hm.at e' (ap err (err_inj {A = B} e e' h));
  }

pub ruleset raises_rules = (ok-Raises, err-Raises, raise_if-Raises, bind-Raises, is_format_error)
