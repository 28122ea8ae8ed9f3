-- ===== src/Errors/Keeps.antt =====
-- Invariants of actions, one rule for each way to build an action.
use secure_vault.Errors.{Error}
use secure_vault.Errors.Result.{Result, ok, err}
use secure_vault.Errors.Action.{Action, pure, raise, lift, gets, continue, ◌>>=◌}

-- `m` keeps `P`, whether it returns or raises.
pub record Keeps {S A : Type 0} (P : S → Type 0) (m : Action S A) : Type 0 where
  pub at : (s : S) → P s → P (m s).1

module _ {S A : Type 0} {P : S → Type 0} where
  pub pure-Keeps : (a : A) → Keeps P (pure a)
  pure-Keeps a = record { at = λ s h. h }

  pub raise-Keeps : (e : Error) → Keeps P (raise {A = A} e)
  raise-Keeps e = record { at = λ s h. h }

  pub lift-Keeps : (r : Result A) → Keeps P (lift r)
  lift-Keeps r = record { at = λ s h. h }

  pub gets-Keeps : (f : S → A) → Keeps P (gets f)
  gets-Keeps f = record { at = λ s h. h }

module _ {S A B : Type 0} {P : S → Type 0} where
  continue-Keeps :
      (f : A → Action S B)
      → ((a : A) → Keeps P (f a))
      → (r : Result A × S) → P r.1
      → P (continue f r).1
  continue-Keeps f k (ok a, s) h = (k a).at s h
  continue-Keeps f k (err e, s) h = h

  pub bind-Keeps :
      (m : Action S A) (f : A → Action S B)
      → Keeps P m
      → ((a : A) → Keeps P (f a))
      → Keeps P (m >>= f)
  bind-Keeps m f k l = record { at = λ s h. continue-Keeps f l (m s) (k.at s h) }

pub ruleset keeps_rules = (pure-Keeps, raise-Keeps, lift-Keeps, gets-Keeps, bind-Keeps)
