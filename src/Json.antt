-- ===== src/Json.antt =====
-- The parts of Python's `json` that entries.py calls. A number is kept as the text it is written
-- with, so no float is computed.
pub mod Strings
pub mod Units
pub mod Printer
pub mod Parser
pub mod Lengths
pub mod Fuel
pub mod Ascii
pub mod Numerals
pub mod RoundTrip
use secure_vault.Prelude.{Text}

-- An object is the list of its members in the order written; a key may occur twice.
mutual
  pub data Value : Type 0 where
    null true_ false_ : Value
    number : Text → Value
    string : Text → Value
    array : Items → Value
    object : Fields → Value

  pub data Items : Type 0 where
    nil : Items
    cons : Value → Items → Items

  pub data Fields : Type 0 where
    end : Fields
    field : Text → Value → Fields → Fields

-- What a scan from a place in a text gives: a value and the rest, a JSONDecodeError, or no answer
-- because the bound on the nesting was too small.
pub data Scan (A : Type 0) : Type 0 where
  stuck : Scan A
  bad : Scan A
  got : A → Text → Scan A

infixl 5 ◌>>=◌
abbrev pub ◌>>=◌ : {A B : Type 0} → Scan A → (A → Text → Scan B) → Scan B
stuck >>= f = stuck
bad >>= f = bad
got a rest >>= f = f a rest
