-- ===== src/Utf8.antt =====
-- `str.encode("utf-8")` and `bytes.decode("utf-8")`, strict: no surrogates, no overlong forms.
pub mod RoundTrip
use mathlib.Core.Bool.{◌&&◌, ◌||◌, not}
use secure_vault.Prelude.{
  ℕ, zero, suc, ◌+◌, ◌-◌, ◌*◌, ◌/◌, ◌%◌, Bool, true, false, Option, none, some, List, [], ◌∷◌, ◌++◌,
  Bytes, Text, ltb, leb, if◌then◌else◌,
}

-- A code point that is no surrogate.
abbrev pub is_scalar : ℕ → Bool
is_scalar c = ltb c 55296 || (leb 57344 c && ltb c 1114112)

-- The bytes of one code point.
abbrev pub encode_char : ℕ → Bytes
encode_char c =
    if ltb c 128
    then c ∷ []
    else if ltb c 2048
    then (192 + c / 64) ∷ (128 + c % 64) ∷ []
    else if ltb c 65536
    then (224 + c / 4096) ∷ (128 + c / 64 % 64) ∷ (128 + c % 64) ∷ []
    else (240 + c / 262144) ∷ (128 + c / 4096 % 64) ∷ (128 + c / 64 % 64) ∷ (128 + c % 64) ∷ []

abbrev pub prepend : List ℕ → Option (List ℕ) → Option (List ℕ)
prepend out none = none
prepend out (some rest) = some (out ++ rest)

-- `none` is a UnicodeEncodeError.
unfoldable pub encode : Text → Option Bytes
encode [] = some []
encode (c ∷ cs) = if is_scalar c then prepend (encode_char c) (encode cs) else none

-- How many bytes a character still wants, its bits so far, and the least that its form may hold.
pub record Pending : Type 0 where
  pub need : ℕ
  pub bits : ℕ
  pub least : ℕ

abbrev pub ready : Pending
ready = record { need = 0; bits = 0; least = 0 }

abbrev pub lead : ℕ → Option (Pending × Text)
lead b =
    if ltb b 128
    then some (ready, b ∷ [])
    else if ltb b 192
    then none
    else if ltb b 224
    then some (record { need = 1; bits = b - 192; least = 128 }, [])
    else if ltb b 240
    then some (record { need = 2; bits = b - 224; least = 2048 }, [])
    else if ltb b 245
    then some (record { need = 3; bits = b - 240; least = 65536 }, [])
    else none

-- A byte within a character; the last one yields it.
abbrev pub trail : ℕ → ℕ → ℕ → ℕ → Option (Pending × Text)
trail k bits least b =
    let total = 64 * bits + (b - 128) in
    if not (leb 128 b && ltb b 192)
    then none
    else if ltb 0 k
    then some (record { need = k; bits = total; least = least }, [])
    else if leb least total && is_scalar total
    then some (ready, total ∷ [])
    else none

abbrev pub step_by : ℕ → Pending → ℕ → Option (Pending × Text)
step_by zero p b = lead b
step_by (suc k) p b = trail k p.bits p.least b

abbrev pub emit : Option (Pending × Text) → (Pending → Option Text) → Option Text
emit none rest = none
emit (some (p, out)) rest = prepend out (rest p)

abbrev pub finish : ℕ → Option Text
finish zero = some []
finish (suc k) = none

unfoldable pub decode_from : Pending → Bytes → Option Text
decode_from p [] = finish p.need
decode_from p (b ∷ bs) = emit (step_by p.need p b) (λ q. decode_from q bs)

-- `none` is a UnicodeDecodeError.
unfoldable pub decode : Bytes → Option Text
unfolding decode_from
decode bs = decode_from ready bs
