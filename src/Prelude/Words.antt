-- ===== src/Prelude/Words.antt =====
-- Python's `bytes`, the unsigned little-endian fields of `struct`, and equality of two byte strings.
use Prim.Native.Nat.{ℕ, zero, suc, ◌+◌, ◌*◌, ◌/◌, ◌%◌, ◌^◌, ◌<◌}
use mathlib.Core.Path.{◌≡◌, refl, ap, ◌∙◌}
use mathlib.Core.Logic.{◌↔◌}
use mathlib.Core.Bool.{Bool, true, false, ◌&&◌}
use mathlib.Core.List.{List, [], ◌∷◌}
use native.Mathlib.Omega.{arith}
use native.Mathlib.Nat.{pow-suc, mul_comm}
use secure_vault.Prelude.Tests.{◌==◌}
use secure_vault.Prelude.Lists.{length, All}

-- A byte string. What the program reads has bytes below 256 (`IsBytes`).
abbrev pub Bytes : Type 0
Bytes = List ℕ

abbrev pub IsBytes : Bytes → Type 0
IsBytes = All (λ b. b < 256)

-- `struct.pack` of an unsigned integer of `w` bytes, `<B`, `<H`, `<I` or `<Q`.
unfoldable pub pack_le : ℕ → ℕ → Bytes
pack_le zero n = []
pack_le (suc w) n = n % 256 ∷ pack_le w (n / 256)

-- `struct.unpack` of all the bytes as one unsigned integer.
unfoldable pub unpack_le : Bytes → ℕ
unpack_le [] = 0
unpack_le (b ∷ bs) = b + 256 * unpack_le bs

pub length-pack_le : (w n : ℕ) → length (pack_le w n) ≡ w
unfolding pack_le
length-pack_le zero n = refl
length-pack_le (suc w) n = ap suc (length-pack_le w (n / 256))

pub pack_le-IsBytes : (w n : ℕ) → IsBytes (pack_le w n)
unfolding pack_le
pack_le-IsBytes zero n = tt
pack_le-IsBytes (suc w) n = (omega arith, pack_le-IsBytes w (n / 256))

pow_suc_256 : (w : ℕ) → 256 ^ suc w ≡ 256 * 256 ^ w
pow_suc_256 w = pow-suc 256 w ∙ mul_comm (256 ^ w) 256

-- What was packed is unpacked, if it fits the field.
pub unpack_le-pack_le : (w n : ℕ) → n < 256 ^ w → unpack_le (pack_le w n) ≡ n
unfolding pack_le unpack_le
unpack_le-pack_le zero n h = omega arith
unpack_le-pack_le (suc w) n h =
    omega (arith, unpack_le-pack_le w (n / 256) (omega (arith, pow_suc_256 w)))

-- What was unpacked packs to the same bytes.
pub pack_le-unpack_le : (bs : Bytes) → IsBytes bs → pack_le (length bs) (unpack_le bs) ≡ bs
unfolding pack_le unpack_le
pack_le-unpack_le [] h = refl
pack_le-unpack_le (b ∷ bs) (hb, hs) =
    let low : (b + 256 * unpack_le bs) % 256 ≡ b = omega arith in
    let high : (b + 256 * unpack_le bs) / 256 ≡ unpack_le bs = omega arith in
    rw (low, high, pack_le-unpack_le bs hs)

pub unpack_le-lt : (bs : Bytes) → IsBytes bs → unpack_le bs < 256 ^ length bs
unfolding unpack_le
unpack_le-lt [] h = omega arith
unpack_le-lt (b ∷ bs) (hb, hs) = omega (arith, unpack_le-lt bs hs, pow_suc_256 (length bs))

-- `==` on `bytes`.
unfoldable pub bytes_eq : Bytes → Bytes → Bool
bytes_eq [] [] = true
bytes_eq (a ∷ xs) (b ∷ ys) = a == b && bytes_eq xs ys
bytes_eq _ _ = false

pub bytes_eq_iff : (xs ys : Bytes) → (bytes_eq xs ys ≡ true) ↔ (xs ≡ ys)
unfolding bytes_eq
bytes_eq_iff [] [] = (λ h. refl, λ h. refl)
bytes_eq_iff [] (b ∷ ys) = (λ h. cc, λ h. cc)
bytes_eq_iff (a ∷ xs) [] = (λ h. cc, λ h. cc)
bytes_eq_iff (a ∷ xs) (b ∷ ys) = ground (arith, bytes_eq_iff xs ys)

pub bytes_eq_refl : (xs : Bytes) → bytes_eq xs xs ≡ true
bytes_eq_refl xs = (bytes_eq_iff xs xs).1 refl
