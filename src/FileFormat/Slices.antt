-- ===== src/FileFormat/Slices.antt =====
-- Fields of a byte string by their offsets: the parts of a concatenation, and the string from its
-- parts.
use secure_vault.Prelude.{unpack_le-lt, subst, ◌^◌, ◌<◌, zero, suc, [], ◌∷◌, refl, take}
use secure_vault.Prelude.{ℕ, ◌+◌, ◌-◌, ◌≤◌, ◌≡◌, sym, ◌∙◌, ap, ap₂, ◌++◌, arith, length, drop}
use secure_vault.Prelude.{take-append, drop-append, drop-drop, take-append-drop, length-take}
use secure_vault.Prelude.{
  length-drop, Bytes, IsBytes, All-take, All-drop, pack_le, unpack_le, pack_le-unpack_le, take_all,
  ◌<◌,
}
use secure_vault.FileFormat.{slice}

-- The field that begins where the prefix `p` ends.
pub slice_at :
    (a b : ℕ) (p x rest : Bytes)
    → length p ≡ a
    → length x ≡ b - a
    → slice a b (p ++ (x ++ rest)) ≡ x
slice_at a b p x rest hp hx = rw (drop-append a p (x ++ rest) hp) (take-append (b - a) x rest hx)

-- From a cut at `a`, the next field and what follows it.
pub drop_split : (a b : ℕ) (d : Bytes) → a ≤ b → drop a d ≡ slice a b d ++ drop b d
drop_split a b d h =
    let e : a + (b - a) ≡ b = omega arith in
    sym (take-append-drop (b - a) (drop a d))
    ∙ ap (λ t. slice a b d ++ t) (drop-drop (b - a) a d ∙ ap (λ n. drop n d) e)

pub length-slice : (a b : ℕ) (d : Bytes) → a ≤ b → b ≤ length d → length (slice a b d) ≡ b - a
length-slice a b d h k = omega (arith, length-take (b - a) (drop a d), length-drop a d)

pub slice-IsBytes : (a b : ℕ) (d : Bytes) → IsBytes d → IsBytes (slice a b d)
slice-IsBytes a b d h = All-take (λ x. x < 256) (b - a) (drop a d) (All-drop (λ x. x < 256) a d h)

-- A field whose number is known is that number, packed.
pub slice-eq-pack_le :
    (a b w v : ℕ) (d : Bytes)
    → IsBytes d
    → a ≤ b
    → b ≤ length d
    → b - a ≡ w
    → unpack_le (slice a b d) ≡ v
    → slice a b d ≡ pack_le w v
slice-eq-pack_le a b w v d h p q e u =
    let whole = pack_le-unpack_le (slice a b d) (slice-IsBytes a b d h) in
    let size : length (slice a b d) ≡ w = length-slice a b d p q ∙ e in
    sym whole ∙ ap₂ pack_le size u

pub unpack_le-slice-lt :
    (a b w : ℕ) (d : Bytes)
    → IsBytes d
    → a ≤ b
    → b ≤ length d
    → b - a ≡ w
    → unpack_le (slice a b d) < 256 ^ w
unpack_le-slice-lt a b w d h p q e =
    subst (λ n. unpack_le (slice a b d) < 256 ^ n) (length-slice a b d p q ∙ e)
      (unpack_le-lt (slice a b d) (slice-IsBytes a b d h))

-- The last field reaches the end.
pub drop-eq-slice : (a b : ℕ) (d : Bytes) → length d ≡ b → drop a d ≡ slice a b d
drop-eq-slice a b d h = sym (take_all (b - a) (drop a d) (omega (arith, length-drop a d)))

-- One step of reading a string from the left: where the rest at `a` begins with `x`, the field up
-- to `b` is `x`, and the rest at `b` is what follows.
pub cut :
    (a b : ℕ) (d x rest : Bytes)
    → a ≤ b
    → length x ≡ b - a
    → drop a d ≡ x ++ rest
    → (slice a b d ≡ x) × (drop b d ≡ rest)
cut a b d x rest h l e =
    let sum : a + (b - a) ≡ b = omega arith in
    (
      ap (take (b - a)) e ∙ take-append (b - a) x rest l,
      ap (λ n. drop n d) (sym sum)
          ∙ (sym (drop-drop (b - a) a d) ∙ (ap (drop (b - a)) e ∙ drop-append (b - a) x rest l)),
    )

take-nil : (n : ℕ) → take {A = ℕ} n [] ≡ []
take-nil zero = refl
take-nil (suc n) = refl

take-add : (a k : ℕ) (d : Bytes) → take (a + k) d ≡ take a d ++ take k (drop a d)
take-add zero k d = let e : zero + k ≡ k = omega arith in rw e
take-add (suc a) k [] = take-nil (suc a + k) ∙ sym (take-nil k)
take-add (suc a) k (x ∷ d) =
    let e : suc a + k ≡ suc (a + k) = omega arith in rw e (ap (λ t. x ∷ t) (take-add a k d))

pub take_split : (a b : ℕ) (d : Bytes) → a ≤ b → take b d ≡ take a d ++ slice a b d
take_split a b d h =
    let e : b ≡ a + (b - a) = omega arith in ap (λ n. take n d) e ∙ take-add a (b - a) d
