-- ===== src/Cli/Order.antt =====
-- The order by which `list` sorts: Python's `<` of texts and of pairs of texts.
use mathlib.Core.Bool.{◌&&◌}
use secure_vault.Prelude.{
  ◌≡◌, ◌⊎◌, inl, inr, refl, sym, ◌∙◌, subst, arith, Bool-cases, Bool, true, false, [], ◌∷◌, Text,
  bytes_eq, bytes_eq_iff,
}
use secure_vault.Cli.Commands.{text_lt, key_lt}

and_true : (a b : Bool) → (a && b) ≡ true → (a ≡ true) × (b ≡ true)
and_true true b h = (refl, h)
and_true false b h = cc

text_lt_irrefl : (a : Text) → text_lt a a ≡ false
unfolding text_lt
text_lt_irrefl [] = refl
text_lt_irrefl (x ∷ xs) = ground (arith, text_lt_irrefl xs)

text_lt-asym : (a b : Text) → text_lt a b ≡ true → text_lt b a ≡ false
unfolding text_lt
text_lt-asym a [] h = cc
text_lt-asym [] (y ∷ ys) h = refl
text_lt-asym (x ∷ xs) (y ∷ ys) h = ground (arith, h, text_lt-asym xs ys)

-- Where `a` is below `c`, any third is above `a` or below `c`.
text_lt-split : (a b c : Text) → text_lt a c ≡ true → (text_lt a b ≡ true) ⊎ (text_lt b c ≡ true)
unfolding text_lt
text_lt-split a b [] h = cc
text_lt-split [] [] (z ∷ zs) h = inr refl
text_lt-split [] (y ∷ ys) (z ∷ zs) h = inl refl
text_lt-split (x ∷ xs) [] (z ∷ zs) h = inr refl
text_lt-split (x ∷ xs) (y ∷ ys) (z ∷ zs) h = ground (arith, h, text_lt-split xs ys zs)

text_lt-total : (a b : Text) → text_lt a b ≡ false → text_lt b a ≡ false → bytes_eq a b ≡ true
unfolding text_lt bytes_eq
text_lt-total [] [] h g = refl
text_lt-total [] (y ∷ ys) h g = cc
text_lt-total (x ∷ xs) [] h g = cc
text_lt-total (x ∷ xs) (y ∷ ys) h g = ground (arith, h, g, text_lt-total xs ys)

text_lt-apart : (a b : Text) → text_lt a b ≡ true → (bytes_eq a b ≡ false) × (bytes_eq b a ≡ false)
unfolding text_lt bytes_eq
text_lt-apart a [] h = cc
text_lt-apart [] (y ∷ ys) h = (refl, refl)
text_lt-apart (x ∷ xs) (y ∷ ys) h = ground (arith, h, text_lt-apart xs ys)

-- The keys are the same.
abbrev pub same_key : Text × Text → Text × Text → Bool
same_key (a, b) (c, d) = bytes_eq a c && bytes_eq b d

pub same_key-eq : (k l : Text × Text) → same_key k l ≡ true → k ≡ l
same_key-eq (a, b) (c, d) h =
    let (first, second) = and_true (bytes_eq a c) (bytes_eq b d) h in
    λ i. ((bytes_eq_iff a c).0 first i, (bytes_eq_iff b d).0 second i)

pub key_lt_irrefl : (k : Text × Text) → key_lt k k ≡ false
key_lt_irrefl (a, b) = rw (text_lt_irrefl a, (bytes_eq_iff a a).1 refl, text_lt_irrefl b)

pub key_lt-asym : (k l : Text × Text) → key_lt k l ≡ true → key_lt l k ≡ false
key_lt-asym (a, b) (c, d) h = elim (Bool-cases (text_lt a c)) [
  | inl below ↦ rw (text_lt-asym a c below, (text_lt-apart a c below).1)
  | inr not_below ↦
      let (same, less) = and_true (bytes_eq a c) (text_lt b d) (rw not_below at h) in
      let at = (bytes_eq_iff a c).0 same in
      rw (sym at, text_lt_irrefl a, text_lt-asym b d less, (bytes_eq_iff a a).1 refl)
]

pub key_lt-split :
    (k l m : Text × Text) → key_lt k m ≡ true → (key_lt k l ≡ true) ⊎ (key_lt l m ≡ true)
key_lt-split (a, b) (m, n) (c, d) h = elim (Bool-cases (text_lt a c)) [
  | inl below ↦ elim (text_lt-split a m c below) [
    | inl left ↦ inl (rw left refl)
    | inr right ↦ inr (rw right refl)
  ]
  | inr not_below ↦
      let (same, less) = and_true (bytes_eq a c) (text_lt b d) (rw not_below at h) in
      let at = (bytes_eq_iff a c).0 same in
      elim (Bool-cases (text_lt a m)) [
        | inl left ↦ inl (rw left refl)
        | inr not_left ↦ elim (Bool-cases (text_lt m c)) [
          | inl right ↦ inr (rw right refl)
          | inr not_right ↦
              let mid =
                text_lt-total a m not_left (subst (λ x. text_lt m x ≡ false) (sym at) not_right) in
              let here = (bytes_eq_iff a m).0 mid in
              elim (text_lt-split b n d less) [
                | inl left ↦ inl (rw (not_left, mid, left))
                | inr right ↦ inr (rw (not_right, (bytes_eq_iff m c).1 (sym here ∙ at), right))
              ]
        ]
      ]
]
