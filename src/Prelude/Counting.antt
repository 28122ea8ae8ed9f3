-- ===== src/Prelude/Counting.antt =====
-- How often a number occurs in a list, writes into a list, and a swap of two places.
use Prim.Native.Nat.{ℕ, zero, suc, ◌+◌, ◌<◌}
use mathlib.Core.Path.{◌≡◌, refl, sym, ap, subst}
use mathlib.Core.Logic.{inl, inr}
use mathlib.Core.Bool.{Bool, true, false, ◌||◌}
use mathlib.Core.List.{List, [], ◌∷◌, ◌++◌}
use native.Mathlib.Omega.{arith}
use secure_vault.Prelude.Tests.{◌==◌, if◌then◌else◌, Bool-cases, ==_iff}
use secure_vault.Prelude.Lists.{length, All}

-- `c in xs`
abbrev pub contains : ℕ → List ℕ → Bool
contains c [] = false
contains c (x ∷ xs) = c == x || contains c xs

abbrev pub one : ℕ → ℕ → ℕ
one c x = if c == x then 1 else 0

abbrev pub count : ℕ → List ℕ → ℕ
count c [] = 0
count c (x ∷ xs) = one c x + count c xs

-- `xs[i]`, with a default where there is none.
abbrev pub get_or : List ℕ → ℕ → ℕ → ℕ
get_or [] i d = d
get_or (x ∷ xs) zero d = x
get_or (x ∷ xs) (suc i) d = get_or xs i d

-- `xs[i] = v`; nothing is written out of bounds.
abbrev pub set : List ℕ → ℕ → ℕ → List ℕ
set [] i v = []
set (x ∷ xs) zero v = v ∷ xs
set (x ∷ xs) (suc i) v = x ∷ set xs i v

-- `xs[i], xs[j] = xs[j], xs[i]`
abbrev pub swap : ℕ → ℕ → List ℕ → List ℕ
swap i j xs = set (set xs i (get_or xs j 0)) j (get_or xs i 0)

pub length-set : (xs : List ℕ) (i v : ℕ) → length (set xs i v) ≡ length xs
length-set [] i v = refl
length-set (x ∷ xs) zero v = refl
length-set (x ∷ xs) (suc i) v = ap suc (length-set xs i v)

-- A write takes one occurrence of the old value away and adds one of the new.
count-set :
    (c : ℕ) (xs : List ℕ) (i v : ℕ)
    → i < length xs
    → count c (set xs i v) + one c (get_or xs i 0) ≡ count c xs + one c v
count-set c [] i v h = absurd (omega arith)
count-set c (x ∷ xs) zero v h = omega arith
count-set c (x ∷ xs) (suc i) v h = omega (arith, count-set c xs i v (omega arith))

get_or-set : (xs : List ℕ) (i j : ℕ) → get_or (set xs i (get_or xs j 0)) j 0 ≡ get_or xs j 0
get_or-set xs i j = get_or-set_from xs i j _ refl
  where
    get_or-set_from :
        (xs : List ℕ) (i j v : ℕ) → get_or xs j 0 ≡ v → get_or (set xs i v) j 0 ≡ get_or xs j 0
    get_or-set_from [] i j v e = refl
    get_or-set_from (x ∷ xs) zero zero v e = sym e
    get_or-set_from (x ∷ xs) zero (suc j) v e = refl
    get_or-set_from (x ∷ xs) (suc i) zero v e = refl
    get_or-set_from (x ∷ xs) (suc i) (suc j) v e = get_or-set_from xs i j v e

-- A swap inside the list keeps every count.
pub count-swap :
    (c i j : ℕ) (xs : List ℕ) → i < length xs → j < length xs → count c (swap i j xs) ≡ count c xs
count-swap c i j xs hi hj =
    let v = get_or xs j 0 in
    let ys = set xs i v in
    let first = count-set c xs i v hi in
    let second = count-set c ys j (get_or xs i 0) (omega (arith, length-set xs i v)) in
    let kept = ap (one c) (get_or-set xs i j) in omega (arith, first, second, kept)

pub contains-count : (c : ℕ) (xs : List ℕ) → contains c xs ≡ true → 0 < count c xs
contains-count c [] h = cc
contains-count c (x ∷ xs) h = ground (arith, contains-count c xs)

pub count-contains : (c : ℕ) (xs : List ℕ) → 0 < count c xs → contains c xs ≡ true
count-contains c [] h = absurd (omega arith)
count-contains c (x ∷ xs) h = ground (arith, count-contains c xs)

pub contains-get_or : (xs : List ℕ) (i : ℕ) → i < length xs → contains (get_or xs i 0) xs ≡ true
contains-get_or [] i h = absurd (omega arith)
contains-get_or (x ∷ xs) zero h = ground arith
contains-get_or (x ∷ xs) (suc i) h = ground (arith, contains-get_or xs i)

pub contains-append_left :
    (c : ℕ) (xs ys : List ℕ) → contains c xs ≡ true → contains c (xs ++ ys) ≡ true
contains-append_left c [] ys h = cc
contains-append_left c (x ∷ xs) ys h = ground (arith, contains-append_left c xs ys)

pub contains-append_right :
    (c : ℕ) (xs ys : List ℕ) → contains c ys ≡ true → contains c (xs ++ ys) ≡ true
contains-append_right c [] ys h = h
contains-append_right c (x ∷ xs) ys h = ground (arith, contains-append_right c xs ys h)

-- What holds of all items holds of one that occurs.
pub All-contains {κ} :
    (P : ℕ → Type κ) (c : ℕ) (xs : List ℕ) → All P xs → contains c xs ≡ true → P c
All-contains P c [] h m = cc
All-contains P c (x ∷ xs) h m = elim (Bool-cases (c == x)) [
  | inl same ↦ subst P (sym ((==_iff c x).0 same)) h.0
  | inr other ↦ All-contains P c xs h.1 (ground arith)
]

pub All-of_contains {κ} :
    (P : ℕ → Type κ) (xs : List ℕ) → ((c : ℕ) → contains c xs ≡ true → P c) → All P xs
All-of_contains P [] h = tt
All-of_contains P (x ∷ xs) h =
    (h x (ground arith), All-of_contains P xs (λ c m. h c (ground (arith, m))))
