-- ===== src/PasswordGen/Clear.antt =====
-- `generate_password` with `exclude_ambiguous`.
use secure_vault.Prelude.{
  All-append, All-of_contains, All-contains, sym, ◌∙◌, subst, Bool-cases, map, inl, inr, ◌≡◌, arith,
  List, [], ◌∷◌, Text, contains, All, true, false,
}
use secure_vault.Errors.Result.{ok, ok_inj, Result-cases}
use secure_vault.Random.{Entropy}
use secure_vault.PasswordGen.{
  ambiguous, strip, non_empty, PasswordPolicy, selected_pools, kept_pools, validate_policy,
  is_empty,
}
use secure_vault.PasswordGen.Draw.{join, generate_password}
use secure_vault.PasswordGen.Generate.{generate_password_total}

-- No character of the text is an ambiguous one.
abbrev pub IsClear : Text → Type 0
IsClear = All (λ c. contains c ambiguous ≡ false)

strip-IsClear : (xs : Text) → IsClear (strip xs)
unfolding strip
strip-IsClear [] = tt
strip-IsClear (x ∷ xs) = elim (Bool-cases (contains x ambiguous)) [
  | inl drop_it ↦ rw drop_it (strip-IsClear xs)
  | inr keep_it ↦ rw keep_it (keep_it, strip-IsClear xs)
]

kept-IsClear : (xs : List Text) → All IsClear (non_empty (map strip xs))
kept-IsClear [] = tt
kept-IsClear (x ∷ xs) = elim (Bool-cases (is_empty (strip x))) [
  | inl drop_it ↦ rw drop_it (kept-IsClear xs)
  | inr keep_it ↦ rw keep_it (strip-IsClear x, kept-IsClear xs)
]

join-IsClear : (found : List Text) → All IsClear found → IsClear (join found)
join-IsClear [] h = tt
join-IsClear (pool ∷ rest) h =
    All-append (λ c. contains c ambiguous ≡ false) pool (join rest) h.0 (join-IsClear rest h.1)

kept_pools-IsClear :
    (p : PasswordPolicy) → p.exclude_ambiguous ≡ true → IsClear (join (kept_pools p))
unfolding kept_pools selected_pools
kept_pools-IsClear p strict =
    rw strict
      (join-IsClear (non_empty (map strip (selected_pools p))) (kept-IsClear (selected_pools p)))

-- With exclude_ambiguous, a password that is returned has none of the ambiguous characters.
pub generate_password_unambiguous :
    (p : PasswordPolicy) (e : Entropy) (pw : Text)
    → p.exclude_ambiguous ≡ true
    → (generate_password p e).0 ≡ ok pw
    → IsClear pw
unfolding generate_password
generate_password_unambiguous p e pw strict run = elim (Result-cases (validate_policy p)) [
  | inl (raised, refused) ↦ absurd (ground (arith, refused, run))
  | inr (done, accepted) ↦
      let (pw', size, inside, covers, run') = generate_password_total p e accepted in
      let same = ok_inj pw' pw (sym run' ∙ run) in
      let clear = kept_pools-IsClear p strict in
      subst IsClear same (
        All-of_contains (λ c. contains c ambiguous ≡ false) pw'
          (λ c m.
            All-contains (λ c. contains c ambiguous ≡ false) c (join (kept_pools p)) clear
              (All-contains (λ c. contains c (join (kept_pools p)) ≡ true) c pw' inside m)))
]
