-- ===== src/PasswordGen/Generate.antt =====
-- What `generate_password` promises, for every outcome of the random choices.
use secure_vault.Prelude.{
  All-append, All-of_contains, All-contains, All-map, ℕ, zero, suc, ◌+◌, ◌-◌, ◌%◌, ◌≤◌, ◌<◌, ◌≡◌,
  refl, ap, arith, List, [], ◌∷◌, ◌++◌, Text, contains, All, length, count, swap, get_or,
  length-append, length-set, count-swap, contains-get_or, contains-count, count-contains,
  contains-append_left, contains-append_right, true, false, ◌∙◌, set, ◌⊎◌, inl, inr,
}
use secure_vault.Errors.Result.{ok}
use secure_vault.Random.{Entropy, choice, shuffle_from, advance}
use secure_vault.PasswordGen.{PasswordPolicy, kept_pools, validate_policy, is_empty}
use secure_vault.PasswordGen.Policy.{
  IsFull, kept_pools-IsFull, kept_pools_some, pools_lem, validate_policy_iff,
}
use secure_vault.PasswordGen.Draw.{join, choose_each, choose_many, draw_password, generate_password}

-- A choice from a pool that is not empty is one of its characters.
choice_total :
    (xs : Text) (e : Entropy)
    → is_empty xs ≡ false
    → (c : ℕ) × (contains c xs ≡ true) × (choice xs e ≡ (ok c, advance 1 e))
choice_total [] e h = cc
choice_total (x ∷ xs) e h =
    let i = e 0 % length (x ∷ xs) in
    (get_or (x ∷ xs) i 0, contains-get_or (x ∷ xs) i (omega arith), refl)

-- One character of each pool, in the order of the pools.
abbrev pub OneOfEach : Text → List Text → Type 0
OneOfEach [] [] = Unit
OneOfEach (c ∷ cs) (pool ∷ rest) = (contains c pool ≡ true) × OneOfEach cs rest
OneOfEach _ _ = ⊥

choose_each_total :
    (found : List Text) (e : Entropy)
    → IsFull found
    → (cs : Text) × (e' : Entropy) × OneOfEach cs found × (choose_each found e ≡ (ok cs, e'))
unfolding choose_each
choose_each_total [] e h = ([], e, tt, refl)
choose_each_total (pool ∷ rest) e h =
    let (c, inside, drawn) = choice_total pool e h.0 in
    let (cs, e', each, drawn_rest) = choose_each_total rest (advance 1 e) h.1 in
    (c ∷ cs, e', (inside, each), rw (drawn, drawn_rest))

choose_many_total :
    (n : ℕ) (xs : Text) (e : Entropy)
    → is_empty xs ≡ false
    → (cs : Text) × (e' : Entropy) × (length cs ≡ n)
      × All (λ c. contains c xs ≡ true) cs
      × (choose_many n xs e ≡ (ok cs, e'))
unfolding choose_many
choose_many_total zero xs e h = ([], e, refl, tt, refl)
choose_many_total (suc n) xs e h =
    let (c, inside, drawn) = choice_total xs e h in
    let (cs, e', size, each, drawn_rest) = choose_many_total n xs (advance 1 e) h in
    (c ∷ cs, e', ap suc size, (inside, each), rw (drawn, drawn_rest))

length-swap : (i j : ℕ) (xs : Text) → length (swap i j xs) ≡ length xs
length-swap i j xs =
    rw (length-set (set xs i (get_or xs j 0)) j (get_or xs i 0), length-set xs i (get_or xs j 0))

-- The swaps of a shuffle keep the length and every count.
shuffle_from_total :
    (i : ℕ) (xs : Text) (e : Entropy)
    → (i < length xs) ⊎ (i ≡ 0)
    → (ys : Text) × (e' : Entropy) × (length ys ≡ length xs)
      × ((c : ℕ) → count c ys ≡ count c xs)
      × (shuffle_from i xs e ≡ (ok ys, e'))
unfolding shuffle_from advance
shuffle_from_total zero xs e h = (xs, e, refl, λ c. refl, refl)
shuffle_from_total (suc i) xs e h =
    let j = e 0 % (suc i + 1) in
    let xs' = swap (suc i) j xs in
    let size' = length-swap (suc i) j xs in
    let (ys, e', size, same, run) =
      shuffle_from_total i xs' (advance 1 e) (inl (omega (arith, h, size'))) in
    (
      ys,
      e',
      size ∙ size',
      λ c. same c ∙ count-swap c (suc i) j xs (omega (arith, h)) (omega (arith, h)),
      run,
    )

OneOfEach-join :
    (cs : Text) (found : List Text)
    → OneOfEach cs found
    → (length cs ≡ length found) × All (λ c. contains c (join found) ≡ true) cs
OneOfEach-join [] [] h = (refl, tt)
OneOfEach-join [] (pool ∷ rest) h = absurd h
OneOfEach-join (c ∷ cs) [] h = absurd h
OneOfEach-join (c ∷ cs) (pool ∷ rest) h =
    let (size, each) = OneOfEach-join cs rest h.1 in
    (
      ap suc size,
      (
        contains-append_left c pool (join rest) h.0,
        All-map (λ x. contains-append_right x pool (join rest)) cs each,
      ),
    )

-- Each pool has a character in the text.
abbrev pub Covers : List Text → Text → Type 0
Covers found pw = All (λ pool. (c : ℕ) × (contains c pool ≡ true) × (contains c pw ≡ true)) found

OneOfEach-Covers : (cs : Text) (found : List Text) → OneOfEach cs found → Covers found cs
OneOfEach-Covers [] [] h = tt
OneOfEach-Covers [] (pool ∷ rest) h = absurd h
OneOfEach-Covers (c ∷ cs) [] h = absurd h
OneOfEach-Covers (c ∷ cs) (pool ∷ rest) h = (
  (c, h.0, ground arith),
  All-map (λ pool' (x, inside, drawn). (x, inside, ground (arith, drawn))) rest
      (OneOfEach-Covers cs rest h.1),
)

is_empty-join :
    (found : List Text) → IsFull found → is_empty found ≡ false → is_empty (join found) ≡ false
is_empty-join [] h some = some
is_empty-join ([] ∷ rest) h some = cc
is_empty-join ((x ∷ xs) ∷ rest) h some = refl

-- The characters that are drawn for a list of pools: one of each, the rest from all of them, and
-- the order is shuffled.
shuffles : (xs : Text) → (length xs - 1 < length xs) ⊎ (length xs - 1 ≡ 0)
shuffles [] = inr refl
shuffles (x ∷ xs) = inl (omega arith)

draw_total :
    (found : List Text) (n : ℕ) (e : Entropy)
    → IsFull found
    → is_empty found ≡ false
    → length found ≤ n
    → (pw : Text) × (length pw ≡ n)
      × All (λ c. contains c (join found) ≡ true) pw
      × Covers found pw
      × ((draw_password found n e).0 ≡ ok pw)
unfolding draw_password
draw_total found n e full some fits =
    let (cs, e1, each, run1) = choose_each_total found e full in
    let (size_cs, in_cs) = OneOfEach-join cs found each in
    let (more, e2, size_more, in_more, run2) =
      choose_many_total (n - length cs) (join found) e1 (is_empty-join found full some) in
    let size_both = length-append cs more in
    let (pw, e3, size, same, run3) =
      shuffle_from_total (length (cs ++ more) - 1) (cs ++ more) e2 (shuffles (cs ++ more)) in
    let kept = (λ (c : ℕ) (m : contains c (cs ++ more) ≡ true).
      count-contains c pw (omega (arith, same c, contains-count c (cs ++ more) m))) in
    let back = (λ (c : ℕ) (m : contains c pw ≡ true).
      count-contains c (cs ++ more) (omega (arith, same c, contains-count c pw m))) in
    let all_in = All-append (λ (c : ℕ). contains c (join found) ≡ true) cs more in_cs in_more in
    (
      pw,
      omega (arith, size, size_both, size_more, size_cs),
      All-of_contains (λ c. contains c (join found) ≡ true) pw
          (λ c m.
            All-contains (λ c. contains c (join found) ≡ true) c (cs ++ more) all_in (back c m)),
      All-map
          (λ pool (c, inside, drawn). (c, inside, kept c (contains-append_left c cs more drawn)))
          found (OneOfEach-Covers cs found each),
      rw (run1, run2, run3),
    )

-- Every policy that validate accepts yields a password, whatever the random choices: it has the
-- policy's length, every character comes from a pool of the policy, and every pool has a character
-- in it.
pub generate_password_total :
    (p : PasswordPolicy) (e : Entropy)
    → validate_policy p ≡ ok tt
    → (pw : Text) × (length pw ≡ p.length)
      × All (λ c. contains c (join (kept_pools p)) ≡ true) pw
      × Covers (kept_pools p) pw
      × ((generate_password p e).0 ≡ ok pw)
unfolding generate_password
generate_password_total p e h =
    let (low, high, on) = (validate_policy_iff p).0 h in
    let (full, few) = kept_pools-IsFull p on in
    let (pw, size, inside, covers, run) =
      draw_total (kept_pools p) p.length e full (kept_pools_some p on) (omega arith) in
    (pw, size, inside, covers, rw (h, pools_lem p on, run))
