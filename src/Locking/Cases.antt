-- ===== src/Locking/Cases.antt =====
-- What `acquire` and `release` do to the object and the kernel, case by case.
use secure_vault.Prelude.{
  sym, ◌∙◌, ap, ==_iff, ==_refl, ℕ, ◌+◌, ◌<◌, ◌≤◌, ◌≡◌, ◌≢◌, ◌⊎◌, inl, inr, refl, arith, Bool-cases,
  Option-cases, Bool, true, false, Option, none, some, ◌==◌,
}
use secure_vault.Errors.Result.{ok}
use secure_vault.Locking.{Kernel, Scope, set_holder, without, is_fd, acquire, release, release_fd}

-- No lock is held by a file that is yet to be opened.
abbrev pub IsKnown : Kernel → Type 0
IsKnown k = (n f : ℕ) → k.holder n ≡ some f → f < k.next

-- Nothing but the numbers of open files has changed.
abbrev pub Refused : Scope → Scope → Type 0
Refused s s' =
    (s'.self ≡ s.self)
    × (s.kernel.next ≤ s'.kernel.next)
    × ((n : ℕ) → s'.kernel.holder n ≡ s.kernel.holder n)

abbrev pub Granted : Scope → Scope → Type 0
Granted s s' =
    (s.kernel.holder s.self.lock_path ≡ none)
    × (s'.self ≡ record s.self { fd = some s.kernel.next })
    × (s'.kernel.next ≡ s.kernel.next + 1)
    × ((n : ℕ)
        → s'.kernel.holder n ≡ set_holder s.self.lock_path (some s.kernel.next) s.kernel.holder n)

is_fd_iff : (o : Option ℕ) (fd : ℕ) → (is_fd o fd ≡ true) → (o ≡ some fd)
is_fd_iff none fd h = cc
is_fd_iff (some f) fd h = ap some ((==_iff f fd).0 h)

-- Closing a file that holds no lock frees none.
without_none :
    (path fd : ℕ) (holder : ℕ → Option ℕ)
    → holder path ≢ some fd
    → (n : ℕ) → without path fd holder n ≡ holder n
without_none path fd holder h n = elim (Bool-cases (is_fd (holder path) fd)) [
  | inl same ↦ absurd (h (is_fd_iff (holder path) fd same))
  | inr other ↦ rw other
]

new_fd : (s : Scope) → IsKnown s.kernel → s.kernel.holder s.self.lock_path ≢ some s.kernel.next
new_fd s known e = omega (arith, known s.self.lock_path s.kernel.next e)

pub acquire_cases :
    (s : Scope)
    → IsKnown s.kernel
    → (((acquire true s).0 ≢ ok tt) × Refused s (acquire true s).1)
      ⊎ (((acquire true s).0 ≡ ok tt) × Granted s (acquire true s).1)
unfolding acquire
acquire_cases s known = elim (Bool-cases (s.kernel.fails 0)) [
  | inl fails ↦ rw fails (inl (λ e. cc, (refl, omega arith, λ n. refl)))
  | inr opens ↦ elim (Bool-cases (s.kernel.fails 1)) [
    | inl fails ↦
        rw (opens, fails) (inl (λ e. cc, (refl, omega arith, without_none _ _ _ (new_fd s known))))
    | inr answers ↦ elim (Option-cases (s.kernel.holder s.self.lock_path)) [
      | inl free ↦ rw (opens, answers, free) (inr (refl, (refl, refl, refl, λ n. refl)))
      | inr (f, held) ↦
          rw (opens, answers, held)
            (inl (λ e. cc, (refl, omega arith, without_none _ _ _ (new_fd s known))))
    ]
  ]
]

-- After `release` the object has no open file, and the lock that its file held is free.
abbrev pub Released : Option ℕ → Scope → Scope → Type 0
Released none s s' = s' ≡ s
Released (some fd) s s' =
    (s'.self ≡ record s.self { fd = none })
    × (s'.kernel.next ≡ s.kernel.next)
    × ((n : ℕ) → s'.kernel.holder n ≡ without s.self.lock_path fd s.kernel.holder n)

without_twice :
    (path fd : ℕ) (holder : ℕ → Option ℕ) (n : ℕ)
    → without path fd (without path fd holder) n ≡ without path fd holder n
without_twice path fd holder n = elim (Bool-cases (is_fd (holder path) fd)) [
  | inl same ↦ rw (same, ==_refl path)
  | inr other ↦ rw (other, other)
]

pub release-Released : (has_fcntl : Bool) (s : Scope) → Released s.self.fd s (release has_fcntl s).1
unfolding release
release-Released has_fcntl s = released_fd has_fcntl s.self.fd
  where
    released_fd : (b : Bool) (fd : Option ℕ) → Released fd s (release_fd b fd s).1
    released_fd b none = refl
    released_fd false (some fd) = (refl, refl, λ n. refl)
    released_fd true (some fd) = elim (Bool-cases (s.kernel.fails 0)) [
      | inl fails ↦ rw fails (refl, refl, λ n. refl)
      | inr answers ↦ rw answers (refl, refl, without_twice s.self.lock_path fd s.kernel.holder)
    ]

pub some_inj : (f g : ℕ) → ◌≡◌ {A = Option ℕ} (some f) (some g) → f ≡ g
some_inj f g e = cc

pub some≢none : (f : ℕ) → ◌≢◌ {A = Option ℕ} (some f) none
some≢none f e = cc

module _ (path : ℕ) (holder : ℕ → Option ℕ) where
  pub set_holder_same : (v : Option ℕ) → set_holder path v holder path ≡ v
  set_holder_same v = rw (==_refl path)

  pub set_holder_other : (n : ℕ) (v : Option ℕ) → n ≢ path → set_holder path v holder n ≡ holder n
  set_holder_other n v other = ground arith

  pub without_other : (fd n : ℕ) → n ≢ path → without path fd holder n ≡ holder n
  without_other fd n other = elim (Bool-cases (is_fd (holder path) fd)) [
    | inl same ↦ rw same (set_holder_other n none other)
    | inr different ↦ rw different
  ]

  -- Freeing a lock gives none to anybody.
  pub without-some : (fd n f : ℕ) → without path fd holder n ≡ some f → holder n ≡ some f
  without-some fd n f e = elim (Bool-cases (n == path)) [
    | inl same ↦ elim (Bool-cases (is_fd (holder path) fd)) [
      | inl held ↦ let gone = (rw (held, same) at e) in absurd (some≢none f (sym gone))
      | inr free ↦ rw free at e
    ]
    | inr other ↦ sym (without_other fd n (λ x. ground (arith, other, x))) ∙ e
  ]

  pub without_self : (fd : ℕ) → holder path ≡ some fd → without path fd holder path ≡ none
  without_self fd e = rw (e, ==_refl fd, ==_refl path)
