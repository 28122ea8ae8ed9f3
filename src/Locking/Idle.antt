-- ===== src/Locking/Idle.antt =====
-- Changes of the lock objects and of the kernel's table that keep the locks sound.
use secure_vault.Prelude.{
  ℕ, ◌≤◌, ◌≡◌, inl, inr, refl, sym, ap, ◌∙◌, subst, arith, Bool-cases, ==_refl, Option, some, none,
  ◌==◌,
}
use secure_vault.Locking.{FileLock, Kernel, Scope}
use secure_vault.Locking.Cases.{Granted, Released, some≢none}
use secure_vault.Locking.Sound.{
  System, IsSound, scope_of, set_lock, set_lock_cases, put_back, put-Granted, put-Released,
}

pub ext-IsSound :
    (a b : System) → ((q : ℕ) → b.locks q ≡ a.locks q) → b.kernel ≡ a.kernel → IsSound a → IsSound b
ext-IsSound a b same kernel sound =
    subst IsSound (λ i. record { locks = λ q. (sym (same q)) i; kernel = (sym kernel) i }) sound

-- A released object has no file.
pub Released-idle :
    (file : Option ℕ) (a b : Scope) → a.self.fd ≡ file → Released file a b → b.self.fd ≡ none
Released-idle none a b e same = ap (λ (x : Scope). x.self.fd) same ∙ e
Released-idle (some f) a b e (self, next, holder) = ap (λ (l : FileLock). l.fd) self

-- The kernel's table is the same and numbers of open files were used up.
pub kept-IsSound :
    (s : System) (k : Kernel)
    → ((n : ℕ) → k.holder n ≡ s.kernel.holder n)
    → s.kernel.next ≤ k.next
    → IsSound s
    → IsSound (record s { kernel = k })
kept-IsSound s k same later sound = record {
  held = λ p f e. same _ ∙ sound.held p f e;
  own = sound.own;
  known = λ n f e. omega (arith, later, sound.known n f (sym (same n) ∙ e));
}

module _ (q : ℕ) (l : FileLock) (s : System) where
  pub set_lock_self : set_lock q l s.locks q ≡ l
  set_lock_self = rw (==_refl q)

  -- A process without a file takes another lock object without a file.
  pub idle-IsSound :
      (s.locks q).fd ≡ none
      → l.fd ≡ none
      → IsSound s
      → IsSound (record s { locks = set_lock q l s.locks })
  idle-IsSound old new sound = record {
    held = λ p f e.
        let (same, at) = before p f e in
        subst (λ (x : FileLock). s.kernel.holder x.lock_path ≡ some f) (sym same)
          (sound.held p f at);
    own = λ p p' f e e'. sound.own p p' f (before p f e).1 (before p' f e').1;
    known = sound.known;
  }
    where
      before :
          (p f : ℕ)
          → (set_lock q l s.locks p).fd ≡ some f
          → (set_lock q l s.locks p ≡ s.locks p) × ((s.locks p).fd ≡ some f)
      before p f e = elim (set_lock_cases q l s.locks p) [
        | inl (at, is_new) ↦
            absurd (some≢none f (sym (subst (λ (x : FileLock). x.fd ≡ some f) is_new e) ∙ new))
        | inr (aside, is_old) ↦ (is_old, subst (λ (x : FileLock). x.fd ≡ some f) is_old e)
      ]

  -- Putting twice is putting once.
  pub twice :
      (l' : FileLock) (p : ℕ) → set_lock q l' s.locks p ≡ set_lock q l' (set_lock q l s.locks) p
  twice l' p = elim (Bool-cases (p == q)) [ inl same ↦ rw same | inr other ↦ rw other ]

  -- A process without a file makes a lock object and acquires it.
  pub new-Granted-IsSound :
      (t : Scope)
      → (s.locks q).fd ≡ none
      → l.fd ≡ none
      → Granted (record { self = l; kernel = s.kernel }) t
      → IsSound s
      → IsSound (put_back q t s)
  new-Granted-IsSound t old new granted sound =
      let s' : System = record s { locks = set_lock q l s.locks } in
      let at : scope_of q s' ≡ record { self = l; kernel = s.kernel } =
        λ i. record { self = set_lock_self i; kernel = s.kernel } in
      ext-IsSound (put_back q t s') (put_back q t s) (twice t.self) refl (
        put-Granted q t s' (subst (λ x. Granted x t) (sym at) granted) (idle-IsSound old new sound))

-- A process without a file makes a lock object, acquires it and releases it, and keeps the old one.
pub new-Released-IsSound :
    (q : ℕ) (l : FileLock) (s : System) (t t' : Scope)
    → (s.locks q).fd ≡ none
    → l.fd ≡ none
    → Granted (record { self = l; kernel = s.kernel }) t
    → Released t.self.fd t t'
    → IsSound s
    → IsSound (put_back q (record { self = s.locks q; kernel = t'.kernel }) s)
new-Released-IsSound q l s t t' old new granted released sound =
    let held = put_back q t s in
    let freed = put_back q t' held in
    let at : scope_of q held ≡ t =
      λ i. record { self = set_lock_self q t.self s i; kernel = t.kernel } in
    let free =
      put-Released q t' held t.self.fd (ap (λ (x : Scope). x.self.fd) at)
        (subst (λ x. Released t.self.fd x t') (sym at) released)
        (new-Granted-IsSound q l s t old new granted sound) in
    let no_file =
      ap (λ (x : FileLock). x.fd) (set_lock_self q t'.self held)
      ∙ Released-idle t.self.fd t t' refl released in
    ext-IsSound (record freed { locks = set_lock q (s.locks q) freed.locks })
      (put_back q (record { self = s.locks q; kernel = t'.kernel }) s)
      (λ n. twice q t.self s (s.locks q) n ∙ twice q t'.self held (s.locks q) n) refl
      (idle-IsSound q (s.locks q) freed no_file old free)
