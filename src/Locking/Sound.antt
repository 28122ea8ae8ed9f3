-- ===== src/Locking/Sound.antt =====
-- Processes that acquire, release and exit in any order, and what holds of them all along.
use secure_vault.Prelude.{
  ap, ==_iff, ℕ, ◌<◌, ◌≡◌, ◌≢◌, ◌⊎◌, inl, inr, refl, sym, ◌∙◌, subst, arith, Bool-cases, true,
  false, Option, none, some, ◌==◌, if◌then◌else◌,
}
use secure_vault.Locking.{FileLock, Kernel, Scope, set_holder, acquire, release, release_fd}
use secure_vault.Locking.Cases.{
  some≢none, some_inj, set_holder_same, set_holder_other, without_other, without-some, IsKnown,
  Refused, Granted, Released, acquire_cases, release-Released,
}

-- Each process has one lock object.
pub record System : Type 0 where
  pub locks : ℕ → FileLock
  pub kernel : Kernel

abbrev pub scope_of : ℕ → System → Scope
scope_of p s = record { self = s.locks p; kernel = s.kernel }

abbrev pub set_lock : ℕ → FileLock → (ℕ → FileLock) → ℕ → FileLock
set_lock p l locks q = if q == p then l else locks q

abbrev pub put_back : ℕ → Scope → System → System
put_back p l s = record { locks = set_lock p l.self s.locks; kernel = l.kernel }

-- The kernel closes the file of a process that exits or is killed.
abbrev pub exit : Scope → Scope
exit s = (release_fd false s.self.fd s).1

pub data Step : System → System → Type 0 where
  acquires : (p : ℕ) (s : System) → Step s (put_back p (acquire true (scope_of p s)).1 s)
  releases : (p : ℕ) (s : System) → Step s (put_back p (release true (scope_of p s)).1 s)
  exits : (p : ℕ) (s : System) → Step s (put_back p (exit (scope_of p s)) s)

-- Every process has a lock object without a file, and no lock is held.
pub record IsStart (s : System) : Type 0 where
  pub no_files : (p : ℕ) → (s.locks p).fd ≡ none
  pub no_holders : (n : ℕ) → s.kernel.holder n ≡ none

pub data Reachable : System → Type 0 where
  starts : (s : System) → IsStart s → Reachable s
  steps : (s s' : System) → Reachable s → Step s s' → Reachable s'

abbrev pub path_of : System → ℕ → ℕ
path_of s p = (s.locks p).lock_path

-- A process whose object has a file holds the lock with it, and no two have the same file.
pub record IsSound (s : System) : Type 0 where
  pub held : (p f : ℕ) → (s.locks p).fd ≡ some f → s.kernel.holder (path_of s p) ≡ some f
  pub own : (p q f : ℕ) → (s.locks p).fd ≡ some f → (s.locks q).fd ≡ some f → p ≡ q
  pub known : IsKnown s.kernel

-- The object of a process after one of them was put back.
pub set_lock_cases :
    (p : ℕ) (l : FileLock) (locks : ℕ → FileLock) (q : ℕ)
    → ((q ≡ p) × (set_lock p l locks q ≡ l)) ⊎ ((q ≢ p) × (set_lock p l locks q ≡ locks q))
set_lock_cases p l locks q = elim (Bool-cases (q == p)) [
  | inl same ↦ inl ((==_iff q p).0 same, rw same)
  | inr other ↦ inr (λ e. ground (arith, other, e), rw other)
]

start-IsSound : (s : System) → IsStart s → IsSound s
start-IsSound s start = record {
  held = λ p f e. absurd (some≢none f (sym e ∙ start.no_files p));
  own = λ p q f e e'. absurd (some≢none f (sym e ∙ start.no_files p));
  known = λ n f e. absurd (some≢none f (sym e ∙ start.no_holders n));
}

pub put-Refused :
    (p : ℕ) (l : Scope) (s : System)
    → Refused (scope_of p s) l
    → IsSound s
    → IsSound (put_back p l s)
put-Refused p l s (same, later, kept) sound = record {
  held = λ q f e.
      subst (λ (x : FileLock). l.kernel.holder x.lock_path ≡ some f) (sym (as_before q))
        (kept (path_of s q) ∙ sound.held q f (fd_before q f e));
  own = λ q q' f e e'. sound.own q q' f (fd_before q f e) (fd_before q' f e');
  known = λ n f e. omega (arith, later, sound.known n f (sym (kept n) ∙ e));
}
  where
    as_before : (q : ℕ) → set_lock p l.self s.locks q ≡ s.locks q
    as_before q = elim (set_lock_cases p l.self s.locks q) [
      | inl (at, new) ↦ new ∙ same ∙ ap s.locks (sym at)
      | inr (aside, old) ↦ old
    ]

    fd_before : (q f : ℕ) → (set_lock p l.self s.locks q).fd ≡ some f → (s.locks q).fd ≡ some f
    fd_before q f e = subst (λ (x : FileLock). x.fd ≡ some f) (as_before q) e

pub put-Granted :
    (p : ℕ) (l : Scope) (s : System)
    → Granted (scope_of p s) l
    → IsSound s
    → IsSound (put_back p l s)
put-Granted p l s (free, self, next, holder) sound = record {
  held = held_after;
  own = λ q q' f e e'. own_after q q' f (fd_after q f e) (fd_after q' f e');
  known = known_after;
}
  where
    path : ℕ
    path = path_of s p

    fd_after :
        (q f : ℕ)
        → (set_lock p l.self s.locks q).fd ≡ some f
        → ((q ≡ p) × (f ≡ s.kernel.next)) ⊎ ((s.locks q).fd ≡ some f)
    fd_after q f e = elim (set_lock_cases p l.self s.locks q) [
      | inl (at, new) ↦ inl (
        at,
        sym (some_inj s.kernel.next f (subst (λ (x : FileLock). x.fd ≡ some f) (new ∙ self) e)),
      )
      | inr (aside, old) ↦ inr (subst (λ (x : FileLock). x.fd ≡ some f) old e)
    ]

    held_after :
        (q f : ℕ)
        → (set_lock p l.self s.locks q).fd ≡ some f
        → l.kernel.holder (set_lock p l.self s.locks q).lock_path ≡ some f
    held_after q f e = elim (set_lock_cases p l.self s.locks q) [
      | inl (at, new) ↦
          subst (λ (x : FileLock). l.kernel.holder x.lock_path ≡ some f) (sym (new ∙ self))
            (holder (path_of s p)
              ∙ set_holder_same (path_of s p) s.kernel.holder (some s.kernel.next)
              ∙ subst (λ (x : FileLock). x.fd ≡ some f) (new ∙ self) e)
      | inr (aside, old) ↦
          let held = sound.held q f (subst (λ (x : FileLock). x.fd ≡ some f) old e) in
          subst (λ (x : FileLock). l.kernel.holder x.lock_path ≡ some f) (sym old)
            (holder (path_of s q)
              ∙ set_holder_other (path_of s p) s.kernel.holder (path_of s q) (some s.kernel.next)
                  (λ same. some≢none f (sym held ∙ ap s.kernel.holder same ∙ free))
              ∙ held)
    ]

    fresh : (q f : ℕ) → (s.locks q).fd ≡ some f → f < s.kernel.next
    fresh q f e = sound.known (path_of s q) f (sound.held q f e)

    own_after :
        (q q' f : ℕ)
        → ((q ≡ p) × (f ≡ s.kernel.next)) ⊎ ((s.locks q).fd ≡ some f)
        → ((q' ≡ p) × (f ≡ s.kernel.next)) ⊎ ((s.locks q').fd ≡ some f)
        → q ≡ q'
    own_after q q' f (inl (at, new)) (inl (at', new')) = at ∙ sym at'
    own_after q q' f (inl (at, new)) (inr e) = absurd (omega (arith, new, fresh q' f e))
    own_after q q' f (inr e) (inl (at, new)) = absurd (omega (arith, new, fresh q f e))
    own_after q q' f (inr e) (inr e') = sound.own q q' f e e'

    known_after : (n f : ℕ) → l.kernel.holder n ≡ some f → f < l.kernel.next
    known_after n f e = elim (Bool-cases (n == path_of s p)) [
      | inl same ↦
          let new = some_inj s.kernel.next f (
            sym (set_holder_same (path_of s p) s.kernel.holder (some s.kernel.next))
            ∙ ap (set_holder (path_of s p) (some s.kernel.next) s.kernel.holder)
                (sym ((==_iff n (path_of s p)).0 same))
            ∙ sym (holder n)
            ∙ e) in
          omega (arith, new, next)
      | inr other ↦
          let old =
            sym (
              set_holder_other (path_of s p) s.kernel.holder n (some s.kernel.next)
                (λ x. ground (arith, other, x)))
            ∙ sym (holder n)
            ∙ e in
          omega (arith, next, sound.known n f old)
    ]

pub put-Released :
    (p : ℕ) (l : Scope) (s : System) (file : Option ℕ)
    → (s.locks p).fd ≡ file
    → Released file (scope_of p s) l
    → IsSound s
    → IsSound (put_back p l s)
put-Released p l s none e0 h sound =
    put-Refused p l s
      (
        ap (λ (x : Scope). x.self) h,
        omega (arith, ap (λ (x : Scope). x.kernel.next) h),
        λ n. ap (λ (x : Scope). x.kernel.holder n) h,
      )
      sound
put-Released p l s (some fd) e0 (self, next, holder) sound = record {
  held = held_after;
  own = λ q q' f e e'. sound.own q q' f (fd_before q f e).1 (fd_before q' f e').1;
  known = λ n f e. omega (
    arith,
    next,
    sound.known n f (without-some (path_of s p) s.kernel.holder fd n f (sym (holder n) ∙ e)),
  );
}
  where
    fd_before :
        (q f : ℕ)
        → (set_lock p l.self s.locks q).fd ≡ some f
        → (set_lock p l.self s.locks q ≡ s.locks q) × ((s.locks q).fd ≡ some f)
    fd_before q f e = elim (set_lock_cases p l.self s.locks q) [
      | inl (at, new) ↦
          absurd (some≢none f (sym (subst (λ (x : FileLock). x.fd ≡ some f) (new ∙ self) e)))
      | inr (aside, old) ↦ (old, subst (λ (x : FileLock). x.fd ≡ some f) old e)
    ]

    held_after :
        (q f : ℕ)
        → (set_lock p l.self s.locks q).fd ≡ some f
        → l.kernel.holder (set_lock p l.self s.locks q).lock_path ≡ some f
    held_after q f e = elim (set_lock_cases p l.self s.locks q) [
      | inl (at, new) ↦
          absurd (some≢none f (sym (subst (λ (x : FileLock). x.fd ≡ some f) (new ∙ self) e)))
      | inr (aside, old) ↦
          let file = subst (λ (x : FileLock). x.fd ≡ some f) old e in
          let held = sound.held q f file in
          subst (λ (x : FileLock). l.kernel.holder x.lock_path ≡ some f) (sym old)
            (holder (path_of s q)
              ∙ without_other (path_of s p) s.kernel.holder fd (path_of s q) (λ same. aside (
                  sound.own q p f file
                    (e0 ∙ sym (sound.held p fd e0) ∙ ap s.kernel.holder (sym same) ∙ held)))
              ∙ held)
    ]

Step-IsSound : (s s' : System) → Step s s' → IsSound s → IsSound s'
unfolding release
Step-IsSound s s' (acquires p _) sound = elim (acquire_cases (scope_of p s) sound.known) [
  | inl (failed, refused) ↦ put-Refused p _ s refused sound
  | inr (returned, granted) ↦ put-Granted p _ s granted sound
]
Step-IsSound s s' (releases p _) sound =
    put-Released p _ s _ refl (release-Released true (scope_of p s)) sound
Step-IsSound s s' (exits p _) sound =
    put-Released p _ s _ refl (release-Released false (scope_of p s)) sound

pub Reachable-IsSound : (s : System) → Reachable s → IsSound s
Reachable-IsSound s (starts _ h) = start-IsSound s h
Reachable-IsSound s (steps before _ r step) =
    Step-IsSound before s step (Reachable-IsSound before r)
