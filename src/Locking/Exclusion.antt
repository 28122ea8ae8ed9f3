-- ===== src/Locking/Exclusion.antt =====
-- Mutual exclusion between the processes, and that a released lock can be taken.
use secure_vault.Prelude.{subst, ℕ, ◌≡◌, ◌≢◌, inl, inr, refl, sym, ap, ◌∙◌, true, false, some, none}
use secure_vault.Errors.{crash}
use secure_vault.Errors.Result.{Result, ok, err}
use secure_vault.Errors.Action.{Action}
use secure_vault.Errors.Keeps.{Keeps}
use secure_vault.Locking.{FileLock, Scope, acquire, release, then_release, with_file_lock, without}
use secure_vault.Locking.Cases.{
  IsKnown, set_holder_same, Released, Refused, acquire_cases, release-Released, some≢none, some_inj,
  without_self,
}
use secure_vault.Locking.Sound.{System, Reachable, Reachable-IsSound, path_of, scope_of}

-- Whatever the processes did, two of them never hold the lock of one vault at a time.
pub mutual_exclusion :
    (s : System) (p q f g : ℕ)
    → Reachable s
    → (s.locks p).fd ≡ some f
    → (s.locks q).fd ≡ some g
    → path_of s p ≡ path_of s q
    → p ≡ q
mutual_exclusion s p q f g r hp hq same =
    let sound = Reachable-IsSound s r in
    let one_file =
      some_inj f g (sym (sound.held p f hp) ∙ ap s.kernel.holder same ∙ sound.held q g hq) in
    sound.own p q f hp (hq ∙ ap some (sym one_file))

-- While a process holds the lock of a vault, acquire raises for it in every process, and leaves the
-- lock object and every lock as they were.
pub acquire_while_held :
    (s : System) (p q g : ℕ)
    → Reachable s
    → (s.locks q).fd ≡ some g
    → path_of s p ≡ path_of s q
    → ((acquire true (scope_of p s)).0 ≢ ok tt)
      × Refused (scope_of p s) (acquire true (scope_of p s)).1
acquire_while_held s p q g r hq same =
    let sound = Reachable-IsSound s r in
    elim (acquire_cases (scope_of p s) sound.known) [
      | inl refused ↦ refused
      | inr (returned, (free, now, fresh, holders)) ↦
          absurd (some≢none g (sym (sound.held q g hq) ∙ ap s.kernel.holder (sym same) ∙ free))
    ]

pub acquire_free :
    (s : Scope)
    → s.kernel.fails 0 ≡ false
    → s.kernel.fails 1 ≡ false
    → s.kernel.holder s.self.lock_path ≡ none
    → (acquire true s).0 ≡ ok tt
unfolding acquire
acquire_free s opens answers free = rw (opens, answers, free)

-- After a process that holds the lock of a vault releases it, any other acquires it, if neither of
-- the two calls of acquire fails.
pub acquire-release :
    (s : System) (p q f : ℕ)
    → Reachable s
    → (s.locks p).fd ≡ some f
    → path_of s p ≡ path_of s q
    → (release true (scope_of p s)).1.kernel.fails 0 ≡ false
    → (release true (scope_of p s)).1.kernel.fails 1 ≡ false
    → (acquire true record { self = s.locks q; kernel = (release true (scope_of p s)).1.kernel }).0
      ≡ ok tt
acquire-release s p q f r hp same opens answers =
    let sound = Reachable-IsSound s r in
    let (same_path, same_next, freed) =
      subst (λ file. Released file (scope_of p s) (release true (scope_of p s)).1) hp
        (release-Released true (scope_of p s)) in
    acquire_free record { self = s.locks q; kernel = (release true (scope_of p s)).1.kernel } opens
      answers
      (freed (path_of s q)
        ∙ ap (without (path_of s p) f s.kernel.holder) (sym same)
        ∙ without_self (path_of s p) s.kernel.holder f (sound.held p f hp))

-- What a block leaves that did not crash is released.
then_release_state :
    {A : Type 0} (r : Result A) (s : Scope)
    → r ≢ err crash
    → (then_release true (r, s)).1 ≡ (release true s).1
then_release_state (err crash) s lives = absurd (lives refl)
then_release_state r s lives = refl

-- A block that runs with the lock leaves the object without a file and the lock free, whether it
-- returns or raises: acquire returned, and the block left the object and the lock as they were and
-- did not crash.
pub with_file_lock_frees :
    {A : Type 0} (body : Action Scope A) (s : Scope)
    → IsKnown s.kernel
    → (acquire true s).0 ≡ ok tt
    → Keeps
        (λ t.
          (t.self ≡ (acquire true s).1.self)
          × (t.kernel.holder s.self.lock_path ≡ some s.kernel.next))
        body
    → (body (acquire true s).1).0 ≢ err crash
    → let x = with_file_lock true body s in
      (x.1.self.fd ≡ none) × (x.1.kernel.holder s.self.lock_path ≡ none)
unfolding with_file_lock
with_file_lock_frees body s known returned keeps lives = elim (acquire_cases s known) [
  | inl (fails, refused) ↦ absurd (fails returned)
  | inr (_, (free, self, next, holder)) ↦
      let t = body (acquire true s).1 in
      let (same, held) = keeps.at (acquire true s).1 (
        refl,
        holder s.self.lock_path
            ∙ set_holder_same s.self.lock_path s.kernel.holder (some s.kernel.next),
      ) in
      let run : (with_file_lock true body s).1 ≡ (release true t.1).1 =
        rw returned (then_release_state t.0 t.1 lives) in
      let object = same ∙ self in
      let (closed, later, freed) =
        subst (λ file. Released file t.1 (release true t.1).1) (ap (λ (l : FileLock). l.fd) object)
          (release-Released true t.1) in
      let path = ap (λ (l : FileLock). l.lock_path) object in
      (
        ap (λ (x : Scope). x.self.fd) run ∙ ap (λ (l : FileLock). l.fd) closed,
        ap (λ (x : Scope). x.kernel.holder s.self.lock_path) run
            ∙ freed s.self.lock_path
            ∙ ap (λ n. without n s.kernel.next t.1.kernel.holder s.self.lock_path) path
            ∙ without_self s.self.lock_path t.1.kernel.holder s.kernel.next held,
      )
]
