-- ===== src/Storage/Cleanup.antt =====
-- The temporary file of a `write_atomic` that raises.
use secure_vault.Prelude.{
  subst, ◌+◌, arith, ℕ, zero, suc, ◌≡◌, ◌≢◌, refl, sym, ap, Bool, true, false, if◌then◌else◌,
  Option-cases, none, some, inl, inr, Bytes,
}
use secure_vault.Storage.{
  Files, Exception, os_error, interrupt, Ending, finished, raised, crashed, Outcome, Disk, Command,
  call, after, raise, skip, ◌>>◌, assign, change_file, whole, no_effect, mkstemp, write_some, flush,
  fsync, fchmod, write_file, replace, fsync_directory, unlink, write_atomic, on_os_error,
  except_os_error, except_reraise, vault_file_mode, new_temp,
}
use secure_vault.Storage.Triple.{assign_same}
use secure_vault.Storage.Calm.{IsCalm, Succeeds, Runs, call-Runs}

-- At most one call to come does not return.
abbrev pub IsMild : Disk → Type 0
IsMild d = (k : ℕ) × ((i : ℕ) → i ≢ k → (d.outcomes i).ending ≡ finished)

IsCalm-IsMild : (d : Disk) → IsCalm d → IsMild d
IsCalm-IsMild d calm = (0, λ i other. calm i)

-- A command that raised has used the one failure up.
abbrev Leaves : Ending × Disk → Type 0
Leaves (finished, d) = IsMild d
Leaves (raised e, d) = IsCalm d
Leaves (crashed, d) = Unit

abbrev Mildly : Command → Type 0
Mildly m = (d : Disk) → IsMild d → Leaves (m d)

-- A command after which, from a calm disk, an exception is raised.
abbrev Calmly : Command → Type 0
Calmly m = (d : Disk) → IsCalm d → Leaves (m d)

call-Mildly : (effect : Outcome → Files → Files) → Mildly (call effect)
call-Mildly effect d (zero, fine) = leaves_calm (d.outcomes 0).ending
  where
    leaves_calm : (e : Ending) → Leaves (e, (call effect d).1)
    leaves_calm finished = (0, λ i other. fine (1 + i) (λ x. omega (arith, x)))
    leaves_calm (raised e) = λ i. fine (1 + i) (λ x. omega (arith, x))
    leaves_calm crashed = tt
call-Mildly effect d (suc k, fine) =
    subst (λ e. Leaves (e, (call effect d).1)) (sym (fine 0 (λ x. omega (arith, x))))
      (k, λ i other. fine (1 + i) (λ x. other (omega (arith, x))))

after-Leaves :
    (next : Command) (handle : Exception → Command) (r : Ending × Disk)
    → Leaves r
    → Mildly next
    → ((e : Exception) → Calmly (handle e))
    → Leaves (after next handle r)
after-Leaves next handle (finished, d) h n c = n d h
after-Leaves next handle (raised e, d) h n c = c e d h
after-Leaves next handle (crashed, d) h n c = tt

after-Mildly :
    (body next : Command) (handle : Exception → Command)
    → Mildly body
    → Mildly next
    → ((e : Exception) → Calmly (handle e))
    → Mildly (λ d. after next handle (body d))
after-Mildly body next handle b n c d mild = after-Leaves next handle (body d) (b d mild) n c

raise-Calmly : (e : Exception) → Calmly (raise e)
raise-Calmly e d calm = calm

skip-Mildly : Mildly skip
skip-Mildly d mild = mild

-- `cleanup; raise`, from a calm disk.
cleanup-Calmly : (m : Command) (e : Exception) → Runs m → Calmly (m >> raise e)
cleanup-Calmly m e runs d calm = cleaned (m d) (runs d calm)
  where
    cleaned : (r : Ending × Disk) → Succeeds r → Leaves (after (raise e) raise r)
    cleaned (finished, d') h = h
    cleaned (raised e', d') h = absurd h
    cleaned (crashed, d') h = absurd h

on_os_error-Calmly : (e : Exception) → Calmly (on_os_error skip e)
on_os_error-Calmly os_error d calm = IsCalm-IsMild d calm
on_os_error-Calmly interrupt d calm = calm

write_file-Mildly : (tmp : ℕ) (bytes : Bytes) → Mildly (write_file tmp bytes)
unfolding write_file
write_file-Mildly tmp bytes =
    after-Mildly (call no_effect) _ raise (call-Mildly no_effect)
      (after-Mildly (write_some tmp bytes >> flush tmp bytes >> fsync tmp) (call no_effect) _
        (after-Mildly (write_some tmp bytes) (flush tmp bytes >> fsync tmp) raise
          (search call-Mildly)
          (after-Mildly (flush tmp bytes) (fsync tmp) raise (search call-Mildly)
            (search call-Mildly) raise-Calmly)
          raise-Calmly)
        (call-Mildly no_effect) (λ e. cleanup-Calmly (write_some tmp bytes) e (search call-Runs)))
      raise-Calmly

fsync_directory-Mildly : Mildly fsync_directory
unfolding fsync_directory
fsync_directory-Mildly =
    after-Mildly (call no_effect) _ (on_os_error skip) (call-Mildly no_effect)
      (after-Mildly (except_os_error (call no_effect) skip skip) (call no_effect) _
        (after-Mildly (call no_effect) skip (on_os_error skip) (call-Mildly no_effect) skip-Mildly
          on_os_error-Calmly)
        (call-Mildly no_effect) (λ e. cleanup-Calmly (call no_effect) e (call-Runs no_effect)))
      on_os_error-Calmly

fchmod-Mildly : (b : Bool) (tmp : ℕ) → Mildly (if b then fchmod tmp else skip)
fchmod-Mildly true tmp =
    call-Mildly (whole (change_file tmp (λ f. record f { mode = vault_file_mode })))
fchmod-Mildly false tmp = skip-Mildly

-- From a calm disk the temporary file is removed.
unlink_calm :
    (tmp : ℕ) (d : Disk)
    → IsCalm d
    → ((unlink tmp d).0 ≡ finished) × ((unlink tmp d).1.files tmp ≡ none)
unfolding unlink
unlink_calm tmp d calm = elim (Option-cases (d.files tmp)) [
  | inl gone ↦ rw (gone, calm) (refl, gone)
  | inr (f, found) ↦ rw (found, calm) (refl, assign_same tmp none d.files)
]

abbrev write_body : Bool → ℕ → ℕ → Bytes → Command
write_body b tmp path bytes =
    (if b then fchmod tmp else skip) >> write_file tmp bytes >> replace tmp path >> fsync_directory

write_body-Mildly : (b : Bool) (tmp path : ℕ) (bytes : Bytes) → Mildly (write_body b tmp path bytes)
write_body-Mildly b tmp path bytes =
    after-Mildly (if b then fchmod tmp else skip) _ raise (fchmod-Mildly b tmp)
      (after-Mildly (write_file tmp bytes) _ raise (write_file-Mildly tmp bytes)
        (after-Mildly (replace tmp path) fsync_directory raise (search call-Mildly)
          fsync_directory-Mildly raise-Calmly)
        raise-Calmly)
      raise-Calmly

-- If it raised, the temporary file is gone.
abbrev IsClean : ℕ → Ending × Disk → Type 0
IsClean tmp (finished, d) = Unit
IsClean tmp (raised e, d) = d.files tmp ≡ none
IsClean tmp (crashed, d) = Unit

cleanup-IsClean :
    (tmp : ℕ) (r : Ending × Disk)
    → Leaves r
    → IsClean tmp (after skip (λ e. unlink tmp >> raise e) r)
cleanup-IsClean tmp (finished, d) h = tt
cleanup-IsClean tmp (raised e, d) calm = reraised (unlink tmp d) (unlink_calm tmp d calm)
  where
    reraised :
        (r : Ending × Disk)
        → (r.0 ≡ finished) × (r.1.files tmp ≡ none)
        → IsClean tmp (after (raise e) raise r)
    reraised (finished, d') (end, gone) = gone
    reraised (raised e', d') (end, gone) = gone
    reraised (crashed, d') (end, gone) = tt
cleanup-IsClean tmp (crashed, d) h = tt

-- If write_atomic raises, with a name for the temporary file that was free, a mkstemp that returned
-- and at most one call that does not return, the temporary file is gone.
pub write_atomic_cleans :
    (has_fchmod : Bool) (tmp path : ℕ) (bytes : Bytes) (d d' : Disk) (e : Exception)
    → d.files tmp ≡ none
    → (d.outcomes 0).ending ≡ finished
    → IsMild d
    → write_atomic has_fchmod tmp path bytes d ≡ (raised e, d')
    → d'.files tmp ≡ none
unfolding write_atomic
write_atomic_cleans has_fchmod tmp path bytes d d' e free made mild run = subst (IsClean tmp) run (
    subst
      (λ r.
        IsClean tmp
          (after (except_reraise (write_body has_fchmod tmp path bytes) (unlink tmp)) raise r))
      (sym created)
      (cleanup-IsClean tmp (write_body has_fchmod tmp path bytes d1)
        (write_body-Mildly has_fchmod tmp path bytes d1 mild1)))
  where
    d1 : Disk
    d1 = (call (whole (assign tmp (some new_temp))) d).1

    mild1 : IsMild d1
    mild1 =
        subst (λ x. Leaves (x, d1)) made (call-Mildly (whole (assign tmp (some new_temp))) d mild)

    created : mkstemp tmp d ≡ (finished, d1)
    created = rw free (ap (λ x. (x, d1)) made)
