-- ===== src/Storage/Calm.antt =====
-- `write_atomic` where no system call fails.
use secure_vault.Prelude.{
  subst, ◌+◌, ℕ, ◌≡◌, ◌≢◌, ap, refl, sym, Bool, true, false, if◌then◌else◌, none, some, Bytes,
}
use secure_vault.Storage.{
  vault_file_mode, on_os_error, except_os_error, ◌>>◌, new_temp, Files, Exception, Ending, finished,
  raised, crashed, Outcome, Disk, Command, call, after, raise, skip, assign, change_file, whole,
  no_effect, mkstemp, write_some, flush, fsync, fchmod, write_file, replace, fsync_directory,
  write_atomic, read,
}
use secure_vault.Storage.Crash.{Written, write_atomic_returns}

abbrev pub IsCalm : Disk → Type 0
IsCalm d = (i : ℕ) → (d.outcomes i).ending ≡ finished

-- No call fails in the command.
abbrev pub Succeeds : Ending × Disk → Type 0
Succeeds (finished, d) = IsCalm d
Succeeds (raised e, d) = ⊥
Succeeds (crashed, d) = ⊥

abbrev pub Runs : Command → Type 0
Runs m = (d : Disk) → IsCalm d → Succeeds (m d)

pub call-Runs : (effect : Outcome → Files → Files) → Runs (call effect)
call-Runs effect d calm =
    let d' = (call effect d).1 in subst (λ e. Succeeds (e, d')) (sym (calm 0)) (λ i. calm (1 + i))

pub after-Succeeds :
    (next : Command) (handle : Exception → Command) (r : Ending × Disk)
    → Succeeds r
    → Runs next
    → Succeeds (after next handle r)
after-Succeeds next handle (finished, d) h n = n d h
after-Succeeds next handle (raised e, d) h n = absurd h
after-Succeeds next handle (crashed, d) h n = absurd h

after-Runs :
    (body next : Command) (handle : Exception → Command)
    → Runs body
    → Runs next
    → Runs (λ d. after next handle (body d))
after-Runs body next handle b n d calm = after-Succeeds next handle (body d) (b d calm) n

pub skip-Runs : Runs skip
skip-Runs d calm = calm

write_file-Runs : (tmp : ℕ) (bytes : Bytes) → Runs (write_file tmp bytes)
unfolding write_file
write_file-Runs tmp bytes = after-Runs (call no_effect) _ raise (call-Runs no_effect) (
    after-Runs (write_some tmp bytes >> flush tmp bytes >> fsync tmp) (call no_effect) _
      (after-Runs (write_some tmp bytes) (flush tmp bytes >> fsync tmp) raise (search call-Runs)
        (after-Runs (flush tmp bytes) (fsync tmp) raise (search call-Runs) (search call-Runs)))
      (call-Runs no_effect))

fsync_directory-Runs : Runs fsync_directory
unfolding fsync_directory
fsync_directory-Runs = after-Runs (call no_effect) _ (on_os_error skip) (call-Runs no_effect) (
    after-Runs (except_os_error (call no_effect) skip skip) (call no_effect) _
      (after-Runs (call no_effect) skip (on_os_error skip) (call-Runs no_effect) skip-Runs)
      (call-Runs no_effect))

fchmod-Runs : (b : Bool) (tmp : ℕ) → Runs (if b then fchmod tmp else skip)
fchmod-Runs true tmp =
    call-Runs (whole (change_file tmp (λ f. record f { mode = vault_file_mode })))
fchmod-Runs false tmp = skip-Runs

body-Runs :
    (b : Bool) (tmp path : ℕ) (bytes : Bytes)
    → Runs (
        (if b then fchmod tmp else skip)
        >> write_file tmp bytes
        >> replace tmp path
        >> fsync_directory)
body-Runs b tmp path bytes =
    after-Runs (if b then fchmod tmp else skip) _ raise (fchmod-Runs b tmp) (
      after-Runs (write_file tmp bytes) _ raise (write_file-Runs tmp bytes) (
        after-Runs (replace tmp path) fsync_directory raise (search call-Runs)
          fsync_directory-Runs))

Succeeds-finished : (r : Ending × Disk) → Succeeds r → r.0 ≡ finished
Succeeds-finished (finished, d) h = refl
Succeeds-finished (raised e, d) h = absurd h
Succeeds-finished (crashed, d) h = absurd h

pub write_atomic_ends :
    (has_fchmod : Bool) (tmp path : ℕ) (bytes : Bytes) (d : Disk)
    → d.files tmp ≡ none
    → IsCalm d
    → (write_atomic has_fchmod tmp path bytes d).0 ≡ finished
unfolding write_atomic
write_atomic_ends has_fchmod tmp path bytes d free calm = Succeeds-finished _ (
    after-Succeeds _ raise (mkstemp tmp d)
      (rw free (call-Runs (whole (assign tmp (some new_temp))) d calm))
      (after-Runs _ skip _ (body-Runs has_fchmod tmp path bytes) skip-Runs))

-- With a name for the temporary file that is free and not the vault's, and no call that fails,
-- write_atomic returns, and then the vault's path holds the new bytes, synced and with mode 0600, the
-- temporary file is gone, no third file has changed, and read returns the new bytes.
pub write_atomic_finishes :
    (has_fchmod : Bool) (tmp path : ℕ) (bytes : Bytes) (d : Disk)
    → (apart : path ≢ tmp) → d.files tmp ≡ none
    → IsCalm d
    → let x = write_atomic has_fchmod tmp path bytes d in
      (x.0 ≡ finished)
      × Written d.files tmp path bytes apart x.1.files
      × (read path x.1 ≡ (some bytes, x.1))
write_atomic_finishes has_fchmod tmp path bytes d apart free calm =
    let x = write_atomic has_fchmod tmp path bytes d in
    let ends = write_atomic_ends has_fchmod tmp path bytes d free calm in
    let (written, reads) =
      write_atomic_returns has_fchmod tmp path bytes d x.1 apart (ap (λ e. (e, x.1)) ends) in
    (ends, written, reads)
