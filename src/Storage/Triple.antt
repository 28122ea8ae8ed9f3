-- ===== src/Storage/Triple.antt =====
-- Rules for what holds of the files before and after a command, for each way it can end.
use secure_vault.Prelude.{
  subst, sym, arith, ◌≢◌, ℕ, ◌≡◌, refl, Bool, true, false, if◌then◌else◌, Option, none, some,
}
use secure_vault.Storage.{
  if_missing, by_file, no_effect, fsync_directory, took_effect, whole, File, assign, Files,
  Exception, os_error, interrupt, Ending, finished, raised, crashed, Outcome, Disk, Command, call,
  after, raise, skip, ◌>>◌, try_finally, except_os_error, on_os_error,
}

abbrev pub Assertion : Type 1
Assertion = Files → Type 0

-- `returned` holds of the files if the command returned, `failed` if it raised or crashed.
abbrev pub Post : Assertion → Assertion → Ending × Disk → Type 0
Post returned failed (finished, d) = returned d.files
Post returned failed (raised e, d) = failed d.files
Post returned failed (crashed, d) = failed d.files

abbrev pub Triple : Assertion → Command → Assertion → Assertion → Type 0
Triple before m returned failed = (d : Disk) → before d.files → Post returned failed (m d)

finished_effect : (o : Outcome) → o.ending ≡ finished → took_effect o ≡ true
finished_effect o done = rw done

either_branch : (b : Bool) (P : Assertion) (x y : Files) → P x → P y → P (if b then x else y)
either_branch true P x y hx hy = hx
either_branch false P x y hx hy = hy

module _ (returned failed : Assertion) where
  pub skip_rule : Triple returned skip returned failed
  skip_rule d h = h

  pub raise_rule : (e : Exception) → Triple failed (raise e) returned failed
  raise_rule e d h = h

  Post-call :
      (ending : Ending) (d : Disk)
      → (ending ≡ finished → returned d.files)
      → failed d.files
      → Post returned failed (ending, d)
  Post-call finished d good bad = good refl
  Post-call (raised e) d good bad = bad
  Post-call crashed d good bad = bad

  -- A call whose effect is fine in every outcome.
  pub call_rule :
      (before : Assertion) (effect : Outcome → Files → Files)
      → ((o : Outcome) (files : Files)
          → before files
          → o.ending ≡ finished
          → returned (effect o files))
      → ((o : Outcome) (files : Files) → before files → failed (effect o files))
      → Triple before (call effect) returned failed
  call_rule before effect good bad d h =
      let o = d.outcomes 0 in
      let d' = (call effect d).1 in Post-call o.ending d' (good o d.files h) (bad o d.files h)

  -- A call that has its whole effect or none.
  pub whole_rule :
      (before : Assertion) (change : Files → Files)
      → ((files : Files) → before files → returned (change files))
      → ((files : Files) → before files → failed files)
      → ((files : Files) → before files → failed (change files))
      → Triple before (call (whole change)) returned failed
  whole_rule before change good unchanged changed =
      call_rule before (whole change)
        (λ o files h done.
          subst (λ b. returned (if b then change files else files)) (sym (finished_effect o done))
            (good files h))
        (λ o files h.
          either_branch (took_effect o) failed (change files) files (changed files h)
            (unchanged files h))

  module _ (between undone : Assertion) where
    pub after_rule :
        (next : Command) (handle : Exception → Command) (r : Ending × Disk)
        → Post between undone r
        → ((files : Files) → undone files → failed files)
        → Triple between next returned failed
        → ((e : Exception) → Triple undone (handle e) returned failed)
        → Post returned failed (after next handle r)
    after_rule next handle (finished, d) h weaken good bad = good d h
    after_rule next handle (raised e, d) h weaken good bad = bad e d h
    after_rule next handle (crashed, d) h weaken good bad = weaken d.files h

pub assign_same : (name : ℕ) (v : Option File) (files : Files) → assign name v files name ≡ v
assign_same name v files = ground arith

pub assign_other :
    (name n : ℕ) (v : Option File) (files : Files) → n ≢ name → assign name v files n ≡ files n
assign_other name n v files other = ground arith

module _ (before returned failed : Assertion) where
  pub if_missing_rule :
      (name : ℕ) (missing found : Command)
      → Triple before missing returned failed
      → Triple before found returned failed
      → Triple before (if_missing name missing found) returned failed
  if_missing_rule name missing found m f d h = by_file_rule (d.files name)
    where
      by_file_rule : (o : Option File) → Post returned failed (by_file missing found o d)
      by_file_rule none = m d h
      by_file_rule (some x) = f d h

  pub seq_rule :
      (between : Assertion) (first next : Command)
      → Triple before first between failed
      → Triple between next returned failed
      → Triple before (first >> next) returned failed
  seq_rule between first next f n d h =
      after_rule returned failed between failed next raise (first d) (f d h) (λ fs x. x) n
        (λ e. raise_rule returned failed e)

  -- A command that may fail in fewer ways.
  pub weaken_rule :
      (failed' : Assertion) (m : Command)
      → ((fs : Files) → failed fs → failed' fs)
      → Triple before m returned failed
      → Triple before m returned failed'
  weaken_rule failed' m w t d h = weaken_post (m d) (t d h)
    where
      weaken_post : (r : Ending × Disk) → Post returned failed r → Post returned failed' r
      weaken_post (finished, d') x = x
      weaken_post (raised e, d') x = w d'.files x
      weaken_post (crashed, d') x = w d'.files x

-- Commands that leave the files alone keep every assertion.
module _ (kept : Assertion) where
  pub call-no_effect : Triple kept (call no_effect) kept kept
  call-no_effect = call_rule kept kept kept no_effect (λ o fs h e. h) (λ o fs h. h)

  on_os_error_rule :
      (other : Command)
      → Triple kept other kept kept
      → (e : Exception) → Triple kept (on_os_error other e) kept kept
  on_os_error_rule other t os_error = t
  on_os_error_rule other t interrupt = raise_rule kept kept interrupt

  pub except_os_error_rule :
      (body other next : Command)
      → Triple kept body kept kept
      → Triple kept other kept kept
      → Triple kept next kept kept
      → Triple kept (except_os_error body other next) kept kept
  except_os_error_rule body other next b o n d h =
      after_rule kept kept kept kept next (on_os_error other) (body d) (b d h) (λ fs x. x) n
        (on_os_error_rule other o)

  pub try_finally_rule :
      (body last : Command)
      → Triple kept body kept kept
      → Triple kept last kept kept
      → Triple kept (try_finally body last) kept kept
  try_finally_rule body last b l d h =
      after_rule kept kept kept kept last (λ e. last >> raise e) (body d) (b d h) (λ fs x. x) l
        (λ e. seq_rule kept kept kept kept last (raise e) l (raise_rule kept kept e))

  pub fsync_directory_rule : Triple kept fsync_directory kept kept
  unfolding fsync_directory
  fsync_directory_rule =
      let done = skip_rule kept kept in
      except_os_error_rule (call no_effect) skip _ call-no_effect done (
        try_finally_rule _ (call no_effect)
          (except_os_error_rule (call no_effect) skip skip call-no_effect done done) call-no_effect)
