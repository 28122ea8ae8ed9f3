-- ===== src/Storage/Crash.antt =====
-- `write_atomic` under errors, interrupts and a crash at any of its calls.
use secure_vault.Prelude.{
  ℕ, ◌≡◌, ◌≢◌, refl, subst, sym, ap, ◌∙◌, Bool, true, false, if◌then◌else◌, Option, none, some, ◌⊎◌,
  inl, inr, Bytes, take,
}
use secure_vault.Storage.{
  ◌>>◌, File, Files, os_error, Ending, finished, raised, crashed, Disk, call, raise, skip, assign,
  alter, change_file, is_finished, no_effect, mkstemp, set_content, write_some, flush, fsync,
  fchmod, write_file, replace, fsync_directory, unlink, write_atomic, read,
}
use secure_vault.Storage.Triple.{
  Assertion, Post, Triple, skip_rule, raise_rule, call_rule, whole_rule, if_missing_rule, seq_rule,
  weaken_rule, call-no_effect, fsync_directory_rule, except_os_error_rule, after_rule, assign_same,
  assign_other,
}

-- The files at the start, and the write that is asked for.
module _ (start : Files) (tmp path : ℕ) (bytes : Bytes) (apart : path ≢ tmp) where
  abbrev pub Untouched : Assertion
  Untouched files = (n : ℕ) → n ≢ tmp → files n ≡ start n

  -- The vault's file after a write: all the bytes, on the disk, for the owner only.
  abbrev pub new_file : File
  new_file = record { content = bytes; mode = 384; synced = true }

  abbrev pub Replaced : Assertion
  Replaced files = (files path ≡ some new_file) × ((n : ℕ) → n ≢ tmp → n ≢ path → files n ≡ start n)

  -- Nothing but the temporary file differs, or the whole new file stands at the path.
  abbrev pub OldOrNew : Assertion
  OldOrNew files = Untouched files ⊎ Replaced files

  abbrev pub Written : Assertion
  Written files = Replaced files × (files tmp ≡ none)

  abbrev Stage : (File → Type 0) → Assertion
  Stage P files = Untouched files × (f : File) × (files tmp ≡ some f) × P f

  assign-Untouched :
      (v : Option File) (files : Files) → Untouched files → Untouched (assign tmp v files)
  assign-Untouched v files h n other = assign_other tmp n v files other ∙ h n other

  change_file-Stage :
      (P Q : File → Type 0) (change : File → File) (files : Files)
      → ((f : File) → P f → Q (change f))
      → Stage P files
      → Stage Q (change_file tmp change files)
  change_file-Stage P Q change files keep (same, f, at, h) = (
    assign-Untouched (alter change (files tmp)) files same,
    change f,
    assign_same tmp (alter change (files tmp)) files ∙ ap (alter change) at,
    keep f h,
  )

  -- A temporary file, with whatever content.
  abbrev Partial : Assertion
  Partial = Stage (λ f. f.mode ≡ 384)

  abbrev Filled : Assertion
  Filled = Stage (λ f. f ≡ record { content = bytes; mode = 384; synced = false })

  abbrev Synced : Assertion
  Synced = Stage (λ f. f ≡ new_file)

  mkstemp_rule : Triple Untouched (mkstemp tmp) Partial Untouched
  mkstemp_rule =
      if_missing_rule Untouched Partial Untouched tmp _ (raise os_error)
        (whole_rule Partial Untouched Untouched _
          (λ files h. (assign-Untouched _ files h, _, assign_same tmp _ files, refl)) (λ files h. h)
          (λ files h. assign-Untouched _ files h))
        (raise_rule Partial Untouched os_error)

  fchmod_rule : Triple Partial (fchmod tmp) Partial Untouched
  fchmod_rule =
      whole_rule Partial Untouched Partial (change_file tmp (λ f. record f { mode = 384 }))
        (λ files.
          change_file-Stage (λ f. f.mode ≡ 384) (λ f. f.mode ≡ 384) (λ f. record f { mode = 384 })
            files (λ f h. refl))
        (λ files h. h.0) (λ files h. assign-Untouched _ files h.0)

  write_rule : Triple Partial (write_some tmp bytes) Partial Untouched
  write_rule =
      call_rule Partial Untouched Partial (λ o. change_file tmp (set_content (take o.amount bytes)))
        (λ o files h done.
          change_file-Stage (λ f. f.mode ≡ 384) (λ f. f.mode ≡ 384)
            (set_content (take o.amount bytes)) files (λ f h. h) h)
        (λ o files h. assign-Untouched _ files h.0)

  flush_rule : Triple Partial (flush tmp bytes) Filled Untouched
  flush_rule =
      call_rule Filled Untouched Partial
        (λ o.
          change_file tmp
            (set_content (if is_finished o.ending then bytes else take o.amount bytes)))
        (λ o files h done.
          change_file-Stage (λ f. f.mode ≡ 384)
            (λ f. f ≡ record { content = bytes; mode = 384; synced = false })
            (set_content (if is_finished o.ending then bytes else take o.amount bytes)) files
            (λ f h. rw (done, h)) h)
        (λ o files h. assign-Untouched _ files h.0)

  fsync_rule : Triple Filled (fsync tmp) Synced Untouched
  fsync_rule =
      whole_rule Synced Untouched Filled (change_file tmp (λ f. record f { synced = true }))
        (λ files.
          change_file-Stage (λ f. f ≡ record { content = bytes; mode = 384; synced = false })
            (λ f. f ≡ new_file) (λ f. record f { synced = true }) files (λ f h. rw h))
        (λ files h. h.0) (λ files h. assign-Untouched _ files h.0)

  write_file_rule : Triple Partial (write_file tmp bytes) Synced Untouched
  unfolding write_file
  write_file_rule =
      seq_rule Partial Synced Untouched Partial (call no_effect) _ (open_rule Partial (λ fs h. h.0))
        (λ d h.
          after_rule Synced Untouched Synced Untouched (call no_effect) _ _ (filled d h) (λ fs x. x)
            (open_rule Synced (λ fs h. h.0))
            (λ e.
              seq_rule Untouched Synced Untouched Untouched (write_some tmp bytes) (raise e)
                rest_rule (raise_rule Synced Untouched e)))
    where
      open_rule :
          (P : Assertion)
          → ((fs : Files) → P fs → Untouched fs)
          → Triple P (call no_effect) P Untouched
      open_rule P w = weaken_rule P P P Untouched (call no_effect) w (call-no_effect P)

      rest_rule : Triple Untouched (write_some tmp bytes) Untouched Untouched
      rest_rule =
          call_rule Untouched Untouched Untouched
            (λ o. change_file tmp (set_content (take o.amount bytes)))
            (λ o files h done. assign-Untouched _ files h) (λ o files h. assign-Untouched _ files h)

      filled :
          Triple Partial (write_some tmp bytes >> flush tmp bytes >> fsync tmp) Synced Untouched
      filled = seq_rule Partial Synced Untouched Partial (write_some tmp bytes) _ write_rule (
          seq_rule Partial Synced Untouched Filled (flush tmp bytes) (fsync tmp) flush_rule
            fsync_rule)

  replace_rule : Triple Synced (replace tmp path) Written OldOrNew
  replace_rule =
      whole_rule Written OldOrNew Synced (λ files. assign path (files tmp) (assign tmp none files))
        replaced (λ files h. inl h.0) (λ files h. inr (replaced files h).0)
    where
      replaced :
          (files : Files) → Synced files → Written (assign path (files tmp) (assign tmp none files))
      replaced files (same, f, at, h) = (
        (
          assign_same path (files tmp) (assign tmp none files) ∙ at ∙ ap some h,
          λ n other aside.
              assign_other path n (files tmp) (assign tmp none files) aside
              ∙ assign_other tmp n none files other
              ∙ same n other,
        ),
        assign_other path tmp (files tmp) (assign tmp none files) (λ e. apart (sym e))
            ∙ assign_same tmp none files,
      )

  unlink_rule : Triple OldOrNew (unlink tmp) OldOrNew OldOrNew
  unfolding unlink
  unlink_rule =
      if_missing_rule OldOrNew OldOrNew OldOrNew tmp _ _
        (except_os_error_rule OldOrNew (call no_effect) skip skip (call-no_effect OldOrNew)
          (skip_rule OldOrNew OldOrNew) (skip_rule OldOrNew OldOrNew))
        (whole_rule OldOrNew OldOrNew OldOrNew (assign tmp none) removed (λ files h. h) removed)
    where
      removed : (files : Files) → OldOrNew files → OldOrNew (assign tmp none files)
      removed files (inl h) = inl (assign-Untouched none files h)
      removed files (inr (at, h)) = inr (
        assign_other tmp path none files apart ∙ at,
        λ n other aside. assign_other tmp n none files other ∙ h n other aside,
      )

  body_rule :
      (has_fchmod : Bool)
      → Triple Partial
          ((if has_fchmod then fchmod tmp else skip)
            >> write_file tmp bytes
            >> replace tmp path
            >> fsync_directory)
          Written
          OldOrNew
  body_rule has_fchmod =
      let safe = (λ (fs : Files) (h : Untouched fs). inl h) in
      let tail =
        seq_rule Synced Written OldOrNew Written (replace tmp path) fsync_directory replace_rule (
          weaken_rule Written Written Written OldOrNew fsync_directory (λ fs h. inr h.0)
            (fsync_directory_rule Written)) in
      let middle =
        seq_rule Partial Written OldOrNew Synced (write_file tmp bytes) _
          (weaken_rule Partial Synced Untouched OldOrNew _ safe write_file_rule) tail in
      seq_rule Partial Written OldOrNew Partial _ _ (chmod_rule has_fchmod) middle
    where
      chmod_rule : (b : Bool) → Triple Partial (if b then fchmod tmp else skip) Partial OldOrNew
      chmod_rule true = weaken_rule Partial Partial Untouched OldOrNew _ (λ fs h. inl h) fchmod_rule
      chmod_rule false = skip_rule Partial OldOrNew

  pub write_atomic_rule :
      (has_fchmod : Bool)
      → Triple Untouched (write_atomic has_fchmod tmp path bytes) Written OldOrNew
  unfolding write_atomic
  write_atomic_rule has_fchmod =
      seq_rule Untouched Written OldOrNew Partial (mkstemp tmp) _
        (weaken_rule Untouched Partial Untouched OldOrNew _ (λ fs h. inl h) mkstemp_rule)
        (λ d h.
          after_rule Written OldOrNew Written OldOrNew skip _ _ (body_rule has_fchmod d h)
            (λ fs x. x) (skip_rule Written OldOrNew)
            (λ e.
              seq_rule OldOrNew Written OldOrNew OldOrNew (unlink tmp) (raise e) unlink_rule
                (raise_rule Written OldOrNew e)))

-- However write_atomic ends, by returning, by an exception or by a crash at any of its calls,
-- either nothing but the temporary file has changed, or the vault's path holds all the new bytes,
-- synced and with mode 0600, and no third file has changed. The temporary file's name is not the
-- vault's.
pub write_atomic_safe :
    (has_fchmod : Bool) (tmp path : ℕ) (bytes : Bytes) (d : Disk)
    → (apart : path ≢ tmp)
    → OldOrNew d.files tmp path bytes apart ((write_atomic has_fchmod tmp path bytes d).1.files)
write_atomic_safe has_fchmod tmp path bytes d apart =
    any_ending _ (write_atomic_rule d.files tmp path bytes apart has_fchmod d (λ n other. refl))
  where
    any_ending :
        (r : Ending × Disk)
        → Post (Written d.files tmp path bytes apart) (OldOrNew d.files tmp path bytes apart) r
        → OldOrNew d.files tmp path bytes apart (r.1.files)
    any_ending (finished, d') h = inr h.0
    any_ending (raised e, d') h = h
    any_ending (crashed, d') h = h

-- If write_atomic returns, and the temporary name is not the vault's, then the vault's path holds the
-- new bytes, synced and with mode 0600, the temporary file is gone, no third file has changed, and
-- read returns the new bytes.
pub write_atomic_returns :
    (has_fchmod : Bool) (tmp path : ℕ) (bytes : Bytes) (d d' : Disk)
    → (apart : path ≢ tmp) → write_atomic has_fchmod tmp path bytes d ≡ (finished, d')
    → Written d.files tmp path bytes apart d'.files × (read path d' ≡ (some bytes, d'))
unfolding read
write_atomic_returns has_fchmod tmp path bytes d d' apart run =
    let written =
      subst (Post (Written d.files tmp path bytes apart) (OldOrNew d.files tmp path bytes apart))
        run (write_atomic_rule d.files tmp path bytes apart has_fchmod d (λ n other. refl)) in
    (written, let at = written.0 in rw (at.0))
