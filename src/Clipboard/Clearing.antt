-- ===== src/Clipboard/Clearing.antt =====
-- What is on the clipboard after `copy_and_autoclear`.
use secure_vault.Prelude.{
  Bool, true, false, Text, [], bytes_eq, bytes_eq_iff, Bool-cases, Option, some, ◌≡◌, ◌≢◌, refl,
  sym, ap, ◌∙◌, inl, inr, ◌⊎◌,
}
use mathlib.Core.Bool.{true≢false}
use secure_vault.Errors.{Error}
use secure_vault.Errors.Result.{Result, ok, err}
use secure_vault.Errors.Action.{Action, continue, pure}
use secure_vault.Clipboard.{
  ClipboardBackend, clear_if_unchanged, copy_and_autoclear, note_interrupt, then_finally, notify,
}

-- A clipboard that works: copying sets what is on it, pasting tells it.
pub record IsWorking {S : Type 0} (backend : ClipboardBackend S) (content : S → Text) : Type 0 where
  pub copies :
      (text : Text) (s : S) → (s' : S) × (backend.copy text s ≡ (ok tt, s')) × (content s' ≡ text)
  pub pastes :
      (s : S) → (s' : S) × (backend.paste s ≡ (ok (content s), s')) × (content s' ≡ content s)

module _ {S : Type 0} (backend : ClipboardBackend S) (content : S → Text)
    (works : IsWorking backend content) where
  -- Clearing tells whether it cleared, clears the expected text only, and leaves any other.
  pub clear_if_unchanged_lem :
      (expected : Text) (s : S)
      → (s' : S) × (cleared : Bool) × (clear_if_unchanged backend expected s ≡ (ok cleared, s'))
        × (((cleared ≡ true) × (content s ≡ expected) × (content s' ≡ []))
            ⊎ ((cleared ≡ false) × (content s ≢ expected) × (content s' ≡ content s)))
  unfolding clear_if_unchanged
  clear_if_unchanged_lem expected s =
      let (seen, pasted, same) = works.pastes s in
      let (emptied, copied, empty) = works.copies [] seen in
      elim (Bool-cases (bytes_eq (content s) expected)) [
        | inl equal ↦ (
          emptied,
          true,
          rw (pasted, equal, copied),
          inl (refl, (bytes_eq_iff (content s) expected).0 equal, empty),
        )
        | inr differs ↦ (
          seen,
          false,
          rw (pasted, differs),
          inr (
            refl,
            (λ e. true≢false (sym ((bytes_eq_iff (content s) expected).1 e) ∙ differs)),
            same,
          ),
        )
      ]

  -- After the wait: what was noted of its end, and the clear.
  finally_lem :
      (secret : Text) (r : Result Bool × S)
      → (s' : S) × (cleared : Bool) × ((then_finally (clear_if_unchanged backend secret) r).1 ≡ s')
        × (((cleared ≡ true) × (content r.1 ≡ secret) × (content s' ≡ []))
            ⊎ ((cleared ≡ false) × (content r.1 ≢ secret) × (content s' ≡ content r.1)))
  finally_lem secret (ok b, s) =
      let (s', cleared, run, h) = clear_if_unchanged_lem secret s in (s', cleared, rw run, h)
  finally_lem secret (err e, s) =
      let (s', cleared, run, h) = clear_if_unchanged_lem secret s in (s', cleared, rw run, h)

  note_interrupt-state : (r : Result (Unit {0}) × S) → (note_interrupt r).1 ≡ r.1
  note_interrupt-state (ok x, s) = refl
  note_interrupt-state (err e, s) = refl

  continue-pure-state :
      {A B : Type 0} (f : A → B) (r : Result A × S) → (continue (λ a. pure (f a)) r).1 ≡ r.1
  continue-pure-state f (ok a, s) = refl
  continue-pure-state f (err e, s) = refl

  state_after :
      (secret : Text) (sleep : Action S (Unit {0})) (on_copied : Option (Action S (Unit {0})))
      (s told : S)
      → notify on_copied (backend.copy secret s).1 ≡ (ok tt, told)
      → (copy_and_autoclear backend secret sleep on_copied s).1
        ≡ (then_finally (clear_if_unchanged backend secret) (note_interrupt (sleep told))).1
  unfolding copy_and_autoclear
  state_after secret sleep on_copied s told notified =
      let (on_it, copied, set) = works.copies secret s in
      let notified' = ap (λ x. notify on_copied x.1) (sym copied) ∙ notified in
      rw (copied, notified')
        (continue-pure-state _
          (then_finally (clear_if_unchanged backend secret) (note_interrupt (sleep told))))

  -- On a clipboard that works, once on_copied has returned, a secret that is not empty is not on the
  -- clipboard when copy_and_autoclear is over, whatever the wait does: it ends, is interrupted, raises anything
  -- else, or the user copies in it. What is left is empty or what the user copied.
  pub copy_and_autoclear_clears :
      (secret : Text) (sleep : Action S (Unit {0})) (on_copied : Option (Action S (Unit {0})))
      (s told : S)
      → secret ≢ []
      → notify on_copied (backend.copy secret s).1 ≡ (ok tt, told)
      → (content (copy_and_autoclear backend secret sleep on_copied s).1 ≢ secret)
        × ((content (copy_and_autoclear backend secret sleep on_copied s).1 ≡ [])
            ⊎ (content (copy_and_autoclear backend secret sleep on_copied s).1
                ≡ content (sleep told).1))
  copy_and_autoclear_clears secret sleep on_copied s told some_text notified =
      let slept = note_interrupt (sleep told) in
      let (s', cleared, run, outcome) = finally_lem secret slept in
      let end = state_after secret sleep on_copied s told notified ∙ run in
      let left = note_interrupt-state (sleep told) in
      elim outcome [
        | inl (yes_cleared, was, empty) ↦
            ((λ e. some_text (sym e ∙ ap content end ∙ empty)), inl (ap content end ∙ empty))
        | inr (not_cleared, other, same) ↦ (
          (λ e. other (sym same ∙ sym (ap content end) ∙ e)),
          inr (ap content end ∙ same ∙ ap content left),
        )
      ]

  -- If on_copied raises, copy_and_autoclear raises the same and clears nothing: on a clipboard that
  -- works, the secret stays on it if on_copied left it there.
  pub copy_and_autoclear_leaks :
      (secret : Text) (sleep on_copied : Action S (Unit {0})) (s told : S) (e : Error)
      → on_copied (backend.copy secret s).1 ≡ (err e, told)
      → content told ≡ content (backend.copy secret s).1
      → ((copy_and_autoclear backend secret sleep (some on_copied) s).0 ≡ err e)
        × (content (copy_and_autoclear backend secret sleep (some on_copied) s).1 ≡ secret)
  unfolding copy_and_autoclear
  copy_and_autoclear_leaks secret sleep on_copied s told e raised left =
      let (on_it, copied, set) = works.copies secret s in
      let raised' = ap (λ x. on_copied x.1) (sym copied) ∙ raised in
      let told_content = left ∙ ap (λ x. content x.1) copied ∙ set in
      rw (copied, raised') (refl, told_content)
