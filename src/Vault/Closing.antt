-- ===== src/Vault/Closing.antt =====
-- `close`, and what a closed vault refuses.
use secure_vault.Prelude.{ℕ, ◌≡◌, ◌≢◌, ◌∙◌, refl, sym, ap, arith, true, Bytes, Option}
use secure_vault.Errors.{value_error, vault_closed}
use secure_vault.Errors.Result.{err}
use secure_vault.Errors.Action.{Action}
use secure_vault.Crypto.{Crypto}
use secure_vault.Kdf.{Argon2Parameters}
use secure_vault.Memory.{mutable, wipe, zeros}
use secure_vault.Memory.Wipe.{wipe-zeros, wipe_others}
use secure_vault.Vault.{Session, close, with_vault, read, save, change_password}
use secure_vault.Vault.Opened.{IsOpenWith}

-- `close` of an open session marks it closed and leaves zeros in both buffers, the data key's and
-- the text's; no other buffer changes, and a second `close` changes nothing.
pub close_wipes :
    (c : Crypto) (password text : Bytes) (s : Session)
    → IsOpenWith c password text s
    → ((close s).vault.closed ≡ true)
      × ((close s).world.heap s.vault.dek ≡ zeros (s.world.heap s.vault.dek))
      × ((close s).world.heap s.vault.plaintext ≡ zeros text)
      × ((q : ℕ)
          → q ≢ s.vault.dek
          → q ≢ s.vault.plaintext
          → (close s).world.heap q ≡ s.world.heap q)
      × (close (close s) ≡ close s)
unfolding close
close_wipes c password text s o =
    let a = s.vault.dek in
    let b = s.vault.plaintext in
    let w = wipe (mutable a) s.world in
    rw o.is_open (
      refl,
      wipe_others b a w (λ e. o.apart (sym e)) ∙ wipe-zeros a s.world,
      wipe-zeros b w ∙ ap zeros (wipe_others a b s.world o.apart ∙ o.text_eq),
      (λ q h k. wipe_others b q w (λ e. k (sym e)) ∙ wipe_others a q s.world (λ e. h (sym e))),
      refl,
    )

-- A `with` block on a vault gives what its body gives, a value or an exception, and leaves the vault
-- closed and zeros in the buffers that the object had at the end of the body, where it was open.
pub with_vault_wipes :
    {A : Type 0} (c : Crypto) (password text : Bytes) (body : Action Session A) (s : Session)
    → let t = (body s).1 in
      IsOpenWith c password text t
      → let x = with_vault body s in
        (x.0 ≡ (body s).0)
        × (x.1.vault.closed ≡ true)
        × (x.1.world.heap t.vault.dek ≡ zeros (t.world.heap t.vault.dek))
        × (x.1.world.heap t.vault.plaintext ≡ zeros text)
unfolding with_vault
with_vault_wipes c password text body s o =
    let (closed, key, body_text, others, twice) = close_wipes c password text (body s).1 o in
    (refl, closed, key, body_text)

-- After `close` every method refuses with "vault is closed", and changes nothing.
pub close_refuses :
    (c : Crypto) (s : Session) (text password : Bytes) (given : Option Argon2Parameters)
    → let t = close s in
      (read t ≡ (err (value_error vault_closed), t))
      × (save c text t ≡ (err (value_error vault_closed), t))
      × (change_password c password given t ≡ (err (value_error vault_closed), t))
unfolding read save change_password close
close_refuses c s text password given = ground arith
