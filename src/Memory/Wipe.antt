-- ===== src/Memory/Wipe.antt =====
-- What `wipe` does to the heap.
use secure_vault.Prelude.{
  ℕ, ◌≡◌, ◌≢◌, refl, arith, ◌==◌, length, eq-nil_of_length, Bool-cases, inl, inr, ==_iff, ==_refl,
  Bytes,
}
use secure_vault.Memory.{World, Buffer, mutable, immutable, nothing, wipe, zeros, update}

-- After `wipe` of a bytearray it has its length and holds zeros only.
pub wipe-zeros : (p : ℕ) (w : World) → (wipe (mutable p) w).heap p ≡ zeros (w.heap p)
unfolding wipe
wipe-zeros p w = elim (Bool-cases (length (w.heap p) == 0)) [
  | inl empty ↦ let e = eq-nil_of_length (w.heap p) ((==_iff _ _).0 empty) in ground (arith, e)
  | inr more ↦ rw more (ground arith)
]

-- No other bytearray changes.
pub wipe_others : (p q : ℕ) (w : World) → p ≢ q → (wipe (mutable p) w).heap q ≡ w.heap q
unfolding wipe
wipe_others p q w h = ground arith

pub next-wipe : (b : Buffer) (w : World) → (wipe b w).next ≡ w.next
unfolding wipe
next-wipe nothing w = refl
next-wipe (immutable x) w = refl
next-wipe (mutable p) w = ground arith

pub entropy-wipe : (b : Buffer) (w : World) → (wipe b w).entropy ≡ w.entropy
unfolding wipe
entropy-wipe nothing w = refl
entropy-wipe (immutable x) w = refl
entropy-wipe (mutable p) w = elim (Bool-cases (length (w.heap p) == 0)) [
  | inl e ↦ rw e
  | inr e ↦ rw e
]

pub update_self : (f : ℕ → Bytes) (p : ℕ) (x : Bytes) → update f p x p ≡ x
update_self f p x = rw (==_refl p)

pub update_ne : (f : ℕ → Bytes) (p q : ℕ) (x : Bytes) → p ≢ q → update f p x q ≡ f q
update_ne f p q x h = ground arith
