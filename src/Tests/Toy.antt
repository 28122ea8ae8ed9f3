-- ===== src/Tests/Toy.antt =====
-- A cipher and a key derivation that meet the laws of `IsCrypto`, to run the model and to show that
-- the laws can hold. They protect nothing.
use secure_vault.Prelude.{
  ℕ, ◌+◌, ◌-◌, ◌*◌, ◌%◌, ◌≡◌, refl, sym, ap, ◌∙◌, [], ◌∷◌, ◌++◌, arith, false, subst, length, take,
  drop, replicate, ltb, ltb-false, if◌then◌else◌, Bytes, bytes_eq, bytes_eq_refl, bytes_eq_iff,
  length-append, length-replicate, take-append, drop-append, take-append-drop,
}
use secure_vault.Errors.{Error, invalid_tag}
use secure_vault.Errors.Result.{Result, ok, err, ok_inj}
use secure_vault.Crypto.{Crypto, IsCrypto}

checksum : Bytes → ℕ
checksum [] = 0
checksum (b ∷ bs) = (b + 3 * checksum bs) % 251

unfoldable pub tag : Bytes → Bytes → Bytes → Bytes
unfolding checksum
tag k n a = replicate 16 ((checksum k + checksum n + checksum a) % 251)

unfoldable pub derive : Bytes → Bytes → ℕ → Bytes
unfolding checksum
derive secret salt n = replicate n (checksum (secret ++ salt))

unfoldable pub unseal : Bytes → Bytes → Bytes → Bytes → Result Bytes
unseal k n b a =
    if ltb (length b) 16
    then err invalid_tag
    else if bytes_eq (drop (length b - 16) b) (tag k n a)
    then ok (take (length b - 16) b)
    else err invalid_tag

abbrev pub toy : Crypto
toy = record {
  argon2id = λ secret salt t m p n. ok (derive secret salt n);
  seal = λ k n x a. ok (x ++ tag k n a);
  unseal = unseal;
}

pub length-tag : (k n a : Bytes) → length (tag k n a) ≡ 16
unfolding tag
length-tag k n a = refl

toy-length-seal : (k n x a b : Bytes) → toy.seal k n x a ≡ ok b → length b ≡ length x + 16
toy-length-seal k n x a b e =
    ap length (sym (ok_inj _ _ e)) ∙ omega (arith, length-append x (tag k n a), length-tag k n a)

toy-unseal-seal : (k n x a b : Bytes) → toy.seal k n x a ≡ ok b → toy.unseal k n b a ≡ ok x
unfolding unseal
toy-unseal-seal k n x a b e =
    let t = tag k n a in
    let size : length (x ++ t) ≡ length x + 16 =
      omega (arith, length-append x t, length-tag k n a) in
    let long : ltb (length (x ++ t)) 16 ≡ false = ltb-false _ _ (omega (arith, size)) in
    let at : length (x ++ t) - 16 ≡ length x = omega (arith, size) in
    subst (λ s. unseal k n s a ≡ ok x) (ok_inj _ _ e)
      (rw (
        long,
        at,
        drop-append (length x) x t refl,
        bytes_eq_refl t,
        take-append (length x) x t refl,
      ))

toy-seal-unseal : (k n x a b : Bytes) → toy.unseal k n b a ≡ ok x → toy.seal k n x a ≡ ok b
unfolding unseal
toy-seal-unseal k n x a b e =
    ground
      (arith, bytes_eq_iff (drop (length b - 16) b) (tag k n a), take-append-drop (length b - 16) b)

toy-unseal_fails : (k n b a : Bytes) (e : Error) → toy.unseal k n b a ≡ err e → e ≡ invalid_tag
unfolding unseal
toy-unseal_fails k n b a e h = ground arith

pub toy-IsCrypto : IsCrypto toy
unfolding derive
toy-IsCrypto = record {
  length-argon2id =
      λ secret salt t m p n key e. ap length (sym (ok_inj _ _ e)) ∙ length-replicate n _;
  argon2id_fails = λ secret salt t m p n e h. cc;
  seal_total = λ k n x a hk hn hx ha. (_, refl);
  length-seal = toy-length-seal;
  unseal-seal = toy-unseal-seal;
  seal-unseal = toy-seal-unseal;
  unseal_fails = λ k n b a e hk hn hb h. toy-unseal_fails k n b a e h;
}
