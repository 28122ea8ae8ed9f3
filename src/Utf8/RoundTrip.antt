-- ===== src/Utf8/RoundTrip.antt =====
-- Decoding gives back what was encoded.
use secure_vault.Prelude.{
  ℕ, ◌<◌, ◌≡◌, refl, arith, Bool-cases, true, Option, none, some, [], ◌∷◌, ◌++◌, Bytes, Text, All,
  ltb, inl, inr, ap, subst, ◌∙◌, ◌≢◌, Option-cases,
}
use secure_vault.Utf8.{is_scalar, encode, encode_char, decode, decode_from, ready, prepend}

-- Each form of a character, read byte by byte.
decode_from-encode_char :
    (c : ℕ) (bs : Bytes)
    → is_scalar c ≡ true
    → decode_from ready (encode_char c ++ bs) ≡ prepend (c ∷ []) (decode_from ready bs)
unfolding decode_from
decode_from-encode_char c bs h = elim (Bool-cases (ltb c 128)) [
  | inl one ↦ ground arith
  | inr more ↦ elim (Bool-cases (ltb c 2048)) [
    | inl two ↦ ground arith
    | inr more ↦ elim (Bool-cases (ltb c 65536)) [
      | inl three ↦ ground arith
      | inr four ↦ ground arith
    ]
  ]
]

none≢some : {xs : Text} → ◌≢◌ {A = Option Text} none (some xs)
none≢some e = cc

some_inj : {xs ys : Text} → ◌≡◌ {A = Option Text} (some xs) (some ys) → xs ≡ ys
some_inj e = cc

-- What was encoded decodes to the same text.
pub decode-encode : (text : Text) (bs : Bytes) → encode text ≡ some bs → decode bs ≡ some text
unfolding encode decode decode_from
decode-encode [] bs h = ground arith
decode-encode (c ∷ cs) bs h = elim (Bool-cases (is_scalar c)) [
  | inr surrogate ↦ absurd (none≢some (rw surrogate at h))
  | inl scalar ↦ elim (Option-cases (encode cs)) [
    | inl failed ↦ absurd (none≢some (rw (scalar, failed) at h))
    | inr (rest, made) ↦
        let whole = some_inj (rw (scalar, made) at h) in
        subst (λ x. decode x ≡ some (c ∷ cs)) whole
          (decode_from-encode_char c rest scalar
            ∙ ap (prepend (c ∷ [])) (decode-encode cs rest made))
  ]
]

-- An ASCII text is its own encoding.
abbrev pub IsAscii : Text → Type 0
IsAscii = All (λ c. c < 128)

pub encode-IsAscii : (text : Text) → IsAscii text → encode text ≡ some text
unfolding encode
encode-IsAscii [] h = refl
encode-IsAscii (c ∷ cs) (one, rest) = ground (arith, encode-IsAscii cs rest)

-- The characters that have an encoding.
abbrev pub IsText : Text → Type 0
IsText = All (λ c. is_scalar c ≡ true)

pub encode_total : (text : Text) → IsText text → (bs : Bytes) × (encode text ≡ some bs)
unfolding encode
encode_total [] h = ([], refl)
encode_total (c ∷ cs) (one, rest) =
    let (bs, made) = encode_total cs rest in (encode_char c ++ bs, rw (one, made))
