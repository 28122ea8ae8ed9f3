-- ===== src/FileFormat/Sound.antt =====
-- `parse` accepts nothing but what `serialize` makes.
use secure_vault.Prelude.{ℕ, ◌+◌, ◌-◌, ◌<◌, ◌≤◌, ◌≡◌, refl, sym, ◌∙◌, ap, arith, length, take, drop}
use secure_vault.Prelude.{
  subst, ltb-false→le, not_==_false, Bytes, IsBytes, pack_le, unpack_le, All-take, length-take,
  length-drop,
}
use secure_vault.Errors.Result.{ok, raise_if-eq-ok, bind-eq-ok, ok_inj}
use secure_vault.FileFormat.{slice, build_kdf_header, build_full_header, serialize, parse}
use secure_vault.FileFormat.{ParsedVaultFile, check_header}
use secure_vault.FileFormat.Slices.{
  drop_split, take_split, length-slice, slice-eq-pack_le, unpack_le-slice-lt,
}
use secure_vault.FileFormat.Header.{header_bytes, build_kdf_header_lem, build_full_header_lem}
use secure_vault.FileFormat.Header.{check_header-eq-ok}
use secure_vault.FileFormat.RoundTrip.{file_bytes, HasSizes, serialize_lem}

-- What `parse` has seen when it returns.
pub record Parses (d : Bytes) (f : ParsedVaultFile) : Type 0 where
  pub size : 136 ≤ length d
  pub header_good : check_header (take 36 d) ≡ ok f.params
  pub tagged : 16 ≤ unpack_le (slice 116 120 d)
  pub whole : 120 + unpack_le (slice 116 120 d) ≡ length d
  pub salt_eq : f.salt ≡ slice 20 36 (take 36 d)
  pub counter_eq : f.counter ≡ unpack_le (slice 36 44 d)
  pub header_eq : f.kdf_header ≡ take 36 d
  pub full_eq : f.full_header ≡ take 44 d
  pub dek_nonce_eq : f.dek_nonce ≡ slice 44 56 d
  pub dek_blob_eq : f.dek_blob ≡ slice 56 104 d
  pub body_nonce_eq : f.body_nonce ≡ slice 104 116 d
  pub body_blob_eq : f.body_blob ≡ drop 120 d

pub parse-Parses : (d : Bytes) (f : ParsedVaultFile) → parse d ≡ ok f → Parses d f
unfolding parse
parse-Parses d f e =
    let (long, k1) = raise_if-eq-ok _ _ _ e in
    let (p, good, k2) = bind-eq-ok _ _ k1 in
    let (tagged, k3) = raise_if-eq-ok _ _ _ k2 in
    let (whole, k4) = raise_if-eq-ok _ _ _ k3 in
    subst (Parses d) (ok_inj _ _ k4) (record {
      size = ltb-false→le _ _ long;
      header_good = good;
      tagged = ltb-false→le _ _ tagged;
      whole = not_==_false _ _ whole;
      salt_eq = refl;
      counter_eq = refl;
      header_eq = refl;
      full_eq = refl;
      dek_nonce_eq = refl;
      dek_blob_eq = refl;
      body_nonce_eq = refl;
      body_blob_eq = refl;
    })

module _ (d : Bytes) (f : ParsedVaultFile) (b : IsBytes d) (q : Parses d f) where
  -- The counter and the length as they stand in the file.
  counter_field : slice 36 44 d ≡ pack_le 8 f.counter
  counter_field =
      slice-eq-pack_le 36 44 8 f.counter d b (omega arith) (omega (arith, q)) refl
        (sym q.counter_eq)

  body_length : length f.body_blob ≡ unpack_le (slice 116 120 d)
  body_length = ap length q.body_blob_eq ∙ omega (arith, q, length-drop 120 d)

  length_field : slice 116 120 d ≡ pack_le 4 (length f.body_blob)
  length_field =
      slice-eq-pack_le 116 120 4 _ d b (omega arith) (omega (arith, q)) refl (sym body_length)

  -- Such a file is made of its fields.
  parsed_file_bytes :
      d ≡ file_bytes f.kdf_header f.counter f.dek_nonce f.dek_blob f.body_nonce f.body_blob
  unfolding file_bytes
  parsed_file_bytes = cc (
    drop_split 0 36 d (omega arith),
    drop_split 36 44 d (omega arith),
    drop_split 44 56 d (omega arith),
    drop_split 56 104 d (omega arith),
    drop_split 104 116 d (omega arith),
    drop_split 116 120 d (omega arith),
    counter_field,
    length_field,
    q.header_eq,
    q.dek_nonce_eq,
    q.dek_blob_eq,
    q.body_nonce_eq,
    q.body_blob_eq,
  )

  size_of : (i j : ℕ) (x : Bytes) → i ≤ j → j ≤ 120 → x ≡ slice i j d → length x ≡ j - i
  size_of i j x h k e = ap length e ∙ length-slice i j d h (omega (arith, q))

  parsed-HasSizes : HasSizes f.kdf_header f.counter f.dek_nonce f.dek_blob f.body_nonce f.body_blob
  parsed-HasSizes = record {
    header_size = size_of 0 36 _ (omega arith) (omega arith) q.header_eq;
    counter_fits =
        omega (
          arith,
          q.counter_eq,
          unpack_le-slice-lt 36 44 8 d b (omega arith) (omega (arith, q)) refl,
        );
    dek_nonce_size = size_of 44 56 _ (omega arith) (omega arith) q.dek_nonce_eq;
    dek_blob_size = size_of 56 104 _ (omega arith) (omega arith) q.dek_blob_eq;
    body_nonce_size = size_of 104 116 _ (omega arith) (omega arith) q.body_nonce_eq;
    body_tag = omega (arith, q, body_length);
    body_fits = omega (
      arith,
      body_length,
      unpack_le-slice-lt 116 120 4 d b (omega arith) (omega (arith, q)) refl,
    );
  }

-- What `parse` returns, `serialize` takes back to the very file: the two headers are those that
-- `build_kdf_header` and `build_full_header` make of the parsed parameters, salt and counter, and
-- `serialize` of the parsed parts is the file that was read.
pub serialize-parse :
    (d : Bytes) (f : ParsedVaultFile)
    → IsBytes d
    → parse d ≡ ok f
    → (build_kdf_header f.params f.salt ≡ ok f.kdf_header)
      × (build_full_header f.params f.salt f.counter ≡ ok f.full_header)
      × (serialize f.kdf_header f.counter f.dek_nonce f.dek_blob f.body_nonce f.body_blob ≡ ok d)
serialize-parse d f b e =
    let q = parse-Parses d f e in
    let sizes = parsed-HasSizes d f b q in
    let h36 = All-take (λ x. x < 256) 36 d b in
    let (range, made) =
      check_header-eq-ok (take 36 d) f.params h36 (omega (arith, q, length-take 36 d))
        q.header_good in
    let salt_size : length f.salt ≡ 16 =
      ap length q.salt_eq
      ∙ length-slice 20 36 (take 36 d) (omega arith) (omega (arith, q, length-take 36 d)) in
    let header : header_bytes f.params f.salt ≡ f.kdf_header = cc (made, q.salt_eq, q.header_eq) in
    (
      build_kdf_header_lem f.params f.salt range salt_size ∙ ap ok header,
      build_full_header_lem f.params f.salt f.counter range salt_size sizes.counter_fits
          ∙ ap ok (
              cc (
                header,
                q.header_eq,
                q.full_eq,
                counter_field d f b q,
                take_split 36 44 d (omega arith),
              )),
      serialize_lem _ _ _ _ _ _ sizes ∙ ap ok (sym (parsed_file_bytes d f b q)),
    )
