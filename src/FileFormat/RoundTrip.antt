-- ===== src/FileFormat/RoundTrip.antt =====
-- `parse` after `serialize`.
use secure_vault.Prelude.{
  ℕ, ◌+◌, ◌^◌, ◌≤◌, ◌<◌, ◌≡◌, refl, sym, ◌∙◌, ap, ◌++◌, arith, length, take, drop,
}
use secure_vault.Prelude.{ltb, ltb-false, ◌==◌, ==_iff, true, false, length-append}
use secure_vault.Prelude.{Bytes, pack_le, unpack_le, length-pack_le, unpack_le-pack_le}
use secure_vault.Errors.Result.{ok}
use secure_vault.Kdf.{Argon2Parameters, validate}
use secure_vault.Kdf.Range.{validate-IsInRange}
use secure_vault.FileFormat.{slice, build_kdf_header, build_full_header, serialize, parse}
use secure_vault.FileFormat.{max_counter, check_header}
use secure_vault.FileFormat.Slices.{cut, take_split}
use secure_vault.FileFormat.Header.{build_kdf_header-eq-ok}
use secure_vault.FileFormat.Header.{build_full_header_lem, check_header-header_bytes}
use secure_vault.FileFormat.Header.{salt-header_bytes}

-- The layout of the module's comment: header, counter, wrapped key, body.
unfoldable pub file_bytes : Bytes → ℕ → Bytes → Bytes → Bytes → Bytes → Bytes
file_bytes header counter dek_nonce dek_blob body_nonce body_blob =
    header
    ++ (pack_le 8 counter
        ++ (dek_nonce ++ (dek_blob ++ (body_nonce ++ (pack_le 4 (length body_blob) ++ body_blob)))))

-- The sizes that `serialize` asks for.
pub record HasSizes (header : Bytes) (counter : ℕ) (dek_nonce dek_blob body_nonce body_blob : Bytes)
    : Type 0 where
  pub header_size : length header ≡ 36
  pub counter_fits : counter ≤ max_counter
  pub dek_nonce_size : length dek_nonce ≡ 12
  pub dek_blob_size : length dek_blob ≡ 48
  pub body_nonce_size : length body_nonce ≡ 12
  pub body_tag : 16 ≤ length body_blob
  pub body_fits : length body_blob < 2 ^ 32

module _ (h : Bytes) (n : ℕ) (dn db bn bb : Bytes) where
  pub serialize_lem :
      HasSizes h n dn db bn bb → serialize h n dn db bn bb ≡ ok (file_bytes h n dn db bn bb)
  unfolding serialize file_bytes
  serialize_lem s = ground arith

  pub serialize-eq-ok :
      (d : Bytes)
      → serialize h n dn db bn bb ≡ ok d
      → HasSizes h n dn db bn bb × (d ≡ file_bytes h n dn db bn bb)
  unfolding serialize file_bytes
  serialize-eq-ok d e = ground arith

-- The fields of a file at their offsets.
record HasFields (d h : Bytes) (n : ℕ) (dn db bn bb : Bytes) : Type 0 where
  total : length d ≡ 120 + length bb
  header_eq : take 36 d ≡ h
  counter_eq : slice 36 44 d ≡ pack_le 8 n
  dek_nonce_eq : slice 44 56 d ≡ dn
  dek_blob_eq : slice 56 104 d ≡ db
  body_nonce_eq : slice 104 116 d ≡ bn
  body_len_eq : slice 116 120 d ≡ pack_le 4 (length bb)
  body_blob_eq : drop 120 d ≡ bb

module _ (h : Bytes) (n : ℕ) (dn db bn bb : Bytes) (s : HasSizes h n dn db bn bb) where
  file_bytes-HasFields : HasFields (file_bytes h n dn db bn bb) h n dn db bn bb
  unfolding file_bytes
  file_bytes-HasFields =
      let d = file_bytes h n dn db bn bb in
      let c0 = cut 0 36 d h _ (omega arith) s.header_size refl in
      let c1 = cut 36 44 d (pack_le 8 n) _ (omega arith) (length-pack_le 8 n) c0.1 in
      let c2 = cut 44 56 d dn _ (omega arith) s.dek_nonce_size c1.1 in
      let c3 = cut 56 104 d db _ (omega arith) s.dek_blob_size c2.1 in
      let c4 = cut 104 116 d bn _ (omega arith) s.body_nonce_size c3.1 in
      let c5 = cut 116 120 d (pack_le 4 (length bb)) bb (omega arith) (length-pack_le 4 _) c4.1 in
      record {
        total = omega (arith, length-append {0}, length-pack_le, s);
        header_eq = c0.0;
        counter_eq = c1.0;
        dek_nonce_eq = c2.0;
        dek_blob_eq = c3.0;
        body_nonce_eq = c4.0;
        body_len_eq = c5.0;
        body_blob_eq = c5.1;
      }

  parse-HasFields :
      (d : Bytes) (p : Argon2Parameters)
      → HasFields d h n dn db bn bb
      → check_header h ≡ ok p
      → parse d
        ≡ ok (record {
          params = p;
          salt = slice 20 36 h;
          counter = n;
          kdf_header = h;
          full_header = h ++ pack_le 8 n;
          dek_nonce = dn;
          dek_blob = db;
          body_nonce = bn;
          body_blob = bb;
        })
  unfolding parse
  parse-HasFields d p f good =
      let full = take_split 36 44 d (omega arith) in
      let count : unpack_le (pack_le 8 n) ≡ n = unpack_le-pack_le 8 n (omega (arith, s)) in
      let size : unpack_le (pack_le 4 (length bb)) ≡ length bb =
        unpack_le-pack_le 4 _ s.body_fits in
      let long : ltb (length d) 136 ≡ false = ltb-false _ _ (omega (arith, f, s)) in
      let body : unpack_le (slice 116 120 d) ≡ length bb = ap unpack_le f.body_len_eq ∙ size in
      let tagged : ltb (length bb) 16 ≡ false = ltb-false _ _ s.body_tag in
      let whole : (120 + length bb == length d) ≡ true = (==_iff _ _).1 (sym f.total) in
      let counted : unpack_le (slice 36 44 d) ≡ n = ap unpack_le f.counter_eq ∙ count in
      rw (
        long, full, body, tagged, whole, counted, f.counter_eq, f.header_eq, good, f.dek_nonce_eq,
        f.dek_blob_eq, f.body_nonce_eq, f.body_blob_eq,
      )

  pub parse-file_bytes :
      (p : Argon2Parameters)
      → check_header h ≡ ok p
      → parse (file_bytes h n dn db bn bb)
        ≡ ok (record {
          params = p;
          salt = slice 20 36 h;
          counter = n;
          kdf_header = h;
          full_header = h ++ pack_le 8 n;
          dek_nonce = dn;
          dek_blob = db;
          body_nonce = bn;
          body_blob = bb;
        })
  parse-file_bytes p good = parse-HasFields _ p file_bytes-HasFields good

-- `parse` gives back what `serialize` was given: for a header that `build_kdf_header` made from
-- valid parameters, every file that `serialize` returns parses, to the same parameters, salt,
-- counter, nonces and blobs, with the two headers as `build_kdf_header` and `build_full_header`
-- make them.
pub parse-serialize :
    (p : Argon2Parameters) (salt header full dn db bn bb d : Bytes) (n : ℕ)
    → validate p ≡ ok tt
    → build_kdf_header p salt ≡ ok header
    → build_full_header p salt n ≡ ok full
    → serialize header n dn db bn bb ≡ ok d
    → parse d
      ≡ ok (record {
        params = p;
        salt = salt;
        counter = n;
        kdf_header = header;
        full_header = full;
        dek_nonce = dn;
        dek_blob = db;
        body_nonce = bn;
        body_blob = bb;
      })
parse-serialize p salt header full dn db bn bb d n valid built built_full made =
    let range = validate-IsInRange p valid in
    let (salt_size, header_eq) = build_kdf_header-eq-ok p salt built in
    let (sizes, d_eq) = serialize-eq-ok header n dn db bn bb d made in
    let full_eq = build_full_header_lem p salt n range salt_size sizes.counter_fits in
    let good : check_header header ≡ ok p =
      rw header_eq (check_header-header_bytes p salt range salt_size) in
    cc (
      parse-file_bytes header n dn db bn bb sizes p good,
      salt-header_bytes p salt salt_size,
      header_eq,
      d_eq,
      full_eq,
    )
