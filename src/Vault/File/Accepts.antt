-- ===== src/Vault/File/Accepts.antt =====
-- What a file that the parser accepts is known to hold, before any key is derived.
use cemp_mobile.Prelude.{
  ℕ, ◌+◌, ◌≤◌, ◌≡◌, subst, ap, Bool, true, false, ◌&&◌, Option, none, some, Result, ok, err, arith,
  if◌then◌else◌, ◌==◌, leb, length, ◌>>=◌, guard, bind_ok, guard_ok, ok_inj, ==→eq, leb→le, String,
  All,
}
use cemp_mobile.Core.Bytes.{IsByte, hex_to_bytes}
use cemp_mobile.Core.Bytes.Hex.{bytes_to_hex-hex_to_bytes}
use cemp_mobile.Vault.File.RoundTrip.{IsVaultFile, IsNonce, IsBiometric}
use cemp_mobile.Vault.Errors.{corrupt_vault}
use cemp_mobile.Vault.Kdf.{
  KdfParams, salt_of, validate_kdf_params, IsCapped, validate_kdf_params-IsCapped,
}
use cemp_mobile.Vault.Json.{
  Json, Fields, number, object, null, find_field, other_number, array, boolean, text,
}
use cemp_mobile.Vault.File.{
  Bytes, WrapSlot, BiometricWrapSlot, SealedPayload, VaultFileMeta, VaultFileV1,
  vault_file_max_bytes, biometric_blob_max_bytes, vek_wrap_bytes, aes_gcm_nonce_bytes,
  max_safe_integer, argon2id_name, scrypt_name, secret_payload_bytes,
}
use cemp_mobile.Vault.File.Parse.{
  expect_object, expect_uint, expect_bool, expect_object_field, hex_to_bytes_strict, hex_or_refused,
  expect_hex_field, uint_field, parse_argon2id, parse_scrypt, parse_kdf_by, parse_kdf,
  parse_password_slot, parse_biometric_nonce, found_or_refused, refused, text_is, is_null,
  word_count_of, parse_biometric_object, parse_biometric_slot, parse_payload, parse_meta,
  parse_document, parse_vault_file,
}

read_bytes : (value : Json) (bs : Bytes) → hex_to_bytes_strict value ≡ ok bs → All IsByte bs
unfolding hex_to_bytes_strict
read_bytes (text hex) bs h = (bytes_to_hex-hex_to_bytes hex bs (read_ok (hex_to_bytes hex) h)).1
  where
    read_ok : {E : Type 0} (r : Result E Bytes) → hex_or_refused r ≡ ok bs → r ≡ ok bs
    read_ok (ok x) e = ap (λ y. ok y) (ok_inj e)
    read_ok (err e) k = absurd (cc k)
read_bytes (number m) bs e = absurd (cc e)
read_bytes (object fields) bs e = absurd (cc e)
read_bytes null bs e = absurd (cc e)
read_bytes other_number bs e = absurd (cc e)
read_bytes array bs e = absurd (cc e)
read_bytes (boolean b) bs e = absurd (cc e)

hex_field_bytes :
    (obj : Fields) (name : String) (bs : Bytes) → expect_hex_field obj name ≡ ok bs → All IsByte bs
unfolding expect_hex_field
hex_field_bytes obj name bs h =
    let (value, _, e) = bind_ok (expect_object_field obj name) _ h in read_bytes value bs e

abbrev IsKdf : KdfParams → Type 0
IsKdf kdf = (validate_kdf_params kdf ≡ ok tt) × All IsByte (salt_of kdf)

kdf_salt :
    (alg : Json) (obj : Fields) (salt : Bytes) (kdf : KdfParams)
    → parse_kdf_by alg obj salt ≡ ok kdf
    → salt ≡ salt_of kdf
unfolding parse_kdf_by
kdf_salt alg obj salt kdf h = by_name (text_is argon2id_name alg) (text_is scrypt_name alg) h
  where
    argon : parse_argon2id obj salt ≡ ok kdf → salt ≡ salt_of kdf
    argon h =
        unfold parse_argon2id in
        let (m, _, h1) = bind_ok (uint_field obj "m" 1 max_safe_integer) _ h in
        let (t, _, h2) = bind_ok (uint_field obj "t" 1 max_safe_integer) _ h1 in
        let (p, _, e) = bind_ok (uint_field obj "p" 1 max_safe_integer) _ h2 in
        ap salt_of (ok_inj e)

    by_scrypt : parse_scrypt obj salt ≡ ok kdf → salt ≡ salt_of kdf
    by_scrypt h =
        unfold parse_scrypt in
        let (n, _, h1) = bind_ok (uint_field obj "logN" 1 63) _ h in
        let (r, _, h2) = bind_ok (uint_field obj "r" 1 max_safe_integer) _ h1 in
        let (p, _, e) = bind_ok (uint_field obj "p" 1 max_safe_integer) _ h2 in
        ap salt_of (ok_inj e)

    by_name :
        (a b : Bool)
        → (if a then parse_argon2id obj salt else if b then parse_scrypt obj salt else refused)
          ≡ ok kdf
        → salt ≡ salt_of kdf
    by_name true b h = argon h
    by_name false true h = by_scrypt h
    by_name false false h = absurd (cc h)

parse_kdf-IsKdf : (value : Json) (kdf : KdfParams) → parse_kdf value ≡ ok kdf → IsKdf kdf
unfolding parse_kdf
parse_kdf-IsKdf value kdf h =
    let (obj, _, h1) = bind_ok (expect_object value) _ h in
    let (alg, _, h2) = bind_ok (expect_object_field obj "alg") _ h1 in
    let (salt, s, h3) = bind_ok (expect_hex_field obj "salt") _ h2 in
    let (params, k, h4) = bind_ok (parse_kdf_by alg obj salt) _ h3 in
    let (_, v, e) = bind_ok (validate_kdf_params params) _ h4 in
    subst IsKdf (ok_inj e)
      (v, subst (All IsByte) (kdf_salt alg obj salt params k) (hex_field_bytes obj "salt" salt s))

abbrev IsSlot : WrapSlot → Type 0
IsSlot slot =
    All IsByte slot.nonce
    × All IsByte slot.wrapped_vek
    × (length slot.nonce ≡ aes_gcm_nonce_bytes)
    × (length slot.wrapped_vek ≡ vek_wrap_bytes)

parse_password_slot-IsSlot :
    (value : Json) (slot : WrapSlot) → parse_password_slot value ≡ ok slot → IsSlot slot
unfolding parse_password_slot
parse_password_slot-IsSlot value slot h =
    let (obj, _, h1) = bind_ok (expect_object value) _ h in
    let (nonce, n, h2) = bind_ok (expect_hex_field obj "nonce") _ h1 in
    let (vek, v, h3) = bind_ok (expect_hex_field obj "wrappedVek") _ h2 in
    let (_, a, h4) = bind_ok (guard (length nonce == aes_gcm_nonce_bytes) corrupt_vault) _ h3 in
    let (_, b, e) = bind_ok (guard (length vek == vek_wrap_bytes) corrupt_vault) _ h4 in
    subst IsSlot (ok_inj e) (
      hex_field_bytes obj "nonce" nonce n,
      hex_field_bytes obj "wrappedVek" vek v,
      ==→eq _ _ (guard_ok _ _ a),
      ==→eq _ _ (guard_ok _ _ b),
    )

parse_biometric_nonce-IsNonce :
    (value : Option Json) (parsed : Option Bytes)
    → parse_biometric_nonce value ≡ ok parsed
    → IsNonce parsed
unfolding parse_biometric_nonce
parse_biometric_nonce-IsNonce none parsed h = subst IsNonce (ok_inj h) tt
parse_biometric_nonce-IsNonce (some value) parsed h =
    let (bs, r, h1) = bind_ok (hex_to_bytes_strict value) _ h in
    let (_, a, e) = bind_ok (guard (length bs == aes_gcm_nonce_bytes) corrupt_vault) _ h1 in
    subst IsNonce (ok_inj e) (read_bytes value bs r, ==→eq _ _ (guard_ok _ _ a))

parse_biometric_slot-IsBiometric :
    (value : Json) (slot : Option BiometricWrapSlot)
    → parse_biometric_slot value ≡ ok slot
    → IsBiometric slot
unfolding parse_biometric_slot
parse_biometric_slot-IsBiometric value slot h = split (is_null value) h
  where
    held : parse_biometric_object value ≡ ok slot → IsBiometric slot
    held h =
        unfold parse_biometric_object in
        let (obj, _, h1) = bind_ok (expect_object value) _ h in
        let (vek, v, h2) = bind_ok (expect_hex_field obj "wrappedVek") _ h1 in
        let (_, size, h3) =
          bind_ok
            (guard (leb 16 (length vek) && leb (length vek) biometric_blob_max_bytes) corrupt_vault)
            _ h2 in
        let (nonce, n, e) = bind_ok (parse_biometric_nonce (find_field "nonce" obj)) _ h3 in
        let bounds : (16 ≤ length vek) × (length vek ≤ biometric_blob_max_bytes) =
          ground (arith, guard_ok _ _ size) in
        subst IsBiometric (ok_inj e) (
          hex_field_bytes obj "wrappedVek" vek v,
          bounds.0,
          bounds.1,
          parse_biometric_nonce-IsNonce _ nonce n,
        )

    split :
        (b : Bool)
        → (if b then ok none else parse_biometric_object value) ≡ ok slot
        → IsBiometric slot
    split true e = subst IsBiometric (ok_inj e) tt
    split false e = held e

abbrev IsSealedPayload : SealedPayload → Type 0
IsSealedPayload payload =
    All IsByte payload.nonce × All IsByte payload.ct × (length payload.nonce ≡ aes_gcm_nonce_bytes)

parse_payload-IsSealedPayload :
    (value : Json) (payload : SealedPayload)
    → parse_payload value ≡ ok payload
    → IsSealedPayload payload
unfolding parse_payload
parse_payload-IsSealedPayload value payload h =
    let (obj, _, h1) = bind_ok (expect_object value) _ h in
    let (nonce, n, h2) = bind_ok (expect_hex_field obj "nonce") _ h1 in
    let (ct, c, h3) = bind_ok (expect_hex_field obj "ct") _ h2 in
    let (_, a, e) = bind_ok (guard (length nonce == aes_gcm_nonce_bytes) corrupt_vault) _ h3 in
    subst IsSealedPayload (ok_inj e) (
      hex_field_bytes obj "nonce" nonce n,
      hex_field_bytes obj "ct" ct c,
      ==→eq _ _ (guard_ok _ _ a),
    )

uint_bounds :
    (obj : Fields) (name : String) (low high n : ℕ)
    → uint_field obj name low high ≡ ok n
    → (low ≤ n) × (n ≤ high)
unfolding uint_field
uint_bounds obj name low high n h =
    let (value, _, e) = bind_ok (expect_object_field obj name) _ h in inside value e
  where
    inside : (value : Json) → expect_uint low high value ≡ ok n → (low ≤ n) × (n ≤ high)
    inside (number m) e = unfold expect_uint in ground (arith, e)
    inside (object fields) e = absurd (unfold expect_uint in cc e)
    inside null e = absurd (unfold expect_uint in cc e)
    inside other_number e = absurd (unfold expect_uint in cc e)
    inside array e = absurd (unfold expect_uint in cc e)
    inside (boolean b) e = absurd (unfold expect_uint in cc e)
    inside (text t) e = absurd (unfold expect_uint in cc e)

abbrev IsMeta : VaultFileMeta → Type 0
IsMeta meta =
    (meta.created_at ≤ max_safe_integer)
    × (1 ≤ meta.auto_lock_seconds)
    × (meta.auto_lock_seconds ≤ 2147483)

parse_meta-IsMeta : (value : Json) (meta : VaultFileMeta) → parse_meta value ≡ ok meta → IsMeta meta
unfolding parse_meta
parse_meta-IsMeta value meta h =
    let (obj, _, h1) = bind_ok (expect_object value) _ h in
    let (raw, _, h2) = bind_ok (uint_field obj "wordCount" 12 24) _ h1 in
    let (count, _, h3) = bind_ok (word_count_of raw) _ h2 in
    let (at, a, h4) = bind_ok (uint_field obj "createdAt" 0 max_safe_integer) _ h3 in
    let (flag, _, h5) = bind_ok (expect_object_field obj "hasPassphrase" >>= expect_bool) _ h4 in
    let (seconds, s, e) = bind_ok (uint_field obj "autoLockSeconds" 1 2147483) _ h5 in
    let timer = uint_bounds obj "autoLockSeconds" 1 2147483 seconds s in
    subst IsMeta (ok_inj e)
      ((uint_bounds obj "createdAt" 0 max_safe_integer at a).1, timer.0, timer.1)

document-IsVaultFile :
    (raw : Json) (file : VaultFileV1) → parse_document raw ≡ ok file → IsVaultFile file
unfolding parse_document
document-IsVaultFile raw file h =
    let (obj, _, h1) = bind_ok (expect_object raw) _ h in
    let (version, _, h2) = bind_ok (uint_field obj "version" 1 1) _ h1 in
    let (kdf, k, h3) = bind_ok (expect_object_field obj "kdf" >>= parse_kdf) _ h2 in
    let (slot, s, h4) =
      bind_ok (expect_object_field obj "passwordSlot" >>= parse_password_slot) _ h3 in
    let (biometric, b, h5) =
      bind_ok (expect_object_field obj "biometricSlot" >>= parse_biometric_slot) _ h4 in
    let (payload, p, h6) = bind_ok (expect_object_field obj "payload" >>= parse_payload) _ h5 in
    let (meta, m, h7) = bind_ok (expect_object_field obj "meta" >>= parse_meta) _ h6 in
    let (_, size, e) =
      bind_ok (guard (length payload.ct == secret_payload_bytes meta.word_count + 16) corrupt_vault)
        _ h7 in
    let (kdf_json, _, k1) = bind_ok (expect_object_field obj "kdf") _ k in
    let (slot_json, _, s1) = bind_ok (expect_object_field obj "passwordSlot") _ s in
    let (biometric_json, _, b1) = bind_ok (expect_object_field obj "biometricSlot") _ b in
    let (payload_json, _, p1) = bind_ok (expect_object_field obj "payload") _ p in
    let (meta_json, _, m1) = bind_ok (expect_object_field obj "meta") _ m in
    let kdf_is = parse_kdf-IsKdf kdf_json kdf k1 in
    let slot_is = parse_password_slot-IsSlot slot_json slot s1 in
    let payload_is = parse_payload-IsSealedPayload payload_json payload p1 in
    let meta_is = parse_meta-IsMeta meta_json meta m1 in
    subst IsVaultFile (ok_inj e) (record {
      salt_bytes = kdf_is.1;
      kdf_accepted = kdf_is.0;
      slot_nonce = slot_is.0;
      slot_nonce_length = slot_is.2;
      slot_vek = slot_is.1;
      slot_vek_length = slot_is.3;
      biometric = parse_biometric_slot-IsBiometric biometric_json biometric b1;
      payload_nonce = payload_is.0;
      payload_nonce_length = payload_is.2;
      payload_ct = payload_is.1;
      payload_ct_length = ==→eq _ _ (guard_ok _ _ size);
      created = meta_is.0;
      timer_positive = meta_is.1;
      timer_bounded = meta_is.2;
    })

-- Whatever the bytes of the file and whatever JSON.parse makes of them, a file that is accepted has
-- at most 65,536 bytes and is well formed: byte fields of the layout's lengths (a nonce of 12, a
-- wrapped VEK of 48, a biometric blob of 16 to 512, a ciphertext of its word count's length), a timer
-- of 1 to 2,147,483 seconds, and a key derivation within the caps of 1 GiB, 16 passes and 8 lanes of
-- Argon2id or of logN 20, r 8 and p 8 of scrypt.
pub parse_vault_file-IsVaultFile :
    (parse : Bytes → Option Json) (bytes : Bytes) (file : VaultFileV1)
    → parse_vault_file parse bytes ≡ ok file
    → (length bytes ≤ vault_file_max_bytes) × IsVaultFile file × IsCapped file.header.kdf
unfolding parse_vault_file
parse_vault_file-IsVaultFile parse bytes file h =
    let (_, small, h1) =
      bind_ok (guard (leb (length bytes) vault_file_max_bytes) corrupt_vault) _ h in
    let (raw, _, e) = bind_ok (found_or_refused (parse bytes)) _ h1 in
    let is = document-IsVaultFile raw file e in
    (
      leb→le _ _ (guard_ok _ _ small),
      is,
      validate_kdf_params-IsCapped file.header.kdf is.kdf_accepted,
    )
