-- ===== src/Vault/File/Parse.antt =====
-- packages/cemp-secure-vault/src/format.ts: reading a vault file, which is hostile input.
use cemp_mobile.Prelude.{
  ℕ, ◌+◌, Bool, true, false, ◌&&◌, ◌||◌, List, Option, none, some, Result, ok, err, String,
  if◌then◌else◌, ◌==◌, ltb, leb, length, ◌>>=◌, ◌>>◌, guard,
}
use cemp_mobile.Core.Bytes.{hex_to_bytes, bytes_equal}
use cemp_mobile.Vault.Errors.{VaultError, corrupt_vault}
use cemp_mobile.Vault.Kdf.{KdfParams, argon2id, scrypt, validate_kdf_params}
use cemp_mobile.Vault.Json.{
  Json, null, other_number, array, boolean, number, text, object, Fields, find_field,
}
use cemp_mobile.Vault.File.{
  Bytes, VaultWordCount, twelve, twenty_four, WrapSlot, BiometricWrapSlot, SealedPayload,
  VaultFileMeta, VaultFileV1, vault_file_max_bytes, biometric_blob_max_bytes, vek_wrap_bytes,
  aes_gcm_nonce_bytes, max_safe_integer, argon2id_name, scrypt_name, secret_payload_bytes,
}

-- `fail(detail)`
abbrev pub refused {ℓ} : {A : Type ℓ} → Result VaultError A
refused = err corrupt_vault

unfoldable pub expect_object : Json → Result VaultError Fields
expect_object (object fields) = ok fields
expect_object null = refused
expect_object other_number = refused
expect_object array = refused
expect_object (boolean b) = refused
expect_object (number n) = refused
expect_object (text t) = refused

unfoldable pub expect_uint : ℕ → ℕ → Json → Result VaultError ℕ
expect_uint low high (number n) = if ltb n low || ltb high n then refused else ok n
expect_uint low high (object fields) = refused
expect_uint low high null = refused
expect_uint low high other_number = refused
expect_uint low high array = refused
expect_uint low high (boolean b) = refused
expect_uint low high (text t) = refused

unfoldable pub expect_bool : Json → Result VaultError Bool
expect_bool (boolean b) = ok b
expect_bool (object fields) = refused
expect_bool null = refused
expect_bool other_number = refused
expect_bool array = refused
expect_bool (number n) = refused
expect_bool (text t) = refused

abbrev pub found_or_refused {ℓ} : {A : Type ℓ} → Option A → Result VaultError A
found_or_refused none = refused
found_or_refused (some a) = ok a

unfoldable pub expect_object_field : Fields → String → Result VaultError Json
unfolding find_field
expect_object_field obj name = found_or_refused (find_field name obj)

abbrev pub hex_or_refused : {E : Type 0} → Result E Bytes → Result VaultError Bytes
hex_or_refused (ok bytes) = ok bytes
hex_or_refused (err e) = refused

unfoldable pub hex_to_bytes_strict : Json → Result VaultError Bytes
hex_to_bytes_strict (text hex) = hex_or_refused (hex_to_bytes hex)
hex_to_bytes_strict (object fields) = refused
hex_to_bytes_strict null = refused
hex_to_bytes_strict other_number = refused
hex_to_bytes_strict array = refused
hex_to_bytes_strict (boolean b) = refused
hex_to_bytes_strict (number n) = refused

unfoldable pub expect_hex_field : Fields → String → Result VaultError Bytes
unfolding expect_object_field hex_to_bytes_strict
expect_hex_field obj name = expect_object_field obj name >>= hex_to_bytes_strict

unfoldable pub uint_field : Fields → String → ℕ → ℕ → Result VaultError ℕ
unfolding expect_object_field expect_uint
uint_field obj name low high = expect_object_field obj name >>= expect_uint low high

-- `alg === name`, for what the field may hold.
abbrev pub text_is : List ℕ → Json → Bool
text_is name (text t) = bytes_equal t name
text_is name null = false
text_is name other_number = false
text_is name array = false
text_is name (boolean b) = false
text_is name (number n) = false
text_is name (object fields) = false

unfoldable pub parse_argon2id : Fields → Bytes → Result VaultError KdfParams
unfolding uint_field
parse_argon2id obj salt = do
  m ← uint_field obj "m" 1 max_safe_integer
  t ← uint_field obj "t" 1 max_safe_integer
  p ← uint_field obj "p" 1 max_safe_integer
  ok (argon2id m t p salt)

unfoldable pub parse_scrypt : Fields → Bytes → Result VaultError KdfParams
unfolding uint_field
parse_scrypt obj salt = do
  log_n ← uint_field obj "logN" 1 63
  r ← uint_field obj "r" 1 max_safe_integer
  p ← uint_field obj "p" 1 max_safe_integer
  ok (scrypt log_n r p salt)

unfoldable pub parse_kdf_by : Json → Fields → Bytes → Result VaultError KdfParams
unfolding parse_argon2id parse_scrypt
parse_kdf_by alg obj salt =
    if text_is argon2id_name alg
    then parse_argon2id obj salt
    else if text_is scrypt_name alg
    then parse_scrypt obj salt
    else refused

unfoldable pub parse_kdf : Json → Result VaultError KdfParams
unfolding expect_object expect_object_field expect_hex_field parse_kdf_by validate_kdf_params
parse_kdf value = do
  obj ← expect_object value
  alg ← expect_object_field obj "alg"
  salt ← expect_hex_field obj "salt"
  params ← parse_kdf_by alg obj salt
  validate_kdf_params params
  ok params

unfoldable pub parse_password_slot : Json → Result VaultError WrapSlot
unfolding expect_object expect_hex_field
parse_password_slot value = do
  obj ← expect_object value
  nonce ← expect_hex_field obj "nonce"
  wrapped_vek ← expect_hex_field obj "wrappedVek"
  guard (length nonce == aes_gcm_nonce_bytes) corrupt_vault
  guard (length wrapped_vek == vek_wrap_bytes) corrupt_vault
  ok (record { nonce = nonce; wrapped_vek = wrapped_vek })

unfoldable pub parse_biometric_nonce : Option Json → Result VaultError (Option Bytes)
unfolding hex_to_bytes_strict
parse_biometric_nonce none = ok none
parse_biometric_nonce (some value) = do
  nonce ← hex_to_bytes_strict value
  guard (length nonce == aes_gcm_nonce_bytes) corrupt_vault
  ok (some nonce)

unfoldable pub parse_biometric_object : Json → Result VaultError (Option BiometricWrapSlot)
unfolding expect_object expect_hex_field parse_biometric_nonce find_field
parse_biometric_object value = do
  obj ← expect_object value
  wrapped_vek ← expect_hex_field obj "wrappedVek"
  guard (leb 16 (length wrapped_vek) && leb (length wrapped_vek) biometric_blob_max_bytes)
      corrupt_vault
  nonce ← parse_biometric_nonce (find_field "nonce" obj)
  ok (some (record { nonce = nonce; wrapped_vek = wrapped_vek }))

abbrev pub is_null : Json → Bool
is_null null = true
is_null (object fields) = false
is_null other_number = false
is_null array = false
is_null (boolean b) = false
is_null (number n) = false
is_null (text t) = false

unfoldable pub parse_biometric_slot : Json → Result VaultError (Option BiometricWrapSlot)
unfolding parse_biometric_object
parse_biometric_slot value =
    let slot = parse_biometric_object value in if is_null value then ok none else slot

unfoldable pub parse_payload : Json → Result VaultError SealedPayload
unfolding expect_object expect_hex_field
parse_payload value = do
  obj ← expect_object value
  nonce ← expect_hex_field obj "nonce"
  ct ← expect_hex_field obj "ct"
  guard (length nonce == aes_gcm_nonce_bytes) corrupt_vault
  ok (record { nonce = nonce; ct = ct })

abbrev pub word_count_of : ℕ → Result VaultError VaultWordCount
word_count_of n = if n == 12 then ok twelve else if n == 24 then ok twenty_four else refused

unfoldable pub parse_meta : Json → Result VaultError VaultFileMeta
unfolding expect_object uint_field expect_object_field expect_bool
parse_meta value = do
  obj ← expect_object value
  raw ← uint_field obj "wordCount" 12 24
  word_count ← word_count_of raw
  created_at ← uint_field obj "createdAt" 0 max_safe_integer
  has_passphrase ← expect_object_field obj "hasPassphrase" >>= expect_bool
  auto_lock_seconds ← uint_field obj "autoLockSeconds" 1 2147483
  ok (record {
    created_at = created_at;
    word_count = word_count;
    has_passphrase = has_passphrase;
    auto_lock_seconds = auto_lock_seconds;
  })

-- The checks of `parseVaultFile` on what JSON.parse gives.
unfoldable pub parse_document : Json → Result VaultError VaultFileV1
unfolding expect_object uint_field expect_object_field parse_kdf parse_password_slot
    parse_biometric_slot parse_payload parse_meta secret_payload_bytes
parse_document raw = do
  obj ← expect_object raw
  version ← uint_field obj "version" 1 1
  kdf ← expect_object_field obj "kdf" >>= parse_kdf
  password_slot ← expect_object_field obj "passwordSlot" >>= parse_password_slot
  biometric_slot ← expect_object_field obj "biometricSlot" >>= parse_biometric_slot
  payload ← expect_object_field obj "payload" >>= parse_payload
  meta ← expect_object_field obj "meta" >>= parse_meta
  guard (length payload.ct == secret_payload_bytes meta.word_count + 16) corrupt_vault
  ok (record {
    header = record { kdf = kdf; password_slot = password_slot; biometric_slot = biometric_slot };
    payload = payload;
    meta = meta;
  })

unfoldable pub parse_vault_file : (Bytes → Option Json) → Bytes → Result VaultError VaultFileV1
unfolding parse_document
parse_vault_file parse bytes = do
  guard (leb (length bytes) vault_file_max_bytes) corrupt_vault
  raw ← found_or_refused (parse bytes)
  parse_document raw
