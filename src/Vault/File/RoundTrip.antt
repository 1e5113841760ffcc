-- ===== src/Vault/File/RoundTrip.antt =====
-- What is written is read back.
use cemp_mobile.Prelude.{
  ℕ, ◌+◌, ◌≤◌, ◌≡◌, refl, ap, true, ◌&&◌, Option, none, some, ok, arith, leb, length, All, ==_refl,
}
use cemp_mobile.Core.Bytes.{IsByte, bytes_equal}
use cemp_mobile.Core.Bytes.Hex.{hex_to_bytes-bytes_to_hex}
use cemp_mobile.Vault.Kdf.{
  KdfParams, argon2id, scrypt, validate_kdf_params, salt_of, costs_in_range,
}
use cemp_mobile.Vault.Json.{Json, end, field, number, text}
use cemp_mobile.Vault.File.{
  Bytes, VaultWordCount, twelve, twenty_four, WrapSlot, BiometricWrapSlot, SealedPayload,
  VaultFileMeta, VaultFileV1, vault_file_max_bytes, biometric_blob_max_bytes, words, vek_wrap_bytes,
  aes_gcm_nonce_bytes, max_safe_integer, argon2id_name, scrypt_name, hex_value_of,
  secret_payload_bytes, kdf_to_wire, slot_to_wire, biometric_to_wire, header_fields,
  payload_to_wire, meta_to_wire, file_to_wire, serialize_vault_file,
}
use cemp_mobile.Vault.File.Parse.{
  expect_uint, hex_to_bytes_strict, hex_or_refused, parse_argon2id, parse_scrypt, parse_kdf_by,
  parse_kdf, parse_password_slot, parse_biometric_nonce, word_count_of, parse_biometric_slot,
  parse_payload, parse_meta, parse_document, parse_vault_file,
}

hex_read : (bytes : Bytes) → All IsByte bytes → hex_to_bytes_strict (hex_value_of bytes) ≡ ok bytes
unfolding hex_to_bytes_strict
hex_read bytes h = ap hex_or_refused (hex_to_bytes-bytes_to_hex bytes h)

InRange : KdfParams → Type 0
InRange (argon2id m t p salt) =
    (1 ≤ m)
    × (m ≤ max_safe_integer)
    × (1 ≤ t)
    × (t ≤ max_safe_integer)
    × (1 ≤ p)
    × (p ≤ max_safe_integer)
InRange (scrypt log_n r p salt) =
    (1 ≤ log_n) × (log_n ≤ 63) × (1 ≤ r) × (r ≤ max_safe_integer) × (1 ≤ p) × (p ≤ max_safe_integer)

accepted-InRange : (kdf : KdfParams) → validate_kdf_params kdf ≡ ok tt → InRange kdf
unfolding validate_kdf_params costs_in_range InRange
accepted-InRange (argon2id m t p salt) h = ground (arith, h)
accepted-InRange (scrypt n r p salt) h = ground (arith, h)

uint_read : (low high n : ℕ) → low ≤ n → n ≤ high → expect_uint low high (number n) ≡ ok n
unfolding expect_uint
uint_read low high n h k = ground (arith, h, k)

argon2id_read :
    (m t p : ℕ) (salt : Bytes)
    → InRange (argon2id m t p salt)
    → parse_argon2id
        (field "alg" (text argon2id_name) (
          field "m"
            (number m)
            (field "t" (number t) (field "p" (number p) (field "salt" (hex_value_of salt) end)))))
        salt
      ≡ ok (argon2id m t p salt)
unfolding InRange parse_argon2id
argon2id_read m t p salt (m1, m2, t1, t2, p1, p2) =
    rw
      (
        uint_read 1 max_safe_integer m m1 m2,
        uint_read 1 max_safe_integer t t1 t2,
        uint_read 1 max_safe_integer p p1 p2,
      )
      refl

scrypt_read :
    (n r p : ℕ) (salt : Bytes)
    → InRange (scrypt n r p salt)
    → parse_scrypt
        (field "alg" (text scrypt_name) (
          field "logN"
            (number n)
            (field "r" (number r) (field "p" (number p) (field "salt" (hex_value_of salt) end)))))
        salt
      ≡ ok (scrypt n r p salt)
unfolding InRange parse_scrypt
scrypt_read n r p salt (n1, n2, r1, r2, p1, p2) =
    rw
      (
        uint_read 1 63 n n1 n2,
        uint_read 1 max_safe_integer r r1 r2,
        uint_read 1 max_safe_integer p p1 p2,
      )
      refl

kdf_read :
    (kdf : KdfParams)
    → All IsByte (salt_of kdf)
    → validate_kdf_params kdf ≡ ok tt
    → parse_kdf (kdf_to_wire kdf) ≡ ok kdf
unfolding parse_kdf kdf_to_wire parse_kdf_by bytes_equal
kdf_read (argon2id m t p salt) h v =
    rw (hex_to_bytes-bytes_to_hex salt h, argon2id_read m t p salt (accepted-InRange _ v), v) refl
kdf_read (scrypt n r p salt) h v =
    rw (hex_to_bytes-bytes_to_hex salt h, scrypt_read n r p salt (accepted-InRange _ v), v) refl

password_slot_read :
    (slot : WrapSlot)
    → All IsByte slot.nonce
    → All IsByte slot.wrapped_vek
    → length slot.nonce ≡ aes_gcm_nonce_bytes
    → length slot.wrapped_vek ≡ vek_wrap_bytes
    → parse_password_slot (slot_to_wire (some slot.nonce) slot.wrapped_vek) ≡ ok slot
unfolding parse_password_slot slot_to_wire
password_slot_read slot a b c d =
    rw (hex_to_bytes-bytes_to_hex slot.nonce a, hex_to_bytes-bytes_to_hex slot.wrapped_vek b, c, d)
      refl

abbrev pub IsNonce : Option Bytes → Type 0
IsNonce none = Unit {0}
IsNonce (some nonce) = All IsByte nonce × (length nonce ≡ aes_gcm_nonce_bytes)

abbrev pub IsBiometric : Option BiometricWrapSlot → Type 0
IsBiometric none = Unit {0}
IsBiometric (some slot) =
    All IsByte slot.wrapped_vek
    × (16 ≤ length slot.wrapped_vek)
    × (length slot.wrapped_vek ≤ biometric_blob_max_bytes)
    × IsNonce slot.nonce

nonce_read :
    (nonce : Bytes)
    → IsNonce (some nonce)
    → parse_biometric_nonce (some (hex_value_of nonce)) ≡ ok (some nonce)
unfolding parse_biometric_nonce
nonce_read nonce (a, b) = rw (hex_to_bytes-bytes_to_hex nonce a, b) refl

blob_size :
    (n : ℕ)
    → 16 ≤ n
    → n ≤ biometric_blob_max_bytes
    → (leb 16 n && leb n biometric_blob_max_bytes) ≡ true
blob_size n a b = ground (arith, a, b)

slot_read :
    (nonce : Option Bytes) (vek : Bytes)
    → IsBiometric (some (record { nonce = nonce; wrapped_vek = vek }))
    → parse_biometric_slot (slot_to_wire nonce vek)
      ≡ ok (some (record { nonce = nonce; wrapped_vek = vek }))
unfolding parse_biometric_slot slot_to_wire
slot_read none vek (a, b, c, d) = rw (hex_to_bytes-bytes_to_hex vek a, blob_size _ b c) refl
slot_read (some nonce) vek (a, b, c, d) =
    rw (hex_to_bytes-bytes_to_hex vek a, blob_size _ b c, nonce_read nonce d) refl

biometric_read :
    (slot : Option BiometricWrapSlot)
    → IsBiometric slot
    → parse_biometric_slot (biometric_to_wire slot) ≡ ok slot
unfolding biometric_to_wire
biometric_read none h = unfold parse_biometric_slot in refl
biometric_read (some slot) h = slot_read slot.nonce slot.wrapped_vek h

payload_read :
    (payload : SealedPayload)
    → All IsByte payload.nonce
    → All IsByte payload.ct
    → length payload.nonce ≡ aes_gcm_nonce_bytes
    → parse_payload (payload_to_wire payload) ≡ ok payload
unfolding parse_payload payload_to_wire
payload_read payload a b c =
    rw (hex_to_bytes-bytes_to_hex payload.nonce a, hex_to_bytes-bytes_to_hex payload.ct b, c) refl

words_bounds : (count : VaultWordCount) → (12 ≤ words count) × (words count ≤ 24)
words_bounds twelve = (omega arith, omega arith)
words_bounds twenty_four = (omega arith, omega arith)

word_count_read : (count : VaultWordCount) → word_count_of (words count) ≡ ok count
word_count_read twelve = refl
word_count_read twenty_four = refl

meta_read :
    (meta : VaultFileMeta)
    → meta.created_at ≤ max_safe_integer
    → 1 ≤ meta.auto_lock_seconds
    → meta.auto_lock_seconds ≤ 2147483
    → parse_meta (meta_to_wire meta) ≡ ok meta
unfolding parse_meta meta_to_wire
meta_read meta h k l =
    rw
      (
        uint_read 12 24 (words meta.word_count) (words_bounds meta.word_count).0
            (words_bounds meta.word_count).1,
        word_count_read meta.word_count,
        uint_read 0 max_safe_integer meta.created_at (omega arith) h,
        uint_read 1 2147483 meta.auto_lock_seconds k l,
      )
      refl

-- What a vault writes: byte fields of the layout's lengths, costs within the caps, a timer that
-- setTimeout takes, and a file below the size cap.
pub record IsVaultFile (file : VaultFileV1) : Type 0 where
  pub salt_bytes : All IsByte (salt_of file.header.kdf)
  pub kdf_accepted : validate_kdf_params file.header.kdf ≡ ok tt
  pub slot_nonce : All IsByte file.header.password_slot.nonce
  pub slot_nonce_length : length file.header.password_slot.nonce ≡ aes_gcm_nonce_bytes
  pub slot_vek : All IsByte file.header.password_slot.wrapped_vek
  pub slot_vek_length : length file.header.password_slot.wrapped_vek ≡ vek_wrap_bytes
  pub biometric : IsBiometric file.header.biometric_slot
  pub payload_nonce : All IsByte file.payload.nonce
  pub payload_nonce_length : length file.payload.nonce ≡ aes_gcm_nonce_bytes
  pub payload_ct : All IsByte file.payload.ct
  pub payload_ct_length : length file.payload.ct ≡ secret_payload_bytes file.meta.word_count + 16
  pub created : file.meta.created_at ≤ max_safe_integer
  pub timer_positive : 1 ≤ file.meta.auto_lock_seconds
  pub timer_bounded : file.meta.auto_lock_seconds ≤ 2147483

pub document_read :
    (file : VaultFileV1) → IsVaultFile file → parse_document (file_to_wire file) ≡ ok file
unfolding parse_document file_to_wire header_fields
document_read file is =
    rw
      (
        kdf_read file.header.kdf is.salt_bytes is.kdf_accepted,
        password_slot_read file.header.password_slot is.slot_nonce is.slot_vek is.slot_nonce_length
            is.slot_vek_length,
        biometric_read file.header.biometric_slot is.biometric,
        payload_read file.payload is.payload_nonce is.payload_ct is.payload_nonce_length,
        meta_read file.meta is.created is.timer_positive is.timer_bounded,
        is.payload_ct_length,
        ==_refl (secret_payload_bytes file.meta.word_count + 16),
      )
      refl

-- A vault file that is written is read back as it was: for every file with byte fields of the
-- layout's lengths, key-derivation costs within the caps and a timer in range, whose text is not above
-- the size cap, where the text decoder and JSON.parse read back the object that was printed.
pub parse_vault_file-serialize_vault_file :
    (stringify : Json → Bytes) (parse : Bytes → Option Json) (file : VaultFileV1)
    → IsVaultFile file
    → length (serialize_vault_file stringify file) ≤ vault_file_max_bytes
    → parse (stringify (file_to_wire file)) ≡ some (file_to_wire file)
    → parse_vault_file parse (serialize_vault_file stringify file) ≡ ok file
unfolding parse_vault_file serialize_vault_file
parse_vault_file-serialize_vault_file stringify parse file is small printed =
    rw (small_lem, printed, document_read file is) refl
  where
    small_lem : leb (length (stringify (file_to_wire file))) vault_file_max_bytes ≡ true
    small_lem = ground (arith, small)
