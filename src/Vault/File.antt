-- ===== src/Vault/File.antt =====
-- packages/cemp-secure-vault/src/format.ts: the vault file, from and to JSON. `stringify` is
-- JSON.stringify with the text encoder, `parse` the text decoder with JSON.parse; `none` is a throw.
pub mod Parse
pub mod Accepts
pub mod RoundTrip
pub mod Examples
use cemp_mobile.Prelude.{
  ℕ, ◌+◌, ◌≡◌, Bool, true, false, not, ◌&&◌, ◌||◌, List, [], ◌∷◌, Option, none, some, Result, ok,
  err, String, if◌then◌else◌, ◌==◌, ltb, leb, length, ◌>>=◌, ◌>>◌, guard,
}
use cemp_mobile.Core.Bytes.{bytes_to_hex, hex_to_bytes, bytes_equal}
use cemp_mobile.Vault.Errors.{VaultError, corrupt_vault}
use cemp_mobile.Vault.Kdf.{KdfParams, argon2id, scrypt, validate_kdf_params}
use cemp_mobile.Vault.Json.{
  Json, null, other_number, array, boolean, number, text, object, Fields, end, field, find_field,
}
use cemp_mobile.Vault.Payload.{seed_bytes}

abbrev pub Bytes : Type 0
Bytes = List ℕ

abbrev pub vault_format_version : ℕ
vault_format_version = 1

abbrev pub vault_file_max_bytes : ℕ
vault_file_max_bytes = 65536

abbrev pub biometric_blob_max_bytes : ℕ
biometric_blob_max_bytes = 512

abbrev pub vek_bytes : ℕ
vek_bytes = 32

abbrev pub vek_wrap_bytes : ℕ
vek_wrap_bytes = vek_bytes + 16

abbrev pub aes_gcm_nonce_bytes : ℕ
aes_gcm_nonce_bytes = 12

abbrev pub max_safe_integer : ℕ
max_safe_integer = 9007199254740991

pub data VaultWordCount : Type 0 where
  twelve twenty_four : VaultWordCount

pub record WrapSlot : Type 0 where
  pub nonce : Bytes
  pub wrapped_vek : Bytes

pub record BiometricWrapSlot : Type 0 where
  pub nonce : Option Bytes
  pub wrapped_vek : Bytes

pub record SealedPayload : Type 0 where
  pub nonce : Bytes
  pub ct : Bytes

pub record VaultFileMeta : Type 0 where
  pub created_at : ℕ
  pub word_count : VaultWordCount
  pub has_passphrase : Bool
  pub auto_lock_seconds : ℕ

-- The authenticated part: its version is the constant 1.
pub record Header : Type 0 where
  pub kdf : KdfParams
  pub password_slot : WrapSlot
  pub biometric_slot : Option BiometricWrapSlot

pub record VaultFileV1 : Type 0 where
  pub header : Header
  pub payload : SealedPayload
  pub meta : VaultFileMeta

abbrev pub words : VaultWordCount → ℕ
words twelve = 12
words twenty_four = 24

abbrev pub entropy_bytes : VaultWordCount → ℕ
entropy_bytes twelve = 16
entropy_bytes twenty_four = 32

-- Byte length of the plaintext payload for a word count.
unfoldable pub secret_payload_bytes : VaultWordCount → ℕ
secret_payload_bytes count = 1 + entropy_bytes count + seed_bytes + 1

-- "argon2id" and "scrypt".
abbrev pub argon2id_name : List ℕ
argon2id_name = b'a' ∷ b'r' ∷ b'g' ∷ b'o' ∷ b'n' ∷ b'2' ∷ b'i' ∷ b'd' ∷ []

abbrev pub scrypt_name : List ℕ
scrypt_name = b's' ∷ b'c' ∷ b'r' ∷ b'y' ∷ b'p' ∷ b't' ∷ []

abbrev pub hex_value_of : Bytes → Json
hex_value_of bytes = text (bytes_to_hex bytes)

unfoldable pub kdf_to_wire : KdfParams → Json
kdf_to_wire (argon2id m t p salt) = object (
    field "alg" (text argon2id_name) (
      field "m" (number m)
        (field "t" (number t) (field "p" (number p) (field "salt" (hex_value_of salt) end)))))
kdf_to_wire (scrypt log_n r p salt) = object (
    field "alg" (text scrypt_name) (
      field "logN" (number log_n)
        (field "r" (number r) (field "p" (number p) (field "salt" (hex_value_of salt) end)))))

-- A slot with its nonce, and without one.
unfoldable pub slot_to_wire : Option Bytes → Bytes → Json
slot_to_wire (some nonce) wrapped_vek =
    object (field "nonce" (hex_value_of nonce) (field "wrappedVek" (hex_value_of wrapped_vek) end))
slot_to_wire none wrapped_vek = object (field "wrappedVek" (hex_value_of wrapped_vek) end)

unfoldable pub biometric_to_wire : Option BiometricWrapSlot → Json
unfolding slot_to_wire
biometric_to_wire none = null
biometric_to_wire (some slot) = slot_to_wire slot.nonce slot.wrapped_vek

-- The header's fields, before the fields that follow them.
unfoldable pub header_fields : Header → Fields → Fields
unfolding kdf_to_wire slot_to_wire biometric_to_wire
header_fields header rest = field "version" (number vault_format_version) (
    field "kdf" (kdf_to_wire header.kdf) (
      field "passwordSlot"
        (slot_to_wire (some header.password_slot.nonce) header.password_slot.wrapped_vek)
        (field "biometricSlot" (biometric_to_wire header.biometric_slot) rest)))

unfoldable pub payload_to_wire : SealedPayload → Json
payload_to_wire payload =
    object (field "nonce" (hex_value_of payload.nonce) (field "ct" (hex_value_of payload.ct) end))

unfoldable pub meta_to_wire : VaultFileMeta → Json
meta_to_wire meta = object (
    field "createdAt" (number meta.created_at) (
      field "wordCount" (number (words meta.word_count)) (
        field "hasPassphrase" (boolean meta.has_passphrase)
          (field "autoLockSeconds" (number meta.auto_lock_seconds) end))))

-- The object that `serializeVaultFile` prints.
unfoldable pub file_to_wire : VaultFileV1 → Json
unfolding header_fields payload_to_wire meta_to_wire
file_to_wire file = object (
    header_fields file.header
      (field "payload" (payload_to_wire file.payload) (field "meta" (meta_to_wire file.meta) end)))

unfoldable pub payload_aad : (Json → Bytes) → Header → Bytes
unfolding header_fields
payload_aad stringify header = stringify (object (header_fields header end))

unfoldable pub serialize_vault_file : (Json → Bytes) → VaultFileV1 → Bytes
unfolding file_to_wire
serialize_vault_file stringify file = stringify (file_to_wire file)
