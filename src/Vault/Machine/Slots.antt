-- ===== src/Vault/Machine/Slots.antt =====
-- packages/cemp-secure-vault/src/vault.ts: the password's and the biometric wrap slots, rewritten.
use cemp_mobile.Prelude.{true, not, Option, none, some, String, if◌then◌else◌}
use cemp_mobile.Prelude.Actions.{pure, or_raise, modify, raise_if, ◌>>=◌, ◌>>◌}
use cemp_mobile.Vault.Errors.{wrong_password, corrupt_vault, biometric_unavailable, keystore_error}
use cemp_mobile.Vault.Kdf.{with_salt}
use cemp_mobile.Vault.File.{
  Bytes, Header, BiometricWrapSlot, VaultFileV1, payload_aad, serialize_vault_file,
}
use cemp_mobile.Vault.Machine.{
  World, Crypto, PlatformKeyStore, VaultAction, password_wrap_aad, is_some, assert_unlocked,
  require_vek, read_vault_file, decrypt_payload_bytes, unwrap_vek,
}

module _ (crypto : Crypto) where
  unfoldable pub rewritten : VaultFileV1 → Header → Bytes → Bytes → Bytes → VaultFileV1
  unfolding payload_aad
  rewritten file header vek payload_nonce plaintext = record file {
    header = header;
    payload = record {
      nonce = payload_nonce;
      ct = crypto.encrypt vek payload_nonce plaintext (payload_aad crypto.stringify header);
    };
  }

  unfoldable pub write_file : VaultFileV1 → World → World
  unfolding serialize_vault_file
  write_file file w = record w { vault_file = some (serialize_vault_file crypto.stringify file) }

  -- The header of `changePassword`: a new salt and a new wrap, the biometric slot as it was.
  unfoldable pub renewed_header : Header → String → Bytes → Bytes → Bytes → Header
  renewed_header header new_password salt slot_nonce vek = record header {
    kdf = with_salt salt header.kdf;
    password_slot = record {
      nonce = slot_nonce;
      wrapped_vek =
          crypto.encrypt (crypto.derive_kek new_password (with_salt salt header.kdf)) slot_nonce vek
            password_wrap_aad;
    };
  }

  -- `salt`, `slot_nonce` and `payload_nonce` are the random bytes.
  unfoldable pub change_password : String → String → Bytes → Bytes → Bytes → VaultAction (Unit {0})
  unfolding read_vault_file unwrap_vek decrypt_payload_bytes renewed_header rewritten write_file
  change_password old_password new_password salt slot_nonce payload_nonce = do
    file ← read_vault_file crypto
    vek ← unwrap_vek crypto old_password file
    plaintext ← decrypt_payload_bytes crypto file vek wrong_password
    modify (
        write_file (
          rewritten file (renewed_header file.header new_password salt slot_nonce vek) vek
            payload_nonce plaintext))

  -- Both callers keep the password slot.
  unfoldable pub rewrite_slots :
      VaultFileV1 → Option BiometricWrapSlot → Bytes → VaultAction (Unit {0})
  unfolding require_vek decrypt_payload_bytes rewritten write_file
  rewrite_slots file biometric_slot payload_nonce = do
    vek ← require_vek
    plaintext ← decrypt_payload_bytes crypto file vek corrupt_vault
    modify (
        write_file (
          rewritten file (record file.header { biometric_slot = biometric_slot }) vek payload_nonce
            plaintext))

  unfoldable pub add_biometric_slot :
      PlatformKeyStore → VaultFileV1 → Bytes → VaultAction (Unit {0})
  unfolding require_vek rewrite_slots
  add_biometric_slot keystore file payload_nonce = do
    vek ← require_vek
    blob ← or_raise (keystore.wrap true vek) keystore_error
    rewrite_slots file (some (record { nonce = none; wrapped_vek = blob })) payload_nonce

  unfoldable pub enable_biometrics : PlatformKeyStore → Bytes → VaultAction (Unit {0})
  unfolding assert_unlocked read_vault_file add_biometric_slot
  enable_biometrics keystore payload_nonce = do
    assert_unlocked
    raise_if (not keystore.is_biometric_available) biometric_unavailable
    file ← read_vault_file crypto
    (if is_some file.header.biometric_slot
        then pure tt
        else add_biometric_slot keystore file payload_nonce)

  unfoldable pub disable_biometrics : Bytes → VaultAction (Unit {0})
  unfolding assert_unlocked read_vault_file rewrite_slots
  disable_biometrics payload_nonce = do
    assert_unlocked
    file ← read_vault_file crypto
    (if is_some file.header.biometric_slot then rewrite_slots file none payload_nonce else pure tt)
