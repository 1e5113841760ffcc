-- ===== src/Vault/Machine/Access.antt =====
-- packages/cemp-secure-vault/src/vault.ts: unlocking, and what an unlocked vault gives.
use cemp_mobile.Prelude.{ℕ, Bool, true, false, not, List, Option, none, some, String, ◌==◌, length}
use cemp_mobile.Prelude.Actions.{pure, gets, or_raise, modify, raise_if, ◌>>=◌, ◌>>◌}
use cemp_mobile.Vault.Errors.{
  wrong_password, corrupt_vault, biometric_unavailable, biometric_denied, keystore_error,
}
use cemp_mobile.Vault.Kdf.{KdfParams, argon2id, scrypt}
use cemp_mobile.Vault.File.{Bytes, VaultWordCount, vek_bytes}
use cemp_mobile.Vault.Machine.{
  Crypto, PlatformKeyStore, VaultAction, clamp_auto_lock_seconds, is_some, set_unlocked, on_vault,
  assert_unlocked, require_seed, read_vault_file, decrypt_payload, unwrap_vek,
}

pub record VaultMetadata : Type 0 where
  pub created_at : ℕ
  pub is_argon2id : Bool
  pub biometric_enabled : Bool
  pub auto_lock_seconds : ℕ
  pub word_count : VaultWordCount
  pub has_passphrase : Bool

abbrev pub is_argon2id : KdfParams → Bool
is_argon2id (argon2id m t p salt) = true
is_argon2id (scrypt log_n r p salt) = false

module _ (crypto : Crypto) where
  unfoldable pub unlock : String → ℕ → VaultAction (Unit {0})
  unfolding read_vault_file unwrap_vek decrypt_payload set_unlocked clamp_auto_lock_seconds
  unlock password now = do
    file ← read_vault_file crypto
    vek ← unwrap_vek crypto password file
    payload ← decrypt_payload crypto file vek wrong_password
    modify (
        on_vault
          (set_unlocked vek payload.seed (clamp_auto_lock_seconds file.meta.auto_lock_seconds) now))

  unfoldable pub unlock_with_biometrics : PlatformKeyStore → ℕ → VaultAction (Unit {0})
  unfolding read_vault_file decrypt_payload set_unlocked clamp_auto_lock_seconds
  unlock_with_biometrics keystore now = do
    file ← read_vault_file crypto
    slot ← or_raise file.header.biometric_slot biometric_unavailable
    vek ← or_raise (keystore.unwrap slot.wrapped_vek) biometric_denied
    raise_if (not (length vek == vek_bytes)) corrupt_vault
    payload ← decrypt_payload crypto file vek corrupt_vault
    modify (
        on_vault
          (set_unlocked vek payload.seed (clamp_auto_lock_seconds file.meta.auto_lock_seconds) now))

  unfoldable pub reveal_mnemonic : String → VaultAction (List String)
  unfolding read_vault_file unwrap_vek decrypt_payload
  reveal_mnemonic password = do
    file ← read_vault_file crypto
    vek ← unwrap_vek crypto password file
    payload ← decrypt_payload crypto file vek wrong_password
    pure (crypto.entropy_to_mnemonic payload.entropy)

  unfoldable pub get_metadata : VaultAction VaultMetadata
  unfolding read_vault_file clamp_auto_lock_seconds
  get_metadata = do
    file ← read_vault_file crypto
    pure (record {
      created_at = file.meta.created_at;
      is_argon2id = is_argon2id file.header.kdf;
      biometric_enabled = is_some file.header.biometric_slot;
      auto_lock_seconds = clamp_auto_lock_seconds file.meta.auto_lock_seconds;
      word_count = file.meta.word_count;
      has_passphrase = file.meta.has_passphrase;
    })

  -- `this.#dbKey ??= deriveLocalDatabaseKey(this.#requireSeed())`
  unfoldable pub cached_database_key : Option Bytes → VaultAction Bytes
  unfolding require_seed
  cached_database_key (some key) = pure key
  cached_database_key none = do
    seed ← require_seed
    let key = crypto.derive_local_database_key seed
    modify (on_vault (λ v. record v { db_key = some key }))
    pure key

  unfoldable pub get_database_key : VaultAction Bytes
  unfolding assert_unlocked cached_database_key
  get_database_key = do
    assert_unlocked
    cached ← gets (λ w. w.vault.db_key)
    cached_database_key cached

-- What `fn` is given: the seed, which is null after a wipe that failed.
unfoldable pub with_unlocked_seed : {A : Type 0} → (Option Bytes → A) → VaultAction A
unfolding assert_unlocked
with_unlocked_seed fn = do assert_unlocked; seed ← gets (λ w. w.vault.seed); pure (fn seed)

unfoldable pub unwrap_database_key : PlatformKeyStore → VaultAction Bytes
unfolding assert_unlocked
unwrap_database_key keystore = do
  assert_unlocked
  found ← gets (λ w. w.database_key)
  blob ← or_raise found keystore_error
  or_raise (keystore.unwrap blob) keystore_error
