-- ===== src/Vault/Machine/Creation.antt =====
-- packages/cemp-secure-vault/src/vault.ts: making a vault, from new or imported words, and wiping it.
use cemp_mobile.Prelude.{
  ℕ, Bool, false, not, ◌&&◌, ◌||◌, List, Option, none, some, ok, err, String, str_eq, if◌then◌else◌,
  ◌==◌, length,
}
use cemp_mobile.Prelude.Actions.{pure, or_raise, lift, modify, raise_if, ◌>>=◌, ◌>>◌}
use cemp_mobile.Vault.Errors.{already_initialized, corrupt_vault, invalid_mnemonic, keystore_error}
use cemp_mobile.Vault.Kdf.{KdfParams, KdfOptions, resolve_kdf_params, validate_kdf_params, or_else}
use cemp_mobile.Vault.File.{
  Bytes, Header, VaultFileV1, VaultWordCount, twelve, twenty_four, entropy_bytes, vek_bytes,
  payload_aad, serialize_vault_file,
}
use cemp_mobile.Vault.Payload.{VaultSecretPayload, encode_secret_payload}
use cemp_mobile.Vault.Machine.{
  uninitialized, World, Crypto, PlatformKeyStore, VaultAction, default_auto_lock_seconds,
  password_wrap_aad, is_some, is_uninitialized, clear_live_state, clear_auto_lock_timer,
  set_unlocked, on_vault, or_corrupt,
}

-- Random bytes, or the test seam's fixed ones: nonces of 12 bytes and a salt.
pub record Fresh : Type 0 where
  pub entropy : Bytes
  pub vek : Bytes
  pub kdf_salt : Bytes
  pub password_slot_nonce : Bytes
  pub payload_nonce : Bytes

pub record CreateVaultOptions : Type 0 where
  pub kdf : Option KdfOptions
  pub auto_lock_seconds : Option ℕ

unfoldable pub assert_can_initialize : VaultAction (Unit {0})
assert_can_initialize w = (
  if is_some w.vault_file || not (is_uninitialized w.vault.state)
      then err already_initialized
      else ok tt,
  w,
)

unfoldable pub imported_count : Bytes → VaultWordCount
imported_count entropy = if length entropy == 16 then twelve else twenty_four

module _ (crypto : Crypto) where
  unfoldable pub new_header : Fresh → KdfParams → String → Header
  new_header fresh kdf password = record {
    kdf = kdf;
    password_slot = record {
      nonce = fresh.password_slot_nonce;
      wrapped_vek =
          crypto.encrypt (crypto.derive_kek password kdf) fresh.password_slot_nonce fresh.vek
            password_wrap_aad;
    };
    biometric_slot = none;
  }

  unfoldable pub new_file :
      Fresh
      → KdfParams
      → String
      → Bytes
      → Bool
      → VaultWordCount
      → CreateVaultOptions
      → ℕ
      → VaultFileV1
  unfolding new_header payload_aad
  new_file fresh kdf password plaintext has_passphrase count opts now = record {
    header = new_header fresh kdf password;
    payload = record {
      nonce = fresh.payload_nonce;
      ct =
          crypto.encrypt fresh.vek fresh.payload_nonce plaintext
            (payload_aad crypto.stringify (new_header fresh kdf password));
    };
    meta = record {
      created_at = now;
      word_count = count;
      has_passphrase = has_passphrase;
      auto_lock_seconds = or_else opts.auto_lock_seconds default_auto_lock_seconds;
    };
  }

  -- The two writes to the storage, and `#setUnlocked`.
  unfoldable pub store_file : VaultFileV1 → Bytes → Bytes → Bytes → ℕ → World → World
  unfolding set_unlocked serialize_vault_file
  store_file file blob vek seed now w = record w {
    vault = set_unlocked vek seed file.meta.auto_lock_seconds now w.vault;
    vault_file = some (serialize_vault_file crypto.stringify file);
    database_key = some blob;
  }

  unfoldable pub build_vault :
      PlatformKeyStore
      → Fresh
      → VaultSecretPayload
      → VaultWordCount
      → String
      → CreateVaultOptions
      → ℕ
      → VaultAction (Unit {0})
  unfolding resolve_kdf_params validate_kdf_params encode_secret_payload new_file store_file
  build_vault keystore fresh payload count password opts now = do
    let kdf = resolve_kdf_params opts.kdf fresh.kdf_salt
    lift (validate_kdf_params kdf)
    raise_if (not (length fresh.vek == vek_bytes)) corrupt_vault
    plaintext ← lift (or_corrupt (encode_secret_payload payload))
    let file = new_file fresh kdf password plaintext payload.has_passphrase count opts now
    blob ←
        or_raise (keystore.wrap false (crypto.derive_local_database_key payload.seed))
          keystore_error
    modify (store_file file blob fresh.vek payload.seed now)

  unfoldable pub generated : Bytes → VaultSecretPayload
  generated entropy = record {
    entropy = entropy;
    seed = crypto.mnemonic_to_seed (crypto.entropy_to_mnemonic entropy) none;
    has_passphrase = false;
  }

  -- The words that are shown once.
  unfoldable pub create_with_new_mnemonic :
      PlatformKeyStore
      → Fresh
      → VaultWordCount
      → String
      → CreateVaultOptions
      → ℕ
      → VaultAction (List String)
  unfolding assert_can_initialize generated build_vault
  create_with_new_mnemonic keystore fresh count password opts now = do
    assert_can_initialize
    raise_if (not (length fresh.entropy == entropy_bytes count)) invalid_mnemonic
    build_vault keystore fresh (generated fresh.entropy) count password opts now
    pure (crypto.entropy_to_mnemonic fresh.entropy)

  -- `passphrase === "" ? undefined : passphrase`
  abbrev pub normalized : Option String → Option String
  normalized none = none
  normalized (some passphrase) = if str_eq passphrase "" then none else some passphrase

  unfoldable pub imported : List String → Option String → Bytes → VaultSecretPayload
  imported phrase passphrase entropy = record {
    entropy = entropy;
    seed = crypto.mnemonic_to_seed phrase (normalized passphrase);
    has_passphrase = is_some (normalized passphrase);
  }

  unfoldable pub import_mnemonic :
      PlatformKeyStore
      → Fresh
      → List String
      → String
      → Option String
      → CreateVaultOptions
      → ℕ
      → VaultAction (Unit {0})
  unfolding assert_can_initialize imported imported_count build_vault
  import_mnemonic keystore fresh phrase password passphrase opts now = do
    assert_can_initialize
    raise_if (not (crypto.validate_mnemonic phrase)) invalid_mnemonic
    entropy ← or_raise (crypto.mnemonic_to_entropy phrase) invalid_mnemonic
    raise_if (not (length entropy == 16) && not (length entropy == 32)) invalid_mnemonic
    build_vault keystore fresh (imported phrase passphrase entropy) (imported_count entropy)
        password opts now

-- The keystore's failure comes after the deletions, and before the state is set.
unfoldable pub wipe : PlatformKeyStore → VaultAction (Unit {0})
unfolding clear_live_state clear_auto_lock_timer
wipe keystore = do
  modify (on_vault (λ v. clear_live_state (clear_auto_lock_timer v)))
  modify (λ w. record w { vault_file = none; database_key = none })
  raise_if (not keystore.delete_key) keystore_error
  modify (on_vault (λ v. record v { state = uninitialized }))
