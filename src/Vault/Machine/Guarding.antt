-- ===== src/Vault/Machine/Guarding.antt =====
-- Each operation keeps a vault that is not unlocked without keys and without a timer.
use cemp_mobile.Prelude.{
  ℕ, ◌≡◌, refl, Bool, true, false, not, ◌&&◌, List, Option, none, some, String, if◌then◌else◌, ◌==◌,
  length, ◌≢◌,
}
use cemp_mobile.Prelude.Actions.{pure, or_raise, lift, modify, raise_if, and_then, ◌>>=◌}
use cemp_mobile.Vault.Errors.{
  wrong_password, corrupt_vault, invalid_mnemonic, biometric_unavailable, biometric_denied,
  keystore_error, null_key,
}
use cemp_mobile.Vault.Kdf.{resolve_kdf_params, validate_kdf_params}
use cemp_mobile.Vault.File.{
  Bytes, BiometricWrapSlot, VaultFileV1, VaultWordCount, entropy_bytes, vek_bytes,
}
use cemp_mobile.Vault.Payload.{VaultSecretPayload, encode_secret_payload}
use cemp_mobile.Vault.Machine.{
  VaultState, uninitialized, locked, unlocked, Vault, World, Crypto, PlatformKeyStore, VaultAction,
  is_some, is_unlocked, clear_live_state, clear_auto_lock_timer, start_auto_lock_timer,
  set_unlocked, on_vault, assert_unlocked, require_vek, require_seed, lock, touch, or_corrupt,
  unlocked_or_throws, read_vault_file, decrypt_payload_bytes, decrypt_payload, unwrap_vek,
}
use cemp_mobile.Vault.Machine.Keeps.{
  Keeps, chain, or_raise-keeps, read_vault_file-keeps, unwrap_vek-keeps,
  decrypt_payload_bytes-keeps, decrypt_payload-keeps,
}
use cemp_mobile.Vault.Machine.Creation.{
  Fresh, generated, imported, imported_count, CreateVaultOptions, build_vault,
  create_with_new_mnemonic, import_mnemonic, assert_can_initialize, store_file, wipe,
}
use cemp_mobile.Vault.Machine.Access.{
  unlock, unlock_with_biometrics, reveal_mnemonic, get_metadata, get_database_key,
  cached_database_key, unwrap_database_key,
}
use cemp_mobile.Vault.Machine.Slots.{
  change_password, enable_biometrics, disable_biometrics, rewrite_slots, add_biometric_slot,
  write_file,
}

-- Without keys and without a timer.
pub record IsBare (v : Vault) : Type 0 where
  pub no_vek : v.vek ≡ none
  pub no_seed : v.seed ≡ none
  pub no_db_key : v.db_key ≡ none
  pub no_timer : v.timer ≡ none
  pub no_deadline : v.deadline_ms ≡ none

abbrev pub IsGuarded : World → Type 0
IsGuarded w = w.vault.state ≢ unlocked → IsBare w.vault

set_unlocked-IsGuarded :
    (vek seed : Bytes) (s now : ℕ) (w : World)
    → IsGuarded (on_vault (set_unlocked vek seed s now) w)
unfolding set_unlocked
set_unlocked-IsGuarded vek seed s now w h = absurd (h refl)

-- A call that throws unless the vault is unlocked.
pub assert_unlocked-keeps :
    {A : Type 0} (f : Unit {0} → VaultAction A)
    → ((w : World) → w.vault.state ≡ unlocked → IsGuarded w → IsGuarded (f tt w).1)
    → Keeps IsGuarded (assert_unlocked >>= f)
unfolding assert_unlocked
assert_unlocked-keeps f h w p = split w.vault.state refl
  where
    split :
        (s : VaultState) → w.vault.state ≡ s → IsGuarded (and_then f (unlocked_or_throws s, w)).1
    split uninitialized e = p
    split locked e = p
    split unlocked e = h w e p

module _ (crypto : Crypto) where
  pub unlock-keeps : (password : String) (now : ℕ) → Keeps IsGuarded (unlock crypto password now)
  unfolding unlock
  unlock-keeps password now =
      chain IsGuarded (read_vault_file crypto) _ (read_vault_file-keeps IsGuarded crypto) λ file.
        chain IsGuarded (unwrap_vek crypto password file) _
          (unwrap_vek-keeps IsGuarded crypto password file)
          λ vek.
            chain IsGuarded (decrypt_payload crypto file vek wrong_password) _
              (decrypt_payload-keeps IsGuarded crypto file vek wrong_password)
              λ payload w h. set_unlocked-IsGuarded vek payload.seed _ now w

  pub unlock_with_biometrics-keeps :
      (keystore : PlatformKeyStore) (now : ℕ)
      → Keeps IsGuarded (unlock_with_biometrics crypto keystore now)
  unfolding unlock_with_biometrics
  unlock_with_biometrics-keeps keystore now =
      chain IsGuarded (read_vault_file crypto) _ (read_vault_file-keeps IsGuarded crypto) λ file.
        chain IsGuarded (or_raise file.header.biometric_slot biometric_unavailable) _
          (or_raise-keeps IsGuarded _ _)
          λ slot.
            chain IsGuarded (or_raise (keystore.unwrap slot.wrapped_vek) biometric_denied) _
              (or_raise-keeps IsGuarded _ _)
              λ vek.
                chain IsGuarded (raise_if (not (length vek == vek_bytes)) corrupt_vault) _
                  (λ w h. h)
                  λ _.
                    chain IsGuarded (decrypt_payload crypto file vek corrupt_vault) _
                      (decrypt_payload-keeps IsGuarded crypto file vek corrupt_vault)
                      λ payload w h. set_unlocked-IsGuarded vek payload.seed _ now w

  pub reveal_mnemonic-keeps :
      (P : World → Type 0) (password : String) → Keeps P (reveal_mnemonic crypto password)
  unfolding reveal_mnemonic
  reveal_mnemonic-keeps P password =
      chain P (read_vault_file crypto) _ (read_vault_file-keeps P crypto) λ file.
        chain P (unwrap_vek crypto password file) _ (unwrap_vek-keeps P crypto password file) λ vek.
          chain P (decrypt_payload crypto file vek wrong_password) _
            (decrypt_payload-keeps P crypto file vek wrong_password) λ payload w h. h

  pub unwrap_database_key-keeps :
      (P : World → Type 0) (keystore : PlatformKeyStore) → Keeps P (unwrap_database_key keystore)
  unfolding unwrap_database_key assert_unlocked
  unwrap_database_key-keeps P keystore =
      chain P assert_unlocked _ (λ w h. h)
        λ _ w h.
          chain P (or_raise w.database_key keystore_error) _ (or_raise-keeps P _ _)
            (λ blob. or_raise-keeps P (keystore.unwrap blob) keystore_error) w h

  pub get_metadata-keeps : (P : World → Type 0) → Keeps P (get_metadata crypto)
  unfolding get_metadata
  get_metadata-keeps P =
      chain P (read_vault_file crypto) _ (read_vault_file-keeps P crypto) λ file w h. h

  pub build_vault-keeps :
      (keystore : PlatformKeyStore) (fresh : Fresh) (payload : VaultSecretPayload)
      (count : VaultWordCount) (password : String) (opts : CreateVaultOptions) (now : ℕ)
      → Keeps IsGuarded (build_vault crypto keystore fresh payload count password opts now)
  unfolding build_vault store_file set_unlocked
  build_vault-keeps keystore fresh payload count password opts now =
      chain IsGuarded (lift (validate_kdf_params (resolve_kdf_params opts.kdf fresh.kdf_salt))) _
        (λ w h. h)
        λ _.
          chain IsGuarded (raise_if (not (length fresh.vek == vek_bytes)) corrupt_vault) _
            (λ w h. h)
            λ _.
              chain IsGuarded (lift (or_corrupt (encode_secret_payload payload))) _ (λ w h. h)
                λ plaintext.
                  chain IsGuarded
                    (or_raise (keystore.wrap false (crypto.derive_local_database_key payload.seed))
                      keystore_error)
                    _ (or_raise-keeps IsGuarded _ _) λ blob w h k. absurd (k refl)

  pub create-keeps :
      (keystore : PlatformKeyStore) (fresh : Fresh) (count : VaultWordCount) (password : String)
      (opts : CreateVaultOptions) (now : ℕ)
      → Keeps IsGuarded (create_with_new_mnemonic crypto keystore fresh count password opts now)
  unfolding create_with_new_mnemonic assert_can_initialize
  create-keeps keystore fresh count password opts now =
      chain IsGuarded assert_can_initialize _ (λ w h. h)
        λ _.
          chain IsGuarded
            (raise_if (not (length fresh.entropy == entropy_bytes count)) invalid_mnemonic) _
            (λ w h. h)
            λ _.
              chain IsGuarded
                (build_vault crypto keystore fresh (generated crypto fresh.entropy) count password
                  opts now)
                _
                (build_vault-keeps keystore fresh (generated crypto fresh.entropy) count password
                  opts now)
                λ _ w h. h

  pub import-keeps :
      (keystore : PlatformKeyStore) (fresh : Fresh) (phrase : List String) (password : String)
      (passphrase : Option String) (opts : CreateVaultOptions) (now : ℕ)
      → Keeps IsGuarded (import_mnemonic crypto keystore fresh phrase password passphrase opts now)
  unfolding import_mnemonic assert_can_initialize
  import-keeps keystore fresh phrase password passphrase opts now =
      chain IsGuarded assert_can_initialize _ (λ w h. h)
        λ _.
          chain IsGuarded (raise_if (not (crypto.validate_mnemonic phrase)) invalid_mnemonic) _
            (λ w h. h)
            λ _.
              chain IsGuarded (or_raise (crypto.mnemonic_to_entropy phrase) invalid_mnemonic) _
                (or_raise-keeps IsGuarded _ _)
                λ entropy.
                  chain IsGuarded
                    (raise_if (not (length entropy == 16) && not (length entropy == 32))
                      invalid_mnemonic)
                    _ (λ w h. h)
                    λ _.
                      build_vault-keeps keystore fresh (imported crypto phrase passphrase entropy)
                        (imported_count entropy) password opts now

  -- The slots' writes do not touch the vault's fields.
  pub change_password-keeps :
      (old new : String) (salt slot_nonce payload_nonce : Bytes)
      → Keeps IsGuarded (change_password crypto old new salt slot_nonce payload_nonce)
  unfolding change_password write_file
  change_password-keeps old new salt slot_nonce payload_nonce =
      chain IsGuarded (read_vault_file crypto) _ (read_vault_file-keeps IsGuarded crypto) λ file.
        chain IsGuarded (unwrap_vek crypto old file) _ (unwrap_vek-keeps IsGuarded crypto old file)
          λ vek.
            chain IsGuarded (decrypt_payload_bytes crypto file vek wrong_password) _
              (decrypt_payload_bytes-keeps IsGuarded crypto file vek wrong_password)
              λ plaintext w h. h

  pub require_vek-keeps : Keeps IsGuarded require_vek
  unfolding require_vek assert_unlocked
  require_vek-keeps =
      chain IsGuarded assert_unlocked _ (λ w h. h)
        λ _ w h. or_raise-keeps IsGuarded w.vault.vek null_key w h

  pub rewrite_slots-keeps :
      (file : VaultFileV1) (slot : Option BiometricWrapSlot) (payload_nonce : Bytes)
      → Keeps IsGuarded (rewrite_slots crypto file slot payload_nonce)
  unfolding rewrite_slots write_file
  rewrite_slots-keeps file slot payload_nonce =
      chain IsGuarded require_vek _ require_vek-keeps λ vek.
        chain IsGuarded (decrypt_payload_bytes crypto file vek corrupt_vault) _
          (decrypt_payload_bytes-keeps IsGuarded crypto file vek corrupt_vault) λ plaintext w h. h

  pub add_biometric_slot-keeps :
      (keystore : PlatformKeyStore) (file : VaultFileV1) (payload_nonce : Bytes)
      → Keeps IsGuarded (add_biometric_slot crypto keystore file payload_nonce)
  unfolding add_biometric_slot
  add_biometric_slot-keeps keystore file payload_nonce =
      chain IsGuarded require_vek _ require_vek-keeps λ vek.
        chain IsGuarded (or_raise (keystore.wrap true vek) keystore_error) _
          (or_raise-keeps IsGuarded _ _)
          λ blob.
            rewrite_slots-keeps file (some (record { nonce = none; wrapped_vek = blob }))
              payload_nonce

  pub either-keeps :
      {A : Type 0} (b : Bool) (m k : VaultAction A)
      → Keeps IsGuarded m
      → Keeps IsGuarded k
      → Keeps IsGuarded (if b then m else k)
  either-keeps true m k h l = h
  either-keeps false m k h l = l

  pub enable-keeps :
      (keystore : PlatformKeyStore) (payload_nonce : Bytes)
      → Keeps IsGuarded (enable_biometrics crypto keystore payload_nonce)
  unfolding enable_biometrics assert_unlocked
  enable-keeps keystore payload_nonce =
      chain IsGuarded assert_unlocked _ (λ w h. h)
        λ _.
          chain IsGuarded (raise_if (not keystore.is_biometric_available) biometric_unavailable) _
            (λ w h. h)
            λ _.
              chain IsGuarded (read_vault_file crypto) _ (read_vault_file-keeps IsGuarded crypto)
                λ file.
                  either-keeps (is_some file.header.biometric_slot) (pure tt) _ (λ w h. h)
                    (add_biometric_slot-keeps keystore file payload_nonce)

  pub disable-keeps :
      (payload_nonce : Bytes) → Keeps IsGuarded (disable_biometrics crypto payload_nonce)
  unfolding disable_biometrics assert_unlocked
  disable-keeps payload_nonce =
      chain IsGuarded assert_unlocked _ (λ w h. h)
        λ _.
          chain IsGuarded (read_vault_file crypto) _ (read_vault_file-keeps IsGuarded crypto)
            λ file.
              either-keeps (is_some file.header.biometric_slot) _ (pure tt)
                (rewrite_slots-keeps file none payload_nonce) (λ w h. h)

  pub require_seed-keeps : (P : World → Type 0) → Keeps P require_seed
  unfolding require_seed assert_unlocked
  require_seed-keeps P =
      chain P assert_unlocked _ (λ w h. h) λ _ w h. or_raise-keeps P w.vault.seed null_key w h

  pub cached-keeps :
      (cached : Option Bytes)
      → Keeps (λ w. w.vault.state ≡ unlocked) (cached_database_key crypto cached)
  unfolding cached_database_key
  cached-keeps (some key) = λ w h. h
  cached-keeps none =
      chain (λ w. w.vault.state ≡ unlocked) require_seed _ (require_seed-keeps _) λ seed w h. h

  pub get_database_key-keeps : Keeps IsGuarded (get_database_key crypto)
  unfolding get_database_key
  get_database_key-keeps =
      assert_unlocked-keeps _ λ w e _ k. absurd (k (cached-keeps w.vault.db_key w e))

pub lock-IsGuarded : (w : World) → IsGuarded (lock w)
unfolding lock
lock-IsGuarded w h = record {
  no_vek = refl;
  no_seed = refl;
  no_db_key = refl;
  no_timer = refl;
  no_deadline = refl;
}

pub touch-keeps : (now : ℕ) (w : World) → IsGuarded w → IsGuarded (touch now w)
unfolding touch start_auto_lock_timer
touch-keeps now w h = split w.vault.state refl
  where
    split :
        (s : VaultState)
        → w.vault.state ≡ s
        → IsGuarded (if is_unlocked s then on_vault (start_auto_lock_timer now) w else w)
    split uninitialized e = h
    split locked e = h
    split unlocked e = λ k. absurd (k e)

pub wipe-IsGuarded : (keystore : PlatformKeyStore) → (w : World) → IsGuarded (wipe keystore w).1
unfolding wipe
wipe-IsGuarded keystore w = split keystore.delete_key
  where
    bare :
        (s : VaultState)
        → IsBare (record (clear_live_state (clear_auto_lock_timer w.vault)) { state = s })
    bare s =
        unfold clear_live_state in
        unfold clear_auto_lock_timer in
        record {
          no_vek = refl;
          no_seed = refl;
          no_db_key = refl;
          no_timer = refl;
          no_deadline = refl;
        }

    split :
        (b : Bool)
        → IsGuarded
            (and_then
              (λ _. modify (on_vault (λ v. record v { state = uninitialized })))
              (raise_if
                (not b)
                keystore_error
                (record (on_vault (λ v. clear_live_state (clear_auto_lock_timer v)) w) {
                  vault_file = none;
                  database_key = none;
                }))).1
    split true = λ _. bare uninitialized
    split false = λ _. bare w.vault.state

pub due-keeps : (b : Bool) (w : World) → IsGuarded w → IsGuarded (if b then lock w else w)
due-keeps true w h = lock-IsGuarded w
due-keeps false w h = h
