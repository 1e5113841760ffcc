-- ===== src/Vault/Machine/Atomic.antt =====
-- A call that throws leaves the vault and its storage as they were.
use cemp_mobile.Prelude.{
  ℕ, ◌≡◌, refl, ap, ◌∙◌, Bool, true, false, not, ◌&&◌, List, Option, none, some, Result, ok, err,
  String, if◌then◌else◌, ◌==◌, length, err_inj,
}
use cemp_mobile.Prelude.Actions.{pure, gets, or_raise, lift, modify, raise_if, and_then, ◌>>=◌}
use cemp_mobile.Vault.Errors.{
  VaultError, wrong_password, corrupt_vault, invalid_mnemonic, biometric_unavailable,
  biometric_denied, keystore_error, null_key,
}
use cemp_mobile.Vault.Kdf.{resolve_kdf_params, validate_kdf_params}
use cemp_mobile.Vault.File.{
  Bytes, BiometricWrapSlot, VaultFileV1, VaultWordCount, entropy_bytes, vek_bytes,
}
use cemp_mobile.Vault.Payload.{VaultSecretPayload, encode_secret_payload}
use cemp_mobile.Vault.Machine.{
  World, Crypto, PlatformKeyStore, VaultAction, clamp_auto_lock_seconds, is_some, set_unlocked,
  on_vault, assert_unlocked, require_vek, require_seed, lock, touch, or_corrupt, unlocked_or_throws,
  read_vault_file, decrypt_payload_bytes, decrypt_payload, unwrap_vek,
}
use cemp_mobile.Vault.Machine.Keeps.{
  or_raise-keeps, read_vault_file-keeps, unwrap_vek-keeps, decrypt_payload_bytes-keeps,
  decrypt_payload-keeps,
}
use cemp_mobile.Vault.Machine.Guarding.{
  reveal_mnemonic-keeps, unwrap_database_key-keeps, get_metadata-keeps, require_seed-keeps,
}
use cemp_mobile.Vault.Machine.Creation.{
  Fresh, CreateVaultOptions, generated, imported, imported_count, assert_can_initialize,
  build_vault, create_with_new_mnemonic, import_mnemonic,
}
use cemp_mobile.Vault.Machine.Access.{
  unlock, unlock_with_biometrics, reveal_mnemonic, get_metadata, get_database_key,
  cached_database_key, unwrap_database_key,
}
use cemp_mobile.Vault.Machine.Slots.{
  change_password, enable_biometrics, disable_biometrics, rewrite_slots, add_biometric_slot,
}
use cemp_mobile.Vault.Machine.Calls.{
  Call, create, import_words, unlock_by_password, unlock_by_biometrics, lock_now, touched,
  timed_out, reveal, change, enable, disable, database_key_used, metadata_read,
  database_key_unwrapped, wiped, perform,
}

abbrev IsAtomic : {A : Type 0} → VaultAction A → Type 0
IsAtomic m = (w : World) (e : VaultError) → (m w).0 ≡ err e → (m w).1 ≡ w

abbrev OnlyReads : {A : Type 0} → VaultAction A → Type 0
OnlyReads m = (w : World) → (m w).1 ≡ w

module _ {A : Type 0} where
  reads-IsAtomic : (m : VaultAction A) → OnlyReads m → IsAtomic m
  reads-IsAtomic m h w e _ = h w

  after :
      {B : Type 0} (w : World) (e : VaultError) (f : A → VaultAction B)
      (r : Result VaultError A × World)
      → r.1 ≡ w
      → ((a : A) → IsAtomic (f a))
      → (and_then f r).0 ≡ err e
      → (and_then f r).1 ≡ w
  after w e f (ok a, x) q k h = k a x e h ∙ q
  after w e f (err e', x) q k h = q

  -- After a call that only reads, a chain is atomic when its rest is.
  read_then :
      {B : Type 0} (m : VaultAction A) (f : A → VaultAction B)
      → OnlyReads m
      → ((a : A) → IsAtomic (f a))
      → IsAtomic (m >>= f)
  read_then m f h k w e = after w e f (m w) (h w) k

  raises : (o : Option A) (e : VaultError) → OnlyReads (or_raise o e)
  raises o e w = or_raise-keeps (λ x. x ≡ w) o e w refl

  value_after :
      {B : Type 0} (w : World) (e : VaultError) (b : B) (r : Result VaultError A × World)
      → (r.0 ≡ err e → r.1 ≡ w)
      → (and_then (λ _. pure b) r).0 ≡ err e
      → (and_then (λ _. pure b) r).1 ≡ w
  value_after w e b (ok a, x) h k = absurd (cc k)
  value_after w e b (err e', x) h k = h (ap (λ x. err x) (err_inj k))

  -- A value given at the end cannot throw.
  then_pure : {B : Type 0} (m : VaultAction A) (b : B) → IsAtomic m → IsAtomic (m >>= λ _. pure b)
  then_pure m b h w e = value_after w e b (m w) (h w e)

modify-IsAtomic : (f : World → World) → IsAtomic (modify f)
modify-IsAtomic f w e h = absurd (cc h)

module _ (crypto : Crypto) where
  reading : OnlyReads (read_vault_file crypto)
  reading w = read_vault_file-keeps (λ x. x ≡ w) crypto w refl

  unwrapping :
      (password : String) (file : VaultFileV1) → OnlyReads (unwrap_vek crypto password file)
  unwrapping password file w = unwrap_vek-keeps (λ x. x ≡ w) crypto password file w refl

  opening :
      (file : VaultFileV1) (vek : Bytes) (code : VaultError)
      → OnlyReads (decrypt_payload_bytes crypto file vek code)
  opening file vek code w = decrypt_payload_bytes-keeps (λ x. x ≡ w) crypto file vek code w refl

  decoding :
      (file : VaultFileV1) (vek : Bytes) (code : VaultError)
      → OnlyReads (decrypt_payload crypto file vek code)
  decoding file vek code w = decrypt_payload-keeps (λ x. x ≡ w) crypto file vek code w refl

  unlock-IsAtomic : (password : String) (now : ℕ) → IsAtomic (unlock crypto password now)
  unfolding unlock
  unlock-IsAtomic password now = read_then (read_vault_file crypto) _ reading λ file.
      read_then (unwrap_vek crypto password file) _ (unwrapping password file) λ vek.
        read_then (decrypt_payload crypto file vek wrong_password) _
          (decoding file vek wrong_password)
          λ payload. modify-IsAtomic (
            on_vault (
              set_unlocked vek payload.seed (clamp_auto_lock_seconds file.meta.auto_lock_seconds)
                now))

  biometrics-IsAtomic :
      (keystore : PlatformKeyStore) (now : ℕ)
      → IsAtomic (unlock_with_biometrics crypto keystore now)
  unfolding unlock_with_biometrics
  biometrics-IsAtomic keystore now = read_then (read_vault_file crypto) _ reading λ file.
      read_then (or_raise file.header.biometric_slot biometric_unavailable) _ (raises _ _) λ slot.
        read_then (or_raise (keystore.unwrap slot.wrapped_vek) biometric_denied) _ (raises _ _)
          λ vek.
            read_then (raise_if (not (length vek == vek_bytes)) corrupt_vault) _ (λ w. refl)
              λ _.
                read_then (decrypt_payload crypto file vek corrupt_vault) _
                  (decoding file vek corrupt_vault)
                  λ payload. modify-IsAtomic (
                    on_vault (
                      set_unlocked vek payload.seed
                        (clamp_auto_lock_seconds file.meta.auto_lock_seconds) now))

  build_vault-IsAtomic :
      (keystore : PlatformKeyStore) (fresh : Fresh) (payload : VaultSecretPayload)
      (count : VaultWordCount) (password : String) (opts : CreateVaultOptions) (now : ℕ)
      → IsAtomic (build_vault crypto keystore fresh payload count password opts now)
  unfolding build_vault
  build_vault-IsAtomic keystore fresh payload count password opts now =
      read_then (lift (validate_kdf_params (resolve_kdf_params opts.kdf fresh.kdf_salt))) _
        (λ w. refl)
        λ _.
          read_then (raise_if (not (length fresh.vek == vek_bytes)) corrupt_vault) _ (λ w. refl)
            λ _.
              read_then (lift (or_corrupt (encode_secret_payload payload))) _ (λ w. refl)
                λ plaintext.
                  read_then
                    (or_raise (keystore.wrap false (crypto.derive_local_database_key payload.seed))
                      keystore_error)
                    _ (raises _ _) λ blob w e h. absurd (cc h)

  create-IsAtomic :
      (keystore : PlatformKeyStore) (fresh : Fresh) (count : VaultWordCount) (password : String)
      (opts : CreateVaultOptions) (now : ℕ)
      → IsAtomic (create_with_new_mnemonic crypto keystore fresh count password opts now)
  unfolding create_with_new_mnemonic assert_can_initialize
  create-IsAtomic keystore fresh count password opts now =
      read_then assert_can_initialize _ (λ w. refl)
        λ _.
          read_then (raise_if (not (length fresh.entropy == entropy_bytes count)) invalid_mnemonic)
            _ (λ w. refl)
            λ _.
              then_pure
                (build_vault crypto keystore fresh (generated crypto fresh.entropy) count password
                  opts now)
                _
                (build_vault-IsAtomic keystore fresh (generated crypto fresh.entropy) count password
                  opts now)

  import-IsAtomic :
      (keystore : PlatformKeyStore) (fresh : Fresh) (phrase : List String) (password : String)
      (passphrase : Option String) (opts : CreateVaultOptions) (now : ℕ)
      → IsAtomic (import_mnemonic crypto keystore fresh phrase password passphrase opts now)
  unfolding import_mnemonic assert_can_initialize
  import-IsAtomic keystore fresh phrase password passphrase opts now =
      read_then assert_can_initialize _ (λ w. refl)
        λ _.
          read_then (raise_if (not (crypto.validate_mnemonic phrase)) invalid_mnemonic) _
            (λ w. refl)
            λ _.
              read_then (or_raise (crypto.mnemonic_to_entropy phrase) invalid_mnemonic) _
                (raises _ _)
                λ entropy.
                  read_then
                    (raise_if (not (length entropy == 16) && not (length entropy == 32))
                      invalid_mnemonic)
                    _ (λ w. refl)
                    λ _.
                      build_vault-IsAtomic keystore fresh
                        (imported crypto phrase passphrase entropy) (imported_count entropy)
                        password opts now

  change_password-IsAtomic :
      (old new : String) (salt slot_nonce payload_nonce : Bytes)
      → IsAtomic (change_password crypto old new salt slot_nonce payload_nonce)
  unfolding change_password
  change_password-IsAtomic old new salt slot_nonce payload_nonce =
      read_then (read_vault_file crypto) _ reading λ file.
        read_then (unwrap_vek crypto old file) _ (unwrapping old file) λ vek.
          read_then (decrypt_payload_bytes crypto file vek wrong_password) _
            (opening file vek wrong_password) λ plaintext w e h. absurd (cc h)

  vek_reads : OnlyReads require_vek
  unfolding require_vek assert_unlocked
  vek_reads w = split (unlocked_or_throws w.vault.state)
    where
      split :
          (r : Result VaultError (Unit {0}))
          → (and_then (λ _. gets (λ w. w.vault.vek) >>= λ vek. or_raise vek null_key) (r, w)).1 ≡ w
      split (ok tt) = raises w.vault.vek null_key w
      split (err e) = refl

  rewrite_slots-IsAtomic :
      (file : VaultFileV1) (slot : Option BiometricWrapSlot) (payload_nonce : Bytes)
      → IsAtomic (rewrite_slots crypto file slot payload_nonce)
  unfolding rewrite_slots
  rewrite_slots-IsAtomic file slot payload_nonce = read_then require_vek _ vek_reads λ vek.
      read_then (decrypt_payload_bytes crypto file vek corrupt_vault) _
        (opening file vek corrupt_vault) λ plaintext w e h. absurd (cc h)

  add_slot-IsAtomic :
      (keystore : PlatformKeyStore) (file : VaultFileV1) (payload_nonce : Bytes)
      → IsAtomic (add_biometric_slot crypto keystore file payload_nonce)
  unfolding add_biometric_slot
  add_slot-IsAtomic keystore file payload_nonce = read_then require_vek _ vek_reads λ vek.
      read_then (or_raise (keystore.wrap true vek) keystore_error) _ (raises _ _) λ blob.
        rewrite_slots-IsAtomic file (some (record { nonce = none; wrapped_vek = blob }))
          payload_nonce

  either-IsAtomic :
      {A : Type 0} (b : Bool) (m k : VaultAction A)
      → IsAtomic m
      → IsAtomic k
      → IsAtomic (if b then m else k)
  either-IsAtomic true m k h l = h
  either-IsAtomic false m k h l = l

  enable-IsAtomic :
      (keystore : PlatformKeyStore) (payload_nonce : Bytes)
      → IsAtomic (enable_biometrics crypto keystore payload_nonce)
  unfolding enable_biometrics assert_unlocked
  enable-IsAtomic keystore payload_nonce =
      read_then assert_unlocked _ (λ w. refl)
        λ _.
          read_then (raise_if (not keystore.is_biometric_available) biometric_unavailable) _
            (λ w. refl)
            λ _. read_then (read_vault_file crypto) _ reading λ file.
              either-IsAtomic (is_some file.header.biometric_slot) (pure tt) _ (λ w e h. refl)
                (add_slot-IsAtomic keystore file payload_nonce)

  disable-IsAtomic : (payload_nonce : Bytes) → IsAtomic (disable_biometrics crypto payload_nonce)
  unfolding disable_biometrics assert_unlocked
  disable-IsAtomic payload_nonce =
      read_then assert_unlocked _ (λ w. refl)
        λ _. read_then (read_vault_file crypto) _ reading λ file.
          either-IsAtomic (is_some file.header.biometric_slot) _ (pure tt)
            (rewrite_slots-IsAtomic file none payload_nonce) (λ w e h. refl)

  cached-IsAtomic : (cached : Option Bytes) → IsAtomic (cached_database_key crypto cached)
  unfolding cached_database_key
  cached-IsAtomic (some key) = λ w e h. refl
  cached-IsAtomic none =
      read_then require_seed _ (λ w. require_seed-keeps crypto (λ x. x ≡ w) w refl)
        λ seed w e h. absurd (cc h)

  get_database_key-IsAtomic : IsAtomic (get_database_key crypto)
  unfolding get_database_key assert_unlocked
  get_database_key-IsAtomic =
      read_then assert_unlocked _ (λ w. refl) λ _ w. cached-IsAtomic w.vault.db_key w

-- Not a wipe.
abbrev pub is_wipe : Call → Bool
is_wipe call = elim call [ wiped keystore ↦ true | _ ↦ false ]

-- A call that throws has changed nothing: after a creation, import, unlock, reveal, password change,
-- change of the biometric slot or read that threw at any of its checks or at the keystore, the vault
-- and its two stored objects are as before. A wipe is the exception.
pub perform-IsAtomic :
    (crypto : Crypto) (call : Call) (w : World) (e : VaultError)
    → is_wipe call ≡ false
    → (perform crypto call w).0 ≡ err e
    → (perform crypto call w).1 ≡ w
unfolding perform
perform-IsAtomic crypto (create keystore fresh count password opts now) w e _ =
    then_pure (create_with_new_mnemonic crypto keystore fresh count password opts now) tt
      (create-IsAtomic crypto keystore fresh count password opts now) w e
perform-IsAtomic crypto (import_words keystore fresh phrase password passphrase opts now) w e _ =
    import-IsAtomic crypto keystore fresh phrase password passphrase opts now w e
perform-IsAtomic crypto (unlock_by_password password now) w e _ =
    unlock-IsAtomic crypto password now w e
perform-IsAtomic crypto (unlock_by_biometrics keystore now) w e _ =
    biometrics-IsAtomic crypto keystore now w e
perform-IsAtomic crypto lock_now w e _ = modify-IsAtomic lock w e
perform-IsAtomic crypto (touched now) w e _ = modify-IsAtomic (touch now) w e
perform-IsAtomic crypto (timed_out now) w e _ = λ h. absurd (cc h)
perform-IsAtomic crypto (reveal password) w e _ =
    then_pure (reveal_mnemonic crypto password) tt
      (reads-IsAtomic _ λ w. reveal_mnemonic-keeps crypto (λ x. x ≡ w) password w refl) w e
perform-IsAtomic crypto (change old new salt slot_nonce payload_nonce) w e _ =
    change_password-IsAtomic crypto old new salt slot_nonce payload_nonce w e
perform-IsAtomic crypto (enable keystore payload_nonce) w e _ =
    enable-IsAtomic crypto keystore payload_nonce w e
perform-IsAtomic crypto (disable payload_nonce) w e _ = disable-IsAtomic crypto payload_nonce w e
perform-IsAtomic crypto database_key_used w e _ =
    then_pure (get_database_key crypto) tt (get_database_key-IsAtomic crypto) w e
perform-IsAtomic crypto metadata_read w e _ =
    then_pure (get_metadata crypto) tt
      (reads-IsAtomic _ λ w. get_metadata-keeps crypto (λ x. x ≡ w) w refl) w e
perform-IsAtomic crypto (database_key_unwrapped keystore) w e _ =
    then_pure (unwrap_database_key keystore) tt
      (reads-IsAtomic _ λ w. unwrap_database_key-keeps crypto (λ x. x ≡ w) keystore w refl) w e
perform-IsAtomic crypto (wiped keystore) w e h = absurd (cc h)
