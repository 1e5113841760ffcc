-- ===== src/Vault/Machine/Biometrics.antt =====
-- A vault with biometrics enabled is unlocked by the keystore.
use cemp_mobile.Prelude.{ℕ, ◌≤◌, ◌≡◌, refl, sym, subst, ap, ◌∙◌, true, none, some, ok, length, All}
use cemp_mobile.Prelude.Actions.{or_raise, and_then}
use cemp_mobile.Vault.Errors.{biometric_unavailable, null_key}
use cemp_mobile.Vault.File.{Bytes, Header, VaultFileV1, vek_bytes}
use cemp_mobile.Vault.Payload.{VaultSecretPayload}
use cemp_mobile.Vault.Machine.{
  unlocked, World, Crypto, PlatformKeyStore, clamp_auto_lock_seconds, is_some, set_unlocked,
  on_vault, assert_unlocked, require_vek, lock, unlocked_or_throws, decrypt_payload_bytes,
  decrypt_payload,
}
use cemp_mobile.Core.Bytes.{IsByte}
use cemp_mobile.Vault.File.{biometric_blob_max_bytes}
use cemp_mobile.Vault.File.RoundTrip.{IsVaultFile}
use cemp_mobile.Vault.Machine.Slots.{
  rewritten, write_file, rewrite_slots, add_biometric_slot, enable_biometrics,
}
use cemp_mobile.Vault.Machine.Access.{unlock_with_biometrics}
use cemp_mobile.Vault.Machine.Sealed.{
  CipherLaws, IsPrinted, IsLocked, IsStored, stored-IsVaultFile, write_file-IsStored, IsOpened,
  set_unlocked-IsOpened,
}
use cemp_mobile.Vault.Machine.Rewrapped.{IsNonceOf, rewritten-IsVaultFile, rewritten-IsLocked}

-- A keystore that offers biometrics, wraps this key to a blob of a size that the parser takes, and
-- unwraps that blob.
pub record Wraps (keystore : PlatformKeyStore) (vek blob : Bytes) : Type 0 where
  pub available : keystore.is_biometric_available ≡ true
  pub wraps : keystore.wrap true vek ≡ some blob
  pub unwraps : keystore.unwrap blob ≡ some vek
  pub blob_bytes : All IsByte blob
  pub blob_min : 16 ≤ length blob
  pub blob_max : length blob ≤ biometric_blob_max_bytes

asserted : (w : World) → w.vault.state ≡ unlocked → assert_unlocked w ≡ (ok tt, w)
unfolding assert_unlocked
asserted w h = ap (λ s. (unlocked_or_throws s, w)) h

keyed :
    (w : World) (vek : Bytes)
    → w.vault.state ≡ unlocked
    → w.vault.vek ≡ some vek
    → require_vek w ≡ (ok vek, w)
unfolding require_vek
keyed w vek h k =
    ap (and_then (λ _ x. or_raise x.vault.vek null_key x)) (asserted w h)
    ∙ ap (λ found. or_raise found null_key w) k

module _ (crypto : Crypto) (laws : CipherLaws crypto) where
  abbrev pub with_slot : VaultFileV1 → Bytes → Header
  with_slot file blob = record file.header {
    biometric_slot = some (record { nonce = none; wrapped_vek = blob });
  }

  -- The file that `enableBiometrics` writes.
  abbrev pub enabled_file : VaultFileV1 → Bytes → Bytes → Bytes → Bytes → VaultFileV1
  enabled_file file blob vek payload_nonce plaintext =
      rewritten crypto file (with_slot file blob) vek payload_nonce plaintext

  enabled :
      (w : World) (file : VaultFileV1) (keystore : PlatformKeyStore)
      (payload_nonce vek blob plaintext : Bytes) (payload : VaultSecretPayload)
      → w.vault.state ≡ unlocked
      → w.vault.vek ≡ some vek
      → IsStored crypto w file
      → file.header.biometric_slot ≡ none
      → IsLocked crypto file vek plaintext payload
      → Wraps keystore vek blob
      → enable_biometrics crypto keystore payload_nonce w
        ≡ (ok tt, write_file crypto (enabled_file file blob vek payload_nonce plaintext) w)
  unfolding enable_biometrics add_biometric_slot rewrite_slots decrypt_payload_bytes
  enabled w file keystore payload_nonce vek blob plaintext payload is_open key stored absent inside
        k =
      rw
        (
          asserted w is_open,
          k.available,
          stored,
          ap is_some absent,
          keyed w vek is_open key,
          k.wraps,
          keyed w vek is_open key,
          inside.opened,
        )
        refl

  -- Biometrics, once enabled, unlock the vault: on an unlocked vault whose VEK opens the stored file,
  -- which has no biometric slot, with a keystore that wraps the VEK to a blob of 16 to 512 bytes
  -- and unwraps that blob, the call returns, and after a lock the keystore unlocks the same VEK and the
  -- same seed, with a timer of at most an hour.
  pub enable_then_unlock :
      (w : World) (file : VaultFileV1) (keystore : PlatformKeyStore)
      (payload_nonce vek blob plaintext : Bytes) (payload : VaultSecretPayload) (now : ℕ)
      → w.vault.state ≡ unlocked
      → w.vault.vek ≡ some vek
      → length vek ≡ vek_bytes
      → IsStored crypto w file
      → file.header.biometric_slot ≡ none
      → IsLocked crypto file vek plaintext payload
      → Wraps keystore vek blob
      → IsNonceOf payload_nonce
      → IsPrinted crypto (enabled_file file blob vek payload_nonce plaintext)
      → ((enable_biometrics crypto keystore payload_nonce w).0 ≡ ok tt)
        × IsOpened vek payload.seed now
            (lock (enable_biometrics crypto keystore payload_nonce w).1)
            (unlock_with_biometrics crypto keystore now
              (lock (enable_biometrics crypto keystore payload_nonce w).1))
  enable_then_unlock w file keystore payload_nonce vek blob plaintext payload now is_open key size
        stored absent inside k pn printed =
      let done =
        enabled w file keystore payload_nonce vek blob plaintext payload is_open key stored absent
          inside k in
      (
        ap (λ r. r.0) done,
        subst
            (λ x.
              IsOpened vek payload.seed now (lock x)
                (unlock_with_biometrics crypto keystore now (lock x)))
            (sym (ap (λ r. r.1) done))
            (subst (IsOpened vek payload.seed now after) (sym reopened)
              (set_unlocked-IsOpened vek payload.seed target.meta.auto_lock_seconds now after)),
      )
    where
      target : VaultFileV1
      target = enabled_file file blob vek payload_nonce plaintext

      after : World
      after = lock (write_file crypto target w)

      is : IsVaultFile file
      is = stored-IsVaultFile crypto w file stored

      target_is : IsVaultFile target
      target_is =
          rewritten-IsVaultFile crypto laws file (with_slot file blob) vek payload_nonce plaintext
            is
            (record {
              salt_bytes = is.salt_bytes;
              kdf_accepted = is.kdf_accepted;
              slot_nonce = (is.slot_nonce, is.slot_nonce_length);
              slot_vek = is.slot_vek;
              slot_vek_length = is.slot_vek_length;
              biometric = (k.blob_bytes, k.blob_min, k.blob_max, tt);
            })
            pn inside.opened

      here : IsStored crypto after target
      here =
          write_file-IsStored crypto after target target_is printed
            (unfold lock in unfold write_file in refl)

      sealed : IsLocked crypto target vek plaintext payload
      sealed =
          rewritten-IsLocked crypto laws file (with_slot file blob) vek payload_nonce plaintext
            payload inside.decoded

      has_slot : target.header.biometric_slot ≡ some (record { nonce = none; wrapped_vek = blob })
      has_slot = unfold rewritten in refl

      reopened : unlock_with_biometrics crypto keystore now after ≡ (
        ok tt,
        on_vault
            (set_unlocked vek payload.seed
              (clamp_auto_lock_seconds target.meta.auto_lock_seconds)
              now)
            after,
      )
      reopened =
          unfold unlock_with_biometrics in
          unfold decrypt_payload in
          unfold decrypt_payload_bytes in
          rw
            (
              here,
              ap (λ o. or_raise o biometric_unavailable after) has_slot,
              k.unwraps,
              size,
              sealed.opened,
              sealed.decoded,
            )
            refl
