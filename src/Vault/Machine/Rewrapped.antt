-- ===== src/Vault/Machine/Rewrapped.antt =====
-- A vault whose slots were rewritten is unlocked as before: by the new password.
use cemp_mobile.Prelude.{ℕ, ◌≡◌, refl, sym, subst, ◌∙◌, some, Result, ok, String, length, All}
use cemp_mobile.Vault.Errors.{VaultError}
use cemp_mobile.Vault.Kdf.{KdfParams, argon2id, scrypt, validate_kdf_params, with_salt}
use cemp_mobile.Vault.File.{Bytes, Header, VaultFileV1, payload_aad}
use cemp_mobile.Vault.Payload.{VaultSecretPayload, decode_secret_payload}
use cemp_mobile.Vault.Machine.{World, Crypto, decrypt_payload_bytes, unwrap_vek}
use cemp_mobile.Core.Bytes.{IsByte}
use cemp_mobile.Vault.Kdf.{salt_of, kdf_salt_bytes, validate_kdf_params-with_salt}
use cemp_mobile.Vault.File.{aes_gcm_nonce_bytes, vek_wrap_bytes}
use cemp_mobile.Vault.File.RoundTrip.{IsVaultFile, IsBiometric}
use cemp_mobile.Vault.Machine.Slots.{rewritten, renewed_header, write_file, change_password}
use cemp_mobile.Vault.Machine.Access.{unlock}
use cemp_mobile.Vault.Machine.Sealed.{
  CipherLaws, IsPrinted, IsLocked, IsWrapped, IsStored, stored-IsVaultFile, write_file-IsStored,
  IsOpened, unlock-IsOpened,
}

abbrev pub IsNonceOf : Bytes → Type 0
IsNonceOf nonce = All IsByte nonce × (length nonce ≡ aes_gcm_nonce_bytes)

-- A header that the parser takes.
pub record IsHeader (header : Header) : Type 0 where
  pub salt_bytes : All IsByte (salt_of header.kdf)
  pub kdf_accepted : validate_kdf_params header.kdf ≡ ok tt
  pub slot_nonce : IsNonceOf header.password_slot.nonce
  pub slot_vek : All IsByte header.password_slot.wrapped_vek
  pub slot_vek_length : length header.password_slot.wrapped_vek ≡ vek_wrap_bytes
  pub biometric : IsBiometric header.biometric_slot

module _ (crypto : Crypto) (laws : CipherLaws crypto) where
  pub rewritten-IsVaultFile :
      (file : VaultFileV1) (header : Header) (vek payload_nonce plaintext : Bytes)
      → IsVaultFile file
      → IsHeader header
      → IsNonceOf payload_nonce
      → crypto.decrypt vek file.payload.nonce file.payload.ct
          (payload_aad crypto.stringify file.header)
        ≡ some plaintext
      → IsVaultFile (rewritten crypto file header vek payload_nonce plaintext)
  unfolding rewritten
  rewritten-IsVaultFile file header vek payload_nonce plaintext is head (n, len) opened = record {
    salt_bytes = head.salt_bytes;
    kdf_accepted = head.kdf_accepted;
    slot_nonce = head.slot_nonce.0;
    slot_nonce_length = head.slot_nonce.1;
    slot_vek = head.slot_vek;
    slot_vek_length = head.slot_vek_length;
    biometric = head.biometric;
    payload_nonce = n;
    payload_nonce_length = len;
    payload_ct = laws.bytes _ _ _ _ (laws.opened_bytes _ _ _ _ plaintext is.payload_ct opened);
    payload_ct_length =
        laws.grows _ _ _ _
        ∙ sym (laws.opened_length _ _ _ _ plaintext opened)
        ∙ is.payload_ct_length;
    created = is.created;
    timer_positive = is.timer_positive;
    timer_bounded = is.timer_bounded;
  }

  pub rewritten-IsLocked :
      (file : VaultFileV1) (header : Header) (vek payload_nonce plaintext : Bytes)
      (payload : VaultSecretPayload)
      → decode_secret_payload plaintext ≡ ok payload
      → IsLocked crypto
          (rewritten crypto file header vek payload_nonce plaintext)
          vek
          plaintext
          payload
  unfolding rewritten
  rewritten-IsLocked file header vek payload_nonce plaintext payload h = record {
    opened = laws.opens _ _ _ _;
    decoded = h;
  }

  renewed-IsHeader :
      (file : VaultFileV1) (old new : String) (salt slot_nonce vek : Bytes)
      → IsVaultFile file
      → IsWrapped crypto file old vek
      → All IsByte salt
      → length salt ≡ kdf_salt_bytes
      → IsNonceOf slot_nonce
      → IsHeader (renewed_header crypto file.header new salt slot_nonce vek)
  unfolding renewed_header
  renewed-IsHeader file old new salt slot_nonce vek is wrapped s len n = record {
    salt_bytes = subst (All IsByte) (new_salt file.header.kdf) s;
    kdf_accepted = validate_kdf_params-with_salt file.header.kdf salt len is.kdf_accepted;
    slot_nonce = n;
    slot_vek = laws.bytes _ _ vek _ (laws.opened_bytes _ _ _ _ vek is.slot_vek wrapped.unwrapped);
    slot_vek_length =
        laws.grows _ _ _ _
        ∙ sym (laws.opened_length _ _ _ _ vek wrapped.unwrapped)
        ∙ is.slot_vek_length;
    biometric = is.biometric;
  }
    where
      new_salt : (kdf : KdfParams) → salt ≡ salt_of (with_salt salt kdf)
      new_salt (argon2id m t p old_salt) = refl
      new_salt (scrypt n r p old_salt) = refl

  -- The file that `changePassword` writes.
  abbrev pub changed_file :
      VaultFileV1 → String → Bytes → Bytes → Bytes → Bytes → Bytes → VaultFileV1
  changed_file file new salt slot_nonce payload_nonce vek plaintext =
      rewritten crypto file (renewed_header crypto file.header new salt slot_nonce vek) vek
        payload_nonce plaintext

  changed :
      (w : World) (file : VaultFileV1) (old new : String)
      (salt slot_nonce payload_nonce vek plaintext : Bytes) (payload : VaultSecretPayload)
      → IsStored crypto w file
      → IsWrapped crypto file old vek
      → IsLocked crypto file vek plaintext payload
      → change_password crypto old new salt slot_nonce payload_nonce w ≡ (
        ok tt,
        write_file crypto (changed_file file new salt slot_nonce payload_nonce vek plaintext) w,
      )
  unfolding change_password unwrap_vek decrypt_payload_bytes
  changed w file old new salt slot_nonce payload_nonce vek plaintext payload stored wrapped inside =
      rw (stored, wrapped.unwrapped, inside.opened) refl

  -- What a world is after a password change.
  pub record IsChanged (w : World) (file : VaultFileV1) (new : String) (vek seed : Bytes) (now : ℕ)
      (r : Result VaultError (Unit {0}) × World) : Type 0 where
    pub returned : r.0 ≡ ok tt
    pub same_vault : r.1.vault ≡ w.vault
    pub stored_slot :
        (f : VaultFileV1) × IsStored crypto r.1 f
        × (f.header.biometric_slot ≡ file.header.biometric_slot)
        × (f.meta ≡ file.meta)
    pub opens_with_new : IsOpened vek seed now r.1 (unlock crypto new now r.1)

  -- After a password change the new password unlocks: where the old password unwraps the stored file's
  -- VEK and the VEK opens its payload, with random bytes of the source's lengths and the ciphers and
  -- JSON as documented, the call returns, the vault stays locked or unlocked as it was, the file keeps
  -- its biometric slot and its metadata, and the new password unlocks the same VEK and the same seed.
  pub change_then_unlock :
      (w : World) (file : VaultFileV1) (old new : String)
      (salt slot_nonce payload_nonce vek plaintext : Bytes) (payload : VaultSecretPayload) (now : ℕ)
      → IsStored crypto w file
      → IsWrapped crypto file old vek
      → IsLocked crypto file vek plaintext payload
      → All IsByte salt
      → length salt ≡ kdf_salt_bytes
      → IsNonceOf slot_nonce
      → IsNonceOf payload_nonce
      → IsPrinted crypto (changed_file file new salt slot_nonce payload_nonce vek plaintext)
      → IsChanged w file new vek payload.seed now
          (change_password crypto old new salt slot_nonce payload_nonce w)
  change_then_unlock w file old new salt slot_nonce payload_nonce vek plaintext payload now stored
        wrapped inside s len n pn printed =
      subst (IsChanged w file new vek payload.seed now)
        (sym (
          changed w file old new salt slot_nonce payload_nonce vek plaintext payload stored wrapped
            inside))
        (record {
          returned = refl;
          same_vault = unfold write_file in refl;
          stored_slot = (
            target,
            here,
            unfold rewritten in unfold renewed_header in refl,
            unfold rewritten in refl,
          );
          opens_with_new =
              unlock-IsOpened crypto (write_file crypto target w) target new vek plaintext payload
                now here
                (record {
                  unwrapped = unfold rewritten in unfold renewed_header in laws.opens _ _ _ _;
                })
                (rewritten-IsLocked file (renewed_header crypto file.header new salt slot_nonce vek)
                  vek payload_nonce plaintext payload inside.decoded);
        })
    where
      is : IsVaultFile file
      is = stored-IsVaultFile crypto w file stored

      target : VaultFileV1
      target = changed_file file new salt slot_nonce payload_nonce vek plaintext

      here : IsStored crypto (write_file crypto target w) target
      here =
          write_file-IsStored crypto (write_file crypto target w) target
            (rewritten-IsVaultFile file (renewed_header crypto file.header new salt slot_nonce vek)
              vek payload_nonce plaintext is
              (renewed-IsHeader file old new salt slot_nonce vek is wrapped s len n) pn
              inside.opened)
            printed (unfold write_file in refl)
