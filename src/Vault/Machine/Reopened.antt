-- ===== src/Vault/Machine/Reopened.antt =====
-- A created vault is unlocked again by its password.
use cemp_mobile.Prelude.{
  ℕ, ◌+◌, ◌≤◌, ◌≡◌, refl, sym, subst, ap, ◌∙◌, ◌⊎◌, inl, inr, Bool, true, false, [], ◌∷◌, Option,
  none, some, ok, String, ◌==◌, length, arith, All,
}
use cemp_mobile.Vault.Kdf.{KdfOptions, resolve_kdf_params, validate_kdf_params, or_else}
use cemp_mobile.Vault.File.{
  Bytes, VaultFileV1, VaultWordCount, twelve, twenty_four, entropy_bytes, vek_bytes,
  serialize_vault_file,
}
use cemp_mobile.Vault.Payload.{VaultSecretPayload, encode_secret_payload}
use cemp_mobile.Vault.Machine.{
  World, Crypto, PlatformKeyStore, default_auto_lock_seconds, password_wrap_aad, open_vault, lock,
}
use cemp_mobile.Prelude.{◌++◌, length-append, All-append, ◌<◌}
use cemp_mobile.Core.Bytes.{IsByte}
use cemp_mobile.Vault.Kdf.{salt_of}
use cemp_mobile.Vault.File.{aes_gcm_nonce_bytes, max_safe_integer, secret_payload_bytes}
use cemp_mobile.Vault.File.RoundTrip.{IsVaultFile}
use cemp_mobile.Vault.Payload.{seed_bytes}
use cemp_mobile.Vault.Payload.RoundTrip.{encode_parts, flag_of, decode_encoded}
use cemp_mobile.Vault.Machine.Creation.{
  Fresh, CreateVaultOptions, new_header, new_file, store_file, build_vault, assert_can_initialize,
  create_with_new_mnemonic, generated,
}
use cemp_mobile.Vault.Machine.Access.{unlock}
use cemp_mobile.Vault.Machine.Sealed.{
  CipherLaws, IsPrinted, IsLocked, IsWrapped, write_file-IsStored, IsOpened, unlock-IsOpened,
}

-- Bytes of the lengths that the source draws.
pub record IsFresh (fresh : Fresh) : Type 0 where
  pub salt : All IsByte fresh.kdf_salt
  pub vek : All IsByte fresh.vek
  pub vek_length : length fresh.vek ≡ vek_bytes
  pub slot_nonce : All IsByte fresh.password_slot_nonce
  pub slot_nonce_length : length fresh.password_slot_nonce ≡ aes_gcm_nonce_bytes
  pub payload_nonce : All IsByte fresh.payload_nonce
  pub payload_nonce_length : length fresh.payload_nonce ≡ aes_gcm_nonce_bytes

-- A mnemonic's entropy, of its word count's length, and its 64-byte seed.
pub record IsSecret (payload : VaultSecretPayload) (count : VaultWordCount) : Type 0 where
  pub entropy : All IsByte payload.entropy
  pub entropy_length : length payload.entropy ≡ entropy_bytes count
  pub seed : All IsByte payload.seed
  pub seed_length : length payload.seed ≡ seed_bytes

-- Options that the parser takes back: caps on the costs, a timer, a clock.
pub record IsUsable (opts : CreateVaultOptions) (salt : Bytes) (now : ℕ) : Type 0 where
  pub kdf : validate_kdf_params (resolve_kdf_params opts.kdf salt) ≡ ok tt
  pub positive : 1 ≤ or_else opts.auto_lock_seconds default_auto_lock_seconds
  pub bounded : or_else opts.auto_lock_seconds default_auto_lock_seconds ≤ 2147483
  pub clock : now ≤ max_safe_integer

entropy_sizes : (count : VaultWordCount) → (entropy_bytes count ≡ 16) ⊎ (entropy_bytes count ≡ 32)
entropy_sizes twelve = inl refl
entropy_sizes twenty_four = inr refl

entropy_small : (count : VaultWordCount) → entropy_bytes count < 256
entropy_small twelve = omega arith
entropy_small twenty_four = omega arith

flag_byte : (b : Bool) → IsByte (flag_of b)
flag_byte true = omega arith
flag_byte false = omega arith

-- The plaintext of the payload: bytes, of the layout's length.
abbrev plaintext_of : VaultSecretPayload → VaultWordCount → Bytes
plaintext_of payload count =
    entropy_bytes count ∷ payload.entropy ++ payload.seed ++ flag_of payload.has_passphrase ∷ []

plaintext_lem :
    (payload : VaultSecretPayload) (count : VaultWordCount)
    → IsSecret payload count
    → (encode_secret_payload payload ≡ ok (plaintext_of payload count))
      × (length (plaintext_of payload count) ≡ secret_payload_bytes count)
      × All IsByte (plaintext_of payload count)
unfolding secret_payload_bytes
plaintext_lem payload count is = (
  encode_parts (entropy_bytes count) payload.entropy payload.seed payload.has_passphrase
      (entropy_sizes count) is.entropy_length is.seed_length,
  omega (
    arith,
    is.entropy_length,
    is.seed_length,
    length-append (payload.entropy ++ payload.seed) (flag_of payload.has_passphrase ∷ []),
    length-append payload.entropy payload.seed,
  ),
  (
    entropy_small count,
    All-append IsByte (payload.entropy ++ payload.seed) (flag_of payload.has_passphrase ∷ [])
        (All-append IsByte payload.entropy payload.seed is.entropy is.seed)
        (flag_byte payload.has_passphrase, tt),
  ),
)

salt_of-resolve :
    (opts : Option KdfOptions) (salt : Bytes) → salt_of (resolve_kdf_params opts salt) ≡ salt
unfolding resolve_kdf_params
salt_of-resolve none salt = refl
salt_of-resolve (some (KdfOptions.argon2id_options m t p)) salt = refl
salt_of-resolve (some (KdfOptions.scrypt_options n r p)) salt = refl

module _ (crypto : Crypto) (laws : CipherLaws crypto) (fresh : Fresh) (payload : VaultSecretPayload)
    (count : VaultWordCount) (password : String) (opts : CreateVaultOptions) (now : ℕ) where
  -- The file that `#buildVault` writes.
  abbrev pub built : VaultFileV1
  built =
      new_file crypto fresh (resolve_kdf_params opts.kdf fresh.kdf_salt) password
        (plaintext_of payload count) payload.has_passphrase count opts now

  built-IsVaultFile :
      IsFresh fresh → IsSecret payload count → IsUsable opts fresh.kdf_salt now → IsVaultFile built
  unfolding new_file new_header
  built-IsVaultFile is secret usable =
      let (_, len, bytes) = plaintext_lem payload count secret in
      record {
        salt_bytes = subst (All IsByte) (sym (salt_of-resolve opts.kdf fresh.kdf_salt)) is.salt;
        kdf_accepted = usable.kdf;
        slot_nonce = is.slot_nonce;
        slot_nonce_length = is.slot_nonce_length;
        slot_vek = laws.bytes _ _ fresh.vek _ is.vek;
        slot_vek_length = omega (
          arith,
          laws.grows (crypto.derive_kek password (resolve_kdf_params opts.kdf fresh.kdf_salt))
              fresh.password_slot_nonce fresh.vek password_wrap_aad,
          is.vek_length,
        );
        biometric = tt;
        payload_nonce = is.payload_nonce;
        payload_nonce_length = is.payload_nonce_length;
        payload_ct = laws.bytes _ _ _ _ bytes;
        payload_ct_length = laws.grows _ _ _ _ ∙ ap (λ n. n + 16) len;
        created = usable.clock;
        timer_positive = usable.positive;
        timer_bounded = usable.bounded;
      }

  built-IsWrapped : IsWrapped crypto built password fresh.vek
  unfolding new_file new_header
  built-IsWrapped = record { unwrapped = laws.opens _ _ _ _ }

  built-IsLocked :
      IsSecret payload count → IsLocked crypto built fresh.vek (plaintext_of payload count) payload
  unfolding new_file
  built-IsLocked secret = record {
    opened = laws.opens _ _ _ _;
    decoded =
        decode_encoded payload (plaintext_of payload count) (plaintext_lem payload count secret).0;
  }

  built_vault :
      (keystore : PlatformKeyStore) (blob : Bytes) (w : World)
      → IsFresh fresh
      → IsSecret payload count
      → IsUsable opts fresh.kdf_salt now
      → keystore.wrap false (crypto.derive_local_database_key payload.seed) ≡ some blob
      → build_vault crypto keystore fresh payload count password opts now w
        ≡ (ok tt, store_file crypto built blob fresh.vek payload.seed now w)
  unfolding build_vault
  built_vault keystore blob w is secret usable wrapped =
      rw (usable.kdf, is.vek_length, (plaintext_lem payload count secret).0, wrapped) refl

-- The word count and the options fit the bytes drawn, for a vault that is made from `entropy`.
module _ (crypto : Crypto) (laws : CipherLaws crypto) (keystore : PlatformKeyStore) (fresh : Fresh)
    (count : VaultWordCount) (password : String) (opts : CreateVaultOptions) (now : ℕ) where
  abbrev pub created_file : VaultFileV1
  created_file = built crypto laws fresh (generated crypto fresh.entropy) count password opts now

  created :
      (blob : Bytes) (database_key : Option Bytes)
      → IsFresh fresh
      → IsSecret (generated crypto fresh.entropy) count
      → IsUsable opts fresh.kdf_salt now
      → keystore.wrap false (crypto.derive_local_database_key (generated crypto fresh.entropy).seed)
        ≡ some blob
      → create_with_new_mnemonic crypto keystore fresh count password opts now
          (open_vault none database_key)
        ≡ (
          ok (crypto.entropy_to_mnemonic fresh.entropy),
          store_file crypto created_file blob fresh.vek
              (generated crypto fresh.entropy).seed
              now
              (open_vault none database_key),
        )
  unfolding create_with_new_mnemonic assert_can_initialize open_vault
  created blob database_key is secret usable wrapped =
      rw
        (
          entropy_fits,
          built_vault crypto laws fresh (generated crypto fresh.entropy) count password opts now
              keystore blob (open_vault none database_key) is secret usable wrapped,
        )
        refl
    where
      entropy_fits : (length fresh.entropy == entropy_bytes count) ≡ true
      entropy_fits = unfold generated in ground (arith, secret.entropy_length)

  -- A new vault is opened again by its password: over storage without a vault, with bytes of the lengths
  -- that are drawn, options within the caps, a keystore that wraps and the ciphers and JSON as
  -- documented, the creation returns the words of the entropy, and after a lock the password unlocks
  -- the same VEK and the seed of those words, with a timer of at most an hour from then.
  pub create_then_unlock :
      (blob : Bytes) (database_key : Option Bytes) (later : ℕ)
      → IsFresh fresh
      → IsSecret (generated crypto fresh.entropy) count
      → IsUsable opts fresh.kdf_salt now
      → keystore.wrap false (crypto.derive_local_database_key (generated crypto fresh.entropy).seed)
        ≡ some blob
      → IsPrinted crypto created_file
      → ((create_with_new_mnemonic crypto keystore fresh count password opts now
            (open_vault none database_key)).0
          ≡ ok (crypto.entropy_to_mnemonic fresh.entropy))
        × IsOpened fresh.vek
            (crypto.mnemonic_to_seed (crypto.entropy_to_mnemonic fresh.entropy) none)
            later
            (lock
              (create_with_new_mnemonic crypto keystore fresh count password opts now
                (open_vault none database_key)).1)
            (unlock crypto password later (
              lock
                (create_with_new_mnemonic crypto keystore fresh count password opts now
                  (open_vault none database_key)).1))
  unfolding generated
  create_then_unlock blob database_key later is secret usable wrapped printed =
      let made = created blob database_key is secret usable wrapped in
      (
        ap (λ r. r.0) made,
        subst Reopens (sym (ap (λ r. r.1) made)) (
            unlock-IsOpened crypto (lock stored) created_file password fresh.vek
              (plaintext_of payload count) payload later
              (write_file-IsStored crypto (lock stored) created_file
                (built-IsVaultFile crypto laws fresh payload count password opts now is secret
                  usable)
                printed kept_file)
              (built-IsWrapped crypto laws fresh payload count password opts now)
              (built-IsLocked crypto laws fresh payload count password opts now secret)),
      )
    where
      payload : VaultSecretPayload
      payload = generated crypto fresh.entropy

      stored : World
      stored =
          store_file crypto created_file blob fresh.vek payload.seed now
            (open_vault none database_key)

      Reopens : World → Type 0
      Reopens w =
          IsOpened fresh.vek
            (crypto.mnemonic_to_seed (crypto.entropy_to_mnemonic fresh.entropy) none) later (lock w)
            (unlock crypto password later (lock w))

      kept_file :
          (lock stored).vault_file ≡ some (serialize_vault_file crypto.stringify created_file)
      kept_file = unfold lock in unfold store_file in refl
