-- ===== src/Vault/Machine/Examples.antt =====
-- A vault of twelve words, with a cipher that appends a tag of zeros.
use cemp_mobile.Prelude.{
  ℕ, ◌+◌, ◌≡◌, refl, sym, subst, ap, ◌∙◌, inl, inr, true, false, List, [], ◌∷◌, Option, none, some,
  ok, err, if◌then◌else◌, leb, length, arith, All, Bool-cases,
}
use cemp_mobile.Vault.Errors.{not_initialized}
use cemp_mobile.Vault.Kdf.{resolve_kdf_params, validate_kdf_params}
use cemp_mobile.Vault.Json.{Json}
use cemp_mobile.Vault.File.{Bytes, VaultFileV1, twelve, payload_aad, serialize_vault_file}
use cemp_mobile.Vault.File.Parse.{parse_vault_file}
use cemp_mobile.Vault.Payload.{VaultSecretPayload, decode_secret_payload}
use cemp_mobile.Vault.Machine.{
  VaultState, uninitialized, locked, unlocked, World, Crypto, PlatformKeyStore, open_vault,
  set_unlocked, lock, read_vault_file,
}
use cemp_mobile.Prelude.{
  ◌++◌, ◌-◌, zero, suc, take, length-append, length-take, take-append, All-append,
}
use cemp_mobile.Core.Bytes.{IsByte, hex_to_bytes, bytes_to_hex, bytes_equal}
use cemp_mobile.Vault.Kdf.{costs_in_range}
use cemp_mobile.Vault.File.{file_to_wire}
use cemp_mobile.Vault.File.Examples.{zeros, zeros-IsByte}
use cemp_mobile.Vault.Machine.Creation.{
  Fresh, CreateVaultOptions, new_file, new_header, create_with_new_mnemonic, generated,
}
use cemp_mobile.Vault.Machine.Access.{unlock, unlock_with_biometrics}
use cemp_mobile.Vault.Machine.Slots.{change_password, rewritten, renewed_header, enable_biometrics}
use cemp_mobile.Vault.Machine.Calls.{Call, create, lock_now, unlock_by_password, perform, run_calls}
use cemp_mobile.Vault.Machine.Guarding.{IsBare}
use cemp_mobile.Vault.Machine.Guarded.{run_calls-IsGuarded}
use cemp_mobile.Vault.Machine.Atomic.{perform-IsAtomic}
use cemp_mobile.Vault.Machine.Sealed.{
  CipherLaws, IsPrinted, IsLocked, IsWrapped, IsStored, IsOpened,
}
use cemp_mobile.Vault.Machine.Reopened.{
  IsFresh, IsSecret, IsUsable, created_file, create_then_unlock,
}
use cemp_mobile.Vault.Machine.Rewrapped.{IsNonceOf, IsChanged, changed_file, change_then_unlock}
use cemp_mobile.Vault.Machine.Biometrics.{Wraps, enabled_file, enable_then_unlock}

abbrev tag : Bytes
tag = zeros 16

abbrev open_tagged : Bytes → Option Bytes
open_tagged ct = if leb 16 (length ct) then some (take (length ct - 16) ct) else none

-- `parse` is what JSON.parse makes of the stored bytes.
abbrev toy : (Bytes → Option Json) → Crypto
toy parse = record {
  encrypt = λ key nonce plaintext aad. plaintext ++ tag;
  decrypt = λ key nonce ct aad. open_tagged ct;
  derive_kek = λ password kdf. zeros 32;
  derive_local_database_key = λ seed. zeros 32;
  validate_mnemonic = λ phrase. true;
  mnemonic_to_entropy = λ phrase. some (zeros 16);
  entropy_to_mnemonic = λ entropy. "abandon" ∷ "about" ∷ [];
  mnemonic_to_seed = λ phrase passphrase. zeros 64;
  stringify = λ value. 1 ∷ [];
  parse = parse;
}

All-take : (n : ℕ) (xs : Bytes) → All IsByte xs → All IsByte (take n xs)
All-take zero xs h = tt
All-take (suc n) [] h = tt
All-take (suc n) (x ∷ xs) h = (h.0, All-take n xs h.1)

toy_laws : (parse : Bytes → Option Json) → CipherLaws (toy parse)
toy_laws parse = record {
  opens = λ key nonce plaintext aad. opened plaintext;
  grows = λ key nonce plaintext aad. length-append plaintext tag;
  bytes = λ key nonce plaintext aad h. All-append IsByte plaintext tag h (zeros-IsByte 16);
  opened_length = λ key nonce ct aad plaintext. sized ct plaintext;
  opened_bytes = λ key nonce ct aad plaintext. kept ct plaintext;
}
  where
    opened : (plaintext : Bytes) → open_tagged (plaintext ++ tag) ≡ some plaintext
    opened plaintext =
        let len : length (plaintext ++ tag) ≡ length plaintext + 16 = length-append plaintext tag in
        rw (len, long (length plaintext), ends (length plaintext))
          (ap (λ x. some x) (take-append plaintext tag))
      where
        long : (n : ℕ) → leb 16 (n + 16) ≡ true
        long n = ground arith

        ends : (n : ℕ) → n + 16 - 16 ≡ n
        ends n = omega arith

    sized :
        (ct plaintext : Bytes) → open_tagged ct ≡ some plaintext → length ct ≡ length plaintext + 16
    sized ct plaintext h = ground (arith, h, length-take (length ct - 16) ct)

    kept :
        (ct plaintext : Bytes)
        → All IsByte ct
        → open_tagged ct ≡ some plaintext
        → All IsByte plaintext
    kept ct plaintext h e = elim (Bool-cases (leb 16 (length ct))) [
      | inl b ↦ subst (All IsByte) (same b) (All-take (length ct - 16) ct h)
      | inr b ↦ absurd (ground (arith, b, e))
    ]
      where
        same : leb 16 (length ct) ≡ true → take (length ct - 16) ct ≡ plaintext
        same b = ground (arith, b, e)

abbrev blind : Crypto
blind = toy (λ bytes. none)

abbrev drawn : Fresh
drawn = record {
  entropy = zeros 16;
  vek = zeros 32;
  kdf_salt = zeros 16;
  password_slot_nonce = zeros 12;
  payload_nonce = zeros 12;
}

abbrev plain_options : CreateVaultOptions
plain_options = record { kdf = none; auto_lock_seconds = none }

abbrev keystore : PlatformKeyStore
keystore = record {
  is_biometric_available = true;
  wrap = λ biometric key. some key;
  unwrap = λ blob. some blob;
  delete_key = true;
}

abbrev made_file : VaultFileV1
made_file =
    created_file blind (toy_laws (λ bytes. none)) keystore drawn twelve "secret" plain_options 1000

abbrev knowing : Crypto
knowing = toy (λ bytes. some (file_to_wire made_file))

drawn-IsFresh : IsFresh drawn
drawn-IsFresh = record {
  salt = zeros-IsByte 16;
  vek = zeros-IsByte 32;
  vek_length = refl;
  slot_nonce = zeros-IsByte 12;
  slot_nonce_length = refl;
  payload_nonce = zeros-IsByte 12;
  payload_nonce_length = refl;
}

made-IsSecret : IsSecret (generated knowing (zeros 16)) twelve
unfolding generated
made-IsSecret = record {
  entropy = zeros-IsByte 16;
  entropy_length = refl;
  seed = zeros-IsByte 64;
  seed_length = refl;
}

plain-IsUsable : IsUsable plain_options (zeros 16) 1000
unfolding validate_kdf_params resolve_kdf_params costs_in_range
plain-IsUsable = record {
  kdf = refl;
  positive = omega arith;
  bounded = omega arith;
  clock = omega arith;
}

made_again :
    created_file knowing
      (toy_laws (λ bytes. some (file_to_wire made_file)))
      keystore
      drawn
      twelve
      "secret"
      plain_options
      1000
    ≡ made_file
unfolding new_file new_header generated payload_aad
made_again = refl

made-IsPrinted : IsPrinted knowing (
    created_file knowing
      (toy_laws (λ bytes. some (file_to_wire made_file)))
      keystore
      drawn
      twelve
      "secret"
      plain_options
      1000)
unfolding serialize_vault_file
made-IsPrinted = record {
  read_back = ap (λ f. some (file_to_wire f)) (sym made_again);
  small = omega arith;
}

create_then_unlock_example :
    ((create_with_new_mnemonic knowing keystore drawn twelve "secret" plain_options 1000
        (open_vault none none)).0
      ≡ ok ("abandon" ∷ "about" ∷ []))
    × IsOpened
        (zeros 32)
        (zeros 64)
        9000
        (lock
          (create_with_new_mnemonic knowing keystore drawn twelve "secret" plain_options 1000
            (open_vault none none)).1)
        (unlock knowing "secret" 9000 (
          lock
            (create_with_new_mnemonic knowing keystore drawn twelve "secret" plain_options 1000
              (open_vault none none)).1))
create_then_unlock_example =
    create_then_unlock knowing (toy_laws (λ bytes. some (file_to_wire made_file))) keystore drawn
      twelve "secret" plain_options 1000 (zeros 32) none 9000 drawn-IsFresh made-IsSecret
      plain-IsUsable refl made-IsPrinted

-- Storage with the file of `made_file` as no bytes; what is written later reads as `after`.
abbrev parse_two : VaultFileV1 → Bytes → Option Json
parse_two after [] = some (file_to_wire made_file)
parse_two after (b ∷ bytes) = some (file_to_wire after)

abbrev unlocked_world : World
unlocked_world = record {
  vault = record {
    state = unlocked;
    vek = some (zeros 32);
    seed = some (zeros 64);
    db_key = none;
    auto_lock_seconds = 300;
    timer = some 301000;
    deadline_ms = some 301000;
  };
  vault_file = some [];
  database_key = none;
}

abbrev made_plaintext : Bytes
made_plaintext = 16 ∷ zeros 16 ++ zeros 64 ++ 0 ∷ []

abbrev made_payload : VaultSecretPayload
made_payload = record { entropy = zeros 16; seed = zeros 64; has_passphrase = false }

made-IsStored : (after : VaultFileV1) → IsStored (toy (parse_two after)) unlocked_world made_file
unfolding read_vault_file parse_vault_file hex_to_bytes bytes_to_hex bytes_equal costs_in_range
    new_file new_header payload_aad generated resolve_kdf_params file_to_wire
made-IsStored after = refl

made-IsWrapped :
    (after : VaultFileV1) → IsWrapped (toy (parse_two after)) made_file "secret" (zeros 32)
unfolding new_file new_header
made-IsWrapped after = record { unwrapped = refl }

made-IsLocked :
    (after : VaultFileV1)
    → IsLocked (toy (parse_two after)) made_file (zeros 32) made_plaintext made_payload
unfolding new_file decode_secret_payload generated
made-IsLocked after = record { opened = refl; decoded = refl }

nonce : IsNonceOf (zeros 12)
nonce = (zeros-IsByte 12, refl)

abbrev changed_sample : VaultFileV1
changed_sample =
    changed_file blind (toy_laws (λ bytes. none)) made_file "new" (zeros 16) (zeros 12) (zeros 12)
      (zeros 32) made_plaintext

abbrev changing : Crypto
changing = toy (parse_two changed_sample)

changed-IsPrinted : IsPrinted changing (
    changed_file changing
      (toy_laws (parse_two changed_sample))
      made_file
      "new"
      (zeros 16)
      (zeros 12)
      (zeros 12)
      (zeros 32)
      made_plaintext)
unfolding serialize_vault_file rewritten renewed_header payload_aad
changed-IsPrinted = record { read_back = refl; small = omega arith }

change_then_unlock_example :
    IsChanged changing
      (toy_laws (parse_two changed_sample))
      unlocked_world
      made_file
      "new"
      (zeros 32)
      (zeros 64)
      5000
      (change_password changing "secret" "new" (zeros 16) (zeros 12) (zeros 12) unlocked_world)
change_then_unlock_example =
    change_then_unlock changing (toy_laws (parse_two changed_sample)) unlocked_world made_file
      "secret" "new" (zeros 16) (zeros 12) (zeros 12) (zeros 32) made_plaintext made_payload 5000
      (made-IsStored changed_sample) (made-IsWrapped changed_sample) (made-IsLocked changed_sample)
      (zeros-IsByte 16) refl nonce nonce changed-IsPrinted

abbrev enabled_sample : VaultFileV1
enabled_sample =
    enabled_file blind (toy_laws (λ bytes. none)) made_file (zeros 32) (zeros 32) (zeros 12)
      made_plaintext

abbrev enabling : Crypto
enabling = toy (parse_two enabled_sample)

enabled-IsPrinted : IsPrinted enabling (
    enabled_file enabling
      (toy_laws (parse_two enabled_sample))
      made_file
      (zeros 32)
      (zeros 32)
      (zeros 12)
      made_plaintext)
unfolding serialize_vault_file rewritten payload_aad
enabled-IsPrinted = record { read_back = refl; small = omega arith }

keystore-Wraps : Wraps keystore (zeros 32) (zeros 32)
keystore-Wraps = record {
  available = refl;
  wraps = refl;
  unwraps = refl;
  blob_bytes = zeros-IsByte 32;
  blob_min = omega arith;
  blob_max = omega arith;
}

no_slot : made_file.header.biometric_slot ≡ none
unfolding new_file new_header
no_slot = refl

enable_then_unlock_example :
    ((enable_biometrics enabling keystore (zeros 12) unlocked_world).0 ≡ ok tt)
    × IsOpened
        (zeros 32)
        (zeros 64)
        5000
        (lock (enable_biometrics enabling keystore (zeros 12) unlocked_world).1)
        (unlock_with_biometrics enabling keystore 5000
          (lock (enable_biometrics enabling keystore (zeros 12) unlocked_world).1))
enable_then_unlock_example =
    enable_then_unlock enabling (toy_laws (parse_two enabled_sample)) unlocked_world made_file
      keystore (zeros 12) (zeros 32) (zeros 32) made_plaintext made_payload 5000 refl refl refl
      (made-IsStored enabled_sample) no_slot (made-IsLocked enabled_sample) keystore-Wraps nonce
      enabled-IsPrinted

abbrev session : List Call
session = create keystore drawn twelve "secret" plain_options 1000 ∷ lock_now ∷ []

abbrev StateLocked : VaultState → Type 0
StateLocked uninitialized = Unit {0}
StateLocked locked = Unit {0}
StateLocked unlocked = ⊥

session_locked : (run_calls blind session (open_vault none none)).vault.state ≡ locked
unfolding run_calls lock open_vault set_unlocked costs_in_range resolve_kdf_params
session_locked = refl

run_calls-IsGuarded_example : IsBare (run_calls blind session (open_vault none none)).vault
run_calls-IsGuarded_example =
    run_calls-IsGuarded blind none none session (λ e. subst StateLocked (sym session_locked ∙ e) tt)

no_vault : (unlock blind "secret" 1000 (open_vault none none)).0 ≡ err not_initialized
unfolding unlock read_vault_file open_vault
no_vault = refl

perform-IsAtomic_example :
    (perform blind (unlock_by_password "secret" 1000) (open_vault none none)).1
    ≡ open_vault none none
perform-IsAtomic_example =
    perform-IsAtomic blind (unlock_by_password "secret" 1000) (open_vault none none) not_initialized
      refl (unfold perform in no_vault)
