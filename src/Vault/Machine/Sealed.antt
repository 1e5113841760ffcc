-- ===== src/Vault/Machine/Sealed.antt =====
-- What a stored vault opens with: the password's slot, the wrapped key and the sealed payload.
use cemp_mobile.Prelude.{
  ℕ, ◌+◌, ◌*◌, ◌≤◌, ◌≡◌, refl, sym, subst, ap, Option, none, some, Result, ok, String, length, min,
  arith, All,
}
use cemp_mobile.Prelude.Actions.{or_raise, lift, and_then}
use cemp_mobile.Vault.Errors.{VaultError, not_initialized}
use cemp_mobile.Vault.File.{Bytes, VaultFileV1, payload_aad, serialize_vault_file}
use cemp_mobile.Vault.File.Parse.{parse_vault_file}
use cemp_mobile.Vault.Payload.{VaultSecretPayload, decode_secret_payload}
use cemp_mobile.Vault.Machine.{
  unlocked, World, Crypto, clamp_auto_lock_seconds, password_wrap_aad, set_unlocked, on_vault,
  read_vault_file, decrypt_payload_bytes, decrypt_payload, unwrap_vek,
}
use cemp_mobile.Core.Bytes.{IsByte}
use cemp_mobile.Vault.File.{vault_file_max_bytes, file_to_wire}
use cemp_mobile.Vault.File.RoundTrip.{IsVaultFile, parse_vault_file-serialize_vault_file}
use cemp_mobile.Vault.File.Accepts.{parse_vault_file-IsVaultFile}
use cemp_mobile.Vault.Machine.Access.{unlock}

-- AES-256-GCM as documented: what was sealed is opened with the same key, nonce and associated data,
-- the tag has 16 bytes, and what goes in and out is bytes.
pub record CipherLaws (crypto : Crypto) : Type 0 where
  pub opens :
      (key nonce plaintext aad : Bytes)
      → crypto.decrypt key nonce (crypto.encrypt key nonce plaintext aad) aad ≡ some plaintext
  pub grows :
      (key nonce plaintext aad : Bytes)
      → length (crypto.encrypt key nonce plaintext aad) ≡ length plaintext + 16
  pub bytes :
      (key nonce plaintext aad : Bytes)
      → All IsByte plaintext
      → All IsByte (crypto.encrypt key nonce plaintext aad)
  pub opened_length :
      (key nonce ct aad plaintext : Bytes)
      → crypto.decrypt key nonce ct aad ≡ some plaintext
      → length ct ≡ length plaintext + 16
  pub opened_bytes :
      (key nonce ct aad plaintext : Bytes)
      → All IsByte ct
      → crypto.decrypt key nonce ct aad ≡ some plaintext
      → All IsByte plaintext

-- JSON.parse reads back the text that JSON.stringify printed of this file, which is not too long.
pub record IsPrinted (crypto : Crypto) (file : VaultFileV1) : Type 0 where
  pub read_back : crypto.parse (crypto.stringify (file_to_wire file)) ≡ some (file_to_wire file)
  pub small : length (serialize_vault_file crypto.stringify file) ≤ vault_file_max_bytes

-- A file whose payload opens under `vek` to the bytes of `payload`.
pub record IsLocked (crypto : Crypto) (file : VaultFileV1) (vek plaintext : Bytes)
    (payload : VaultSecretPayload) : Type 0 where
  pub opened :
      crypto.decrypt vek file.payload.nonce file.payload.ct
        (payload_aad crypto.stringify file.header)
      ≡ some plaintext
  pub decoded : decode_secret_payload plaintext ≡ ok payload

-- ... and whose password slot unwraps to `vek` by `password`.
pub record IsWrapped (crypto : Crypto) (file : VaultFileV1) (password : String) (vek : Bytes)
    : Type 0 where
  pub unwrapped :
      crypto.decrypt
        (crypto.derive_kek password file.header.kdf)
        file.header.password_slot.nonce
        file.header.password_slot.wrapped_vek
        password_wrap_aad
      ≡ some vek

-- The vault's storage holds this file.
abbrev pub IsStored : Crypto → World → VaultFileV1 → Type 0
IsStored crypto w file = (read_vault_file crypto w) ≡ (ok file, w)

read-IsStored :
    (crypto : Crypto) (w : World) (bytes : Bytes) (file : VaultFileV1)
    → w.vault_file ≡ some bytes
    → parse_vault_file crypto.parse bytes ≡ ok file
    → IsStored crypto w file
unfolding read_vault_file
read-IsStored crypto w bytes file h k = rw (h, k) refl

-- A stored file is well formed.
pub stored-IsVaultFile :
    (crypto : Crypto) (w : World) (file : VaultFileV1) → IsStored crypto w file → IsVaultFile file
unfolding read_vault_file
stored-IsVaultFile crypto w file h = split w.vault_file (ap (λ r. r.0) h)
  where
    split :
        (found : Option Bytes)
        → (and_then
            (λ bytes. lift (parse_vault_file crypto.parse bytes))
            (or_raise found not_initialized w)).0
          ≡ ok file
        → IsVaultFile file
    split none e = absurd (cc e)
    split (some bytes) e = (parse_vault_file-IsVaultFile crypto.parse bytes file e).1

-- A written file is the file that is stored.
pub write_file-IsStored :
    (crypto : Crypto) (w : World) (file : VaultFileV1)
    → IsVaultFile file
    → IsPrinted crypto file
    → w.vault_file ≡ some (serialize_vault_file crypto.stringify file)
    → IsStored crypto w file
write_file-IsStored crypto w file is printed h =
    read-IsStored crypto w (serialize_vault_file crypto.stringify file) file h (
      parse_vault_file-serialize_vault_file crypto.stringify crypto.parse file is printed.small
        printed.read_back)

module _ (crypto : Crypto) where
  unlock_stored :
      (w : World) (file : VaultFileV1) (password : String) (vek plaintext : Bytes)
      (payload : VaultSecretPayload) (now : ℕ)
      → IsStored crypto w file
      → IsWrapped crypto file password vek
      → IsLocked crypto file vek plaintext payload
      → unlock crypto password now w ≡ (
        ok tt,
        on_vault
            (set_unlocked vek payload.seed
              (clamp_auto_lock_seconds file.meta.auto_lock_seconds)
              now)
            w,
      )
  unfolding unlock unwrap_vek decrypt_payload decrypt_payload_bytes
  unlock_stored w file password vek plaintext payload now stored wrapped inside =
      rw (stored, wrapped.unwrapped, inside.opened, inside.decoded) refl

-- An unlock that returned: the vault is unlocked with this key and this seed, nothing else of the
-- world has changed but the vault, and the timer is at most an hour from `now`.
pub record IsOpened (vek seed : Bytes) (now : ℕ) (before : World)
    (r : Result VaultError (Unit {0}) × World) : Type 0 where
  pub returned : r.0 ≡ ok tt
  pub state : r.1.vault.state ≡ unlocked
  pub has_vek : r.1.vault.vek ≡ some vek
  pub has_seed : r.1.vault.seed ≡ some seed
  pub deadline : (at : ℕ) × (r.1.vault.deadline_ms ≡ some at) × (at ≤ now + 3600000)
  pub same_file : r.1.vault_file ≡ before.vault_file

pub set_unlocked-IsOpened :
    (vek seed : Bytes) (seconds now : ℕ) (w : World)
    → IsOpened vek seed now w
        (ok tt, on_vault (set_unlocked vek seed (clamp_auto_lock_seconds seconds) now) w)
unfolding set_unlocked clamp_auto_lock_seconds
set_unlocked-IsOpened vek seed seconds now w = record {
  returned = refl;
  state = refl;
  has_vek = refl;
  has_seed = refl;
  deadline = (now + min seconds 3600 * 1000, refl, omega arith);
  same_file = refl;
}

pub unlock-IsOpened :
    (crypto : Crypto) (w : World) (file : VaultFileV1) (password : String) (vek plaintext : Bytes)
    (payload : VaultSecretPayload) (now : ℕ)
    → IsStored crypto w file
    → IsWrapped crypto file password vek
    → IsLocked crypto file vek plaintext payload
    → IsOpened vek payload.seed now w (unlock crypto password now w)
unlock-IsOpened crypto w file password vek plaintext payload now stored wrapped inside =
    subst (IsOpened vek payload.seed now w)
      (sym (unlock_stored crypto w file password vek plaintext payload now stored wrapped inside))
      (set_unlocked-IsOpened vek payload.seed file.meta.auto_lock_seconds now w)
