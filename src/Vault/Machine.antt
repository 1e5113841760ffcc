-- ===== src/Vault/Machine.antt =====
-- packages/cemp-secure-vault/src/vault.ts: the vault's state, its storage and its small operations.
-- The ciphers, the mnemonic library, JSON and the platform's keystore are parameters. A buffer that is
-- wiped is a buffer that is gone.
pub mod Creation
pub mod Access
pub mod Slots
pub mod Calls
pub mod Keeps
pub mod Guarding
pub mod Guarded
pub mod Atomic
pub mod Sealed
pub mod Reopened
pub mod Rewrapped
pub mod Biometrics
pub mod Examples
use cemp_mobile.Prelude.{
  ℕ, ◌+◌, ◌*◌, ◌≡◌, Bool, true, false, not, ◌&&◌, ◌||◌, List, [], ◌∷◌, Option, none, some, Result,
  ok, err, String, if◌then◌else◌, min,
}
use cemp_mobile.Prelude.Actions.{
  Action, pure, raise, gets, or_raise, lift, modify, raise_if, ◌>>=◌, ◌>>◌,
}
use cemp_mobile.Vault.Errors.{VaultError, not_initialized, corrupt_vault, null_key}
use cemp_mobile.Vault.Kdf.{KdfParams}
use cemp_mobile.Vault.Json.{Json}
use cemp_mobile.Vault.File.{Bytes, Header, VaultFileV1, VaultWordCount, payload_aad}
use cemp_mobile.Vault.File.Parse.{parse_vault_file}
use cemp_mobile.Vault.Payload.{VaultSecretPayload, PayloadError, decode_secret_payload}

pub data VaultState : Type 0 where
  uninitialized locked unlocked : VaultState

-- The fields of SecureVaultImpl. `timer` is when the pending timeout is due, in milliseconds.
pub record Vault : Type 0 where
  pub state : VaultState
  pub vek : Option Bytes
  pub seed : Option Bytes
  pub db_key : Option Bytes
  pub auto_lock_seconds : ℕ
  pub timer : Option ℕ
  pub deadline_ms : Option ℕ

-- The vault, and the objects "cemp.vault.json" and "cemp.dbkey" of its storage.
pub record World : Type 0 where
  pub vault : Vault
  pub vault_file : Option Bytes
  pub database_key : Option Bytes

-- @cemp/crypto on top of its third-party primitives, the password's key derivation, and JSON. A
-- phrase is its list of words; `none` is a throw.
pub record Crypto : Type 0 where
  pub encrypt : Bytes → Bytes → Bytes → Bytes → Bytes
  pub decrypt : Bytes → Bytes → Bytes → Bytes → Option Bytes
  pub derive_kek : String → KdfParams → Bytes
  pub derive_local_database_key : Bytes → Bytes
  pub validate_mnemonic : List String → Bool
  pub mnemonic_to_entropy : List String → Option Bytes
  pub entropy_to_mnemonic : Bytes → List String
  pub mnemonic_to_seed : List String → Option String → Bytes
  pub stringify : Json → Bytes
  pub parse : Bytes → Option Json

-- PlatformKeyStore as it answers during one call; `wrap` takes the option `biometric`.
pub record PlatformKeyStore : Type 0 where
  pub is_biometric_available : Bool
  pub wrap : Bool → Bytes → Option Bytes
  pub unwrap : Bytes → Option Bytes
  pub delete_key : Bool

abbrev pub VaultAction : Type 0 → Type 0
VaultAction A = Action World VaultError A

abbrev pub default_auto_lock_seconds : ℕ
default_auto_lock_seconds = 300

abbrev pub max_auto_lock_seconds : ℕ
max_auto_lock_seconds = 3600

unfoldable pub clamp_auto_lock_seconds : ℕ → ℕ
clamp_auto_lock_seconds seconds = min seconds max_auto_lock_seconds

-- "CEMP/VAULT/wrap/password/v1"
abbrev pub password_wrap_aad : Bytes
password_wrap_aad =
    b'C' ∷ b'E' ∷ b'M' ∷ b'P' ∷ b'/' ∷ b'V' ∷ b'A' ∷ b'U' ∷ b'L' ∷ b'T' ∷ b'/' ∷ b'w' ∷ b'r' ∷ b'a'
    ∷ b'p' ∷ b'/' ∷ b'p' ∷ b'a' ∷ b's' ∷ b's' ∷ b'w' ∷ b'o' ∷ b'r' ∷ b'd' ∷ b'/' ∷ b'v' ∷ b'1' ∷ []

abbrev pub is_some {ℓ} : {A : Type ℓ} → Option A → Bool
is_some none = false
is_some (some a) = true

abbrev pub is_unlocked : VaultState → Bool
is_unlocked uninitialized = false
is_unlocked locked = false
is_unlocked unlocked = true

abbrev pub is_uninitialized : VaultState → Bool
is_uninitialized uninitialized = true
is_uninitialized locked = false
is_uninitialized unlocked = false

-- SecureVaultImpl.open over existing storage.
unfoldable pub open_vault : Option Bytes → Option Bytes → World
open_vault vault_file database_key = record {
  vault = record {
    state = if is_some vault_file then locked else uninitialized;
    vek = none;
    seed = none;
    db_key = none;
    auto_lock_seconds = default_auto_lock_seconds;
    timer = none;
    deadline_ms = none;
  };
  vault_file = vault_file;
  database_key = database_key;
}

unfoldable pub clear_live_state : Vault → Vault
clear_live_state v = record v { vek = none; seed = none; db_key = none }

unfoldable pub clear_auto_lock_timer : Vault → Vault
clear_auto_lock_timer v = record v { timer = none; deadline_ms = none }

-- `now` is the clock's time.
unfoldable pub start_auto_lock_timer : ℕ → Vault → Vault
unfolding clear_auto_lock_timer
start_auto_lock_timer now v = record (clear_auto_lock_timer v) {
  timer = some (now + v.auto_lock_seconds * 1000);
  deadline_ms = some (now + v.auto_lock_seconds * 1000);
}

unfoldable pub set_unlocked : Bytes → Bytes → ℕ → ℕ → Vault → Vault
unfolding clear_live_state start_auto_lock_timer
set_unlocked vek seed seconds now v = start_auto_lock_timer now (record (clear_live_state v) {
  vek = some vek;
  seed = some seed;
  auto_lock_seconds = seconds;
  state = unlocked;
})

abbrev pub on_vault : (Vault → Vault) → World → World
on_vault f w = record w { vault = f w.vault }

-- The three states of `#assertUnlocked`.
abbrev pub unlocked_or_throws : VaultState → Result VaultError (Unit {0})
unlocked_or_throws uninitialized = err not_initialized
unlocked_or_throws locked = err VaultError.locked
unlocked_or_throws unlocked = ok tt

unfoldable pub assert_unlocked : VaultAction (Unit {0})
assert_unlocked w = (unlocked_or_throws w.vault.state, w)

unfoldable pub require_vek : VaultAction Bytes
unfolding assert_unlocked
require_vek = do assert_unlocked; vek ← gets (λ w. w.vault.vek); or_raise vek null_key

unfoldable pub require_seed : VaultAction Bytes
unfolding assert_unlocked
require_seed = do assert_unlocked; seed ← gets (λ w. w.vault.seed); or_raise seed null_key

abbrev pub lock_state : VaultState → VaultState
lock_state uninitialized = uninitialized
lock_state locked = locked
lock_state unlocked = locked

unfoldable pub lock : World → World
unfolding clear_live_state clear_auto_lock_timer
lock w =
    on_vault
      (λ v. record (clear_live_state (clear_auto_lock_timer v)) { state = lock_state v.state }) w

unfoldable pub touch : ℕ → World → World
unfolding start_auto_lock_timer
touch now w = if is_unlocked w.vault.state then on_vault (start_auto_lock_timer now) w else w

-- VaultError "corrupt-vault" for each check of the payload's codec.
abbrev pub or_corrupt {ℓ} : {A : Type ℓ} → Result PayloadError A → Result VaultError A
or_corrupt (ok a) = ok a
or_corrupt (err e) = err corrupt_vault

abbrev pub found_or {ℓ} : {A : Type ℓ} → VaultError → Option A → Result VaultError A
found_or code none = err code
found_or code (some a) = ok a

module _ (crypto : Crypto) where
  unfoldable pub read_vault_file : VaultAction VaultFileV1
  unfolding parse_vault_file
  read_vault_file = do
    found ← gets (λ w. w.vault_file)
    bytes ← or_raise found not_initialized
    lift (parse_vault_file crypto.parse bytes)

  -- `#decryptPayloadBytes`, whose failure has the caller's code.
  unfoldable pub decrypt_payload_bytes : VaultFileV1 → Bytes → VaultError → VaultAction Bytes
  unfolding payload_aad
  decrypt_payload_bytes file vek code =
      or_raise
        (crypto.decrypt vek file.payload.nonce file.payload.ct
          (payload_aad crypto.stringify file.header))
        code

  unfoldable pub decrypt_payload : VaultFileV1 → Bytes → VaultError → VaultAction VaultSecretPayload
  unfolding decrypt_payload_bytes decode_secret_payload
  decrypt_payload file vek code = do
    plaintext ← decrypt_payload_bytes file vek code
    lift (or_corrupt (decode_secret_payload plaintext))

  -- The unwrap of the VEK by a password, which `unlock`, `revealMnemonic` and `changePassword` begin with.
  unfoldable pub unwrap_vek : String → VaultFileV1 → VaultAction Bytes
  unwrap_vek password file =
      or_raise
        (crypto.decrypt (crypto.derive_kek password file.header.kdf) file.header.password_slot.nonce
          file.header.password_slot.wrapped_vek password_wrap_aad)
        VaultError.wrong_password
