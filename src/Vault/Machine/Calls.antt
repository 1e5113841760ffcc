-- ===== src/Vault/Machine/Calls.antt =====
-- packages/cemp-secure-vault/src/vault.ts: the calls of the interface, and the timeout, as steps. A call
-- ends before the next begins.
use cemp_mobile.Prelude.Actions.{pure, modify, ◌>>=◌}
use cemp_mobile.Prelude.{
  ℕ, Bool, false, List, [], ◌∷◌, Option, none, some, String, if◌then◌else◌, leb,
}
use cemp_mobile.Vault.File.{Bytes, VaultWordCount}
use cemp_mobile.Vault.Machine.{World, Crypto, PlatformKeyStore, VaultAction, lock, touch}
use cemp_mobile.Vault.Machine.Creation.{
  Fresh, CreateVaultOptions, create_with_new_mnemonic, import_mnemonic, wipe,
}
use cemp_mobile.Vault.Machine.Access.{
  unlock, unlock_with_biometrics, reveal_mnemonic, get_metadata, get_database_key,
  unwrap_database_key,
}
use cemp_mobile.Vault.Machine.Slots.{change_password, enable_biometrics, disable_biometrics}

pub data Call : Type 0 where
  create : PlatformKeyStore → Fresh → VaultWordCount → String → CreateVaultOptions → ℕ → Call
  import_words :
      PlatformKeyStore
      → Fresh
      → List String
      → String
      → Option String
      → CreateVaultOptions
      → ℕ
      → Call
  unlock_by_password : String → ℕ → Call
  unlock_by_biometrics : PlatformKeyStore → ℕ → Call
  lock_now : Call
  touched timed_out : ℕ → Call
  reveal : String → Call
  change : String → String → Bytes → Bytes → Bytes → Call
  enable : PlatformKeyStore → Bytes → Call
  disable : Bytes → Call
  database_key_used metadata_read : Call
  database_key_unwrapped : PlatformKeyStore → Call
  wiped : PlatformKeyStore → Call

-- The pending timeout runs `lock` once it is due.
abbrev pub is_due : ℕ → Option ℕ → Bool
is_due now none = false
is_due now (some at) = leb at now

-- A call whose value is not needed.
abbrev pub ignoring : {A : Type 0} → VaultAction A → VaultAction (Unit {0})
ignoring m = m >>= λ _. pure tt

module _ (crypto : Crypto) where
  unfoldable pub perform : Call → VaultAction (Unit {0})
  unfolding create_with_new_mnemonic import_mnemonic unlock unlock_with_biometrics lock touch
      reveal_mnemonic change_password enable_biometrics disable_biometrics get_database_key
      get_metadata unwrap_database_key wipe
  perform (create keystore fresh count password opts now) =
      ignoring (create_with_new_mnemonic crypto keystore fresh count password opts now)
  perform (import_words keystore fresh phrase password passphrase opts now) =
      import_mnemonic crypto keystore fresh phrase password passphrase opts now
  perform (unlock_by_password password now) = unlock crypto password now
  perform (unlock_by_biometrics keystore now) = unlock_with_biometrics crypto keystore now
  perform lock_now = modify lock
  perform (touched now) = modify (touch now)
  perform (timed_out now) = modify (λ w. if is_due now w.vault.timer then lock w else w)
  perform (reveal password) = ignoring (reveal_mnemonic crypto password)
  perform (change old new salt slot_nonce payload_nonce) =
      change_password crypto old new salt slot_nonce payload_nonce
  perform (enable keystore payload_nonce) = enable_biometrics crypto keystore payload_nonce
  perform (disable payload_nonce) = disable_biometrics crypto payload_nonce
  perform database_key_used = ignoring (get_database_key crypto)
  perform metadata_read = ignoring (get_metadata crypto)
  perform (database_key_unwrapped keystore) = ignoring (unwrap_database_key keystore)
  perform (wiped keystore) = wipe keystore

  -- The world after some calls, each of which has returned or thrown.
  unfoldable pub run_calls : List Call → World → World
  unfolding perform
  run_calls [] w = w
  run_calls (call ∷ calls) w = run_calls calls (perform call w).1
