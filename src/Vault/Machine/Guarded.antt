-- ===== src/Vault/Machine/Guarded.antt =====
-- Keys and a running timer only while the vault is unlocked.
use cemp_mobile.Prelude.{refl, List, [], ◌∷◌, Option, ◌≢◌}
use cemp_mobile.Vault.File.{Bytes}
use cemp_mobile.Vault.Machine.{unlocked, World, Crypto, open_vault}
use cemp_mobile.Vault.Machine.Keeps.{Keeps, chain}
use cemp_mobile.Vault.Machine.Guarding.{
  IsBare, IsGuarded, unlock-keeps, unlock_with_biometrics-keeps, reveal_mnemonic-keeps,
  unwrap_database_key-keeps, get_metadata-keeps, create-keeps, import-keeps, change_password-keeps,
  enable-keeps, disable-keeps, get_database_key-keeps, lock-IsGuarded, touch-keeps, wipe-IsGuarded,
  due-keeps,
}
use cemp_mobile.Vault.Machine.Creation.{create_with_new_mnemonic}
use cemp_mobile.Vault.Machine.Access.{
  reveal_mnemonic, get_metadata, get_database_key, unwrap_database_key,
}
use cemp_mobile.Vault.Machine.Calls.{
  Call, create, import_words, unlock_by_password, unlock_by_biometrics, lock_now, touched,
  timed_out, reveal, change, enable, disable, database_key_used, metadata_read,
  database_key_unwrapped, wiped, is_due, perform, run_calls,
}

perform-keeps : (crypto : Crypto) (call : Call) → Keeps IsGuarded (perform crypto call)
unfolding perform
perform-keeps crypto (create keystore fresh count password opts now) =
    chain IsGuarded (create_with_new_mnemonic crypto keystore fresh count password opts now) _
      (create-keeps crypto keystore fresh count password opts now) λ _ w h. h
perform-keeps crypto (import_words keystore fresh phrase password passphrase opts now) =
    import-keeps crypto keystore fresh phrase password passphrase opts now
perform-keeps crypto (unlock_by_password password now) = unlock-keeps crypto password now
perform-keeps crypto (unlock_by_biometrics keystore now) =
    unlock_with_biometrics-keeps crypto keystore now
perform-keeps crypto lock_now = λ w _. lock-IsGuarded w
perform-keeps crypto (touched now) = touch-keeps now
perform-keeps crypto (timed_out now) = λ w. due-keeps (is_due now w.vault.timer) w
perform-keeps crypto (reveal password) =
    chain IsGuarded (reveal_mnemonic crypto password) _
      (reveal_mnemonic-keeps crypto IsGuarded password) λ _ w h. h
perform-keeps crypto (change old new salt slot_nonce payload_nonce) =
    change_password-keeps crypto old new salt slot_nonce payload_nonce
perform-keeps crypto (enable keystore payload_nonce) = enable-keeps crypto keystore payload_nonce
perform-keeps crypto (disable payload_nonce) = disable-keeps crypto payload_nonce
perform-keeps crypto database_key_used =
    chain IsGuarded (get_database_key crypto) _ (get_database_key-keeps crypto) λ _ w h. h
perform-keeps crypto metadata_read =
    chain IsGuarded (get_metadata crypto) _ (get_metadata-keeps crypto IsGuarded) λ _ w h. h
perform-keeps crypto (database_key_unwrapped keystore) =
    chain IsGuarded (unwrap_database_key keystore) _
      (unwrap_database_key-keeps crypto IsGuarded keystore) λ _ w h. h
perform-keeps crypto (wiped keystore) = λ w _. wipe-IsGuarded keystore w

calls-keep :
    (crypto : Crypto) (calls : List Call) (w : World)
    → IsGuarded w
    → IsGuarded (run_calls crypto calls w)
unfolding run_calls
calls-keep crypto [] w h = h
calls-keep crypto (call ∷ calls) w h =
    calls-keep crypto calls (perform crypto call w).1 (perform-keeps crypto call w h)

-- A vault that is not unlocked holds no key and no timer: over any storage, after any history of
-- creations, imports, unlocks, locks, timeouts, password changes, biometric changes, reads and wipes,
-- each of which may have thrown at any of its checks, the VEK, the seed, the database key, the
-- timer and its deadline are all gone unless the state is "unlocked".
pub run_calls-IsGuarded :
    (crypto : Crypto) (vault_file database_key : Option Bytes) (calls : List Call)
    → (run_calls crypto calls (open_vault vault_file database_key)).vault.state ≢ unlocked
    → IsBare (run_calls crypto calls (open_vault vault_file database_key)).vault
run_calls-IsGuarded crypto vault_file database_key calls =
    calls-keep crypto calls (open_vault vault_file database_key) λ _.
      unfold open_vault in
      record {
        no_vek = refl;
        no_seed = refl;
        no_db_key = refl;
        no_timer = refl;
        no_deadline = refl;
      }
