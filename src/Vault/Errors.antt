-- ===== src/Vault/Errors.antt =====
-- packages/cemp-secure-vault/src/errors.ts: the codes of VaultError. A message and a cause are left out.
-- `null_key` is no code: it is the TypeError of a call that is given a key field which is null.
pub data VaultError : Type 0 where
  wrong_password locked not_initialized already_initialized corrupt_vault invalid_mnemonic :
      VaultError
  biometric_unavailable biometric_denied kdf_params_out_of_range keystore_error null_key :
      VaultError
