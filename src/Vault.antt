-- ===== src/Vault.antt =====
-- packages/cemp-secure-vault/src: the vault file and the vault's life cycle.
pub mod Errors
pub mod Kdf
pub mod Json
pub mod Payload
pub mod File
pub mod Machine
