-- ===== src/Core.antt =====
-- packages/cemp-core: the wire format's helpers, its validation, and profile trust.
pub mod Bytes
pub mod Codec
pub mod Validate
pub mod ProfileTrust
