-- ===== src/Ckb.antt =====
-- packages/cemp-ckb: rate limits, broadcast monitoring and incoming cells.
pub mod RateLimit
pub mod SpentMessage
pub mod Discovery
pub mod Monitor
pub mod Lifecycle
