-- ===== src/Sync.antt =====
-- packages/cemp-sync/src: choosing an endpoint, spacing retries, and running workers under leases.
pub mod Endpoints
pub mod Retry
pub mod Engine
