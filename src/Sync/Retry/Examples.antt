-- ===== src/Sync/Retry/Examples.antt =====
-- The delay of the third attempt.
