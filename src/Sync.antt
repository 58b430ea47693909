-- ===== src/Sync.antt =====
-- The locks of kernel/src/sync.
pub mod Mutex
