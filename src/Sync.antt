-- ===== src/Sync.antt =====
-- modules/sync: the registry of replicated tables, and the pull and push of SyncService.
pub mod Schema
pub mod Registry
pub mod Pull
pub mod Push
pub mod Status
