-- ===== src/Requests/Dtos.antt =====
-- The request classes of each module.
pub mod Paging
pub mod Tasks
pub mod Meetings
pub mod Organizing
pub mod Records
pub mod Uploads
pub mod Activity
pub mod Sync
