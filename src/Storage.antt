-- ===== src/Storage.antt =====
-- Acquire/Storage: what the storage service tells of its drives.
pub mod DriveMeta
