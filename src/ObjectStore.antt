-- ===== src/ObjectStore.antt =====
-- Acquire/ObjectStore: the keys of a bucket, and the mutex that is one of them.
pub mod Mutex
pub mod Buckets
