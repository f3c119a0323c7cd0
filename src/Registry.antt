-- ===== src/Registry.antt =====
-- Acquire/Registry/_registry.py: the registry that gives the services of the system their UIDs.
pub mod Uids
pub mod Urls
pub mod Services
