-- ===== src/Identity.antt =====
-- Acquire/Identity: the access control rules, and login sessions.
pub mod AclRule
pub mod Identifiers
pub mod AclRules
pub mod LoginSession
mod Tests
