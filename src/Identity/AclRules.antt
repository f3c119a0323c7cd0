-- ===== src/Identity/AclRules.antt =====
-- Acquire/Identity/_aclrules.py: rules for users, rules for groups, and lists of rules with an
-- operation that combines them. `Build` constructs them and `Resolve` evaluates them.
mod Defs
pub mod Build
pub mod Resolve
unfoldable pub use Defs.*
