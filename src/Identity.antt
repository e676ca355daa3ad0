-- ===== src/Identity.antt =====
-- What the life of an identity guarantees, whatever the transactions.
pub mod Soulbound
pub mod Lock
pub mod Unlock
pub mod Lifecycle
pub mod Permanence
pub mod Tier
pub mod Strangers
pub mod Untouched
pub mod Spec
