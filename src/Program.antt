-- ===== src/Program.antt =====
-- The accounts of the deployed program, and its entry points (programs/vow/src/lib.rs).
pub mod World
pub mod Process
pub mod Steps
pub mod Run
pub mod Frame
pub mod Ledger
pub mod Sessions
pub mod Governance
pub mod Revocation
pub mod Invalidation
