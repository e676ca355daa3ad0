-- ===== src/Pool.antt =====
-- programs/vow/src/instructions/pool/: the permissionless cranks on the stake pool.
pub mod Account
pub mod UpdateSharePrice
pub mod Flush
pub mod Withdraw
