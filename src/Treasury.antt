-- ===== src/Treasury.antt =====
-- programs/vow/src/instructions/treasury/: the yield balance of an identity.
pub mod Deposit
pub mod Withdraw
pub mod Spend
