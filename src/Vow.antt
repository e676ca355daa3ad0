-- ===== src/Vow.antt =====
-- programs/vow/src/instructions/vow/: the life of an identity. Each handler takes the signer `owner`.
pub mod Mint
pub mod AddStake
pub mod BeginUnstake
pub mod CompleteUnstake
pub mod ActivateStake
pub mod UpdateYieldMode
pub mod Unstake
pub mod Exactly
