-- ===== src/Pool/Flush.antt =====
-- programs/vow/src/instructions/pool/flush_reserve_to_pool.rs
pub mod Drained
use vow_protocol.Prelude.{
  ℕ, ◌-◌, leb, List, [], ◌∷◌, ◌==◌, length, true, false, Option, if◌then◌else◌,
}
use vow_protocol.Prelude.Bytes.{le_bytes}
use vow_protocol.State.Errors.{
  Result, ok, stake_account_mismatch, invalid_stake_account, call_failed, ok_or, require,
  require_keys_eq, ◌>>◌,
}
use vow_protocol.State.Accounts.{Pubkey, ProtocolConfig, default_key}
use vow_protocol.State.Runtime.{Runtime, reserve_pda}
use vow_protocol.Pool.Account.{new, new_readonly, PoolInstruction, reserve_stake_of, manager_fee_of}

-- The accounts that the transaction passes, and what the chain says of the stake pool program:
-- its address (SPL_STAKE_POOL_PROGRAM_ID), the addresses that it derives, and a call of it.
pub record PoolCall (B : Type 0) : Type 0 where
  pub reserve_pool_tokens : Pubkey
  -- The balance of `reserve_pool_tokens`.
  pub reserve_pool_amount : ℕ
  pub spl_pool : Pubkey
  pub pool_bytes : List ℕ
  pub pool_withdraw_authority : Pubkey
  pub pool_reserve_stake : Pubkey
  pub pool_manager_fee_account : Pubkey
  pub pool_referral_fee_account : Pubkey
  pub pool_mint : Pubkey
  pub stake_pool_program : Pubkey
  pub clock_key : Pubkey
  pub stake_history : Pubkey
  pub stake_program : Pubkey
  pub token_program : Pubkey
  pub system_program : Pubkey
  pub stake_pool_program_id : Pubkey
  -- The PDA of [pool, b"withdraw"] under the stake pool program.
  pub withdraw_authority_of : Pubkey → Pubkey
  -- `Rent::get()?.minimum_balance(0)`
  pub rent_exempt : ℕ
  -- `invoke_signed`, with the reserve as signer.
  pub invoke : PoolInstruction → B → Option B

module _ {B : Type 0} where
  -- The checks of the pool's accounts that both cranks make once the pool's bytes are long enough.
  unfoldable pub check_pool : PoolCall B → Result (Unit {0})
  check_pool c = do
    require_keys_eq c.pool_reserve_stake (reserve_stake_of c.pool_bytes) stake_account_mismatch
    require_keys_eq c.pool_manager_fee_account (manager_fee_of c.pool_bytes) stake_account_mismatch
    require_keys_eq c.pool_withdraw_authority (c.withdraw_authority_of c.spl_pool)
        stake_account_mismatch

  -- DepositSol: tag 14, then the lamports.
  unfoldable pub deposit_sol : PoolCall B → Pubkey → ℕ → PoolInstruction
  deposit_sol c reserve deposit_amount = record {
    program_id = c.stake_pool_program_id;
    accounts =
        new c.spl_pool false
        ∷ new_readonly c.pool_withdraw_authority false
        ∷ new c.pool_reserve_stake false
        ∷ new reserve true
        ∷ new c.reserve_pool_tokens false
        ∷ new c.pool_manager_fee_account false
        ∷ new c.pool_referral_fee_account false
        ∷ new c.pool_mint false
        ∷ new_readonly c.system_program false
        ∷ new_readonly c.token_program false
        ∷ [];
    data_bytes = 14 ∷ le_bytes 8 deposit_amount;
  }

module _ {B : Type 0} (rt : Runtime B) where
  unfoldable pub flush_reserve_to_pool : PoolCall B → ProtocolConfig → B → Result B
  unfolding check_pool
  flush_reserve_to_pool c config bank = do
    require_keys_eq c.spl_pool config.spl_stake_pool stake_account_mismatch
    require_keys_eq c.pool_mint config.spl_pool_mint stake_account_mismatch
    if config.spl_stake_pool == default_key then ok bank else do
      require_keys_eq c.stake_pool_program c.stake_pool_program_id stake_account_mismatch
      require (leb 227 (length c.pool_bytes)) invalid_stake_account
      check_pool c
      let reserve = (reserve_pda rt).0
      let reserve_lamports = rt.lamports bank reserve
      if leb reserve_lamports c.rent_exempt
          then ok bank
          else ok_or (c.invoke (deposit_sol c reserve (reserve_lamports - c.rent_exempt)) bank)
              call_failed
