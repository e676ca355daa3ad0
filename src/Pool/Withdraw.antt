-- ===== src/Pool/Withdraw.antt =====
-- programs/vow/src/instructions/pool/withdraw_from_pool.rs
pub mod Ceiling
use vow_protocol.Prelude.{
  ℕ, ◌-◌, ltb, leb, List, [], ◌∷◌, ◌==◌, ◌&&◌, length, true, false, Option, if◌then◌else◌, min,
}
use vow_protocol.Prelude.Bytes.{le_bytes}
use vow_protocol.Prelude.Machine.{
  checked_mul, checked_add, checked_div, saturating_sub, u128_max, as_u64,
}
use vow_protocol.State.Errors.{
  Result, ok, vow, stake_account_mismatch, invalid_stake_account, reserve_sufficient, empty_reserve,
  math_overflow, call_failed, ok_or, require, require_keys_eq, ◌>>=◌, ◌>>◌,
}
use vow_protocol.State.Accounts.{Pubkey, ProtocolConfig, UnstakeEscrow, default_key}
use vow_protocol.State.Runtime.{Runtime, reserve_pda}
use vow_protocol.Pool.Account.{
  AccountMeta, new, new_readonly, PoolInstruction, total_lamports_of, pool_token_supply_of,
}
use vow_protocol.Pool.Flush.{PoolCall, check_pool}

-- Ceiling division: pool tokens that are worth at least `lamports_needed`.
unfoldable pub tokens_for : ℕ → ℕ → ℕ → Result ℕ
tokens_for lamports_needed pool_token_supply total_lamports = do
  product ← ok_or (checked_mul u128_max lamports_needed pool_token_supply) (vow math_overflow)
  sum ← ok_or (checked_add u128_max product (saturating_sub total_lamports 1)) (vow math_overflow)
  quotient ← ok_or (checked_div sum total_lamports) (vow math_overflow)
  ok (as_u64 quotient)

module _ {B : Type 0} where
  -- WithdrawSol: tag 16, then the pool tokens.
  unfoldable pub withdraw_sol : PoolCall B → Pubkey → ℕ → PoolInstruction
  withdraw_sol c reserve tokens_to_burn = record {
    program_id = c.stake_pool_program_id;
    accounts =
        new c.spl_pool false
        ∷ new_readonly c.pool_withdraw_authority false
        ∷ new_readonly reserve true
        ∷ new c.reserve_pool_tokens false
        ∷ new c.pool_reserve_stake false
        ∷ new reserve false
        ∷ new c.pool_manager_fee_account false
        ∷ new c.pool_mint false
        ∷ new_readonly c.clock_key false
        ∷ new_readonly c.stake_history false
        ∷ new_readonly c.stake_program false
        ∷ new_readonly c.token_program false
        ∷ [];
    data_bytes = 16 ∷ le_bytes 8 tokens_to_burn;
  }

module _ {B : Type 0} (rt : Runtime B) where
  unfoldable pub withdraw_from_pool : PoolCall B → UnstakeEscrow → ProtocolConfig → B → Result B
  unfolding check_pool
  withdraw_from_pool c escrow config bank = do
    require_keys_eq c.spl_pool config.spl_stake_pool stake_account_mismatch
    require_keys_eq c.pool_mint config.spl_pool_mint stake_account_mismatch
    if config.spl_stake_pool == default_key then ok bank else do
      let reserve = (reserve_pda rt).0
      let reserve_lamports = rt.lamports bank reserve
      require (ltb reserve_lamports escrow.lamports_owed) reserve_sufficient
      require_keys_eq c.stake_pool_program c.stake_pool_program_id stake_account_mismatch
      require (leb 275 (length c.pool_bytes)) invalid_stake_account
      let total_lamports = total_lamports_of c.pool_bytes
      let pool_token_supply = pool_token_supply_of c.pool_bytes
      check_pool c
      require (ltb 0 pool_token_supply && ltb 0 total_lamports) empty_reserve
      tokens ← tokens_for (escrow.lamports_owed - reserve_lamports) pool_token_supply total_lamports
      let tokens_to_burn = min tokens c.reserve_pool_amount
      require (ltb 0 tokens_to_burn) empty_reserve
      ok_or (c.invoke (withdraw_sol c reserve tokens_to_burn) bank) call_failed
