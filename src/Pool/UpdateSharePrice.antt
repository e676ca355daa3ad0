-- ===== src/Pool/UpdateSharePrice.antt =====
-- programs/vow/src/instructions/pool/update_share_price.rs
use vow_protocol.Prelude.{ℕ, ltb, leb, List, ◌∷◌, ◌==◌, length, if◌then◌else◌}
use vow_protocol.Prelude.Machine.{checked_mul, checked_div, u128_max}
use vow_protocol.State.Errors.{
  Result, ok, vow, stake_account_mismatch, invalid_stake_account, share_price_overflow, ok_or,
  unwrap_or, require, require_keys_eq, ◌>>=◌, ◌>>◌,
}
use vow_protocol.State.Accounts.{Pubkey, ProtocolConfig, default_key, share_precision}
use vow_protocol.State.Events.{Event, share_price_updated}
use vow_protocol.Pool.Account.{total_lamports_of, pool_token_supply_of}

-- `x.max(1)`
abbrev pub max_one : ℕ → ℕ
max_one x = if ltb x 1 then 1 else x

-- totalLamports * SHARE_PRECISION / poolTokenSupply, at least 1; no supply keeps the price.
unfoldable pub pool_price : ℕ → ℕ → ℕ → Result ℕ
pool_price old_price total_lamports pool_token_supply =
    if pool_token_supply == 0 then ok old_price else do
      product ←
          ok_or (checked_mul u128_max total_lamports share_precision) (vow share_price_overflow)
      ok (max_one (unwrap_or (checked_div product pool_token_supply) 1))

-- `pool_key` and `pool_bytes` are the address and the contents of the account `spl_pool`.
unfoldable pub update_share_price :
    Pubkey → List ℕ → ProtocolConfig → List Event → Result (ProtocolConfig × List Event)
unfolding pool_price
update_share_price pool_key pool_bytes config log = do
  require_keys_eq pool_key config.spl_stake_pool stake_account_mismatch
  if config.spl_stake_pool == default_key then ok (config, log) else do
    require (leb 275 (length pool_bytes)) invalid_stake_account
    let total_lamports = total_lamports_of pool_bytes
    price ← pool_price config.current_share_price total_lamports (pool_token_supply_of pool_bytes)
    ok (
      record config { current_share_price = price; last_pool_lamports = total_lamports },
      share_price_updated config.current_share_price price total_lamports config.total_shares ∷ log,
    )
