-- ===== src/Admin/Initialize.antt =====
-- programs/vow/src/instructions/admin/initialize.rs
use vow_protocol.Prelude.{ℕ, ltb, leb, List, ◌∷◌, ◌==◌, ◌&&◌, not, length, if◌then◌else◌, Option}
use vow_protocol.Prelude.Machine.{checked_mul, checked_div, u128_max}
use vow_protocol.State.Errors.{Result, ok, vow, share_price_overflow, ok_or, unwrap_or, ◌>>=◌, ◌>>◌}
use vow_protocol.State.Accounts.{Pubkey, ProtocolConfig, default_key, share_precision}
use vow_protocol.State.Events.{Event, protocol_initialized}
use vow_protocol.State.Runtime.{Runtime, reserve_pda, config_pda}
use vow_protocol.Pool.Account.{total_lamports_of, pool_token_supply_of}
use vow_protocol.Vow.BeginUnstake.{init}

-- The opening share price and `last_pool_lamports`: the pool's rate where it can be read, else 1 lamport for a share.
unfoldable pub opening_price : Pubkey → Pubkey → List ℕ → Result (ℕ × ℕ)
opening_price spl_stake_pool pool_key pool_bytes =
    let total_lamports = total_lamports_of pool_bytes in
    let pool_token_supply = pool_token_supply_of pool_bytes in
    let has_rate =
      not (spl_stake_pool == default_key)
      && (pool_key == spl_stake_pool)
      && leb 275 (length pool_bytes)
      && ltb 0 total_lamports
      && ltb 0 pool_token_supply in
    if not has_rate then ok (share_precision, 0) else do
      product ←
          ok_or (checked_mul u128_max total_lamports share_precision) (vow share_price_overflow)
      ok (unwrap_or (checked_div product pool_token_supply) share_precision, total_lamports)

module _ {B : Type 0} (rt : Runtime B) where
  -- `old` is the account at the config's PDA, which must not exist.
  unfoldable pub initialize :
      Pubkey
      → Pubkey
      → Pubkey
      → Pubkey
      → List ℕ
      → Option ProtocolConfig
      → List Event
      → Result (ProtocolConfig × List Event)
  unfolding opening_price
  initialize admin spl_stake_pool spl_pool_mint pool_key pool_bytes old log = do
    init old
    (price, pool_lamports) ← opening_price spl_stake_pool pool_key pool_bytes
    ok (
      record {
        admin = admin;
        current_share_price = price;
        total_shares = 0;
        total_yield_claims = 0;
        last_pool_lamports = pool_lamports;
        total_minted = 0;
        merkle_tree = default_key;
        total_pending_unstake = 0;
        spl_stake_pool = spl_stake_pool;
        spl_pool_mint = spl_pool_mint;
        reserve_bump = (reserve_pda rt).1;
        bump = (config_pda rt).1;
      },
      protocol_initialized admin default_key ∷ log,
    )
