-- ===== src/Vow/Mint.antt =====
-- programs/vow/src/instructions/vow/mint.rs
use vow_protocol.Prelude.{ℕ, ltb, ◌==◌, ◌∷◌, List, true, false, none, ◌||◌}
use vow_protocol.Prelude.Int.{pos}
use vow_protocol.Prelude.Machine.{checked_add, u64_max, u128_max}
use vow_protocol.State.Errors.{
  Result, ok, vow, math_overflow, share_price_not_synced, ok_or, or_panic, require, ◌>>=◌, ◌>>◌,
}
use vow_protocol.State.Accounts.{Pubkey, ProtocolConfig, YieldMode, default_key}
use vow_protocol.State.Class.{class_for_stake}
use vow_protocol.State.Events.{Event, vow_minted}
use vow_protocol.State.Runtime.{Clock, Runtime, reserve_pda, get_asset_id_pda, vow_pda}
use vow_protocol.State.Position.{Position, transfer, shares_for, unlock_time}

module _ {B : Type 0} (rt : Runtime B) where
  -- The asset id is the PDA of the mint counter, and the identity's account is created at its PDA.
  unfoldable pub mint :
      Clock → Pubkey → ℕ → YieldMode → ProtocolConfig → B → List Event → Result (Position B)
  mint clock owner stake_lamports yield_mode config bank log = do
    class ← class_for_stake stake_lamports
    require (config.spl_stake_pool == default_key || ltb 0 config.last_pool_lamports)
        share_price_not_synced
    let asset_id = (get_asset_id_pda rt config.total_minted).0
    bank ← transfer rt owner (reserve_pda rt).0 stake_lamports bank
    shares ← shares_for stake_lamports config.current_share_price
    unlock_at ← unlock_time clock class
    total_shares ← ok_or (checked_add u128_max config.total_shares shares) (vow math_overflow)
    total_minted ← or_panic (checked_add u64_max config.total_minted 1)
    ok (record {
      config = record config { total_shares = total_shares; total_minted = total_minted };
      idnft = record {
        asset_id = asset_id;
        owner = owner;
        class = class;
        nonce = config.total_minted;
        principal_lamports = stake_lamports;
        shares = shares;
        last_share_price = config.current_share_price;
        accrued_gain = pos 0;
        yield_mode = yield_mode;
        yield_balance = 0;
        total_harvested = 0;
        created_at = clock.unix_timestamp;
        unlock_at = unlock_at;
        matured = false;
        sessions_invalidated_at = pos 0;
        active_stake = true;
        session_nonce = 0;
        first_staked_at = clock.unix_timestamp;
        current_stake_started_at = clock.unix_timestamp;
        total_commitments = 1;
        total_fulfilled = 0;
        cumulative_stake_days = 0;
        highest_class_ever = class;
        bump = (vow_pda rt asset_id).1;
      };
      escrow = none;
      bank = bank;
      log = vow_minted asset_id owner class stake_lamports shares unlock_at ∷ log;
    })
