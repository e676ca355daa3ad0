-- ===== src/Vow/ActivateStake.antt =====
-- programs/vow/src/instructions/vow/activate_stake.rs
use vow_protocol.Prelude.{ℕ, ltb, ◌∷◌, true, false, not, if◌then◌else◌}
use vow_protocol.Prelude.Int.{pos}
use vow_protocol.Prelude.Machine.{checked_add, saturating_add, saturating_sub, u32_max, u128_max}
use vow_protocol.State.Errors.{
  Result, ok, vow, math_overflow, invalid_owner, identity_already_active, ok_or, require,
  require_keys_eq, ◌>>=◌, ◌>>◌,
}
use vow_protocol.State.Accounts.{Pubkey, YieldMode}
use vow_protocol.State.Class.{class_for_stake}
use vow_protocol.State.Events.{vow_stake_activated}
use vow_protocol.State.Runtime.{Clock, Runtime, reserve_pda}
use vow_protocol.State.Position.{Position, transfer, shares_for, unlock_time}
use vow_protocol.Harvest.{settle_idnft}

module _ {B : Type 0} (rt : Runtime B) where
  unfoldable pub activate_stake : Clock → Pubkey → ℕ → YieldMode → Position B → Result (Position B)
  activate_stake clock owner stake_lamports yield_mode p = do
    require_keys_eq p.idnft.owner owner invalid_owner
    require (not p.idnft.active_stake) identity_already_active
    idnft ← settle_idnft p.idnft p.config
    new_class ← class_for_stake stake_lamports
    bank ← transfer rt owner (reserve_pda rt).0 stake_lamports p.bank
    new_shares ← shares_for stake_lamports p.config.current_share_price
    unlock_at ← unlock_time clock new_class
    total_shares ←
        ok_or (checked_add u128_max (saturating_sub p.config.total_shares idnft.shares) new_shares)
          (vow math_overflow)
    ok (record p {
      config = record (p.config) { total_shares = total_shares };
      idnft = record idnft {
        class = new_class;
        principal_lamports = stake_lamports;
        shares = new_shares;
        last_share_price = p.config.current_share_price;
        accrued_gain = pos 0;
        yield_mode = yield_mode;
        unlock_at = unlock_at;
        matured = false;
        active_stake = true;
        sessions_invalidated_at = clock.unix_timestamp;
        current_stake_started_at = clock.unix_timestamp;
        total_commitments = saturating_add u32_max idnft.total_commitments 1;
        highest_class_ever =
            if ltb idnft.highest_class_ever new_class then new_class else idnft.highest_class_ever;
      };
      bank = bank;
      log =
          vow_stake_activated idnft.asset_id idnft.owner new_class stake_lamports new_shares
            unlock_at
          ∷ p.log;
    })
