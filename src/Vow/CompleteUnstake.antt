-- ===== src/Vow/CompleteUnstake.antt =====
-- programs/vow/src/instructions/vow/complete_unstake.rs
pub mod Payout
use vow_protocol.Prelude.{
  ℕ, ◌/◌, ◌∷◌, Option, none, some, Bool, true, false, ltb, leb, ◌==◌, ◌||◌, if◌then◌else◌,
}
use vow_protocol.Prelude.Int.{ℤ, ◌-ℤ◌}
use vow_protocol.Prelude.Machine.{
  checked_mul, checked_div, saturating_add, saturating_sub, u32_max, u64_max, u128_max, as_u64,
  clamp_i64, max_zero_as_u64,
}
use vow_protocol.State.Errors.{
  Result, ok, err, account_missing, invalid_owner, stake_not_deactivated,
  insufficient_yield_balance, ok_or, unwrap_or, require, require_keys_eq, ◌>>=◌, ◌>>◌,
}
use vow_protocol.State.Accounts.{Pubkey, VowState, seconds_per_day}
use vow_protocol.State.Events.{vow_unstaked}
use vow_protocol.State.Runtime.{Clock, Runtime, reserve_pda}
use vow_protocol.State.Position.{Position, transfer}

-- What an unstaker is paid: all of it if the reserve covers every pending claim, else its share.
unfoldable pub pay_amount : ℕ → ℕ → ℕ → ℕ
pay_amount lamports_owed reserve_lamports total_pending =
    if total_pending == 0 || leb total_pending reserve_lamports
    then lamports_owed
    else as_u64 (
        unwrap_or
          (checked_div (unwrap_or (checked_mul u128_max lamports_owed reserve_lamports) 0)
            total_pending)
          0)

-- The transition to a dormant identity.
unfoldable pub retire : Clock → VowState → VowState
retire clock idnft =
    let stake_seconds =
      max_zero_as_u64 (clamp_i64 (clock.unix_timestamp -ℤ idnft.current_stake_started_at)) in
    record idnft {
      cumulative_stake_days =
          saturating_add u64_max idnft.cumulative_stake_days (stake_seconds / seconds_per_day);
      total_fulfilled =
          if idnft.matured
          then saturating_add u32_max idnft.total_fulfilled 1
          else idnft.total_fulfilled;
      active_stake = false;
      sessions_invalidated_at = clock.unix_timestamp;
    }

module _ {B : Type 0} (rt : Runtime B) where
  -- The escrow's account is closed.
  unfoldable pub complete_unstake : Clock → Pubkey → Position B → Result (Position B)
  unfolding pay_amount retire
  complete_unstake clock owner p = do
    require_keys_eq p.idnft.owner owner invalid_owner
    escrow ← ok_or p.escrow account_missing
    require_keys_eq escrow.owner owner invalid_owner
    require (ltb escrow.deactivation_epoch clock.epoch) stake_not_deactivated
    let reserve = (reserve_pda rt).0
    let reserve_lamports = rt.lamports p.bank reserve
    require (ltb 0 reserve_lamports) insufficient_yield_balance
    let pay = pay_amount escrow.lamports_owed reserve_lamports p.config.total_pending_unstake
    require (ltb 0 pay) insufficient_yield_balance
    bank ← transfer rt reserve owner pay p.bank
    ok (record p {
      config = record (p.config) {
        total_pending_unstake = saturating_sub p.config.total_pending_unstake escrow.lamports_owed;
      };
      idnft = retire clock p.idnft;
      escrow = none;
      bank = bank;
      log = vow_unstaked p.idnft.asset_id owner pay ∷ p.log;
    })
