-- ===== src/Vow/BeginUnstake.antt =====
-- programs/vow/src/instructions/vow/begin_unstake.rs
use vow_protocol.Prelude.{◌∷◌, Option, none, some}
use vow_protocol.Prelude.Machine.{checked_add, saturating_sub, u64_max, as_u64}
use vow_protocol.State.Errors.{
  Result, ok, err, vow, account_exists, math_overflow, invalid_owner, identity_inactive,
  not_matured, ok_or, require, require_keys_eq, ◌>>=◌, ◌>>◌,
}
use vow_protocol.State.Accounts.{Pubkey}
use vow_protocol.State.Events.{vow_unstake_begun}
use vow_protocol.State.Runtime.{Clock, Runtime, vow_pda, unstake_pda}
use vow_protocol.State.Position.{Position, mature, share_value}
use vow_protocol.Harvest.{settle_idnft}

-- The account constraint `init`: the account must not exist yet.
abbrev pub init {ℓ} : {A : Type ℓ} → Option A → Result (Unit {0})
init none = ok tt
init (some _) = err account_exists

module _ {B : Type 0} (rt : Runtime B) where
  unfoldable pub begin_unstake : Clock → Pubkey → Position B → Result (Position B)
  begin_unstake clock owner p = do
    require_keys_eq p.idnft.owner owner invalid_owner
    init p.escrow
    require p.idnft.active_stake identity_inactive
    let p = mature clock p
    require p.idnft.matured not_matured
    idnft ← settle_idnft p.idnft p.config
    value ← share_value idnft.shares p.config.current_share_price
    let position_value = as_u64 value
    lamports_owed ←
        ok_or (checked_add u64_max position_value idnft.yield_balance) (vow math_overflow)
    total_pending_unstake ←
        ok_or (checked_add u64_max p.config.total_pending_unstake lamports_owed) (vow math_overflow)
    let vow_key = (vow_pda rt idnft.asset_id).0
    ok (record p {
      config = record (p.config) {
        total_shares = saturating_sub p.config.total_shares idnft.shares;
        total_yield_claims = saturating_sub p.config.total_yield_claims idnft.yield_balance;
        total_pending_unstake = total_pending_unstake;
      };
      idnft = record idnft { shares = 0; yield_balance = 0 };
      escrow = some (record {
        vow_state = vow_key;
        owner = owner;
        lamports_owed = lamports_owed;
        deactivation_epoch = clock.epoch;
        bump = (unstake_pda rt vow_key).1;
      });
      log = vow_unstake_begun idnft.asset_id idnft.owner lamports_owed ∷ p.log;
    })
