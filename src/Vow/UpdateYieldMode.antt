-- ===== src/Vow/UpdateYieldMode.antt =====
-- programs/vow/src/instructions/vow/update_yield_mode.rs
use vow_protocol.Prelude.{◌==◌, ◌∷◌, not}
use vow_protocol.State.Errors.{
  Result, ok, invalid_owner, identity_inactive, yield_mode_unchanged, require, require_keys_eq,
  ◌>>=◌, ◌>>◌,
}
use vow_protocol.State.Accounts.{Pubkey, YieldMode, to_u8}
use vow_protocol.State.Events.{yield_mode_updated}
use vow_protocol.State.Position.{Position}
use vow_protocol.Harvest.{settle_idnft}

module _ {B : Type 0} where
  -- Two modes are equal when their numbers are.
  unfoldable pub update_yield_mode : Pubkey → YieldMode → Position B → Result (Position B)
  unfolding to_u8
  update_yield_mode owner new_mode p = do
    require_keys_eq p.idnft.owner owner invalid_owner
    require p.idnft.active_stake identity_inactive
    require (not (to_u8 p.idnft.yield_mode == to_u8 new_mode)) yield_mode_unchanged
    idnft ← settle_idnft p.idnft p.config
    ok (record p {
      idnft = record idnft { yield_mode = new_mode };
      log = yield_mode_updated idnft.asset_id (to_u8 idnft.yield_mode) (to_u8 new_mode) ∷ p.log;
    })
