-- ===== src/Vow/AddStake.antt =====
-- programs/vow/src/instructions/vow/add_stake.rs
use vow_protocol.Prelude.{ℕ, ltb, false, ◌∷◌, if◌then◌else◌}
use vow_protocol.Prelude.Machine.{checked_add, u64_max, u128_max}
use vow_protocol.State.Errors.{
  Result, ok, vow, math_overflow, insufficient_stake, invalid_owner, identity_inactive,
  already_unstaking, ok_or, require, require_keys_eq, ◌>>=◌, ◌>>◌,
}
use vow_protocol.State.Accounts.{Pubkey, VowState}
use vow_protocol.State.Class.{class_for_stake}
use vow_protocol.State.Events.{stake_added}
use vow_protocol.State.Runtime.{Clock, Runtime, reserve_pda}
use vow_protocol.State.Position.{Position, transfer, shares_for, unlock_time}
use vow_protocol.Harvest.{settle_idnft}

-- The block under `if class_upgraded`: a new lock, and the class.
unfoldable pub upgrade : Clock → ℕ → VowState → Result VowState
upgrade clock new_class idnft = do
  unlock_at ← unlock_time clock new_class
  ok (record idnft {
    unlock_at = unlock_at;
    matured = false;
    class = new_class;
    highest_class_ever =
        if ltb idnft.highest_class_ever new_class then new_class else idnft.highest_class_ever;
  })

unfoldable pub relock : Clock → ℕ → VowState → Result VowState
unfolding upgrade
relock clock new_class idnft =
    if ltb idnft.class new_class then upgrade clock new_class idnft else ok idnft

module _ {B : Type 0} (rt : Runtime B) where
  unfoldable pub add_stake : Clock → Pubkey → ℕ → Position B → Result (Position B)
  add_stake clock owner lamports_to_add p = do
    require_keys_eq p.idnft.owner owner invalid_owner
    require (ltb 0 lamports_to_add) insufficient_stake
    require p.idnft.active_stake identity_inactive
    require (ltb 0 p.idnft.shares) already_unstaking
    idnft ← settle_idnft p.idnft p.config
    bank ← transfer rt owner (reserve_pda rt).0 lamports_to_add p.bank
    new_principal ←
        ok_or (checked_add u64_max idnft.principal_lamports lamports_to_add) (vow math_overflow)
    new_class ← class_for_stake new_principal
    new_shares ← shares_for lamports_to_add p.config.current_share_price
    let old_class = idnft.class
    idnft ← relock clock new_class idnft
    shares ← ok_or (checked_add u128_max idnft.shares new_shares) (vow math_overflow)
    total_shares ← ok_or (checked_add u128_max p.config.total_shares new_shares) (vow math_overflow)
    ok (record p {
      idnft = record idnft { principal_lamports = new_principal; shares = shares };
      config = record (p.config) { total_shares = total_shares };
      bank = bank;
      log =
          stake_added idnft.asset_id idnft.owner lamports_to_add new_principal old_class new_class
            idnft.unlock_at
          ∷ p.log;
    })
