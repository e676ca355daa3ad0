-- ===== src/Harvest.antt =====
-- programs/vow/src/instructions/harvest.rs: settling the gain of a position, and crediting it.
pub mod Settle
pub mod Burn
pub mod Path
pub mod Value
use vow_protocol.Prelude.{ℕ, ◌-◌, ◌/◌, ◌%◌, leb, ◌==◌, if◌then◌else◌, ◌∷◌}
use vow_protocol.Prelude.Int.{ℤ, pos, sub_ℕ, leb_ℤ, pos_part}
use vow_protocol.Prelude.Machine.{
  checked_mul, checked_div, saturating_add, saturating_sub, saturating_add_i64, clamp_i64,
  max_zero_as_u64, u64_max, u128_max,
}
use vow_protocol.State.Errors.{
  Result, ok, vow, math_overflow, shares_underflow, ok_or, unwrap_or, require, ◌>>=◌, ◌>>◌,
}
use vow_protocol.State.Accounts.{
  VowState, ProtocolConfig, YieldMode, compound, hybrid, treasury, share_precision,
}
use vow_protocol.State.Events.{harvested}
use vow_protocol.State.Runtime.{Clock}
use vow_protocol.State.Position.{Position, mature, share_value}

-- The values are quotients of a u128 by 10^12, so the casts to i128 and the difference are exact.
unfoldable pub settle_idnft : VowState → ProtocolConfig → Result VowState
settle_idnft idnft config =
    if idnft.last_share_price == config.current_share_price then ok idnft else do
      current_value ← share_value idnft.shares config.current_share_price
      last_value ← share_value idnft.shares idnft.last_share_price
      ok (record idnft {
        accrued_gain =
            saturating_add_i64 idnft.accrued_gain (clamp_i64 (sub_ℕ current_value last_value));
        last_share_price = config.current_share_price;
      })

module _ {B : Type 0} where
  -- The body that the arms `Treasury` and `Hybrid` share: burn shares worth `treasury_amount` and
  -- credit it; `total` is harvested in all, and `carried` stays to be credited.
  unfoldable pub credit : ℕ → ℕ → ℕ → Position B → Result (Position B)
  credit treasury_amount total carried p = do
    product ← ok_or (checked_mul u128_max treasury_amount share_precision) (vow math_overflow)
    let shares_to_burn = unwrap_or (checked_div product p.config.current_share_price) 0
    require (leb shares_to_burn p.idnft.shares) shares_underflow
    ok (record p {
      idnft = record (p.idnft) {
        shares = p.idnft.shares - shares_to_burn;
        yield_balance = saturating_add u64_max p.idnft.yield_balance treasury_amount;
        total_harvested = saturating_add u64_max p.idnft.total_harvested total;
        accrued_gain = pos carried;
      };
      config = record (p.config) {
        total_shares = saturating_sub p.config.total_shares shares_to_burn;
        total_yield_claims = saturating_add u64_max p.config.total_yield_claims treasury_amount;
      };
      log =
          harvested p.idnft.asset_id p.idnft.owner p.idnft.accrued_gain treasury_amount
            shares_to_burn
          ∷ p.log;
    })

  -- The arms that credit nothing: the gain is dropped.
  unfoldable pub keep : ℕ → Position B → Position B
  keep total_harvested p = record p {
    idnft = record (p.idnft) { total_harvested = total_harvested; accrued_gain = pos 0 };
    log = harvested p.idnft.asset_id p.idnft.owner p.idnft.accrued_gain 0 0 ∷ p.log;
  }

  -- The `match` on the yield mode.
  unfoldable pub realise : YieldMode → ℤ → Position B → Result (Position B)
  unfolding credit keep
  realise compound gain p =
      ok (keep (saturating_add u64_max p.idnft.total_harvested (max_zero_as_u64 gain)) p)
  realise treasury gain p =
      if leb_ℤ gain (pos 0)
      then ok (keep p.idnft.total_harvested p)
      else credit (pos_part gain) (pos_part gain) 0 p
  realise hybrid gain p =
      if leb_ℤ gain (pos 0)
      then ok (keep p.idnft.total_harvested p)
      else credit (pos_part gain / 2) (pos_part gain) (pos_part gain % 2) p

  unfoldable pub harvest : Clock → Position B → Result (Position B)
  harvest clock p = do
    let p = mature clock p
    idnft ← settle_idnft p.idnft p.config
    realise idnft.yield_mode idnft.accrued_gain (record p { idnft = idnft })
