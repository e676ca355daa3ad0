-- ===== src/State/Position.antt =====
-- The accounts that an instruction on one identity reads and writes: the protocol's config, the
-- identity, its unstake escrow if there is one, all lamports, and the events emitted (newest first).
-- And the arithmetic that the instructions share.
use vow_protocol.Prelude.{ℕ, true, Option, List, ◌∷◌, if◌then◌else◌, not, ◌&&◌}
use vow_protocol.Prelude.Int.{ℤ, pos, leb_ℤ}
use vow_protocol.Prelude.Machine.{checked_mul, checked_div, checked_add_i64, u128_max}
use vow_protocol.State.Errors.{
  Result, ok, vow, math_overflow, ok_or, unwrap_or, or_panic, call_failed, ◌>>=◌,
}
use vow_protocol.State.Accounts.{Pubkey, VowState, ProtocolConfig, UnstakeEscrow, share_precision}
use vow_protocol.State.Class.{lock_duration}
use vow_protocol.State.Events.{Event, vow_matured}
use vow_protocol.State.Runtime.{Clock, Runtime}

pub record Position (B : Type 0) : Type 0 where
  pub config : ProtocolConfig
  pub idnft : VowState
  pub escrow : Option UnstakeEscrow
  pub bank : B
  pub log : List Event

module _ {B : Type 0} where
  -- `emit!`
  abbrev pub emit : Event → Position B → Position B
  emit e p = record p { log = e ∷ p.log }

  -- A transfer that another program refuses fails the instruction.
  abbrev pub transfer : Runtime B → Pubkey → Pubkey → ℕ → B → Result B
  transfer rt from to n b = ok_or (rt.transfer from to n b) call_failed

  -- The opening of `harvest` and `begin_unstake`: a lock that has run out matures the identity.
  unfoldable pub mature : Clock → Position B → Position B
  mature clock p =
      if not p.idnft.matured && leb_ℤ p.idnft.unlock_at clock.unix_timestamp
      then record p {
        idnft = record (p.idnft) { matured = true };
        log = vow_matured p.idnft.asset_id p.idnft.owner p.idnft.class ∷ p.log;
      }
      else p

-- shares * price / SHARE_PRECISION: what shares are worth, in lamports.
unfoldable pub share_value : ℕ → ℕ → Result ℕ
share_value shares price = do
  product ← ok_or (checked_mul u128_max shares price) (vow math_overflow)
  ok (unwrap_or (checked_div product share_precision) 0)

-- lamports * SHARE_PRECISION / price: the shares that lamports buy.
unfoldable pub shares_for : ℕ → ℕ → Result ℕ
shares_for lamports price = do
  product ← ok_or (checked_mul u128_max lamports share_precision) (vow math_overflow)
  ok_or (checked_div product price) (vow math_overflow)

-- `clock.unix_timestamp + lock_duration(class)`
unfoldable pub unlock_time : Clock → ℕ → Result ℤ
unlock_time clock class = do
  lock ← lock_duration class
  or_panic (checked_add_i64 clock.unix_timestamp (pos lock))
