-- ===== src/Program/Frame.antt =====
-- What a handler on an identity leaves of the config: all but the three totals.
use vow_protocol.Prelude.{ℕ, ◌≡◌, arith}
use vow_protocol.Prelude.Int.{ℤ}
use vow_protocol.State.Errors.{ok}
use vow_protocol.State.Accounts.{ProtocolConfig, YieldMode, compound, hybrid, treasury}
use vow_protocol.State.Runtime.{Clock, Runtime}
use vow_protocol.State.Position.{Position, mature}
use vow_protocol.Harvest.{credit, realise, harvest}
use vow_protocol.Harvest.Settle.{mature_keeps, harvest-ok}
use vow_protocol.Vow.AddStake.{add_stake}
use vow_protocol.Vow.BeginUnstake.{begin_unstake}
use vow_protocol.Vow.CompleteUnstake.{complete_unstake}
use vow_protocol.Vow.ActivateStake.{activate_stake}
use vow_protocol.Vow.UpdateYieldMode.{update_yield_mode}
use vow_protocol.Treasury.Deposit.{deposit_yield_balance}
use vow_protocol.Treasury.Withdraw.{withdraw_yield}
use vow_protocol.Treasury.Spend.{yield_spend}
use vow_protocol.Session.Create.{create_session}
use vow_protocol.Session.Revoke.{revoke_session}
use vow_protocol.Program.Process.{run_fast_unlock}
use vow_protocol.Program.Steps.{
  Handles, adding, beginning, completing, activating, switching, harvesting, depositing,
  withdrawing, spending, creating, revoking, closing, unlocking,
}

pub record SameRates (c d : ProtocolConfig) : Type 0 where
  pub admin : d.admin ≡ c.admin
  pub price : d.current_share_price ≡ c.current_share_price
  pub pool_lamports : d.last_pool_lamports ≡ c.last_pool_lamports
  pub minted : d.total_minted ≡ c.total_minted
  pub pool : d.spl_stake_pool ≡ c.spl_stake_pool
  pub mint : d.spl_pool_mint ≡ c.spl_pool_mint

module _ {B : Type 0} where
  credit-SameRates :
      (amount total carried : ℕ) (p : Position B) {q : Position B}
      → credit amount total carried p ≡ ok q
      → SameRates p.config q.config
  unfolding credit
  credit-SameRates amount total carried p h = ground arith

  realise-SameRates :
      (mode : YieldMode) (gain : ℤ) (p : Position B) {q : Position B}
      → realise mode gain p ≡ ok q
      → SameRates p.config q.config
  unfolding realise
  realise-SameRates compound gain p h = ground arith
  realise-SameRates hybrid gain p h = ground (arith, credit-SameRates _ _ _ p)
  realise-SameRates treasury gain p h = ground (arith, credit-SameRates _ _ _ p)

  harvest-SameRates :
      (clock : Clock) (p q : Position B) → harvest clock p ≡ ok q → SameRates p.config q.config
  harvest-SameRates clock p q h =
      let (w, e, done) = harvest-ok clock p h in
      ground (
        arith,
        mature_keeps clock p,
        realise-SameRates w.yield_mode w.accrued_gain (record (mature clock p) { idnft = w })
            {q = q},
      )

module _ {B : Type 0} (rt : Runtime B) (clock : Clock) where
  pub Handles-SameRates : (p q : Position B) → Handles rt clock p q → SameRates p.config q.config
  unfolding add_stake begin_unstake complete_unstake activate_stake update_yield_mode
      deposit_yield_balance withdraw_yield yield_spend create_session revoke_session run_fast_unlock
  Handles-SameRates p q (adding owner n h) = ground arith
  Handles-SameRates p q (beginning owner h) = ground (arith, mature_keeps clock p)
  Handles-SameRates p q (completing owner h) = ground arith
  Handles-SameRates p q (activating owner n mode h) = ground arith
  Handles-SameRates p q (switching owner mode h) = ground arith
  Handles-SameRates p q (harvesting h) = harvest-SameRates clock p q h
  Handles-SameRates p q (depositing depositor n h) = ground arith
  Handles-SameRates p q (withdrawing owner n h) = ground arith
  Handles-SameRates p q (spending call n s s' h) = ground arith
  Handles-SameRates p q (creating owner key ids params index profile slot s' h) = ground arith
  Handles-SameRates p q (revoking owner s s' h) = ground arith
  Handles-SameRates p q (closing owner s _ h) = ground arith
  Handles-SameRates p q (unlocking admin h) = ground arith
