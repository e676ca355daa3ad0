-- ===== src/Identity/Soulbound.antt =====
-- An identity stays with its owner, and its reputation only grows.
use vow_protocol.Prelude.{ℕ, ◌≤◌, ◌≡◌, arith}
use vow_protocol.Prelude.Machine.{u32_max, u64_max}
use vow_protocol.State.Accounts.{VowState, YieldMode, compound, hybrid, treasury}
use vow_protocol.Prelude.Int.{ℤ}
use vow_protocol.State.Errors.{ok}
use vow_protocol.State.Runtime.{Clock, Runtime}
use vow_protocol.State.Position.{Position, mature}
use vow_protocol.Harvest.{credit, realise, harvest}
use vow_protocol.Harvest.Settle.{settle_idnft-Settled, mature_keeps, harvest-ok}
use vow_protocol.Vow.AddStake.{relock, add_stake}
use vow_protocol.Vow.BeginUnstake.{begin_unstake}
use vow_protocol.Vow.CompleteUnstake.{complete_unstake}
use vow_protocol.Vow.ActivateStake.{activate_stake}
use vow_protocol.Vow.UpdateYieldMode.{update_yield_mode}
use vow_protocol.Treasury.Deposit.{deposit_yield_balance}
use vow_protocol.Treasury.Withdraw.{withdraw_yield}
use vow_protocol.Treasury.Spend.{yield_spend}
use vow_protocol.Session.Create.{create_session}
use vow_protocol.Session.Revoke.{revoke_session}
use vow_protocol.Admin.Config.{dev_fast_unlock}
use vow_protocol.Program.Process.{run_fast_unlock}
use vow_protocol.Program.Steps.{
  Handles, adding, beginning, completing, activating, switching, harvesting, depositing,
  withdrawing, spending, creating, revoking, closing, unlocking,
}

-- The counters hold what their machine types can.
pub record IsRanged (v : VowState) : Type 0 where
  pub commitments : v.total_commitments ≤ u32_max
  pub fulfilled : v.total_fulfilled ≤ u32_max
  pub days : v.cumulative_stake_days ≤ u64_max
  pub harvested : v.total_harvested ≤ u64_max
  pub yield : v.yield_balance ≤ u64_max

-- `w` is a later state of the identity `v`.
pub record Continues (v w : VowState) : Type 0 where
  pub asset_id : w.asset_id ≡ v.asset_id
  pub owner : w.owner ≡ v.owner
  pub nonce : w.nonce ≡ v.nonce
  pub created_at : w.created_at ≡ v.created_at
  pub first_staked_at : w.first_staked_at ≡ v.first_staked_at
  pub commitments : v.total_commitments ≤ w.total_commitments
  pub fulfilled : v.total_fulfilled ≤ w.total_fulfilled
  pub days : v.cumulative_stake_days ≤ w.cumulative_stake_days
  pub harvested : v.total_harvested ≤ w.total_harvested
  pub highest_class : v.highest_class_ever ≤ w.highest_class_ever
  pub session_nonce : v.session_nonce ≤ w.session_nonce

pub Continues-refl : (v : VowState) → Continues v v
Continues-refl v = ground arith

pub Continues-trans : (u v w : VowState) → Continues u v → Continues v w → Continues u w
Continues-trans u v w h k = ground arith

module _ {B : Type 0} where
  abbrev Grows : Position B → Position B → Type 0
  Grows p q = Continues p.idnft q.idnft × IsRanged q.idnft

  credit-Grows :
      (amount total carried : ℕ) (p : Position B) {q : Position B}
      → IsRanged p.idnft
      → credit amount total carried p ≡ ok q
      → Grows p q
  unfolding credit
  credit-Grows amount total carried p r h = ground arith

  realise-Grows :
      (mode : YieldMode) (gain : ℤ) (p : Position B) {q : Position B}
      → IsRanged p.idnft
      → realise mode gain p ≡ ok q
      → Grows p q
  unfolding realise
  realise-Grows compound gain p r h = ground arith
  realise-Grows hybrid gain p r h = ground (arith, credit-Grows _ _ _ p r)
  realise-Grows treasury gain p r h = ground (arith, credit-Grows _ _ _ p r)

  harvest-Grows :
      (clock : Clock) (p q : Position B) → IsRanged p.idnft → harvest clock p ≡ ok q → Grows p q
  harvest-Grows clock p q r h =
      let (w, e, done) = harvest-ok clock p h in
      ground (
        arith,
        settle_idnft-Settled (mature clock p).idnft (mature clock p).config,
        mature_keeps clock p,
        realise-Grows w.yield_mode w.accrued_gain (record (mature clock p) { idnft = w }) {q = q},
      )

module _ {B : Type 0} (rt : Runtime B) (clock : Clock) where
  -- No handler moves an identity or takes back its reputation, and its counters stay in range.
  pub Handles-Continues :
      (p q : Position B)
      → Handles rt clock p q
      → IsRanged p.idnft
      → Continues p.idnft q.idnft × IsRanged q.idnft
  unfolding add_stake relock begin_unstake complete_unstake activate_stake update_yield_mode
      deposit_yield_balance withdraw_yield yield_spend create_session revoke_session run_fast_unlock
      dev_fast_unlock
  Handles-Continues p q (adding owner n h) r = ground (arith, settle_idnft-Settled p.idnft p.config)
  Handles-Continues p q (beginning owner h) r = ground (
    arith,
    mature_keeps clock p,
    settle_idnft-Settled (mature clock p).idnft (mature clock p).config,
  )
  Handles-Continues p q (completing owner h) r = ground arith
  Handles-Continues p q (activating owner n mode h) r =
      ground (arith, settle_idnft-Settled p.idnft p.config)
  Handles-Continues p q (switching owner mode h) r =
      ground (arith, settle_idnft-Settled p.idnft p.config)
  Handles-Continues p q (harvesting h) r = harvest-Grows clock p q r h
  Handles-Continues p q (depositing depositor n h) r = ground arith
  Handles-Continues p q (withdrawing owner n h) r = ground arith
  Handles-Continues p q (spending call n s s' h) r = ground arith
  Handles-Continues p q (creating owner key ids params index profile slot s' h) r = ground arith
  Handles-Continues p q (revoking owner s s' h) r = ground arith
  Handles-Continues p q (closing owner s _ h) r = ground arith
  Handles-Continues p q (unlocking admin h) r = ground arith
