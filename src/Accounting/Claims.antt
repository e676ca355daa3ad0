-- ===== src/Accounting/Claims.antt =====
-- What the protocol owes an identity, and that no handler raises it beyond what is paid in
-- (programs/vow/src/instructions/).
use vow_protocol.Prelude.{ℕ, ◌+◌, ◌-◌, ◌*◌, ◌/◌, ◌%◌, ◌≤◌, ◌<◌, ◌≡◌, arith}
use native.Mathlib.Nat.{div-mul-le_self, lt-mul-div-succ}
use vow_protocol.Prelude.Int.{ℤ, pos_part}
use vow_protocol.State.Errors.{ok, unwrap_or, Ensures, Ensures-map}
use vow_protocol.State.Accounts.{YieldMode, compound, hybrid, treasury, share_precision}
use vow_protocol.State.Runtime.{Clock, Runtime, reserve_pda}
use vow_protocol.State.Position.{Position, mature, share_value, shares_for}
use vow_protocol.Harvest.{keep, credit, realise, harvest}
use vow_protocol.Harvest.Settle.{settle_idnft-Settled, mature_keeps, harvest-ok}
use vow_protocol.Vow.AddStake.{relock, upgrade, add_stake}
use vow_protocol.Vow.BeginUnstake.{begin_unstake}
use vow_protocol.Vow.CompleteUnstake.{pay_amount, complete_unstake}
use vow_protocol.Vow.ActivateStake.{activate_stake}
use vow_protocol.Vow.UpdateYieldMode.{update_yield_mode}
use vow_protocol.Treasury.Deposit.{deposit_yield_balance}
use vow_protocol.Treasury.Withdraw.{withdraw_yield}
use vow_protocol.Treasury.Spend.{yield_spend}
use vow_protocol.Session.Create.{create_session}
use vow_protocol.Session.Revoke.{revoke_session}
use vow_protocol.Program.Process.{run_fast_unlock}
use vow_protocol.Program.Steps.{
  Handles, adding, beginning, completing, activating, switching, harvesting, depositing,
  withdrawing, spending, creating, revoking, closing, unlocking,
}
use vow_protocol.Admin.Config.{dev_fast_unlock}
use vow_protocol.Accounting.{owed}
use vow_protocol.Accounting.Solvent.{pay_amount_le}
use vow_protocol.Vow.Unstake.{worth}

-- What its shares are worth at the config's price, its yield balance, and what its escrow owes.
abbrev pub claim : {B : Type 0} → Position B → ℕ
claim p = worth p + owed p.escrow

-- Shares bought are worth no more than what is paid for them.
bought-worth :
    (shares lamports bought price : ℕ)
    → bought * price ≤ lamports * share_precision
    → (shares + bought) * price / share_precision ≤ shares * price / share_precision + lamports
bought-worth s n x price h = omega (arith, h)

pub shares_for-worth :
    (lamports price : ℕ)
    → Ensures (λ bought. bought * price ≤ lamports * share_precision) (shares_for lamports price)
unfolding shares_for
shares_for-worth n price = ground (arith, div-mul-le_self (n * share_precision) price)

shares_for-adds :
    (shares lamports price : ℕ)
    → Ensures
        (λ bought.
          (shares + bought) * price / share_precision ≤ shares * price / share_precision + lamports)
        (shares_for lamports price)
shares_for-adds s n price =
    Ensures-map (λ bought h. bought-worth s n bought price h) _ (shares_for-worth n price)

-- Shares burnt for an amount leave at most a share's worth too many.
burnt-worth :
    (shares amount price : ℕ)
    → 0 < price
    → amount * share_precision / price ≤ shares
    → (shares - amount * share_precision / price) * price / share_precision + amount
      ≤ shares * price / share_precision + (price / share_precision + 1)
burnt-worth s g price h fits =
    let b = g * share_precision / price in
    by_rest (s - b) b (omega arith) (lt-mul-div-succ (g * share_precision) h)
  where
    by_rest :
        (k b : ℕ)
        → k + b ≡ s
        → g * share_precision < price * (b + 1)
        → k * price / share_precision + g
          ≤ s * price / share_precision + (price / share_precision + 1)
    by_rest k b e less = rw (← e) (omega (arith, less))

module _ {B : Type 0} where
  credit-claim :
      (amount total carried : ℕ) (p : Position B) {q : Position B}
      → 0 < p.config.current_share_price
      → credit amount total carried p ≡ ok q
      → claim q ≤ claim p + (p.config.current_share_price / share_precision + 1)
  unfolding credit
  credit-claim amount total carried p price h =
      ground (arith, burnt-worth p.idnft.shares amount p.config.current_share_price price)

  realise-claim :
      (mode : YieldMode) (gain : ℤ) (p : Position B) {q : Position B}
      → 0 < p.config.current_share_price
      → realise mode gain p ≡ ok q
      → claim q ≤ claim p + (p.config.current_share_price / share_precision + 1)
  unfolding realise keep
  realise-claim compound gain p price h = ground arith
  realise-claim hybrid gain p {q} price h =
      ground (
        arith,
        credit-claim (pos_part gain / 2) (pos_part gain) (pos_part gain % 2) p {q = q} price,
      )
  realise-claim treasury gain p {q} price h =
      ground (arith, credit-claim (pos_part gain) (pos_part gain) 0 p {q = q} price)

  harvest-claim :
      (clock : Clock) (p q : Position B)
      → 0 < p.config.current_share_price
      → harvest clock p ≡ ok q
      → claim q ≤ claim p + (p.config.current_share_price / share_precision + 1)
  harvest-claim clock p q price h =
      let (w, e, done) = harvest-ok clock p h in
      ground (
        arith,
        settle_idnft-Settled (mature clock p).idnft (mature clock p).config,
        mature_keeps clock p,
        realise-claim w.yield_mode w.accrued_gain (record (mature clock p) { idnft = w }) {q = q},
      )

module _ {B : Type 0} (rt : Runtime B) (clock : Clock) where
  -- What the handler's caller pays into the reserve.
  abbrev pub paid_in : {p q : Position B} → Handles rt clock p q → ℕ
  paid_in (adding owner lamports h) = lamports
  paid_in (beginning owner h) = 0
  paid_in (completing owner h) = 0
  paid_in (activating owner lamports mode h) = lamports
  paid_in (switching owner mode h) = 0
  paid_in (harvesting h) = 0
  paid_in (depositing depositor amount h) = amount
  paid_in (withdrawing owner amount h) = 0
  paid_in (spending call amount s s' h) = 0
  paid_in (creating owner key ids params index profile slot s' h) = 0
  paid_in (revoking owner s s' h) = 0
  paid_in (closing owner s h e) = 0
  paid_in (unlocking admin h) = 0

  -- What the handler pays out of the reserve.
  abbrev pub paid_out : {p q : Position B} → Handles rt clock p q → ℕ
  paid_out (adding owner lamports h) = 0
  paid_out (beginning owner h) = 0
  paid_out {p = p} (completing owner h) =
      pay_amount (owed p.escrow) (rt.lamports p.bank (reserve_pda rt).0)
        p.config.total_pending_unstake
  paid_out (activating owner lamports mode h) = 0
  paid_out (switching owner mode h) = 0
  paid_out (harvesting h) = 0
  paid_out (depositing depositor amount h) = 0
  paid_out {p = p} (withdrawing owner amount h) = unwrap_or amount p.idnft.yield_balance
  paid_out (spending call amount s s' h) = amount
  paid_out (creating owner key ids params index profile slot s' h) = 0
  paid_out (revoking owner s s' h) = 0
  paid_out (closing owner s h e) = 0
  paid_out (unlocking admin h) = 0

  -- A harvest rounds by less than what a share is worth.
  abbrev pub rounding : {p q : Position B} → Handles rt clock p q → ℕ
  rounding {p = p} (harvesting h) = p.config.current_share_price / share_precision + 1
  rounding _ = 0

  pub Handles-claim :
      (p q : Position B) (step : Handles rt clock p q)
      → 0 < p.config.current_share_price
      → claim q + paid_out step ≤ claim p + paid_in step + rounding step
  unfolding add_stake relock upgrade begin_unstake complete_unstake activate_stake update_yield_mode
      deposit_yield_balance withdraw_yield yield_spend create_session revoke_session run_fast_unlock
      dev_fast_unlock share_value
  Handles-claim p q (adding owner n h) price = ground (
    arith,
    settle_idnft-Settled p.idnft p.config,
    shares_for-adds p.idnft.shares n p.config.current_share_price,
  )
  Handles-claim p q (beginning owner h) price = ground (
    arith,
    mature_keeps clock p,
    settle_idnft-Settled (mature clock p).idnft (mature clock p).config,
  )
  Handles-claim p q (completing owner h) price = ground (
    arith,
    pay_amount_le (owed p.escrow) (rt.lamports p.bank (reserve_pda rt).0)
        p.config.total_pending_unstake,
  )
  Handles-claim p q (activating owner n mode h) price = ground (
    arith,
    settle_idnft-Settled p.idnft p.config,
    shares_for-worth n p.config.current_share_price,
  )
  Handles-claim p q (switching owner mode h) price =
      ground (arith, settle_idnft-Settled p.idnft p.config)
  Handles-claim p q (harvesting h) price = omega (arith, harvest-claim clock p q price h)
  Handles-claim p q (depositing depositor n h) price = ground arith
  Handles-claim p q (withdrawing owner n h) price = ground arith
  Handles-claim p q (spending call n s s' h) price = ground arith
  Handles-claim p q (creating owner key ids params index profile slot s' h) price = ground arith
  Handles-claim p q (revoking owner s s' h) price = ground arith
  Handles-claim p q (closing owner s _ h) price = ground arith
  Handles-claim p q (unlocking admin h) price = ground arith
