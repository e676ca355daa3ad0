-- ===== src/Accounting/Margin/Reserve.antt =====
-- What a handler on an identity moves into the reserve and out of it, and what a harvest rounds.
use vow_protocol.Prelude.{ℕ, ◌+◌, ◌*◌, ◌/◌, ◌≤◌, ◌≡◌, ◌≢◌, Option, none, some, arith}
use vow_protocol.State.Errors.{ok, unwrap_or}
use vow_protocol.State.Accounts.{
  Pubkey, YieldMode, compound, hybrid, treasury, ProtocolConfig, share_precision,
}
use vow_protocol.Prelude.Int.{ℤ}
use vow_protocol.State.Runtime.{Clock, Runtime, reserve_pda}
use vow_protocol.State.Position.{Position, mature}
use vow_protocol.Harvest.{keep, credit, realise, harvest}
use vow_protocol.Vow.AddStake.{add_stake}
use vow_protocol.Vow.BeginUnstake.{begin_unstake}
use vow_protocol.Vow.CompleteUnstake.{pay_amount, complete_unstake}
use vow_protocol.Vow.ActivateStake.{activate_stake}
use vow_protocol.Vow.UpdateYieldMode.{update_yield_mode}
use vow_protocol.Treasury.Deposit.{deposit_yield_balance}
use vow_protocol.Treasury.Withdraw.{withdraw_yield}
use vow_protocol.Treasury.Spend.{yield_spend}
use vow_protocol.Session.Create.{create_session}
use vow_protocol.Session.Revoke.{revoke_session}
use vow_protocol.Program.Process.{run_fast_unlock}
use vow_protocol.Program.Steps.{
  Handles, adding, beginning, completing, activating, switching, harvesting, depositing,
  withdrawing, spending, creating, revoking, closing, unlocking,
}
use vow_protocol.Harvest.Settle.{mature_keeps, harvest-ok}
use vow_protocol.Program.Steps.Process.Signers.{handler_signer}
use vow_protocol.Accounting.{owed}
use vow_protocol.Accounting.Claims.{paid_in, paid_out, rounding}
use vow_protocol.Accounting.Solvency.{StaysPut}

module _ {B : Type 0} where
  realise-bank :
      (mode : YieldMode) (gain : ℤ) (p : Position B) {q : Position B}
      → realise mode gain p ≡ ok q
      → q.bank ≡ p.bank
  unfolding realise credit keep
  realise-bank compound gain p h = ground arith
  realise-bank hybrid gain p h = ground arith
  realise-bank treasury gain p h = ground arith

  harvest-bank : (clock : Clock) (p q : Position B) → harvest clock p ≡ ok q → q.bank ≡ p.bank
  harvest-bank clock p q h =
      let (w, e, done) = harvest-ok clock p h in
      let kept = mature_keeps clock p in
      let same =
        realise-bank w.yield_mode w.accrued_gain (record (mature clock p) { idnft = w }) {q = q}
          done in
      ground (arith, same, kept)

-- What rounding can add at a share price: a share's worth.
abbrev pub share_worth : ProtocolConfig → ℕ
share_worth c = c.current_share_price / share_precision + 1

-- One for a transaction that nobody signs, as a harvest.
abbrev pub unsigned : Option Pubkey → ℕ
unsigned none = 1
unsigned (some k) = 0

module _ {B : Type 0} (rt : Runtime B) (still : StaysPut rt) where
  pub Handles-reserve :
      (clock : Clock) (p q : Position B) (step : Handles rt clock p q)
      → handler_signer rt clock step ≢ some ((reserve_pda rt).0)
      → rt.lamports p.bank (reserve_pda rt).0 + paid_in rt clock step
        ≤ rt.lamports q.bank (reserve_pda rt).0 + paid_out rt clock step
  unfolding add_stake begin_unstake complete_unstake activate_stake update_yield_mode
      deposit_yield_balance withdraw_yield yield_spend create_session revoke_session run_fast_unlock
  Handles-reserve clock p q (adding owner n h) ne =
      ground (arith, rt.transfer_credits owner (reserve_pda rt).0 n p.bank q.bank)
  Handles-reserve clock p q (beginning owner h) ne = ground (arith, mature_keeps clock p)
  Handles-reserve clock p q (completing owner h) ne = ground (
    arith,
    rt.transfer_debits (reserve_pda rt).0 owner
        (pay_amount (owed p.escrow) (rt.lamports p.bank (reserve_pda rt).0)
          p.config.total_pending_unstake)
        p.bank q.bank,
  )
  Handles-reserve clock p q (activating owner n mode h) ne =
      ground (arith, rt.transfer_credits owner (reserve_pda rt).0 n p.bank q.bank)
  Handles-reserve clock p q (switching owner mode h) ne = ground arith
  Handles-reserve clock p q (harvesting h) ne = rw (harvest-bank clock p q h) (omega arith)
  Handles-reserve clock p q (depositing depositor n h) ne =
      ground (arith, rt.transfer_credits depositor (reserve_pda rt).0 n p.bank q.bank)
  Handles-reserve clock p q (withdrawing owner amount h) ne = ground (
    arith,
    rt.transfer_debits (reserve_pda rt).0 owner (unwrap_or amount p.idnft.yield_balance) p.bank
        q.bank,
  )
  Handles-reserve clock p q (spending call n s s' h) ne = ground (
    arith,
    still (reserve_pda rt).0 call.destination n p.bank q.bank,
    rt.transfer_debits (reserve_pda rt).0 call.destination n p.bank q.bank,
  )
  Handles-reserve clock p q (creating owner key ids params index profile slot s' h) ne =
      ground arith
  Handles-reserve clock p q (revoking owner s s' h) ne = ground arith
  Handles-reserve clock p q (closing owner s _ h) ne = ground arith
  Handles-reserve clock p q (unlocking admin h) ne = ground arith

module _ {B : Type 0} (rt : Runtime B) where
  pub rounding-unsigned :
      (clock : Clock) (p q : Position B) (step : Handles rt clock p q)
      → rounding rt clock step ≤ unsigned (handler_signer rt clock step) * share_worth p.config
  rounding-unsigned clock p q (adding owner n h) = omega arith
  rounding-unsigned clock p q (beginning owner h) = omega arith
  rounding-unsigned clock p q (completing owner h) = omega arith
  rounding-unsigned clock p q (activating owner n mode h) = omega arith
  rounding-unsigned clock p q (switching owner mode h) = omega arith
  rounding-unsigned clock p q (harvesting h) = omega arith
  rounding-unsigned clock p q (depositing depositor n h) = omega arith
  rounding-unsigned clock p q (withdrawing owner amount h) = omega arith
  rounding-unsigned clock p q (spending call n s s' h) = omega arith
  rounding-unsigned clock p q (creating owner key ids params index profile slot s' h) = omega arith
  rounding-unsigned clock p q (revoking owner s s' h) = omega arith
  rounding-unsigned clock p q (closing owner s _ h) = omega arith
  rounding-unsigned clock p q (unlocking admin h) = omega arith
