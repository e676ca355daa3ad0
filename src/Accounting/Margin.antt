-- ===== src/Accounting/Margin.antt =====
-- How far the protocol's debts can outgrow its reserve, on a chain without a stake pool and at any share
-- price.
pub mod Reserve
use vow_protocol.Prelude.{
  ℕ, ◌+◌, ◌*◌, ◌/◌, ◌≤◌, ◌<◌, ◌≡◌, ◌≢◌, ◌∙◌, refl, ap, Option, none, some, List, [], ◌∷◌, arith,
}
use vow_protocol.Prelude.Keyed.{find, total, total-replace}
use vow_protocol.State.Errors.{ok, unwrap_or}
use vow_protocol.State.Accounts.{
  Pubkey, YieldMode, compound, hybrid, treasury, ProtocolConfig, SessionAccount, share_precision,
  default_key,
}
use vow_protocol.Prelude.Int.{ℤ}
use vow_protocol.State.Events.{Event}
use vow_protocol.State.Runtime.{Clock, Runtime, reserve_pda}
use vow_protocol.State.Position.{Position, mature}
use vow_protocol.Harvest.{keep, credit, realise, harvest}
use vow_protocol.Vow.AddStake.{relock, upgrade, add_stake}
use vow_protocol.Vow.BeginUnstake.{begin_unstake}
use vow_protocol.Vow.CompleteUnstake.{pay_amount, complete_unstake}
use vow_protocol.Vow.ActivateStake.{activate_stake}
use vow_protocol.Vow.UpdateYieldMode.{update_yield_mode}
use vow_protocol.Treasury.Deposit.{deposit_yield_balance}
use vow_protocol.Treasury.Withdraw.{withdraw_yield}
use vow_protocol.Treasury.Spend.{yield_spend}
use vow_protocol.Session.Create.{create_session}
use vow_protocol.Session.Revoke.{revoke_session}
use vow_protocol.Program.Process.{run_fast_unlock}
use vow_protocol.Program.Steps.{
  Steps, minted, handled, configured, moved, add_slot-ok, new_slot, Handles, adding, beginning,
  completing, activating, switching, harvesting, depositing, withdrawing, spending, creating,
  revoking, closing, unlocking,
}
use vow_protocol.Vow.Unstake.{worth}
use vow_protocol.Harvest.Settle.{mature_keeps, harvest-ok}
use vow_protocol.Program.Steps.Process.Signers.{handler_signer, step_signer, signer, apply_signed}
use vow_protocol.Program.World.{Slot, World, asset_of, position, store}
use vow_protocol.Vow.Mint.{mint}
use vow_protocol.Program.Process.{Instruction}
use vow_protocol.Program.Frame.{Handles-SameRates}
use vow_protocol.Program.Run.{apply, run}
use vow_protocol.Program.Governance.{IsRuledBy, IsRuledBy-refl, Steps-IsRuledBy, AreUnsignedBy}
use vow_protocol.Accounting.Margin.Reserve.{
  share_worth, unsigned, Handles-reserve, rounding-unsigned,
}
use vow_protocol.Accounting.{owed}
use vow_protocol.Accounting.Claims.{
  claim, paid_in, paid_out, rounding, Handles-claim, shares_for-worth,
}
use vow_protocol.Accounting.Solvency.{StaysPut}

-- The claim of one identity at a share price.
abbrev pub claim_of : ℕ → Slot → ℕ
claim_of price s = s.idnft.shares * price / share_precision + s.idnft.yield_balance + owed s.escrow

-- All that the protocol owes.
abbrev pub debts : {B : Type 0} → World B → ℕ
debts w = total (claim_of w.config.current_share_price) w.slots

total_at :
    {c d : ℕ} (slots : List Slot) → d ≡ c → total (claim_of d) slots ≡ total (claim_of c) slots
total_at slots e = ap (λ price. total (claim_of price) slots) e

added-total :
    (price : ℕ) (t : Slot) (slots : List Slot)
    → total (claim_of price) (t ∷ slots) ≡ claim_of price t + total (claim_of price) slots
unfolding total
added-total price t slots = refl

-- There is no stake pool, and shares have a price.
pub record IsRuledAlone (admin : Pubkey) (c : ProtocolConfig) : Type 0 where
  pub ruled : c.admin ≡ admin
  pub pool : c.spl_stake_pool ≡ default_key
  pub price : 0 < c.current_share_price

-- The transactions of a history that nobody signs.
abbrev pub unsigned_count : {B : Type 0} → List (Clock × Instruction B) → ℕ
unsigned_count [] = 0
unsigned_count ((_, i) ∷ is) = unsigned (signer i) + unsigned_count is

module _ {B : Type 0} (rt : Runtime B) where
  -- From `w` to `w'` the debts grow by no more than the reserve does, but for `slack`.
  abbrev pub KeepsMargin : ℕ → World B → World B → Type 0
  KeepsMargin slack w w' =
      debts w' + rt.lamports w.bank (reserve_pda rt).0
      ≤ debts w + rt.lamports w'.bank (reserve_pda rt).0 + slack

module _ {B : Type 0} (rt : Runtime B) (still : StaysPut rt) where
  mint-margin :
      (clock : Clock) (owner n : ℕ) (mode : YieldMode) (p : Position B) (c : ProtocolConfig) (b : B)
      (log : List Event)
      → mint rt clock owner n mode c b log ≡ ok p
      → owner ≢ (reserve_pda rt).0
      → (claim p + rt.lamports b (reserve_pda rt).0 ≤ rt.lamports p.bank (reserve_pda rt).0)
        × (p.config.current_share_price ≡ c.current_share_price)
  unfolding mint
  mint-margin clock owner n mode p c b log h ne = ground (
    arith,
    shares_for-worth n c.current_share_price,
    rt.transfer_credits owner (reserve_pda rt).0 n b p.bank,
  )

  minted-margin :
      (clock : Clock) (owner n : ℕ) (mode : YieldMode) (p : Position B) (w : World B)
      → mint rt clock owner n mode w.config w.bank w.log ≡ ok p
      → owner ≢ (reserve_pda rt).0
      → total (claim_of p.config.current_share_price) (new_slot p ∷ w.slots)
          + rt.lamports w.bank (reserve_pda rt).0
        ≤ debts w + rt.lamports p.bank (reserve_pda rt).0
  minted-margin clock owner n mode p w ran ne =
      let (paid, kept) = mint-margin clock owner n mode p w.config w.bank w.log ran ne in
      omega (
        arith,
        paid,
        added-total p.config.current_share_price (new_slot p) w.slots,
        total_at w.slots kept,
      )

  handled-margin :
      (clock : Clock) (k : Pubkey) (t : Slot) (sessions : List SessionAccount) (p : Position B)
      (w : World B) (step : Handles rt clock (position w t) p)
      → find asset_of k w.slots ≡ some t
      → handler_signer rt clock step ≢ some ((reserve_pda rt).0)
      → 0 < w.config.current_share_price
      → KeepsMargin rt
          (unsigned (handler_signer rt clock step) * share_worth w.config)
          w
          (store k sessions p w)
  handled-margin clock k t sessions p w step found ne price =
      let new : Slot = record { idnft = p.idnft; escrow = p.escrow; sessions = sessions } in
      let same = (Handles-SameRates rt clock (position w t) p step).price in
      omega (
        arith,
        Handles-claim rt clock (position w t) p step price,
        Handles-reserve rt still clock (position w t) p step ne,
        rounding-unsigned rt clock (position w t) p step,
        total-replace asset_of (claim_of p.config.current_share_price) k new t w.slots found,
        total_at w.slots same,
        ap (λ c. claim_of c t) same,
      )

  Steps-margin :
      (clock : Clock) (w w' : World B) (step : Steps rt clock w w')
      → step_signer rt clock step ≢ some ((reserve_pda rt).0)
      → w.config.spl_stake_pool ≡ default_key
      → w'.config.current_share_price ≡ w.config.current_share_price
      → 0 < w.config.current_share_price
      → KeepsMargin rt (unsigned (step_signer rt clock step) * share_worth w.config) w w'
  Steps-margin clock w w' (minted owner n mode p ran added) ne pool same price =
      rw (add_slot-ok p w w' added).1
        (omega (arith, minted-margin clock owner n mode p w ran (λ e. ne (ap some e))))
  Steps-margin clock w w' (handled k t sessions p found step _ _ e) ne pool same price =
      rw e (handled-margin clock k t sessions p w step found ne price)
  Steps-margin clock w w' (configured config log step e) ne pool same price =
      let kept : config.current_share_price ≡ w.config.current_share_price = rw e at same in
      rw e (omega (arith, total_at w.slots kept))
  Steps-margin clock w w' (moved bank keeps e) ne pool same price =
      rw e (rw (keeps pool) (omega arith))

  -- What one transaction keeps.
  abbrev Keeps : ℕ → World B → World B → Type 0
  Keeps slack w w' = IsRuledBy w.config w'.config × KeepsMargin rt slack w w'

  apply-margin :
      (clock : Clock) (i : Instruction B) (admin : Pubkey) (w : World B)
      → signer i ≢ some admin
      → signer i ≢ some ((reserve_pda rt).0)
      → IsRuledAlone admin w.config
      → Keeps (unsigned (signer i) * share_worth w.config) w (apply rt clock i w)
  apply-margin clock i admin w a r c =
      apply_signed rt (Keeps (unsigned (signer i) * share_worth w.config) w) clock i w
        (λ w' step e.
          let ruled = Steps-IsRuledBy rt clock w w' step (rw (e, c.ruled) a) in
          let margin = Steps-margin clock w w' step (rw e r) c.pool (ruled.price c.pool) c.price in
          (ruled, rw e at margin))
        (IsRuledBy-refl w.config, omega arith)

  -- On a chain without a stake pool, from a positive share price, over any history that neither the admin
  -- nor the reserve signs: what the protocol owes (all shares at the share price, all yield
  -- balances, and what all escrows owe) grows by no more than the reserve does, but for the
  -- rounding of harvests: at most price / 10^12 + 1 lamports, a share's worth, for each transaction of the history that nobody signs.
  -- (A transfer from an account to itself leaves its balance.)
  pub run-margin :
      (is : List (Clock × Instruction B)) (admin : Pubkey) (w : World B)
      → AreUnsignedBy rt admin is
      → AreUnsignedBy rt (reserve_pda rt).0 is
      → IsRuledAlone admin w.config
      → KeepsMargin rt (unsigned_count is * share_worth w.config) w (run rt is w)
  unfolding run
  run-margin [] admin w a r c = omega arith
  run-margin ((clock, i) ∷ is) admin w a r c =
      let (ruled, first) = apply-margin clock i admin w a.0 r.0 c in
      let same = ruled.price c.pool in
      let rest = run-margin is admin (apply rt clock i w) a.1 r.1 (record {
        ruled = ruled.admin ∙ c.ruled;
        pool = ruled.pool ∙ c.pool;
        price = rw same c.price;
      }) in
      let slack = ap (λ price. unsigned_count is * (price / share_precision + 1)) same in
      omega (arith, first, rest, slack)
