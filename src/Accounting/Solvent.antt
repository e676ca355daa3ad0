-- ===== src/Accounting/Solvent.antt =====
-- What a handler does to the reserve and to what an identity is due of it, on a chain without a stake
-- pool at the opening share price (programs/vow/src/instructions/).
use vow_protocol.Prelude.{ℕ, ◌+◌, ◌*◌, ◌/◌, ◌≤◌, ◌≡◌, ◌≢◌, refl, Option, none, some, List, arith}
use native.Mathlib.Nat.{div-le_of_le-mul, mul-le-mul_right}
use native.Mathlib.Decide.{dec_lt}
use vow_protocol.Prelude.Int.{pos}
use vow_protocol.State.Errors.{ok, unwrap_or, Ensures}
use vow_protocol.State.Accounts.{
  Pubkey, VowState, ProtocolConfig, YieldMode, SessionAccount, UnstakeEscrow, share_precision,
}
use vow_protocol.State.Events.{Event}
use vow_protocol.State.Runtime.{Clock, Runtime, reserve_pda}
use vow_protocol.State.Position.{Position, mature, share_value, shares_for}
use vow_protocol.Harvest.{keep, realise, settle_idnft, harvest}
use vow_protocol.Harvest.Settle.{mature_keeps}
use vow_protocol.Vow.Mint.{mint}
use vow_protocol.Vow.AddStake.{upgrade, relock, add_stake}
use vow_protocol.Vow.BeginUnstake.{begin_unstake}
use vow_protocol.Vow.CompleteUnstake.{pay_amount, retire, complete_unstake}
use vow_protocol.Vow.ActivateStake.{activate_stake}
use vow_protocol.Vow.UpdateYieldMode.{update_yield_mode}
use vow_protocol.Treasury.Deposit.{deposit_yield_balance}
use vow_protocol.Treasury.Withdraw.{withdraw_yield}
use vow_protocol.Treasury.Spend.{SpendCall, yield_spend}
use vow_protocol.Accounting.{owed}

-- No gain is left to settle or to realise at the opening price.
pub record IsSettled (v : VowState) : Type 0 where
  pub price : v.last_share_price ≡ share_precision
  pub gain : v.accrued_gain ≡ pos 0

-- What an identity is due of the reserve: a share is a lamport at the opening price.
abbrev pub due : VowState → Option UnstakeEscrow → ℕ
due v e = v.shares + v.yield_balance + owed e

shares_for-par : (n price : ℕ) → price ≡ share_precision → Ensures (λ s. s ≡ n) (shares_for n price)
unfolding shares_for
shares_for-par n price par = ground arith

share_value-par :
    (n price : ℕ) → price ≡ share_precision → Ensures (λ s. s ≡ n) (share_value n price)
unfolding share_value
share_value-par n price par = ground arith

settle_idnft-par :
    (v : VowState) (c : ProtocolConfig)
    → IsSettled v
    → c.current_share_price ≡ share_precision
    → settle_idnft v c ≡ ok v
unfolding settle_idnft
settle_idnft-par v c s par = ground arith

-- A pro-rata payment is at most the claim, also where the claim is not among the pending ones.
pub pay_amount_le : (claim reserve pending : ℕ) → pay_amount claim reserve pending ≤ claim
unfolding pay_amount
pay_amount_le claim reserve pending = elim (dec_lt reserve pending) [
  | yes short ↦
      let share : claim * reserve / pending ≤ claim =
        div-le_of_le-mul pending
          (omega (arith, mul-le-mul_right {m = reserve} {n = pending} claim (omega arith))) in
      let nothing : 0 / pending ≤ 0 = div-le_of_le-mul pending (omega arith) in
      ground (arith, share, nothing)
  | no covered ↦ ground arith
]

module _ {B : Type 0} (rt : Runtime B) where
  -- The reserve has grown by at least as much as what the identity is due of it.
  pub record IsCovered (p q : Position B) : Type 0 where
    pub due :
        due q.idnft q.escrow + rt.lamports p.bank (reserve_pda rt).0
        ≤ due p.idnft p.escrow + rt.lamports q.bank (reserve_pda rt).0
    pub settled : IsSettled q.idnft

module _ {B : Type 0} (rt : Runtime B) (p q : Position B) (clock : Clock)
    (settled : IsSettled p.idnft) (par : p.config.current_share_price ≡ share_precision) where
  pub add_stake-IsCovered :
      (owner : Pubkey) (n : ℕ)
      → owner ≢ (reserve_pda rt).0
      → add_stake rt clock owner n p ≡ ok q
      → IsCovered rt p q
  unfolding add_stake relock upgrade
  add_stake-IsCovered owner n ne h = ground (
    arith,
    settle_idnft-par p.idnft p.config settled par,
    shares_for-par n p.config.current_share_price par,
    rt.transfer_credits owner (reserve_pda rt).0 n p.bank q.bank,
  )

  pub begin_unstake-IsCovered :
      (owner : Pubkey) → begin_unstake rt clock owner p ≡ ok q → IsCovered rt p q
  unfolding begin_unstake
  begin_unstake-IsCovered owner h = ground (
    arith,
    mature_keeps clock p,
    settle_idnft-par (mature clock p).idnft (mature clock p).config,
    share_value-par p.idnft.shares p.config.current_share_price par,
  )

  pub complete_unstake-IsCovered :
      (owner : Pubkey)
      → owner ≢ (reserve_pda rt).0
      → complete_unstake rt clock owner p ≡ ok q
      → IsCovered rt p q
  unfolding complete_unstake retire
  complete_unstake-IsCovered owner ne h = by_escrow p.escrow refl
    where
      by_escrow : (o : Option UnstakeEscrow) → p.escrow ≡ o → IsCovered rt p q
      by_escrow none e = ground arith
      by_escrow (some x) e =
          let reserve = (reserve_pda rt).0 in
          let held = rt.lamports p.bank reserve in
          let paid = pay_amount x.lamports_owed held p.config.total_pending_unstake in
          ground (
            arith,
            pay_amount_le x.lamports_owed held p.config.total_pending_unstake,
            rt.transfer_debits reserve owner paid p.bank q.bank,
          )

  pub activate_stake-IsCovered :
      (owner : Pubkey) (n : ℕ) (mode : YieldMode)
      → owner ≢ (reserve_pda rt).0
      → activate_stake rt clock owner n mode p ≡ ok q
      → IsCovered rt p q
  unfolding activate_stake
  activate_stake-IsCovered owner n mode ne h = ground (
    arith,
    settle_idnft-par p.idnft p.config settled par,
    shares_for-par n p.config.current_share_price par,
    rt.transfer_credits owner (reserve_pda rt).0 n p.bank q.bank,
  )

  pub update_yield_mode-IsCovered :
      (owner : Pubkey) (mode : YieldMode) → update_yield_mode owner mode p ≡ ok q → IsCovered rt p q
  unfolding update_yield_mode
  update_yield_mode-IsCovered owner mode h =
      ground (arith, settle_idnft-par p.idnft p.config settled par)

  pub harvest-IsCovered : harvest clock p ≡ ok q → IsCovered rt p q
  unfolding harvest realise keep
  harvest-IsCovered h =
      ground (
        arith,
        mature_keeps clock p,
        settle_idnft-par (mature clock p).idnft (mature clock p).config,
      )

  pub deposit_yield_balance-IsCovered :
      (depositor : Pubkey) (n : ℕ)
      → depositor ≢ (reserve_pda rt).0
      → deposit_yield_balance rt depositor n p ≡ ok q
      → IsCovered rt p q
  unfolding deposit_yield_balance
  deposit_yield_balance-IsCovered depositor n ne h =
      ground (arith, rt.transfer_credits depositor (reserve_pda rt).0 n p.bank q.bank)

  pub withdraw_yield-IsCovered :
      (owner : Pubkey) (amount : Option ℕ)
      → owner ≢ (reserve_pda rt).0
      → withdraw_yield rt owner amount p ≡ ok q
      → IsCovered rt p q
  unfolding withdraw_yield
  withdraw_yield-IsCovered owner amount ne h = ground (
    arith,
    rt.transfer_debits (reserve_pda rt).0 owner (unwrap_or amount p.idnft.yield_balance) p.bank
        q.bank,
  )

  -- A spend to the reserve itself leaves the reserve as it is.
  pub yield_spend-IsCovered :
      (call : SpendCall) (n : ℕ) (s s' : SessionAccount)
      → ((a b : Pubkey) (m : ℕ) (x x' : B)
          → a ≡ b
          → rt.transfer a b m x ≡ some x'
          → rt.lamports x' a ≡ rt.lamports x a)
      → yield_spend rt clock call n s p ≡ ok (s', q)
      → IsCovered rt p q
  unfolding yield_spend
  yield_spend-IsCovered call n s s' still h =
      let reserve = (reserve_pda rt).0 in
      ground (
        arith,
        still reserve call.destination n p.bank q.bank,
        rt.transfer_debits reserve call.destination n p.bank q.bank,
      )

module _ {B : Type 0} (rt : Runtime B) (clock : Clock) where
  -- A new identity is due what its owner has paid in.
  pub mint-due :
      (owner n : ℕ) (mode : YieldMode) (p : Position B) (c : ProtocolConfig) (bank : B)
      (log : List Event)
      → owner ≢ (reserve_pda rt).0
      → c.current_share_price ≡ share_precision
      → mint rt clock owner n mode c bank log ≡ ok p
      → (due p.idnft p.escrow + rt.lamports bank (reserve_pda rt).0
          ≡ rt.lamports p.bank (reserve_pda rt).0)
        × IsSettled p.idnft
  unfolding mint
  mint-due owner n mode p c bank log ne par h = ground (
    arith,
    shares_for-par n c.current_share_price par,
    rt.transfer_credits owner (reserve_pda rt).0 n bank p.bank,
  )
