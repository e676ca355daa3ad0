-- ===== src/Vow/CompleteUnstake/Payout.antt =====
-- What an unstaker is paid, and what that leaves for the others.
use vow_protocol.Prelude.{ℕ, ◌+◌, ◌-◌, ◌*◌, ◌/◌, ◌≤◌, ◌<◌, ◌≡◌, ◌≢◌, ◌^◌, none, some, false, arith}
use vow_protocol.Prelude.Machine.{u64_max, u128_max}
use native.Mathlib.Nat.{
  mul-le-mul_left, div-lt_iff_lt-mul, mul-lt-mul_of_pos_left, mul-le-mul_right, div-le_of_le-mul,
  div-mul-le_self, mod-eq_of_lt,
}
use native.Mathlib.Decide.{dec_lt}
use vow_protocol.State.Errors.{Result, ok, vow, err, reserve_sufficient}
use vow_protocol.State.Accounts.{Pubkey, UnstakeEscrow, ProtocolConfig, default_key}
use vow_protocol.State.Runtime.{Clock, Runtime, reserve_pda}
use vow_protocol.State.Position.{Position}
use vow_protocol.Vow.CompleteUnstake.{pay_amount, complete_unstake}
use vow_protocol.Pool.Flush.{PoolCall}
use vow_protocol.Pool.Withdraw.{withdraw_from_pool}

-- A product of two u64 values fits a u128.
product_fits : (a b : ℕ) → a ≤ u64_max → b ≤ u64_max → a * b ≤ u128_max
product_fits a b ha hb = grind arith

-- The pro-rata share is at most the claim and at most the reserve.
share_bounds :
    (owed reserve pending : ℕ)
    → owed ≤ pending
    → reserve < pending
    → (owed * reserve / pending ≤ owed) × (owed * reserve / pending ≤ reserve)
share_bounds owed reserve pending h s = (
  div-le_of_le-mul pending
      (omega (arith, mul-le-mul_right {m = reserve} {n = pending} owed (omega arith))),
  div-le_of_le-mul pending (mul-le-mul_right {m = owed} {n = pending} reserve h),
)

pub pay_amount-full :
    (owed reserve pending : ℕ) → pending ≤ reserve → pay_amount owed reserve pending ≡ owed
unfolding pay_amount
pay_amount-full owed reserve pending h = ground arith

-- Where the pending claims exceed the reserve, the payment is the exact pro-rata quotient.
pub pay_amount-short :
    (owed reserve pending : ℕ)
    → owed ≤ pending
    → pending ≤ u64_max
    → reserve < pending
    → pay_amount owed reserve pending ≡ owed * reserve / pending
unfolding pay_amount
pay_amount-short owed reserve pending h m s = ground (
  arith,
  product_fits owed reserve (omega arith) (omega arith),
  (share_bounds owed reserve pending h s).0,
  mod-eq_of_lt {n = owed * reserve / pending} {m = 2 ^ 64},
)

fair_by_parts :
    (owed others paid left pending reserve : ℕ)
    → pending ≡ owed + others
    → reserve ≡ paid + left
    → paid * pending ≤ owed * reserve
    → reserve * others ≤ left * pending
fair_by_parts owed others paid left pending reserve e f h = multiplied (rw (e, f) at h)
  where
    multiplied : paid * (owed + others) ≤ owed * (paid + left) → reserve * others ≤ left * pending
    multiplied h = rw (e, f) (omega arith)

-- The payment is at most the claim, and at most the reserve, where the claim is among the pending
-- ones and these fit a u64.
pub pay_amount_bounds :
    (owed reserve pending : ℕ)
    → owed ≤ pending
    → pending ≤ u64_max
    → (pay_amount owed reserve pending ≤ owed) × (pay_amount owed reserve pending ≤ reserve)
pay_amount_bounds owed reserve pending h m = elim (dec_lt reserve pending) [
  | yes s ↦ rw (pay_amount-short owed reserve pending h m s) (share_bounds owed reserve pending h s)
  | no f ↦ rw (pay_amount-full owed reserve pending (omega arith)) (omega arith)
]

-- A payment leaves the other claims covered by no smaller part than before: `reserve / pending`
-- does not fall. (The claim is among the pending ones, which fit a u64.)
pub pay_amount_fair :
    (owed reserve pending : ℕ)
    → owed ≤ pending
    → pending ≤ u64_max
    → reserve * (pending - owed) ≤ (reserve - pay_amount owed reserve pending) * pending
pay_amount_fair owed reserve pending h m = elim (dec_lt reserve pending) [
  | yes s ↦
      let q = owed * reserve / pending in
      let b = share_bounds owed reserve pending h s in
      rw (pay_amount-short owed reserve pending h m s) (
        fair_by_parts owed (pending - owed) q (reserve - q) pending reserve (omega arith)
          (omega (arith, b)) (div-mul-le_self (owed * reserve) pending))
  | no f ↦ rw (pay_amount-full owed reserve pending (omega arith)) (
      fair_by_parts owed (pending - owed) owed (reserve - owed) pending reserve (omega arith)
        (omega arith) (mul-le-mul_left owed (omega arith)))
]

pay_amount-nothing : (reserve pending : ℕ) → pay_amount 0 reserve pending ≡ 0
unfolding pay_amount
pay_amount-nothing reserve pending = ground arith

-- A share short of the reserve is less than the claim.
short_share :
    (owed reserve pending : ℕ) → 0 < owed → reserve < pending → owed * reserve / pending < owed
short_share owed reserve pending h s =
    (div-lt_iff_lt-mul {k = pending} {x = owed * reserve} {y = owed} (omega arith)).1
      (mul-lt-mul_of_pos_left {m = reserve} {n = pending} {k = owed} s h)

-- The call returned, and this much is pending then.
abbrev pub Leaves : {B : Type 0} → ℕ → Result (Position B) → Type 0
Leaves n (ok q) = q.config.total_pending_unstake ≡ n
Leaves n (err _) = ⊥

module _ {B : Type 0} (rt : Runtime B) where
  -- A completed unstake pays the owner out of the reserve, lamport for lamport: more than nothing,
  -- and no more than the escrow owes. It closes the escrow, and the identity is dormant. (The
  -- escrow's claim is among the pending ones, which fit a u64, and the owner is not the reserve.)
  pub complete_unstake-pays :
      (clock : Clock) (owner : Pubkey) (e : UnstakeEscrow) (p q : Position B)
      → p.escrow ≡ some e
      → e.lamports_owed ≤ p.config.total_pending_unstake
      → p.config.total_pending_unstake ≤ u64_max
      → owner ≢ (reserve_pda rt).0
      → complete_unstake rt clock owner p ≡ ok q
      → let reserve = (reserve_pda rt).0 in
        let paid =
          pay_amount e.lamports_owed (rt.lamports p.bank reserve) p.config.total_pending_unstake in
        (0 < paid)
        × (paid ≤ e.lamports_owed)
        × (rt.lamports q.bank owner ≡ rt.lamports p.bank owner + paid)
        × (rt.lamports q.bank reserve + paid ≡ rt.lamports p.bank reserve)
        × (q.escrow ≡ none)
        × (q.idnft.active_stake ≡ false)
  unfolding complete_unstake
  complete_unstake-pays clock owner e p q has backed fits ne h =
      let reserve = (reserve_pda rt).0 in
      let paid =
        pay_amount e.lamports_owed (rt.lamports p.bank reserve) p.config.total_pending_unstake in
      ground (
        arith,
        pay_amount_bounds e.lamports_owed (rt.lamports p.bank reserve)
            p.config.total_pending_unstake,
        rt.transfer_credits reserve owner paid p.bank q.bank,
        rt.transfer_debits reserve owner paid p.bank q.bank,
      )

  -- An identity whose escrow owes nothing never completes its unstake, at any time and whatever
  -- the reserve has.
  pub complete_unstake-stuck :
      (clock : Clock) (owner : Pubkey) (e : UnstakeEscrow) (p q : Position B)
      → p.escrow ≡ some e
      → e.lamports_owed ≡ 0
      → complete_unstake rt clock owner p ≢ ok q
  unfolding complete_unstake
  complete_unstake-stuck clock owner e p q has zero h = ground (
    arith,
    pay_amount-nothing (rt.lamports p.bank (reserve_pda rt).0) p.config.total_pending_unstake,
  )

  -- While the reserve covers this escrow's claim, which is not 0, but not all pending claims,
  -- `withdraw_from_pool` refuses to refill the reserve for it (given the right pool and mint), and
  -- the payment of `complete_unstake` is less than the claim.
  pub withdraw_from_pool-shortfall :
      (c : PoolCall B) (e : UnstakeEscrow) (config : ProtocolConfig) (bank : B)
      → config.spl_stake_pool ≢ default_key
      → c.spl_pool ≡ config.spl_stake_pool
      → c.pool_mint ≡ config.spl_pool_mint
      → 0 < e.lamports_owed
      → e.lamports_owed ≤ rt.lamports bank (reserve_pda rt).0
      → rt.lamports bank (reserve_pda rt).0 < config.total_pending_unstake
      → config.total_pending_unstake ≤ u64_max
      → (withdraw_from_pool rt c e config bank ≡ err (vow reserve_sufficient))
        × (pay_amount e.lamports_owed
              (rt.lamports bank (reserve_pda rt).0)
              config.total_pending_unstake
            < e.lamports_owed)
  unfolding withdraw_from_pool
  withdraw_from_pool-shortfall c e config bank pool key mint some_owed covered short fits =
      let reserve = rt.lamports bank (reserve_pda rt).0 in
      (
        ground arith,
        rw
            (pay_amount-short e.lamports_owed reserve config.total_pending_unstake (omega arith)
              fits short)
            (short_share e.lamports_owed reserve config.total_pending_unstake some_owed short),
      )

  -- `complete_unstake` succeeds for the owner of the identity and of its escrow, in every epoch after
  -- that of the escrow, where the reserve and the payment are not 0 and the chain makes the transfer.
  -- It takes the escrow's claim off the pending ones.
  pub complete_unstake_succeeds :
      (clock : Clock) (owner : Pubkey) (e : UnstakeEscrow) (p : Position B) (bank : B)
      → p.escrow ≡ some e
      → p.idnft.owner ≡ owner
      → e.owner ≡ owner
      → e.deactivation_epoch < clock.epoch
      → 0 < rt.lamports p.bank (reserve_pda rt).0
      → 0
        < pay_amount e.lamports_owed
            (rt.lamports p.bank (reserve_pda rt).0)
            p.config.total_pending_unstake
      → rt.transfer
          (reserve_pda rt).0
          owner
          (pay_amount e.lamports_owed
            (rt.lamports p.bank (reserve_pda rt).0)
            p.config.total_pending_unstake)
          p.bank
        ≡ some bank
      → Leaves
          (p.config.total_pending_unstake - e.lamports_owed)
          (complete_unstake rt clock owner p)
  unfolding complete_unstake
  complete_unstake_succeeds clock owner e p bank has own own' epoch some_reserve some_pay sent =
      ground arith
