-- ===== src/Vow/Exactly.antt =====
-- When exactly an unstake can be begun and completed
-- (programs/vow/src/instructions/vow/begin_unstake.rs and complete_unstake.rs).
use vow_protocol.Prelude.{
  ℕ, zero, suc, ◌+◌, ◌*◌, ◌/◌, ◌≤◌, ◌<◌, ◌≡◌, ◌↔◌, ◌⊎◌, true, none, some, arith,
}
use vow_protocol.Prelude.Int.{◌≤ℤ◌}
use vow_protocol.Prelude.Machine.{u64_max, u128_max, as_u64}
use vow_protocol.State.Errors.{IsOk, IsSome}
use vow_protocol.State.Accounts.{Pubkey, VowState, ProtocolConfig, UnstakeEscrow, share_precision}
use vow_protocol.State.Runtime.{Clock, Runtime, reserve_pda}
use vow_protocol.State.Position.{Position, mature, share_value}
use vow_protocol.Harvest.{settle_idnft}
use vow_protocol.Vow.BeginUnstake.{begin_unstake}
use vow_protocol.Vow.CompleteUnstake.{pay_amount, complete_unstake}
use vow_protocol.Vow.CompleteUnstake.Payout.{pay_amount-full, pay_amount-short}
use native.Mathlib.Nat.{div-lt_iff_lt-mul}
use native.Mathlib.Decide.{dec_lt}

share_value_iff : (shares price : ℕ) → IsOk (share_value shares price) ↔ (shares * price ≤ u128_max)
unfolding share_value
share_value_iff shares price = ground arith

-- The products that settling and valuing the shares take fit a u128.
pub record CanValue (v : VowState) (c : ProtocolConfig) : Type 0 where
  pub now : v.shares * c.current_share_price ≤ u128_max
  pub last : v.shares * v.last_share_price ≤ u128_max

quotient_pos :
    (owed reserve pending : ℕ)
    → 0 < pending
    → (0 < owed * reserve / pending) ↔ ((0 < owed) × (pending ≤ owed * reserve))
quotient_pos zero reserve pending h =
    let less = div-lt_iff_lt-mul {k = pending} {x = 0 * reserve} {y = 1} h in ground (arith, less)
quotient_pos (suc n) reserve pending h =
    let less = div-lt_iff_lt-mul {k = pending} {x = suc n * reserve} {y = 1} h in
    ground (arith, less)

covered_by : (owed reserve : ℕ) → 0 < owed → reserve ≤ owed * reserve
covered_by (suc n) reserve h = omega arith
covered_by zero reserve h = omega arith

-- Something is paid exactly if something is owed and the share of it comes to a lamport.
pay_amount_pos :
    (owed reserve pending : ℕ)
    → owed ≤ pending
    → pending ≤ u64_max
    → (0 < pay_amount owed reserve pending) ↔ ((0 < owed) × (pending ≤ owed * reserve))
pay_amount_pos owed reserve pending h m = elim (dec_lt reserve pending) [
  | yes s ↦
      rw (pay_amount-short owed reserve pending h m s)
        (quotient_pos owed reserve pending (omega arith))
  | no f ↦
      rw (pay_amount-full owed reserve pending (omega arith))
        (λ due. (due, omega (arith, covered_by owed reserve due)), λ both. both.0)
]

module _ {B : Type 0} (rt : Runtime B) where
  -- All that it takes to begin an unstake.
  pub record MayBegin (clock : Clock) (owner : Pubkey) (p : Position B) : Type 0 where
    pub owned : p.idnft.owner ≡ owner
    pub first : p.escrow ≡ none
    pub active : p.idnft.active_stake ≡ true
    pub matured : (p.idnft.matured ≡ true) ⊎ (p.idnft.unlock_at ≤ℤ clock.unix_timestamp)
    pub valued : CanValue p.idnft p.config
    pub counted :
        p.config.total_pending_unstake
          + (as_u64 (p.idnft.shares * p.config.current_share_price / share_precision)
              + p.idnft.yield_balance)
        ≤ u64_max

  -- An unstake can be begun exactly by the identity's owner, while the identity is staked and has no
  -- escrow, once it is matured or its lock has run out; if the value of the shares at the config's price
  -- and at the last price can be computed in a u128, and the claim (the value, cast to a u64, with the
  -- yield balance) together with all pending claims fits a u64. (Whether it holds shares does not
  -- matter.)
  pub begin_unstake_iff :
      (clock : Clock) (owner : Pubkey) (p : Position B)
      → IsOk (begin_unstake rt clock owner p) ↔ MayBegin clock owner p
  unfolding begin_unstake mature settle_idnft share_value
  begin_unstake_iff clock owner p = ground arith

  -- All that it takes to complete an unstake whose escrow is `e`.
  pub record MayComplete (clock : Clock) (owner : Pubkey) (e : UnstakeEscrow) (p : Position B)
      : Type 0 where
    pub owned : p.idnft.owner ≡ owner
    pub claimed : e.owner ≡ owner
    pub waited : e.deactivation_epoch < clock.epoch
    pub due : 0 < e.lamports_owed
    pub share :
        p.config.total_pending_unstake ≤ e.lamports_owed * rt.lamports p.bank (reserve_pda rt).0
    pub transferred : IsSome (
        rt.transfer
          (reserve_pda rt).0
          owner
          (pay_amount e.lamports_owed
            (rt.lamports p.bank (reserve_pda rt).0)
            p.config.total_pending_unstake)
          p.bank)

  -- An unstake whose escrow is among the pending claims, which fit a u64, can be completed exactly by the owner
  -- of the identity and of the escrow, in an epoch after the escrow's, if the escrow owes something, its
  -- part of the reserve (claim * reserve / pending) comes to at least a lamport, and the chain makes the
  -- transfer. An escrow that owes nothing can never be completed.
  pub complete_unstake_iff :
      (clock : Clock) (owner : Pubkey) (e : UnstakeEscrow) (p : Position B)
      → p.escrow ≡ some e
      → e.lamports_owed ≤ p.config.total_pending_unstake
      → p.config.total_pending_unstake ≤ u64_max
      → IsOk (complete_unstake rt clock owner p) ↔ MayComplete clock owner e p
  unfolding complete_unstake
  complete_unstake_iff clock owner e p has backed fits = ground (
    arith,
    pay_amount_pos e.lamports_owed (rt.lamports p.bank (reserve_pda rt).0)
        p.config.total_pending_unstake,
  )
