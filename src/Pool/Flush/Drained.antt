-- ===== src/Pool/Flush/Drained.antt =====
-- What a flush of the reserve leaves for those whom the reserve owes
-- (programs/vow/src/instructions/pool/flush_reserve_to_pool.rs).
use vow_protocol.Prelude.{ℕ, ◌+◌, ◌-◌, ◌≤◌, ◌<◌, ◌≡◌, ◌≢◌, some, none, arith}
use vow_protocol.Prelude.Machine.{u64_max}
use vow_protocol.State.Errors.{ok}
use vow_protocol.State.Accounts.{Pubkey, ProtocolConfig, SessionAccount, UnstakeEscrow, default_key}
use vow_protocol.State.Runtime.{Clock, Runtime, reserve_pda}
use vow_protocol.State.Position.{Position}
use vow_protocol.Pool.Flush.{PoolCall, deposit_sol, check_pool, flush_reserve_to_pool}
use vow_protocol.Treasury.Withdraw.{withdraw_yield}
use vow_protocol.Treasury.Spend.{SpendCall, yield_spend}
use vow_protocol.Vow.CompleteUnstake.{pay_amount, complete_unstake}

module _ {B : Type 0} (rt : Runtime B) where
  -- What the stake pool program documents of DepositSol: it takes the lamports, a u64, from
  -- the reserve.
  abbrev pub Deposits : PoolCall B → Type 0
  Deposits c =
      (n : ℕ) (b b' : B)
      → n ≤ u64_max
      → c.invoke (deposit_sol c (reserve_pda rt).0 n) b ≡ some b'
      → rt.lamports b' (reserve_pda rt).0 + n ≡ rt.lamports b (reserve_pda rt).0

  flush_reserve_to_pool-drains :
      (c : PoolCall B) (config : ProtocolConfig) (bank bank' : B)
      → Deposits c
      → config.spl_stake_pool ≢ default_key
      → rt.lamports bank (reserve_pda rt).0 ≤ u64_max
      → flush_reserve_to_pool rt c config bank ≡ ok bank'
      → rt.lamports bank' (reserve_pda rt).0 ≤ c.rent_exempt
  unfolding flush_reserve_to_pool check_pool
  flush_reserve_to_pool-drains c config bank bank' deposits pooled fits h =
      ground (arith, deposits (rt.lamports bank (reserve_pda rt).0 - c.rent_exempt) bank bank')

  -- After a flush of the reserve into a stake pool, whose DepositSol takes the lamports that it is told
  -- to: the reserve holds at most the rent, and every withdrawal of more yield fails, and every spend of
  -- more, whatever the identity's yield balance. (The reserve's lamports before the flush fit a u64.)
  pub flush_reserve_to_pool-strands :
      (c : PoolCall B) (p q : Position B) (bank : B) (owner : Pubkey) (n : ℕ) (clock : Clock)
      (call : SpendCall) (s s' : SessionAccount)
      → Deposits c
      → p.config.spl_stake_pool ≢ default_key
      → rt.lamports p.bank (reserve_pda rt).0 ≤ u64_max
      → flush_reserve_to_pool rt c p.config p.bank ≡ ok bank
      → c.rent_exempt < n
      → (rt.lamports bank (reserve_pda rt).0 ≤ c.rent_exempt)
        × (withdraw_yield rt owner (some n) (record p { bank = bank }) ≢ ok q)
        × (yield_spend rt clock call n s (record p { bank = bank }) ≢ ok (s', q))
  unfolding withdraw_yield yield_spend
  flush_reserve_to_pool-strands c p q bank owner n clock call s s' deposits pooled fits flushed
        more =
      let drained =
        flush_reserve_to_pool-drains c p.config p.bank bank deposits pooled fits flushed in
      (drained, λ h. ground (arith, drained), λ h. ground (arith, drained))

  -- If an unstake is completed right after a flush of the reserve into a stake pool, whose DepositSol
  -- takes the lamports that it is told to: the owner is paid at most the rent, whatever the escrow owed,
  -- and the escrow is gone. (The owner is not the reserve, and the reserve's lamports before the flush fit
  -- a u64.)
  pub flush_reserve_to_pool-underpays :
      (c : PoolCall B) (p q : Position B) (e : UnstakeEscrow) (bank : B) (owner : Pubkey)
      (clock : Clock)
      → Deposits c
      → p.escrow ≡ some e
      → p.config.spl_stake_pool ≢ default_key
      → rt.lamports p.bank (reserve_pda rt).0 ≤ u64_max
      → owner ≢ (reserve_pda rt).0
      → flush_reserve_to_pool rt c p.config p.bank ≡ ok bank
      → complete_unstake rt clock owner (record p { bank = bank }) ≡ ok q
      → (rt.lamports q.bank owner ≤ rt.lamports bank owner + c.rent_exempt) × (q.escrow ≡ none)
  unfolding complete_unstake
  flush_reserve_to_pool-underpays c p q e bank owner clock deposits has pooled fits other flushed
        done =
      let drained =
        flush_reserve_to_pool-drains c p.config p.bank bank deposits pooled fits flushed in
      let reserve = (reserve_pda rt).0 in
      let paid =
        pay_amount e.lamports_owed (rt.lamports bank reserve) p.config.total_pending_unstake in
      ground (
        arith,
        drained,
        rt.transfer_credits reserve owner paid bank q.bank,
        rt.transfer_debits reserve owner paid bank q.bank,
      )
