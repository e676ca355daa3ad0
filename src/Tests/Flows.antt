-- ===== src/Tests/Flows.antt =====
-- The theorems on several instructions one after the other.
use vow_protocol.Prelude.{
  ℕ, ◌+◌, ◌-◌, ◌*◌, ◌==◌, if◌then◌else◌, ◌≤◌, ◌≡◌, ◌≢◌, refl, none, some, Option, inl, inr, [], ◌∷◌,
  ◌++◌, leb, replicate, arith,
}
use vow_protocol.Prelude.Int.{pos}
use vow_protocol.Prelude.Bytes.{from_le_bytes, le_bytes, from_le_bytes-le_bytes}
use vow_protocol.Prelude.Machine.{u64_max}
use vow_protocol.State.Errors.{ok, ◌>>=◌}
use vow_protocol.State.Accounts.{SessionAccount}
use vow_protocol.State.Runtime.{reserve_pda}
use vow_protocol.State.Position.{Position}
use vow_protocol.Pool.Account.{PoolInstruction, read_le, reserve_stake_of, manager_fee_of}
use vow_protocol.Pool.Flush.{PoolCall, deposit_sol, check_pool, flush_reserve_to_pool}
use vow_protocol.Pool.Flush.Drained.{
  Deposits, flush_reserve_to_pool-strands, flush_reserve_to_pool-underpays,
}
use vow_protocol.Session.Create.{SessionParams, create_session, fill_program_ids, resolve_params}
use vow_protocol.Session.Opens.{LeavesYield, create_session-spends}
use vow_protocol.Treasury.Withdraw.{withdraw_yield}
use vow_protocol.Treasury.Spend.{contains, yield_spend}
use vow_protocol.Vow.BeginUnstake.{begin_unstake}
use vow_protocol.Vow.CompleteUnstake.{pay_amount, retire, complete_unstake}
use vow_protocol.Vow.Unstake.{EndsWith, unstake-pays_out}
use vow_protocol.Tests.Ledger.{
  Balances, chain, address, send, or_else, at_time, alice, bob, session_key, dapp, xnt,
}
use vow_protocol.Tests.Calls.{reserve, funded, held, pool_call, claim, owed, alice_is_not_reserve}
use vow_protocol.Tests.Spends.{session, call}

-- DepositSol, as far as the reserve's balance goes.
abbrev deposit_of : PoolInstruction → ℕ
unfolding from_le_bytes
deposit_of i = elim i.data_bytes [ [] ↦ 0 | tag ∷ bytes ↦ from_le_bytes bytes ]

abbrev take_deposit : PoolInstruction → Balances → Option Balances
take_deposit i b =
    if leb (deposit_of i) (b reserve)
    then some (λ k. if k == reserve then b k - deposit_of i else b k)
    else none

abbrev live_pool : PoolCall Balances
live_pool = record pool_call {
  pool_bytes = replicate 131 0 ++ (82 ∷ replicate 63 0 ++ (83 ∷ replicate 100 0));
  invoke = take_deposit;
}

deposit_of-deposit_sol : (to n : ℕ) → n ≤ u64_max → deposit_of (deposit_sol live_pool to n) ≡ n
unfolding deposit_sol deposit_of from_le_bytes
deposit_of-deposit_sol to n fits = from_le_bytes-le_bytes 8 n (omega arith)

reserve_is_reserve_pda : reserve ≡ (reserve_pda chain).0
unfolding reserve_pda address from_le_bytes
reserve_is_reserve_pda = refl

live_pool-Deposits : Deposits chain live_pool
live_pool-Deposits n b b' fits h =
    ground (arith, reserve_is_reserve_pda, deposit_of-deposit_sol (reserve_pda chain).0 n fits)

abbrev pooled : Position Balances
pooled = record owed { config = record owed.config { total_pending_unstake = 207 * xnt } }

abbrev flushed : Balances
unfolding flush_reserve_to_pool check_pool deposit_sol reserve_stake_of manager_fee_of read_le
    from_le_bytes le_bytes reserve_pda address
flushed = or_else funded (flush_reserve_to_pool chain live_pool pooled.config pooled.bank)

flushed_ok : flush_reserve_to_pool chain live_pool pooled.config pooled.bank ≡ ok flushed
unfolding flush_reserve_to_pool check_pool deposit_sol reserve_stake_of manager_fee_of read_le
    from_le_bytes le_bytes reserve_pda address
flushed_ok = refl

flush_reserve_to_pool-strands_example :
    (chain.lamports flushed (reserve_pda chain).0 ≤ live_pool.rent_exempt)
    × (withdraw_yield chain alice (some (5 * xnt)) (record pooled { bank = flushed }) ≢ ok pooled)
    × (yield_spend chain
          (at_time 8_000_000 5)
          call
          (5 * xnt)
          session
          (record pooled { bank = flushed })
        ≢ ok (session, pooled))
unfolding reserve_pda address
flush_reserve_to_pool-strands_example =
    flush_reserve_to_pool-strands chain live_pool pooled pooled flushed alice (5 * xnt)
      (at_time 8_000_000 5) call session session live_pool-Deposits (omega arith) (omega arith)
      flushed_ok (omega arith)

-- Alice completes her unstake on the empty reserve.
abbrev short_paid : Position Balances
unfolding complete_unstake pay_amount retire reserve_pda address from_le_bytes send flushed
short_paid =
    or_else pooled
      (complete_unstake chain (at_time 8_200_000 6) alice (record pooled { bank = flushed }))

short_paid_ok :
    complete_unstake chain (at_time 8_200_000 6) alice (record pooled { bank = flushed })
    ≡ ok short_paid
unfolding complete_unstake pay_amount retire reserve_pda address from_le_bytes send flushed
short_paid_ok = refl

flush_reserve_to_pool-underpays_example :
    (chain.lamports short_paid.bank alice ≤ chain.lamports flushed alice + live_pool.rent_exempt)
    × (short_paid.escrow ≡ none)
unfolding reserve_pda address
flush_reserve_to_pool-underpays_example =
    flush_reserve_to_pool-underpays chain live_pool pooled short_paid claim flushed alice
      (at_time 8_200_000 6) live_pool-Deposits refl (omega arith) (omega arith) alice_is_not_reserve
      flushed_ok short_paid_ok

abbrev params : SessionParams
params = record {
  expiry_ts = pos 9_000_000;
  daily_limit = 3 * xnt;
  lifetime_limit = 0;
  velocity_limit = 2;
}

abbrev created : SessionAccount × Position Balances
unfolding create_session fill_program_ids resolve_params
created =
    or_else (session, held)
      (create_session chain (at_time 8_000_000 5) alice session_key (dapp ∷ []) params 1 none none
        held)

created_ok :
    create_session chain (at_time 8_000_000 5) alice session_key (dapp ∷ []) params 1 none none held
    ≡ ok (created.0, created.1)
unfolding create_session fill_program_ids resolve_params
created_ok = refl

abbrev after_spend : Balances
after_spend k =
    if k == reserve
    then funded reserve - 2 * xnt
    else if k == bob
    then funded bob + 2 * xnt
    else funded k

create_session-spends_example :
    LeavesYield chain
      (5 * xnt)
      (yield_spend chain (at_time 8_100_000 5) call (2 * xnt) created.0 created.1)
unfolding reserve_pda address from_le_bytes send contains created
create_session-spends_example =
    create_session-spends chain (at_time 8_000_000 5) (at_time 8_100_000 5) alice session_key
      (dapp ∷ []) params 1 (2 * xnt) none none created.0 held created.1 call after_spend created_ok
      (omega arith) (inr (omega arith)) refl refl refl (inr refl) (omega arith) (inr (omega arith))
      (inl refl) (omega arith) (omega arith) refl

abbrev after_unstake : Balances
after_unstake k =
    if k == reserve
    then funded reserve - 207 * xnt
    else if k == alice
    then funded alice + 207 * xnt
    else funded k

unstake-pays_out_example : EndsWith after_unstake (
    begin_unstake chain (at_time 8_000_000 5) alice held
    >>= (λ q. complete_unstake chain (at_time 8_200_000 6) alice q))
unfolding reserve_pda address from_le_bytes send
unstake-pays_out_example =
    unstake-pays_out chain (at_time 8_000_000 5) (at_time 8_200_000 6) alice held after_unstake refl
      refl refl (inl refl) (omega arith) (omega arith) (omega arith) (omega arith) (omega arith)
      refl
