-- ===== src/Treasury/Spend/Exactly.antt =====
-- When exactly `yield_spend` succeeds (programs/vow/src/instructions/treasury/yield_spend.rs).
use vow_protocol.Prelude.{ℕ, ◌+◌, ◌≤◌, ◌<◌, ◌≡◌, ◌↔◌, ◌⊎◌, true, false, arith, take, length}
use vow_protocol.Prelude.Int.{pos, ◌<ℤ◌, ◌≤ℤ◌}
use vow_protocol.Prelude.Keyed.{Maybe}
use vow_protocol.Prelude.Machine.{u32_max, u64_max}
use vow_protocol.State.Errors.{IsOk, IsSome}
use vow_protocol.State.Accounts.{VowState, SessionAccount, AppRegistry, reset_daily_if_needed}
use vow_protocol.State.Runtime.{Clock, Runtime, reserve_pda, vow_pda}
use vow_protocol.State.Position.{Position}
use vow_protocol.Treasury.Spend.{
  SpendCall, contains, slice_to, check_session, check_program, check_limits, record_spend,
  yield_spend,
}

abbrev pub IsUnblocked : AppRegistry → Type 0
IsUnblocked registry = registry.blocked ≡ false

-- The session may spend now.
pub record SessionMay (clock : Clock) (call : SpendCall) (idnft : VowState) (s : SessionAccount)
    : Type 0 where
  pub signer : call.session_signer ≡ s.session_key
  pub active : s.active ≡ true
  pub unexpired : (s.expiry_ts ≡ pos 0) ⊎ (clock.unix_timestamp <ℤ s.expiry_ts)
  pub valid : idnft.sessions_invalidated_at ≤ℤ s.start_ts
  pub staked : idnft.active_stake ≡ true

-- The calling program may be paid from the session.
pub record ProgramMay (call : SpendCall) (s : SessionAccount) : Type 0 where
  pub executable : call.executable ≡ true
  pub counted : s.program_count ≤ length s.allowed_program_ids
  pub listed :
      (s.program_count ≡ 0)
      ⊎ (contains (take s.program_count s.allowed_program_ids) call.calling_program ≡ true)
  pub unblocked : Maybe IsUnblocked call.app_registry

-- The amount fits what the session, reset for the day, has left, and its counters.
pub record AmountMay (n : ℕ) (s : SessionAccount) : Type 0 where
  pub velocity : (s.velocity_limit ≡ 0) ⊎ (s.tx_count_today < s.velocity_limit)
  pub daily : (s.daily_limit ≡ 0) ⊎ (s.spent_today + n ≤ s.daily_limit)
  pub lifetime : (s.lifetime_limit ≡ 0) ⊎ (s.spent_total + n ≤ s.lifetime_limit)
  pub today_counts : s.spent_today + n ≤ u64_max
  pub total_counts : s.spent_total + n ≤ u64_max
  pub transactions_count : s.tx_count_today + 1 ≤ u32_max

check_session_iff :
    (clock : Clock) (call : SpendCall) (idnft : VowState) (s : SessionAccount)
    → IsOk (check_session clock call.session_signer idnft s) ↔ SessionMay clock call idnft s
unfolding check_session
check_session_iff clock call idnft s = ground arith

check_program_iff :
    (call : SpendCall) (s : SessionAccount) → IsOk (check_program call s) ↔ ProgramMay call s
unfolding check_program slice_to
check_program_iff call s = ground arith

-- The limits that `check_limits` sets and the counters that `record_spend` writes.
check_limits_iff :
    (n : ℕ) (s : SessionAccount)
    → (IsOk (check_limits n s) × IsOk (record_spend n s)) ↔ AmountMay n s
unfolding check_limits record_spend
check_limits_iff n s = ground arith

module _ {B : Type 0} (rt : Runtime B) where
  -- All that a spend of `n` lamports takes: of the session, the calling program, the limits, the
  -- identity's yield balance, the reserve, and the chain, which makes the transfer.
  pub record MaySpend (clock : Clock) (call : SpendCall) (n : ℕ) (s : SessionAccount)
      (p : Position B) : Type 0 where
    pub owned : s.vow_state ≡ (vow_pda rt p.idnft.asset_id).0
    pub session : SessionMay clock call p.idnft s
    pub program : ProgramMay call s
    pub amount : AmountMay n (reset_daily_if_needed s clock.unix_timestamp)
    pub covered : n ≤ p.idnft.yield_balance
    pub reserved : n ≤ rt.lamports p.bank (reserve_pda rt).0
    pub transferred : IsSome (rt.transfer (reserve_pda rt).0 call.destination n p.bank)

  -- A spend succeeds exactly if: the session belongs to the identity, its key signs, it is active, has
  -- not expired and did not start before the identity's last invalidation, and the identity is
  -- staked; the calling program is executable, on the session's list (or the list is empty), and not
  -- blocked by the registry entry, where one is passed; after the daily reset the limits that are not
  -- 0 leave room for the amount, and the counters can hold it; the yield balance and the reserve
  -- cover it; and the chain makes the transfer.
  pub yield_spend_iff :
      (clock : Clock) (call : SpendCall) (n : ℕ) (s : SessionAccount) (p : Position B)
      → IsOk (yield_spend rt clock call n s p) ↔ MaySpend clock call n s p
  unfolding yield_spend
  yield_spend_iff clock call n s p = ground (
    arith,
    check_session_iff clock call p.idnft s,
    check_program_iff call s,
    check_limits_iff n (reset_daily_if_needed s clock.unix_timestamp),
  )
