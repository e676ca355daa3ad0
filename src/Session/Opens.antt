-- ===== src/Session/Opens.antt =====
-- What a new session is good for (programs/vow/src/instructions/session/create_session.rs and
-- treasury/yield_spend.rs).
use vow_protocol.Prelude.{
  ℕ, ◌-◌, ◌≤◌, ◌≡◌, ◌⊎◌, true, Option, some, none, List, [], length, replicate, take-append,
  length-append, arith,
}
use vow_protocol.Prelude.Int.{ℤ, pos, ◌≤ℤ◌, ◌<ℤ◌}
use vow_protocol.Prelude.Machine.{u64_max}
use vow_protocol.State.Errors.{Result, ok, err}
use vow_protocol.State.Accounts.{
  Pubkey, VowState, SessionAccount, AuthorityProfile, default_key, max_program_ids,
  reset_daily_if_needed,
}
use vow_protocol.State.Runtime.{Clock, Runtime, vow_pda, reserve_pda}
use vow_protocol.State.Position.{Position}
use vow_protocol.Session.Create.{SessionParams, fill_program_ids, create_session}
use vow_protocol.Treasury.Spend.{
  SpendCall, contains, slice_to, check_session, check_program, check_limits, record_spend,
  yield_spend,
}

-- The session as `create_session` makes it.
record IsNew (now : Clock) (key : Pubkey) (ids : List Pubkey) (v : VowState) (s : SessionAccount)
    : Type 0 where
  session_key : s.session_key ≡ key
  active : s.active ≡ true
  start : s.start_ts ≡ now.unix_timestamp
  allowed : s.allowed_program_ids ≡ fill_program_ids ids
  count : s.program_count ≡ length ids
  today : s.spent_today ≡ 0
  total : s.spent_total ≡ 0
  calls : s.tx_count_today ≡ 0
  staked : v.active_stake ≡ true

pub slice_to-fill_program_ids :
    (ids : List Pubkey) → slice_to (fill_program_ids ids) (length ids) ≡ some ids
unfolding slice_to fill_program_ids
slice_to-fill_program_ids ids =
    let rest = replicate (max_program_ids - length ids) default_key in
    ground (arith, length-append ids rest, take-append ids rest)

-- A program on the list passes.
check_program-new :
    (call : SpendCall) (ids : List Pubkey) (s : SessionAccount)
    → s.allowed_program_ids ≡ fill_program_ids ids
    → s.program_count ≡ length ids
    → call.executable ≡ true
    → call.app_registry ≡ none
    → (ids ≡ []) ⊎ (contains ids call.calling_program ≡ true)
    → check_program call s ≡ ok tt
unfolding check_program
check_program-new call ids s allowed count run unregistered listed =
    ground (arith, slice_to-fill_program_ids ids)

-- Nothing has been spent from it.
record IsUnspent (s : SessionAccount) : Type 0 where
  today : s.spent_today ≡ 0
  total : s.spent_total ≡ 0
  calls : s.tx_count_today ≡ 0

reset_daily_if_needed-IsUnspent :
    (t : ℤ) (s : SessionAccount)
    → IsUnspent s
    → IsUnspent (reset_daily_if_needed s t)
      × ((reset_daily_if_needed s t).daily_limit ≡ s.daily_limit)
      × ((reset_daily_if_needed s t).lifetime_limit ≡ s.lifetime_limit)
unfolding reset_daily_if_needed
reset_daily_if_needed-IsUnspent t s u = ground arith

check_session-new :
    (now later : Clock) (key : Pubkey) (ids : List Pubkey) (v : VowState) (s : SessionAccount)
    → IsNew now key ids v s
    → v.sessions_invalidated_at ≤ℤ now.unix_timestamp
    → (s.expiry_ts ≡ pos 0) ⊎ (later.unix_timestamp <ℤ s.expiry_ts)
    → check_session later key v s ≡ ok tt
unfolding check_session
check_session-new now later key ids v s new valid unexpired = ground arith

check_limits-unspent :
    (n : ℕ) (s : SessionAccount)
    → IsUnspent s
    → n ≤ u64_max
    → (s.daily_limit ≡ 0) ⊎ (n ≤ s.daily_limit)
    → (s.lifetime_limit ≡ 0) ⊎ (n ≤ s.lifetime_limit)
    → check_limits n s ≡ ok tt
unfolding check_limits
check_limits-unspent n s u fits daily lifetime = ground arith

record_spend-unspent :
    (n : ℕ) (s : SessionAccount)
    → IsUnspent s
    → n ≤ u64_max
    → record_spend n s ≡ ok (record s { spent_today = n; spent_total = n; tx_count_today = 1 })
unfolding record_spend
record_spend-unspent n s u fits = ground arith

module _ {B : Type 0} (rt : Runtime B) where
  create_session-IsNew :
      (now : Clock) (owner key : Pubkey) (ids : List Pubkey) (params : SessionParams) (index : ℕ)
      (profile : Option AuthorityProfile) (old : Option SessionAccount) (s : SessionAccount)
      (p q : Position B)
      → create_session rt now owner key ids params index profile old p ≡ ok (s, q)
      → IsNew now key ids q.idnft s
        × (s.vow_state ≡ (vow_pda rt q.idnft.asset_id).0)
        × (q.idnft.sessions_invalidated_at ≡ p.idnft.sessions_invalidated_at)
  unfolding create_session
  create_session-IsNew now owner key ids params index profile old s p q h = ground arith

  -- The call returned, and so much of the yield balance is left.
  abbrev pub LeavesYield : ℕ → Result (SessionAccount × Position B) → Type 0
  LeavesYield n (ok (_, q)) = q.idnft.yield_balance ≡ n
  LeavesYield n (err _) = ⊥

  -- A session that the owner has just created (at or after the identity's last invalidation) can be
  -- spent from: while it has not expired, its key moves any amount, a u64, within the session's
  -- limits, the yield balance and the reserve, for an executable program that is on the list (or any, if the list
  -- is empty), where the chain makes the transfer and no registry entry is passed.
  pub create_session-spends :
      (now later : Clock) (owner key : Pubkey) (ids : List Pubkey) (params : SessionParams)
      (index n : ℕ) (profile : Option AuthorityProfile) (old : Option SessionAccount)
      (s : SessionAccount) (p q : Position B) (call : SpendCall) (bank : B)
      → create_session rt now owner key ids params index profile old p ≡ ok (s, q)
      → p.idnft.sessions_invalidated_at ≤ℤ now.unix_timestamp
      → (s.expiry_ts ≡ pos 0) ⊎ (later.unix_timestamp <ℤ s.expiry_ts)
      → call.session_signer ≡ key
      → call.executable ≡ true
      → call.app_registry ≡ none
      → (ids ≡ []) ⊎ (contains ids call.calling_program ≡ true)
      → n ≤ u64_max
      → (s.daily_limit ≡ 0) ⊎ (n ≤ s.daily_limit)
      → (s.lifetime_limit ≡ 0) ⊎ (n ≤ s.lifetime_limit)
      → n ≤ q.idnft.yield_balance
      → n ≤ rt.lamports q.bank (reserve_pda rt).0
      → rt.transfer (reserve_pda rt).0 call.destination n q.bank ≡ some bank
      → LeavesYield (q.idnft.yield_balance - n) (yield_spend rt later call n s q)
  unfolding yield_spend
  create_session-spends now later owner key ids params index n profile old s p q call bank h valid
        unexpired signed run unregistered listed fits daily lifetime funded backed sent =
      let (new, own, same) =
        create_session-IsNew now owner key ids params index profile old s p q h in
      let reset = reset_daily_if_needed s later.unix_timestamp in
      let unspent : IsUnspent s = record {
        today = new.today;
        total = new.total;
        calls = new.calls;
      } in
      let (u, same_daily, same_lifetime) =
        reset_daily_if_needed-IsUnspent later.unix_timestamp s unspent in
      ground (
        arith,
        own,
        check_session-new now later key ids q.idnft s new (rw same valid) unexpired,
        check_program-new call ids s new.allowed new.count run unregistered listed,
        check_limits-unspent n reset u fits (rw same_daily daily) (rw same_lifetime lifetime),
        record_spend-unspent n reset u fits,
      )
