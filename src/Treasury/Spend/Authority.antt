-- ===== src/Treasury/Spend/Authority.antt =====
-- What a successful `yield_spend` shows of the session, the calling program and the amounts, and when
-- it is refused (programs/vow/src/instructions/treasury/yield_spend.rs).
use vow_protocol.Prelude.{ℕ, ◌+◌, ◌≤◌, ◌≡◌, ◌≢◌, ◌⊎◌, true, false, some, arith, take}
use vow_protocol.Prelude.Int.{ltb_ℤ, leb_ℤ}
use vow_protocol.State.Errors.{ok}
use vow_protocol.State.Accounts.{
  Pubkey, VowState, SessionAccount, AppRegistry, reset_daily_if_needed,
}
use vow_protocol.State.Runtime.{Clock, Runtime, reserve_pda, vow_pda}
use vow_protocol.State.Position.{Position}
use vow_protocol.Session.Revoke.{revoke_session}
use vow_protocol.Treasury.Spend.{
  SpendCall, contains, is_zero, slice_to, check_session, check_program, check_limits, record_spend,
  yield_spend,
}

-- The session may spend now: the signer is its key, it is active and not expired, it did not start
-- before the identity's last invalidation, and the identity is staked.
pub record IsLive (clock : Clock) (signer : Pubkey) (idnft : VowState) (s : SessionAccount)
    : Type 0 where
  pub signer_is_key : signer ≡ s.session_key
  pub active : s.active ≡ true
  pub unexpired : (is_zero s.expiry_ts ≡ true) ⊎ (ltb_ℤ clock.unix_timestamp s.expiry_ts ≡ true)
  pub valid : leb_ℤ idnft.sessions_invalidated_at s.start_ts ≡ true
  pub staked : idnft.active_stake ≡ true

pub record IsWithinLimits (s : SessionAccount) : Type 0 where
  pub daily : (s.daily_limit ≡ 0) ⊎ (s.spent_today ≤ s.daily_limit)
  pub lifetime : (s.lifetime_limit ≡ 0) ⊎ (s.spent_total ≤ s.lifetime_limit)
  pub velocity : (s.velocity_limit ≡ 0) ⊎ (s.tx_count_today ≤ s.velocity_limit)

-- The calling program is executable, on the session's list unless that is empty, and not blocked by the
-- registry entry that the transaction passes, if any.
pub record IsAllowed (call : SpendCall) (s : SessionAccount) : Type 0 where
  pub executable : call.executable ≡ true
  pub listed :
      (s.program_count ≡ 0)
      ⊎ (contains (take s.program_count s.allowed_program_ids) call.calling_program ≡ true)
  pub unblocked : (reg : AppRegistry) → call.app_registry ≡ some reg → reg.blocked ≡ false

check_session-IsLive :
    (clock : Clock) (signer : Pubkey) (idnft : VowState) (s : SessionAccount)
    → check_session clock signer idnft s ≡ ok tt
    → IsLive clock signer idnft s
unfolding check_session
check_session-IsLive clock signer idnft s h = ground arith

check_program-IsAllowed :
    (call : SpendCall) (s : SessionAccount) → check_program call s ≡ ok tt → IsAllowed call s
unfolding check_program slice_to
check_program-IsAllowed call s h = ground arith

module _ {B : Type 0} (rt : Runtime B) where
  pub yield_spend-IsLive :
      (clock : Clock) (call : SpendCall) (n : ℕ) (s s' : SessionAccount) (p q : Position B)
      → yield_spend rt clock call n s p ≡ ok (s', q)
      → (s.vow_state ≡ (vow_pda rt p.idnft.asset_id).0) × IsLive clock call.session_signer p.idnft s
  unfolding yield_spend check_session
  yield_spend-IsLive clock call n s s' p q h = ground arith

  pub yield_spend-IsWithinLimits :
      (clock : Clock) (call : SpendCall) (n : ℕ) (s s' : SessionAccount) (p q : Position B)
      → yield_spend rt clock call n s p ≡ ok (s', q)
      → IsWithinLimits s'
  unfolding yield_spend check_limits record_spend
  yield_spend-IsWithinLimits clock call n s s' p q h = ground arith

  pub yield_spend-IsAllowed :
      (clock : Clock) (call : SpendCall) (n : ℕ) (s s' : SessionAccount) (p q : Position B)
      → yield_spend rt clock call n s p ≡ ok (s', q)
      → IsAllowed call s
  unfolding yield_spend check_program slice_to
  yield_spend-IsAllowed clock call n s s' p q h = ground arith

  -- A session's spend succeeds only if the session belongs to the identity, its key signs, it is
  -- active, not expired and not invalidated, and the identity is staked; and only for a calling
  -- program that is executable, on the session's list (an empty list allows all) and not blocked
  -- by the registry entry, where the transaction passes one. After it, what the session has spent
  -- today, what it has spent in all and its transactions today are within the limits that are not
  -- 0.
  pub yield_spend_sound :
      (clock : Clock) (call : SpendCall) (n : ℕ) (s s' : SessionAccount) (p q : Position B)
      → yield_spend rt clock call n s p ≡ ok (s', q)
      → (s.vow_state ≡ (vow_pda rt p.idnft.asset_id).0)
        × IsLive clock call.session_signer p.idnft s
        × IsAllowed call s
        × IsWithinLimits s'
  yield_spend_sound clock call n s s' p q h =
      let (own, live) = yield_spend-IsLive clock call n s s' p q h in
      (
        own,
        live,
        yield_spend-IsAllowed clock call n s s' p q h,
        yield_spend-IsWithinLimits clock call n s s' p q h,
      )

  -- A spend takes its amount from the identity's yield balance, which covers it, and moves it from
  -- the reserve to the destination (another account); the session's count of all it has spent
  -- grows by the amount, and its daily and lifetime limits and its key stay.
  pub yield_spend-pays :
      (clock : Clock) (call : SpendCall) (n : ℕ) (s s' : SessionAccount) (p q : Position B)
      → call.destination ≢ (reserve_pda rt).0
      → yield_spend rt clock call n s p ≡ ok (s', q)
      → let reserve = (reserve_pda rt).0 in
        (q.idnft.yield_balance + n ≡ p.idnft.yield_balance)
        × (rt.lamports q.bank call.destination ≡ rt.lamports p.bank call.destination + n)
        × (rt.lamports q.bank reserve + n ≡ rt.lamports p.bank reserve)
        × (s'.spent_total ≡ s.spent_total + n)
        × (s'.daily_limit ≡ s.daily_limit)
        × (s'.lifetime_limit ≡ s.lifetime_limit)
        × (s'.session_key ≡ s.session_key)
  unfolding yield_spend record_spend reset_daily_if_needed
  yield_spend-pays clock call n s s' p q ne h =
      let reserve = (reserve_pda rt).0 in
      ground (
        arith,
        rt.transfer_credits reserve call.destination n p.bank q.bank,
        rt.transfer_debits reserve call.destination n p.bank q.bank,
      )

  -- A revoked session never spends again, whatever the call and the state of the identity.
  pub revoke_session-stops :
      (owner : Pubkey) (s r s' : SessionAccount) (p q : Position B)
      → revoke_session rt owner s p ≡ ok (r, q)
      → (clock : Clock) (call : SpendCall) (n : ℕ) (p' q' : Position B)
      → yield_spend rt clock call n r p' ≢ ok (s', q')
  unfolding revoke_session
  revoke_session-stops owner s r s' p q h clock call n p' q' h' =
      let live = (yield_spend-IsLive clock call n r s' p' q' h').1 in ground (arith, live.active)
