-- ===== src/Session/Invalidation.antt =====
-- The sessions that an unstake or an activation invalidates, and which sessions `close_session` takes
-- (programs/vow/src/instructions/session/close_session.rs, vow/complete_unstake.rs and
-- vow/activate_stake.rs).
use vow_protocol.Prelude.{ℕ, ◌≡◌, ◌≢◌, true, false, arith}
use vow_protocol.Prelude.Int.{pos, leb_ℤ}
use vow_protocol.State.Errors.{ok}
use vow_protocol.State.Accounts.{Pubkey, VowState, SessionAccount, YieldMode}
use vow_protocol.State.Runtime.{Clock, Runtime}
use vow_protocol.State.Position.{Position}
use vow_protocol.Session.Close.{can_close}
use vow_protocol.Treasury.Spend.{SpendCall, check_session, yield_spend}
use vow_protocol.Treasury.Spend.Authority.{yield_spend-IsLive}
use vow_protocol.Vow.CompleteUnstake.{retire, complete_unstake}
use vow_protocol.Vow.ActivateStake.{activate_stake}

module _ {B : Type 0} (rt : Runtime B) where
  -- In the state that an unstake leaves of an identity, no spend succeeds, by any session and at
  -- any later or earlier time.
  complete_unstake-invalidates :
      (clock : Clock) (owner : Pubkey) (p q : Position B)
      → complete_unstake rt clock owner p ≡ ok q
      → (later : Clock) (call : SpendCall) (n : ℕ) (s s' : SessionAccount) (q' : Position B)
      → yield_spend rt later call n s q ≢ ok (s', q')
  unfolding complete_unstake retire
  complete_unstake-invalidates clock owner p q h later call n s s' q' h' =
      let live = (yield_spend-IsLive rt later call n s s' q q' h').1 in ground (arith, live.staked)

  -- In the state that an activation leaves of an identity, no spend succeeds by a session that
  -- started before the activation's timestamp.
  activate_stake-invalidates :
      (clock : Clock) (owner : Pubkey) (n : ℕ) (mode : YieldMode) (p q : Position B)
      → activate_stake rt clock owner n mode p ≡ ok q
      → (later : Clock) (call : SpendCall) (m : ℕ) (s s' : SessionAccount) (q' : Position B)
      → leb_ℤ clock.unix_timestamp s.start_ts ≡ false
      → yield_spend rt later call m s q ≢ ok (s', q')
  unfolding activate_stake
  activate_stake-invalidates clock owner n mode p q h later call m s s' q' before h' =
      let live = (yield_spend-IsLive rt later call m s s' q q' h').1 in ground (arith, live.valid)

-- A session that cannot be closed, and whose expiry is not negative, passes the session checks of
-- a spend that its key signs.
can_close-spendable :
    (clock : Clock) (v : VowState) (s : SessionAccount)
    → leb_ℤ (pos 0) s.expiry_ts ≡ true
    → can_close clock v s ≡ false
    → check_session clock s.session_key v s ≡ ok tt
unfolding can_close check_session
can_close-spendable clock v s h c = ground arith

-- A session that can be closed and passes the session checks of a spend at the same time started
-- at the very timestamp of the identity's last invalidation.
pub can_close-overlap :
    (clock : Clock) (key : Pubkey) (v : VowState) (s : SessionAccount)
    → can_close clock v s ≡ true
    → check_session clock key v s ≡ ok tt
    → s.start_ts ≡ v.sessions_invalidated_at
unfolding can_close check_session
can_close-overlap clock key v s c h = ground arith
