-- ===== src/Session/Close.antt =====
-- programs/vow/src/instructions/session/close_session.rs
use vow_protocol.Prelude.{Bool, not, ◌&&◌, ◌||◌}
use vow_protocol.Prelude.Int.{pos, ltb_ℤ, leb_ℤ}
use vow_protocol.State.Errors.{
  Result, invalid_owner, session_inactive, require, require_keys_eq, ◌>>◌,
}
use vow_protocol.State.Accounts.{Pubkey, VowState, SessionAccount}
use vow_protocol.State.Runtime.{Clock, Runtime, vow_pda}

unfoldable pub can_close : Clock → VowState → SessionAccount → Bool
can_close clock idnft session =
    let expired = ltb_ℤ (pos 0) session.expiry_ts && leb_ℤ session.expiry_ts clock.unix_timestamp in
    let inactive = not session.active in
    let invalidated = leb_ℤ session.start_ts idnft.sessions_invalidated_at in
    let identity_unstaked = not idnft.active_stake in
    expired || inactive || invalidated || identity_unstaked

module _ {B : Type 0} (rt : Runtime B) where
  -- On success Anchor closes the session's account: the caller removes it.
  unfoldable pub close_session : Clock → Pubkey → VowState → SessionAccount → Result (Unit {0})
  unfolding can_close
  close_session clock owner idnft session = do
    require_keys_eq idnft.owner owner invalid_owner
    require_keys_eq session.vow_state (vow_pda rt idnft.asset_id).0 session_inactive
    require (can_close clock idnft session) session_inactive
