-- ===== src/Session/Revoke.antt =====
-- programs/vow/src/instructions/session/revoke_session.rs
use vow_protocol.Prelude.{false, ◌∷◌}
use vow_protocol.State.Errors.{Result, ok, invalid_owner, session_inactive, require_keys_eq, ◌>>◌}
use vow_protocol.State.Accounts.{Pubkey, SessionAccount}
use vow_protocol.State.Events.{session_revoked}
use vow_protocol.State.Runtime.{Runtime, vow_pda}
use vow_protocol.State.Position.{Position}

module _ {B : Type 0} (rt : Runtime B) where
  unfoldable pub revoke_session :
      Pubkey → SessionAccount → Position B → Result (SessionAccount × Position B)
  revoke_session owner session p = do
    let vow_key = (vow_pda rt p.idnft.asset_id).0
    require_keys_eq p.idnft.owner owner invalid_owner
    require_keys_eq session.vow_state vow_key session_inactive
    ok (
      record session { active = false },
      record p { log = session_revoked vow_key session.session_key ∷ p.log },
    )
