-- ===== src/Admin/Apps.antt =====
-- programs/vow/src/instructions/admin/register_app.rs
use vow_protocol.Prelude.{true, false, Option, List, ◌∷◌}
use vow_protocol.State.Errors.{Result, ok, unauthorized, require_keys_eq, ◌>>◌}
use vow_protocol.State.Accounts.{Pubkey, AppRegistry, ProtocolConfig}
use vow_protocol.State.Events.{Event, app_registered, app_blocked}
use vow_protocol.State.Runtime.{Clock, Runtime, app_pda}
use vow_protocol.Vow.BeginUnstake.{init}

module _ {B : Type 0} (rt : Runtime B) where
  -- `old` is the account at the PDA of `program_id`, which must not exist.
  unfoldable pub register_app :
      Clock → Pubkey → Option AppRegistry → List Event → Result (AppRegistry × List Event)
  register_app clock program_id old log = do
    init old
    ok (
      record {
        program_id = program_id;
        verified = false;
        blocked = false;
        registered_at = clock.unix_timestamp;
        bump = (app_pda rt program_id).1;
      },
      app_registered program_id ∷ log,
    )

unfoldable pub verify_app : Pubkey → ProtocolConfig → AppRegistry → Result AppRegistry
verify_app admin config app_registry = do
  require_keys_eq config.admin admin unauthorized
  ok (record app_registry { verified = true })

unfoldable pub block_app :
    Pubkey → ProtocolConfig → AppRegistry → List Event → Result (AppRegistry × List Event)
block_app admin config app_registry log = do
  require_keys_eq config.admin admin unauthorized
  ok (record app_registry { blocked = true }, app_blocked app_registry.program_id ∷ log)
