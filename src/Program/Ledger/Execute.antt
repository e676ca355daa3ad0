-- ===== src/Program/Ledger/Execute.antt =====
-- The entry points of programs/vow/src/lib.rs, one after the other.
use vow_protocol.Prelude.{Option, none, some, ◌∷◌, if◌then◌else◌}
use vow_protocol.Prelude.Keyed.{find, replace, remove}
use vow_protocol.State.Errors.{Result, ok, err, account_missing, ok_or, ◌>>=◌, ◌>>◌}
use vow_protocol.State.Accounts.{Pubkey, ProtocolConfig}
use vow_protocol.State.Runtime.{
  Clock, Runtime, profile_pda, commitment_pda, vow_pda, cr_commit_pda, cr_fulfill_pda,
}
use vow_protocol.Admin.Initialize.{initialize}
use vow_protocol.Admin.Config.{close_config}
use vow_protocol.Admin.Apps.{register_app, verify_app, block_app}
use vow_protocol.Profile.{
  create_authority_profile, update_authority_profile, close_authority_profile,
}
use vow_protocol.Commitment.{record_commitment, record_fulfillment}
use vow_protocol.Program.World.{asset_of}
use vow_protocol.Program.Process.{Instruction, process}
use vow_protocol.Program.Ledger.{
  Gate, Ledger, Layout, Entry, runs, initializes, closes_config, registers_app, verifies_app,
  blocks_app, creates_profile, updates_profile, closes_profile, records_commitment,
  records_fulfillment, program_of, wallet_of, address_of, names_config, no_config, world, written,
  profile_address, load_accounts, put_record, gate_account,
}

module _ {B : Type 0} (rt : Runtime B) (layout : Layout) (clock : Clock) where
  -- An instruction on the config, identities and sessions.
  unfoldable pub run_instruction :
      Option ProtocolConfig → Instruction B → Ledger B → Result (Ledger B)
  run_instruction (some config) i l = do
    w ← process rt clock i (world config l)
    ok (written (some w.config) w l)
  run_instruction none i l =
      if names_config i
      then err account_missing
      else do w ← process rt clock i (world no_config l); ok (written none w l)

  unfoldable pub run_commitment : Pubkey → Ledger B → Result (Ledger B)
  unfolding put_record
  run_commitment asset l = do
    slot ← ok_or (find asset_of asset l.slots) account_missing
    let wallet = slot.idnft.owner
    let address = (cr_commit_pda rt (commitment_pda rt wallet).0 (vow_pda rt asset).0).0
    (r, account) ←
        record_commitment rt clock slot.idnft (find wallet_of wallet l.records)
          (gate_account (find address_of address l.commits))
    let gate : Gate = record {
      address = address;
      wallet = wallet;
      asset = asset;
      account = account;
    }
    ok (record l { records = put_record wallet r l.records; commits = gate ∷ l.commits })

  unfoldable pub run_fulfillment : Pubkey → Ledger B → Result (Ledger B)
  run_fulfillment asset l = do
    slot ← ok_or (find asset_of asset l.slots) account_missing
    let wallet = slot.idnft.owner
    let address = (cr_fulfill_pda rt (commitment_pda rt wallet).0 (vow_pda rt asset).0).0
    old ← ok_or (find wallet_of wallet l.records) account_missing
    (r, account) ←
        record_fulfillment rt clock slot.idnft old
          (gate_account (find address_of address l.fulfills))
    let gate : Gate = record {
      address = address;
      wallet = wallet;
      asset = asset;
      account = account;
    }
    ok (record l { records = replace wallet_of wallet r l.records; fulfills = gate ∷ l.fulfills })

  unfoldable pub execute : Entry B → Ledger B → Result (Ledger B)
  execute (runs i) l = do i ← load_accounts rt l i; run_instruction l.config i l
  execute (initializes admin spl_stake_pool spl_pool_mint pool_key pool_bytes) l = do
    (config, log) ←
        initialize rt admin spl_stake_pool spl_pool_mint pool_key pool_bytes l.config l.log
    ok (record l { config = some config; log = log })
  execute (closes_config admin) l = do
    config ← ok_or l.config account_missing
    erased ← close_config admin (layout.config_bytes config)
    ok (record l { config = none })
  execute (registers_app program_id) l = do
    (registry, log) ← register_app rt clock program_id (find program_of program_id l.apps) l.log
    ok (record l { apps = registry ∷ l.apps; log = log })
  execute (verifies_app admin program_id) l = do
    config ← ok_or l.config account_missing
    registry ← ok_or (find program_of program_id l.apps) account_missing
    registry ← verify_app admin config registry
    ok (record l { apps = replace program_of program_id registry l.apps })
  execute (blocks_app admin program_id) l = do
    config ← ok_or l.config account_missing
    registry ← ok_or (find program_of program_id l.apps) account_missing
    (registry, log) ← block_app admin config registry l.log
    ok (record l { apps = replace program_of program_id registry l.apps; log = log })
  execute (creates_profile wallet profile_id params) l = do
    let address = (profile_pda rt wallet profile_id).0
    profile ←
        create_authority_profile rt clock wallet profile_id params
          (find (profile_address rt) address l.profiles)
    ok (record l { profiles = profile ∷ l.profiles })
  execute (updates_profile wallet profile_id params) l = do
    let address = (profile_pda rt wallet profile_id).0
    old ← ok_or (find (profile_address rt) address l.profiles) account_missing
    profile ← update_authority_profile wallet params old
    ok (record l { profiles = replace (profile_address rt) address profile l.profiles })
  execute (closes_profile wallet profile_id) l = do
    let address = (profile_pda rt wallet profile_id).0
    old ← ok_or (find (profile_address rt) address l.profiles) account_missing
    close_authority_profile wallet old
    ok (record l { profiles = remove (profile_address rt) address l.profiles })
  execute (records_commitment asset) l = run_commitment asset l
  execute (records_fulfillment asset) l = run_fulfillment asset l

  -- A transaction that fails changes nothing.
  abbrev pub or_kept : Ledger B → Result (Ledger B) → Ledger B
  or_kept l (ok l') = l'
  or_kept l (err _) = l

  unfoldable pub attempt : Entry B → Ledger B → Ledger B
  attempt e l = or_kept l (execute e l)
