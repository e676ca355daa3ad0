-- ===== src/Program/Ledger.antt =====
-- All accounts of the program and all entry points of programs/vow/src/lib.rs: the config, which can
-- be closed and made again, identities with their sessions, registered apps, authority profiles, and
-- commitment records with their one-time gates.
pub mod Execute
pub mod Histories
pub mod Apps
pub mod Profiles
pub mod Gates
pub mod Config
use vow_protocol.Prelude.{
  ℕ, ◌≡◌, ◌≤◌, Bool, true, false, Option, none, some, List, [], ◌∷◌, length, if◌then◌else◌,
}
use vow_protocol.Prelude.Keyed.{find, replace, remove}
use vow_protocol.State.Errors.{Result, ok, err, account_missing, ok_or, ◌>>=◌, ◌>>◌}
use vow_protocol.State.Accounts.{
  Pubkey, ProtocolConfig, AppRegistry, AuthorityProfile, CommitmentRecord, CrGate, VowState,
  default_key,
}
use vow_protocol.State.Events.{Event}
use vow_protocol.State.Runtime.{
  Clock, Runtime, profile_pda, commitment_pda, vow_pda, cr_commit_pda, cr_fulfill_pda,
}
use vow_protocol.Pool.Account.{read_le}
use vow_protocol.Vow.BeginUnstake.{init}
use vow_protocol.Treasury.Spend.{SpendCall}
use vow_protocol.Admin.Initialize.{initialize}
use vow_protocol.Admin.Config.{close_config}
use vow_protocol.Admin.Apps.{register_app, verify_app, block_app}
use vow_protocol.Profile.{
  AuthorityProfileParams, create_authority_profile, update_authority_profile,
  close_authority_profile,
}
use vow_protocol.Commitment.{record_commitment, record_fulfillment}
use vow_protocol.Program.World.{Slot, World, asset_of}
use vow_protocol.Program.Process.{
  Instruction, spends, creates_session, revokes_session, closes_session, process,
}

-- A one-time gate: its address, the wallet and the identity that it was opened for, and the account.
pub record Gate : Type 0 where
  pub address : Pubkey
  pub wallet : Pubkey
  pub asset : Pubkey
  pub account : CrGate

pub record Ledger (B : Type 0) : Type 0 where
  pub config : Option ProtocolConfig
  pub slots : List Slot
  pub bank : B
  pub log : List Event
  pub apps : List AppRegistry
  pub profiles : List AuthorityProfile
  pub records : List CommitmentRecord
  pub commits : List Gate
  pub fulfills : List Gate

-- How Anchor lays the config out in bytes: the admin's key stands behind the 8 bytes of the
-- discriminator.
pub record Layout : Type 0 where
  pub config_bytes : ProtocolConfig → List ℕ
  pub long_enough : (c : ProtocolConfig) → 40 ≤ length (config_bytes c)
  pub admin_first : (c : ProtocolConfig) → read_le (config_bytes c) 8 32 ≡ c.admin

-- An entry point with the accounts that the transaction names. A registry entry or a profile in an
-- instruction stands for the account at its address: `load_accounts` reads that.
pub data Entry (B : Type 0) : Type 0 where
  runs : Instruction B → Entry B
  initializes :
      (admin spl_stake_pool spl_pool_mint pool_key : Pubkey) → (pool_bytes : List ℕ) → Entry B
  closes_config : (admin : Pubkey) → Entry B
  registers_app : (program_id : Pubkey) → Entry B
  verifies_app blocks_app : (admin program_id : Pubkey) → Entry B
  creates_profile : (wallet : Pubkey) → (profile_id : List ℕ) → AuthorityProfileParams → Entry B
  updates_profile : (wallet : Pubkey) → (profile_id : List ℕ) → AuthorityProfileParams → Entry B
  closes_profile : (wallet : Pubkey) → (profile_id : List ℕ) → Entry B
  records_commitment records_fulfillment : (asset : Pubkey) → Entry B

abbrev pub program_of : AppRegistry → ℕ
program_of r = r.program_id

abbrev pub wallet_of : CommitmentRecord → ℕ
wallet_of r = r.wallet

abbrev pub address_of : Gate → ℕ
address_of g = g.address

-- Only these two instructions have no config account.
abbrev pub names_config : {B : Type 0} → Instruction B → Bool
names_config (revokes_session asset owner index) = false
names_config (closes_session asset owner index) = false
names_config _ = true

-- Stands in for the config where an instruction names none.
abbrev pub no_config : ProtocolConfig
no_config = record {
  admin = default_key;
  current_share_price = 0;
  total_shares = 0;
  total_yield_claims = 0;
  last_pool_lamports = 0;
  total_minted = 0;
  merkle_tree = default_key;
  total_pending_unstake = 0;
  spl_stake_pool = default_key;
  spl_pool_mint = default_key;
  reserve_bump = 0;
  bump = 0;
}

unfoldable pub load_registry :
    Pubkey → List AppRegistry → Option AppRegistry → Result (Option AppRegistry)
load_registry calling_program apps none = ok none
load_registry calling_program apps (some named) = do
  registry ← ok_or (find program_of calling_program apps) account_missing
  ok (some registry)

module _ {B : Type 0} where
  abbrev pub world : ProtocolConfig → Ledger B → World B
  world config l = record { config = config; slots = l.slots; bank = l.bank; log = l.log }

  abbrev pub written : Option ProtocolConfig → World B → Ledger B → Ledger B
  written config w l = record l { config = config; slots = w.slots; bank = w.bank; log = w.log }

module _ {B : Type 0} (rt : Runtime B) where
  abbrev pub profile_address : AuthorityProfile → ℕ
  profile_address p = (profile_pda rt p.wallet p.profile_id).0

  unfoldable pub load_profile :
      List AuthorityProfile → Option AuthorityProfile → Result (Option AuthorityProfile)
  load_profile profiles none = ok none
  load_profile profiles (some named) = do
    profile ← ok_or (find profile_address (profile_address named) profiles) account_missing
    ok (some profile)

  unfoldable pub load_accounts : Ledger B → Instruction B → Result (Instruction B)
  unfolding load_registry load_profile
  load_accounts l (spends asset index call amount) = do
    registry ← load_registry call.calling_program l.apps call.app_registry
    ok (spends asset index (record call { app_registry = registry }) amount)
  load_accounts l (creates_session asset owner key ids params index profile) = do
    profile ← load_profile l.profiles profile
    ok (creates_session asset owner key ids params index profile)
  load_accounts l i = ok i

-- `init_if_needed` writes the account where there is none yet.
unfoldable pub put_record :
    Pubkey → CommitmentRecord → List CommitmentRecord → List CommitmentRecord
put_record wallet r records = elim (find wallet_of wallet records) [
  | none ↦ r ∷ records
  | some old ↦ replace wallet_of wallet r records
]

abbrev pub gate_account : Option Gate → Option CrGate
gate_account none = none
gate_account (some g) = some g.account
