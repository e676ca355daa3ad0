-- ===== src/State/Accounts.antt =====
-- programs/vow/src/constants.rs and the account structs of programs/vow/src/state/. A `Pubkey` is
-- the number that its 32 bytes write, so `Pubkey::default()` is 0; unsigned fields are numbers, an
-- `i64` is an integer, and a byte array is a list.
use vow_protocol.Prelude.{ℕ, Bool, List, if◌then◌else◌}
use vow_protocol.Prelude.Int.{ℤ, div_ℤ, ltb_ℤ}

abbrev pub Pubkey : Type 0
Pubkey = ℕ

abbrev pub default_key : Pubkey
default_key = 0

abbrev pub share_precision : ℕ
share_precision = 1_000_000_000_000

abbrev pub lamports_per_xnt : ℕ
lamports_per_xnt = 1_000_000_000

abbrev pub max_program_ids : ℕ
max_program_ids = 8

abbrev pub metadata_uri_max_len : ℕ
metadata_uri_max_len = 128

abbrev pub seconds_per_day : ℕ
seconds_per_day = 86_400

pub data YieldMode : Type 0 where
  compound hybrid treasury : YieldMode

unfoldable pub to_u8 : YieldMode → ℕ
to_u8 compound = 0
to_u8 hybrid = 1
to_u8 treasury = 2

pub record VowState : Type 0 where
  pub asset_id : Pubkey
  pub owner : Pubkey
  pub class : ℕ
  pub nonce : ℕ
  pub principal_lamports : ℕ
  pub shares : ℕ
  pub last_share_price : ℕ
  pub accrued_gain : ℤ
  pub yield_mode : YieldMode
  pub yield_balance : ℕ
  pub total_harvested : ℕ
  pub created_at : ℤ
  pub unlock_at : ℤ
  pub matured : Bool
  pub sessions_invalidated_at : ℤ
  pub active_stake : Bool
  pub session_nonce : ℕ
  pub first_staked_at : ℤ
  pub current_stake_started_at : ℤ
  pub total_commitments : ℕ
  pub total_fulfilled : ℕ
  pub cumulative_stake_days : ℕ
  pub highest_class_ever : ℕ
  pub bump : ℕ

pub record ProtocolConfig : Type 0 where
  pub admin : Pubkey
  pub current_share_price : ℕ
  pub total_shares : ℕ
  pub total_yield_claims : ℕ
  pub last_pool_lamports : ℕ
  pub total_minted : ℕ
  pub merkle_tree : Pubkey
  pub total_pending_unstake : ℕ
  pub spl_stake_pool : Pubkey
  pub spl_pool_mint : Pubkey
  pub reserve_bump : ℕ
  pub bump : ℕ

pub record UnstakeEscrow : Type 0 where
  pub vow_state : Pubkey
  pub owner : Pubkey
  pub lamports_owed : ℕ
  pub deactivation_epoch : ℕ
  pub bump : ℕ

pub record SessionAccount : Type 0 where
  pub vow_state : Pubkey
  pub session_key : Pubkey
  pub allowed_program_ids : List Pubkey
  pub program_count : ℕ
  pub session_index : ℕ
  pub creation_nonce : ℕ
  pub start_ts : ℤ
  pub expiry_ts : ℤ
  pub daily_limit : ℕ
  pub lifetime_limit : ℕ
  pub velocity_limit : ℕ
  pub spent_today : ℕ
  pub spent_total : ℕ
  pub tx_count_today : ℕ
  pub last_reset_day : ℤ
  pub active : Bool
  pub bump : ℕ

pub record AppRegistry : Type 0 where
  pub program_id : Pubkey
  pub verified : Bool
  pub blocked : Bool
  pub registered_at : ℤ
  pub bump : ℕ

pub record AuthorityProfile : Type 0 where
  pub wallet : Pubkey
  pub profile_id : List ℕ
  pub default_daily_limit : ℕ
  pub default_lifetime_limit : ℕ
  pub default_expiry_days : ℕ
  pub default_allowed_program_ids : List Pubkey
  pub program_count : ℕ
  pub metadata_uri : List ℕ
  pub uri_len : ℕ
  pub created_at : ℤ
  pub bump : ℕ

pub record CommitmentRecord : Type 0 where
  pub wallet : Pubkey
  pub total_xnfts_minted : ℕ
  pub total_xnt_committed : ℕ
  pub total_xnt_fulfilled : ℕ
  pub highest_class_ever : ℕ
  pub total_commitment_days : ℕ
  pub commitment_score : ℕ
  pub last_updated : ℤ
  pub bump : ℕ

pub record CrGate : Type 0 where
  pub bump : ℕ

-- `SessionAccount::reset_daily_if_needed`
unfoldable pub reset_daily_if_needed : SessionAccount → ℤ → SessionAccount
reset_daily_if_needed self unix_ts =
    let current_day : ℤ = div_ℤ unix_ts seconds_per_day in
    if ltb_ℤ self.last_reset_day current_day
    then record self { spent_today = 0; tx_count_today = 0; last_reset_day = current_day }
    else self
