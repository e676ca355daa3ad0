-- ===== src/Profile.antt =====
-- programs/vow/src/instructions/authority_profile/
pub mod Roundtrip
use vow_protocol.Prelude.{
  ℕ, leb, min, ◌==◌, if◌then◌else◌, Option, List, ◌++◌, length, take, drop, replicate,
}
use vow_protocol.Prelude.Int.{pos}
use vow_protocol.Prelude.Machine.{as_u8}
use vow_protocol.State.Errors.{
  Result, ok, too_many_program_ids, unauthorized, require, require_keys_eq, ◌>>◌,
}
use vow_protocol.State.Accounts.{Pubkey, AuthorityProfile, max_program_ids, metadata_uri_max_len}
use vow_protocol.State.Runtime.{Clock, Runtime, profile_pda}
use vow_protocol.Vow.BeginUnstake.{init}
use vow_protocol.Session.Create.{fill_program_ids}

pub record AuthorityProfileParams : Type 0 where
  pub default_daily_limit : ℕ
  pub default_lifetime_limit : ℕ
  pub default_expiry_days : ℕ
  pub default_allowed_program_ids : List Pubkey
  pub metadata_uri : List ℕ

-- `uri[..n].copy_from_slice(&new[..n])`
unfoldable pub copy_prefix : ℕ → List ℕ → List ℕ → List ℕ
copy_prefix n new uri = take n new ++ drop n uri

-- The fields that both handlers write.
unfoldable pub write_params : AuthorityProfileParams → AuthorityProfile → AuthorityProfile
unfolding fill_program_ids
write_params params profile = record profile {
  default_daily_limit = params.default_daily_limit;
  default_lifetime_limit = params.default_lifetime_limit;
  default_expiry_days = params.default_expiry_days;
  program_count = as_u8 (length params.default_allowed_program_ids);
  default_allowed_program_ids = fill_program_ids params.default_allowed_program_ids;
}

unfoldable pub write_uri : List ℕ → AuthorityProfile → AuthorityProfile
unfolding copy_prefix
write_uri metadata_uri profile =
    let uri_len = min (length metadata_uri) metadata_uri_max_len in
    record profile {
      uri_len = as_u8 uri_len;
      metadata_uri = copy_prefix uri_len metadata_uri profile.metadata_uri;
    }

-- What `init` finds in a new account: arrays of zeros.
abbrev pub blank_profile : AuthorityProfile
blank_profile = record {
  wallet = 0;
  profile_id = replicate 8 0;
  default_daily_limit = 0;
  default_lifetime_limit = 0;
  default_expiry_days = 0;
  default_allowed_program_ids = replicate max_program_ids 0;
  program_count = 0;
  metadata_uri = replicate metadata_uri_max_len 0;
  uri_len = 0;
  created_at = pos 0;
  bump = 0;
}

module _ {B : Type 0} (rt : Runtime B) where
  -- `old` is the account at the profile's PDA, which must not exist.
  unfoldable pub create_authority_profile :
      Clock
      → Pubkey
      → List ℕ
      → AuthorityProfileParams
      → Option AuthorityProfile
      → Result AuthorityProfile
  unfolding write_params write_uri
  create_authority_profile clock wallet profile_id params old = do
    init old
    require (leb (length params.default_allowed_program_ids) max_program_ids) too_many_program_ids
    require (leb (length params.metadata_uri) metadata_uri_max_len) too_many_program_ids
    let profile : AuthorityProfile = record blank_profile {
      wallet = wallet;
      profile_id = profile_id;
      created_at = clock.unix_timestamp;
      bump = (profile_pda rt wallet profile_id).1;
    }
    ok (write_uri params.metadata_uri (write_params params profile))

unfoldable pub update_authority_profile :
    Pubkey → AuthorityProfileParams → AuthorityProfile → Result AuthorityProfile
unfolding write_params write_uri
update_authority_profile wallet params profile = do
  require_keys_eq profile.wallet wallet unauthorized
  require (leb (length params.default_allowed_program_ids) max_program_ids) too_many_program_ids
  let profile = write_params params profile
  ok (if length params.metadata_uri == 0 then profile else write_uri params.metadata_uri profile)

-- The handler is empty: Anchor checks the wallet and closes the account.
unfoldable pub close_authority_profile : Pubkey → AuthorityProfile → Result (Unit {0})
close_authority_profile wallet profile = require_keys_eq profile.wallet wallet unauthorized
