-- ===== src/Session/Create.antt =====
-- programs/vow/src/instructions/session/create_session.rs
use vow_protocol.Prelude.{
  ℕ, ◌-◌, ◌*◌, true, not, Option, none, some, List, ◌∷◌, ◌++◌, leb, ◌==◌, length, replicate,
  if◌then◌else◌,
}
use vow_protocol.Prelude.Int.{ℤ, pos, div_ℤ}
use vow_protocol.Prelude.Machine.{checked_add, checked_add_i64, u64_max, as_u8}
use vow_protocol.State.Errors.{
  Result, ok, vow, invalid_owner, too_many_program_ids, session_inactive, identity_inactive,
  unauthorized, math_overflow, ok_or, or_panic, require, require_keys_eq, ◌>>=◌, ◌>>◌,
}
use vow_protocol.State.Accounts.{
  Pubkey, SessionAccount, AuthorityProfile, default_key, max_program_ids, seconds_per_day,
}
use vow_protocol.State.Events.{session_created}
use vow_protocol.State.Runtime.{Clock, Runtime, vow_pda, session_pda}
use vow_protocol.State.Position.{Position}
use vow_protocol.Vow.BeginUnstake.{init}
use vow_protocol.Treasury.Spend.{is_zero}

pub record SessionParams : Type 0 where
  pub expiry_ts : ℤ
  pub daily_limit : ℕ
  pub lifetime_limit : ℕ
  pub velocity_limit : ℕ

-- The two loops over an array of eight keys: the given ones first, then default keys.
unfoldable pub fill_program_ids : List Pubkey → List Pubkey
fill_program_ids ids = ids ++ replicate (max_program_ids - length ids) default_key

-- What the session is given: the parameters, with an authority profile's defaults where they are 0.
unfoldable pub resolve_params :
    Clock → Pubkey → Option AuthorityProfile → SessionParams → Result SessionParams
resolve_params clock owner none params = ok params
resolve_params clock owner (some profile) params = do
  require_keys_eq profile.wallet owner unauthorized
  expiry_ts ←
      if is_zero params.expiry_ts
      then or_panic (
          checked_add_i64 clock.unix_timestamp
            (pos (profile.default_expiry_days * seconds_per_day)))
      else ok params.expiry_ts
  ok (record {
    expiry_ts = expiry_ts;
    daily_limit =
        if params.daily_limit == 0 then profile.default_daily_limit else params.daily_limit;
    lifetime_limit =
        if params.lifetime_limit == 0
        then profile.default_lifetime_limit
        else params.lifetime_limit;
    velocity_limit = if params.velocity_limit == 0 then 0 else params.velocity_limit;
  })

module _ {B : Type 0} (rt : Runtime B) where
  -- `slot` is the account at the session's PDA, which must not exist.
  unfoldable pub create_session :
      Clock
      → Pubkey
      → Pubkey
      → List Pubkey
      → SessionParams
      → ℕ
      → Option AuthorityProfile
      → Option SessionAccount
      → Position B
      → Result (SessionAccount × Position B)
  unfolding fill_program_ids resolve_params
  create_session clock owner session_key allowed_program_ids params session_index profile slot p =
      do
        require_keys_eq p.idnft.owner owner invalid_owner
        init slot
        require (leb (length allowed_program_ids) max_program_ids) too_many_program_ids
        require (not (session_key == default_key)) session_inactive
        require p.idnft.active_stake identity_inactive
        let creation_nonce = p.idnft.session_nonce
        let vow_key = (vow_pda rt p.idnft.asset_id).0
        limits ← resolve_params clock owner profile params
        session_nonce ← ok_or (checked_add u64_max creation_nonce 1) (vow math_overflow)
        ok (
          record {
            vow_state = vow_key;
            session_key = session_key;
            allowed_program_ids = fill_program_ids allowed_program_ids;
            program_count = as_u8 (length allowed_program_ids);
            session_index = session_index;
            creation_nonce = creation_nonce;
            start_ts = clock.unix_timestamp;
            expiry_ts = limits.expiry_ts;
            daily_limit = limits.daily_limit;
            lifetime_limit = limits.lifetime_limit;
            velocity_limit = limits.velocity_limit;
            spent_today = 0;
            spent_total = 0;
            tx_count_today = 0;
            last_reset_day = div_ℤ clock.unix_timestamp seconds_per_day;
            active = true;
            bump = (session_pda rt vow_key session_index).1;
          },
          record p {
            idnft = record (p.idnft) { session_nonce = session_nonce };
            log = session_created vow_key session_key limits.expiry_ts creation_nonce ∷ p.log;
          },
        )
