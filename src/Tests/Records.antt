-- ===== src/Tests/Records.antt =====
-- The theorems on authority profiles and commitment records.
use vow_protocol.Prelude.Bytes.{from_le_bytes}
use vow_protocol.State.Runtime.{reserve_pda}
use vow_protocol.Prelude.{ℕ, ◌+◌, ◌*◌, ◌≤◌, ◌<◌, ◌≡◌, ◌⊎◌, refl, true, none, [], ◌∷◌, arith}
use vow_protocol.Prelude.Machine.{u64_max}
use vow_protocol.State.Errors.{ok, err, panic, ◌>>=◌}
use vow_protocol.State.Accounts.{AuthorityProfile, CommitmentRecord, CrGate, VowState}
use vow_protocol.State.Position.{Position, shares_for, unlock_time}
use vow_protocol.Prelude.Int.{◌+ℤ◌}
use vow_protocol.State.Class.{class_for_stake, lock_duration}
use vow_protocol.Harvest.{settle_idnft}
use vow_protocol.Profile.{
  AuthorityProfileParams, blank_profile, create_authority_profile, update_authority_profile,
  write_params, write_uri,
}
use vow_protocol.Profile.Roundtrip.{Holds, latest, update_all, create_authority_profile-update_all}
use vow_protocol.Vow.AddStake.{relock, add_stake}
use vow_protocol.Commitment.{compute_score, record_commitment, record_fulfillment, blank_record}
use vow_protocol.Commitment.Score.{compute_score-bound}
use vow_protocol.Commitment.Exceeds.{add_stake-exceeds}
use vow_protocol.Tests.Ledger.{Balances, chain, at_time, address, send, or_else, alice, dapp, xnt}
use vow_protocol.Tests.Calls.{held}

abbrev first_params : AuthorityProfileParams
first_params = record {
  default_daily_limit = 3 * xnt;
  default_lifetime_limit = 20 * xnt;
  default_expiry_days = 30;
  default_allowed_program_ids = dapp ∷ [];
  metadata_uri = b'i' ∷ b'p' ∷ b'f' ∷ b's' ∷ [];
}

-- The update brings no URI.
abbrev next_params : AuthorityProfileParams
next_params = record first_params { default_expiry_days = 7; metadata_uri = [] }

abbrev stored : AuthorityProfile
unfolding create_authority_profile update_authority_profile write_params write_uri
stored = or_else blank_profile (
    create_authority_profile chain (at_time 2_000 0) alice (1 ∷ []) first_params none
    >>= update_all alice (next_params ∷ []))

create_authority_profile-update_all_example : Holds (latest first_params (next_params ∷ [])) stored
unfolding create_authority_profile update_authority_profile write_params write_uri
create_authority_profile-update_all_example =
    create_authority_profile-update_all chain (at_time 2_000 0) alice (1 ∷ []) first_params
      (next_params ∷ []) none stored refl

abbrev veteran : CommitmentRecord
veteran = record blank_record {
  total_xnfts_minted = 60;
  total_xnt_committed = 500 * xnt;
  total_xnt_fulfilled = 400 * xnt;
  highest_class_ever = 7;
}

compute_score-bound_example :
    ((veteran.total_xnt_fulfilled * 100 ≤ u64_max)
      × (n : ℕ) × (compute_score veteran ≡ ok n)
      × (n ≤ 1_300))
    ⊎ ((u64_max < veteran.total_xnt_fulfilled * 100) × (compute_score veteran ≡ err panic))
compute_score-bound_example = compute_score-bound veteran (omega arith) (omega arith)

-- Alice's commitment is recorded, she adds 150 XNT, and when the lock has passed her fulfilment is recorded.
abbrev committed : CommitmentRecord × CrGate
unfolding record_commitment compute_score
committed =
    or_else (blank_record, record { bump = 0 })
      (record_commitment chain (at_time 2_000_000 1) held.idnft none none)

abbrev enlarged : Position Balances
unfolding add_stake reserve_pda address from_le_bytes send
enlarged = or_else held (add_stake chain (at_time 2_100_000 1) alice (150 * xnt) held)

abbrev ripe : VowState
ripe = record enlarged.idnft { matured = true }

abbrev fulfilled : CommitmentRecord × CrGate
unfolding record_fulfillment compute_score
fulfilled =
    or_else committed (record_fulfillment chain (at_time 90_000_000 9) ripe committed.0 none)

add_stake-exceeds_example :
    (fulfilled.0.total_xnt_fulfilled ≡ fulfilled.0.total_xnt_committed + 150 * xnt)
    × (fulfilled.0.total_xnt_committed < fulfilled.0.total_xnt_fulfilled)
unfolding record_commitment record_fulfillment add_stake compute_score reserve_pda address
    from_le_bytes send lock_duration settle_idnft class_for_stake shares_for relock unlock_time ◌+ℤ◌
add_stake-exceeds_example =
    add_stake-exceeds chain (at_time 2_000_000 1) (at_time 2_100_000 1) (at_time 90_000_000 9) alice
      (150 * xnt) held enlarged ripe none none committed.0 fulfilled.0 committed.1 fulfilled.1 refl
      refl refl refl
