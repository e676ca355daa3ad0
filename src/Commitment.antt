-- ===== src/Commitment.antt =====
-- programs/vow/src/instructions/commitment/: the reputation record of a wallet.
pub mod Score
pub mod Exceeds
use vow_protocol.Prelude.{ℕ, ◌*◌, ◌/◌, ltb, ◌==◌, min, Option, none, some, if◌then◌else◌}
use vow_protocol.Prelude.Int.{pos}
use vow_protocol.Prelude.Machine.{
  checked_add, checked_mul, saturating_add, u32_max, u64_max, as_u32,
}
use vow_protocol.State.Errors.{Result, ok, not_matured, or_panic, require, ◌>>=◌, ◌>>◌}
use vow_protocol.State.Accounts.{VowState, CommitmentRecord, CrGate, seconds_per_day, default_key}
use vow_protocol.State.Class.{lock_duration}
use vow_protocol.State.Runtime.{
  Clock, Runtime, vow_pda, commitment_pda, cr_commit_pda, cr_fulfill_pda,
}
use vow_protocol.Vow.BeginUnstake.{init}

-- The two functions `compute_score` are the same. Their products and sums panic on overflow.
unfoldable pub compute_score : CommitmentRecord → Result ℕ
compute_score r = do
  class_points ← or_panic (checked_mul u32_max r.highest_class_ever 100)
  let mint_points = min r.total_xnfts_minted 50 * 10
  hundredfold ←
      if ltb 0 r.total_xnt_committed
      then or_panic (checked_mul u64_max r.total_xnt_fulfilled 100)
      else ok 0
  let fulfilled_ratio =
      if ltb 0 r.total_xnt_committed then as_u32 (hundredfold / r.total_xnt_committed) else 0
  points ← or_panic (checked_add u32_max class_points mint_points)
  or_panic (checked_add u32_max points fulfilled_ratio)

-- What `init_if_needed` finds in a new account.
abbrev pub blank_record : CommitmentRecord
blank_record = record {
  wallet = default_key;
  total_xnfts_minted = 0;
  total_xnt_committed = 0;
  total_xnt_fulfilled = 0;
  highest_class_ever = 0;
  total_commitment_days = 0;
  commitment_score = 0;
  last_updated = pos 0;
  bump = 0;
}

abbrev pub or_blank : Option CommitmentRecord → CommitmentRecord
or_blank none = blank_record
or_blank (some r) = r

module _ {B : Type 0} (rt : Runtime B) where
  -- `old` is the record of the identity's owner, and `gate` the account at the one-time gate's PDA.
  unfoldable pub record_commitment :
      Clock
      → VowState
      → Option CommitmentRecord
      → Option CrGate
      → Result (CommitmentRecord × CrGate)
  record_commitment clock idnft old gate = do
    init gate
    let r = or_blank old
    let record_key = (commitment_pda rt idnft.owner).0
    lock ← lock_duration idnft.class
    let r' : CommitmentRecord = record r {
      wallet = idnft.owner;
      total_xnfts_minted = saturating_add u32_max r.total_xnfts_minted 1;
      total_xnt_committed = saturating_add u64_max r.total_xnt_committed idnft.principal_lamports;
      highest_class_ever =
          if ltb r.highest_class_ever idnft.class then idnft.class else r.highest_class_ever;
      total_commitment_days =
          saturating_add u64_max r.total_commitment_days (lock / seconds_per_day);
    }
    score ← compute_score r'
    ok (
      record r' {
        commitment_score = score;
        last_updated = clock.unix_timestamp;
        bump = if r.bump == 0 then (commitment_pda rt idnft.owner).1 else r.bump;
      },
      record { bump = (cr_commit_pda rt record_key (vow_pda rt idnft.asset_id).0).1 },
    )

  unfoldable pub record_fulfillment :
      Clock → VowState → CommitmentRecord → Option CrGate → Result (CommitmentRecord × CrGate)
  record_fulfillment clock idnft r gate = do
    init gate
    require idnft.matured not_matured
    let record_key = (commitment_pda rt idnft.owner).0
    let r' : CommitmentRecord = record r {
      total_xnt_fulfilled = saturating_add u64_max r.total_xnt_fulfilled idnft.principal_lamports;
    }
    score ← compute_score r'
    ok (
      record r' { commitment_score = score; last_updated = clock.unix_timestamp },
      record { bump = (cr_fulfill_pda rt record_key (vow_pda rt idnft.asset_id).0).1 },
    )
