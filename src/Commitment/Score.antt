-- ===== src/Commitment/Score.antt =====
-- What the score of a commitment record can be
-- (`compute_score` in programs/vow/src/instructions/commitment/record_commitment.rs).
use vow_protocol.Prelude.{ℕ, ◌*◌, ◌/◌, ◌≤◌, ◌<◌, ◌≡◌, ◌⊎◌, inl, inr, ap, refl, arith}
use native.Mathlib.Nat.{div-le_of_le-mul, min-le_right}
use vow_protocol.Prelude.Machine.{u64_max}
use vow_protocol.State.Errors.{Result, ok, err, panic}
use vow_protocol.State.Accounts.{CommitmentRecord}
use vow_protocol.Commitment.{compute_score}

ratio-bound : (fulfilled committed : ℕ) → fulfilled ≤ committed → fulfilled * 100 / committed ≤ 100
ratio-bound f c h = div-le_of_le-mul c (omega (arith, h))

-- The computation returned at most `max`, or it panicked since the fulfilled part overflows.
abbrev IsAtMost : ℕ → CommitmentRecord → Result ℕ → Type 0
IsAtMost max r (ok n) = (n ≤ max) × (r.total_xnt_fulfilled * 100 ≤ u64_max)
IsAtMost max r (err e) = (e ≡ panic) × (u64_max < r.total_xnt_fulfilled * 100)

score_by_parts :
    (r : CommitmentRecord)
    → r.highest_class_ever ≤ 7
    → r.total_xnt_fulfilled ≤ r.total_xnt_committed
    → IsAtMost 1_300 r (compute_score r)
unfolding compute_score
score_by_parts r class kept = ground (
  arith,
  ratio-bound r.total_xnt_fulfilled r.total_xnt_committed kept,
  min-le_right r.total_xnfts_minted 50,
)

by_result :
    (max : ℕ) (r : CommitmentRecord) (s : Result ℕ)
    → IsAtMost max r s
    → ((r.total_xnt_fulfilled * 100 ≤ u64_max) × (n : ℕ) × (s ≡ ok n) × (n ≤ max))
      ⊎ ((u64_max < r.total_xnt_fulfilled * 100) × (s ≡ err panic))
by_result max r (ok n) h = inl (h.1, n, refl, h.0)
by_result max r (err e) h = inr (h.1, ap (λ x. err x) h.0)

-- The score of a record whose class is one of the eight, and in which no more is fulfilled than was
-- committed: if a hundred times what is fulfilled fits a u64, it is computed, and it is at most 1300 (700
-- points for the class, 500 for the identities, 100 for the fulfilled part); if not, its computation
-- panics.
pub compute_score-bound :
    (r : CommitmentRecord)
    → r.highest_class_ever ≤ 7
    → r.total_xnt_fulfilled ≤ r.total_xnt_committed
    → ((r.total_xnt_fulfilled * 100 ≤ u64_max) × (n : ℕ) × (compute_score r ≡ ok n) × (n ≤ 1_300))
      ⊎ ((u64_max < r.total_xnt_fulfilled * 100) × (compute_score r ≡ err panic))
compute_score-bound r class kept = by_result 1_300 r (compute_score r) (score_by_parts r class kept)
