-- ===== src/State/Class.antt =====
-- The identity classes of programs/vow/src/state/vow_state.rs, and the lock that each one carries.
pub mod Tiers
use vow_protocol.Prelude.{ℕ, zero, suc, ◌*◌, ◌/◌, List, [], ◌∷◌, leb, ◌==◌, if◌then◌else◌}
use vow_protocol.State.Errors.{Result, ok, err, vow, insufficient_stake, panic}
use vow_protocol.State.Accounts.{lamports_per_xnt, seconds_per_day}

-- The arms of the `match`, in order; what none of them takes is 0.
unfoldable pub class_for_stake : ℕ → Result ℕ
class_for_stake lamports =
    let xnt = lamports / lamports_per_xnt in
    if xnt == 0
    then err (vow insufficient_stake)
    else if leb xnt 100
    then ok 0
    else if leb xnt 300
    then ok 1
    else if leb xnt 500
    then ok 2
    else if leb xnt 1_000
    then ok 3
    else if leb xnt 2_000
    then ok 4
    else if leb xnt 5_000
    then ok 5
    else if leb xnt 10_000
    then ok 6
    else ok 7

abbrev pub lock_days : List ℕ
lock_days = 30 ∷ 90 ∷ 180 ∷ 365 ∷ 547 ∷ 730 ∷ 1095 ∷ 1825 ∷ []

-- `LOCK_SECONDS[i]`; an index outside the array panics.
unfoldable pub lock_seconds : List ℕ → ℕ → Result ℕ
lock_seconds [] i = err panic
lock_seconds (d ∷ ds) zero = ok (d * seconds_per_day)
lock_seconds (d ∷ ds) (suc i) = lock_seconds ds i

unfoldable pub lock_duration : ℕ → Result ℕ
unfolding lock_seconds
lock_duration class = lock_seconds lock_days class
