-- ===== src/State/Class/Tiers.antt =====
-- The table of tiers in the README, against the code's `match`.
use vow_protocol.Prelude.{
  ℕ, zero, suc, ◌*◌, ◌/◌, ◌-◌, ◌≤◌, ◌<◌, ◌≡◌, ◌↔◌, List, [], ◌∷◌, arith, leb, if◌then◌else◌,
}
use vow_protocol.State.Errors.{ok}
use vow_protocol.State.Accounts.{lamports_per_xnt, seconds_per_day}
use vow_protocol.State.Class.{class_for_stake, lock_days, lock_seconds, lock_duration}

-- The column "Minimum Stake", in XNT.
abbrev pub minimum_stake : List ℕ
minimum_stake = 1 ∷ 101 ∷ 301 ∷ 501 ∷ 1_001 ∷ 2_001 ∷ 5_001 ∷ 10_001 ∷ []

-- How many entries of a table are at most `x`.
abbrev pub reached : ℕ → List ℕ → ℕ
reached x [] = 0
reached x (m ∷ ms) = if leb m x then suc (reached x ms) else 0

-- A stake has class `c` exactly if it reaches `c + 1` of the minimum stakes in the README's table,
-- counted in whole XNT from the lowest on.
pub class_for_stake-reached :
    (lamports c : ℕ)
    → (class_for_stake lamports ≡ ok c)
      ↔ (reached (lamports / lamports_per_xnt) minimum_stake ≡ suc c)
unfolding class_for_stake
class_for_stake-reached lamports c = ground arith

-- From one XNT on, every stake has one of the eight classes.
pub class_for_stake_total :
    (lamports : ℕ)
    → lamports_per_xnt ≤ lamports
    → (c : ℕ) × (class_for_stake lamports ≡ ok c) × (c ≤ 7)
class_for_stake_total lamports h =
    let n = reached (lamports / lamports_per_xnt) minimum_stake in
    let bounds : (1 ≤ n) × (n ≤ 8) = ground arith in
    (n - 1, (class_for_stake-reached lamports (n - 1)).1 (ground arith), omega arith)

-- Of two stakes that have a class, the larger one has no lower class.
pub class_for_stake_mono :
    (a b c d : ℕ) → a ≤ b → class_for_stake a ≡ ok c → class_for_stake b ≡ ok d → c ≤ d
unfolding class_for_stake
class_for_stake_mono a b c d h hc hd = ground arith

-- Every entry of a table is above `x`, and below all that follow it.
abbrev Above : ℕ → List ℕ → Type 0
Above x [] = Unit
Above x (m ∷ ms) = (x < m) × Above x ms

abbrev Ascends : List ℕ → Type 0
Ascends [] = Unit
Ascends (m ∷ ms) = Above m ms × Ascends ms

lock_seconds-Above :
    (ds : List ℕ) (x i n : ℕ) → Above x ds → lock_seconds ds i ≡ ok n → x * seconds_per_day < n
unfolding lock_seconds
lock_seconds-Above [] x i n a h = cc
lock_seconds-Above (d ∷ ds) x zero n a h = ground arith
lock_seconds-Above (d ∷ ds) x (suc i) n a h = lock_seconds-Above ds x i n a.1 h

lock_seconds_mono :
    (ds : List ℕ) (c d m n : ℕ)
    → Ascends ds
    → c < d
    → lock_seconds ds c ≡ ok m
    → lock_seconds ds d ≡ ok n
    → m < n
unfolding lock_seconds
lock_seconds_mono [] c d m n a h hm hn = cc
lock_seconds_mono (x ∷ ds) zero zero m n a h hm hn = absurd (omega arith)
lock_seconds_mono (x ∷ ds) zero (suc d) m n a h hm hn =
    ground (arith, lock_seconds-Above ds x d n a.0 hn)
lock_seconds_mono (x ∷ ds) (suc c) zero m n a h hm hn = absurd (omega arith)
lock_seconds_mono (x ∷ ds) (suc c) (suc d) m n a h hm hn =
    lock_seconds_mono ds c d m n a.1 (omega arith) hm hn

-- Of two classes that have a lock, the higher one is locked longer.
pub lock_duration_mono :
    (c d m n : ℕ) → c < d → lock_duration c ≡ ok m → lock_duration d ≡ ok n → m < n
unfolding lock_duration
lock_duration_mono c d m n h hm hn = lock_seconds_mono lock_days c d m n (omega arith) h hm hn
