-- ===== src/Treasury/Spend/Budget.antt =====
-- What the spends of one session can move in all, and in a day
-- (programs/vow/src/instructions/treasury/yield_spend.rs and `reset_daily_if_needed` of
-- programs/vow/src/state/session_account.rs).
use vow_protocol.Prelude.{ℕ, ◌+◌, ◌≤◌, ◌≡◌, ◌≢◌, refl, subst, List, [], ◌∷◌, arith, if◌then◌else◌}
use vow_protocol.Prelude.Int.{ℤ, div_ℤ, ltb_ℤ, ◌≤ℤ◌}
use vow_protocol.State.Errors.{Result, ok, err}
use vow_protocol.State.Accounts.{SessionAccount, seconds_per_day, reset_daily_if_needed}
use vow_protocol.State.Runtime.{Clock, Runtime}
use vow_protocol.State.Position.{Position}
use vow_protocol.Treasury.Spend.{SpendCall, record_spend, yield_spend}
use vow_protocol.Treasury.Spend.Authority.{yield_spend-IsWithinLimits}

-- One attempt to spend: the clock, the call, the amount, and the position at that time. Between two
-- attempts anything may happen to the position.
pub record Attempt (B : Type 0) : Type 0 where
  pub clock : Clock
  pub call : SpendCall
  pub amount : ℕ
  pub position : Position B

abbrev pub day_of : Clock → ℤ
day_of clock = div_ℤ clock.unix_timestamp seconds_per_day

-- What the session has spent on the day `d` so far.
abbrev pub spent_on : ℤ → SessionAccount → ℕ
spent_on d s = if ltb_ℤ s.last_reset_day d then 0 else s.spent_today

module _ {B : Type 0} (rt : Runtime B) where
  unfoldable pub spend_once : Attempt B → SessionAccount → Result (SessionAccount × Position B)
  spend_once a s = yield_spend rt a.clock a.call a.amount s a.position

  -- An attempt that fails leaves the session as it was, and moves nothing.
  abbrev session_after : SessionAccount → Result (SessionAccount × Position B) → SessionAccount
  session_after s (ok (s', q)) = s'
  session_after s (err _) = s

  abbrev amount_moved : ℕ → Result (SessionAccount × Position B) → ℕ
  amount_moved n (ok _) = n
  amount_moved n (err _) = 0

  -- The amounts that a sequence of attempts moves, in all.
  unfoldable pub spend_all : List (Attempt B) → SessionAccount → ℕ
  spend_all [] s = 0
  spend_all (a ∷ rest) s =
      amount_moved a.amount (spend_once a s) + spend_all rest (session_after s (spend_once a s))

  -- After one attempt, the session's count of all it has spent.
  record Counts (s s' : SessionAccount) (moved : ℕ) : Type 0 where
    limit : s'.lifetime_limit ≡ s.lifetime_limit
    total : s'.spent_total ≡ s.spent_total + moved
    within :
        (s.lifetime_limit ≢ 0 → s.spent_total ≤ s.lifetime_limit)
        → s'.lifetime_limit ≢ 0
        → s'.spent_total ≤ s'.lifetime_limit

  -- The same for what it has spent on the day.
  record CountsDay (d : ℤ) (s s' : SessionAccount) (moved : ℕ) : Type 0 where
    limit : s'.daily_limit ≡ s.daily_limit
    today : spent_on d s' ≡ spent_on d s + moved
    reset : s'.last_reset_day ≤ℤ d
    within :
        (s.daily_limit ≢ 0 → spent_on d s ≤ s.daily_limit)
        → s'.daily_limit ≢ 0
        → spent_on d s' ≤ s'.daily_limit

  yield_spend-Counts :
      (a : Attempt B) (s s' : SessionAccount) (q : Position B)
      → spend_once a s ≡ ok (s', q)
      → Counts s s' a.amount
  unfolding spend_once yield_spend record_spend reset_daily_if_needed
  yield_spend-Counts a s s' q h =
      let limits = yield_spend-IsWithinLimits rt a.clock a.call a.amount s s' a.position q h in
      record {
        limit = ground arith;
        total = ground arith;
        within = λ before some_limit. ground (arith, limits.lifetime);
      }

  yield_spend-CountsDay :
      (a : Attempt B) (s s' : SessionAccount) (q : Position B)
      → spend_once a s ≡ ok (s', q)
      → s.last_reset_day ≤ℤ day_of a.clock
      → CountsDay (day_of a.clock) s s' a.amount
  unfolding spend_once yield_spend record_spend reset_daily_if_needed
  yield_spend-CountsDay a s s' q h r =
      let limits = yield_spend-IsWithinLimits rt a.clock a.call a.amount s s' a.position q h in
      record {
        limit = ground arith;
        today = ground arith;
        reset = ground arith;
        within = λ before some_limit. ground (arith, limits.daily);
      }

  after-Counts :
      (a : Attempt B) (s : SessionAccount)
      → Counts s (session_after s (spend_once a s)) (amount_moved a.amount (spend_once a s))
  after-Counts a s = by_result (spend_once a s) refl
    where
      by_result :
          (r : Result (SessionAccount × Position B))
          → spend_once a s ≡ r
          → Counts s (session_after s r) (amount_moved a.amount r)
      by_result (ok (s', q)) e = yield_spend-Counts a s s' q e
      by_result (err x) e = record { limit = refl; total = omega arith; within = λ before. before }

  after-CountsDay :
      (a : Attempt B) (s : SessionAccount)
      → s.last_reset_day ≤ℤ day_of a.clock
      → CountsDay
          (day_of a.clock)
          s
          (session_after s (spend_once a s))
          (amount_moved a.amount (spend_once a s))
  after-CountsDay a s r = by_result (spend_once a s) refl
    where
      by_result :
          (x : Result (SessionAccount × Position B))
          → spend_once a s ≡ x
          → CountsDay (day_of a.clock) s (session_after s x) (amount_moved a.amount x)
      by_result (ok (s', q)) e = yield_spend-CountsDay a s s' q e r
      by_result (err x) e = record {
        limit = refl;
        today = omega arith;
        reset = r;
        within = λ before. before;
      }

  -- Whatever is attempted with a session, at whatever times and whatever happens to the identity in
  -- between: what it moves in all, with what it has spent before, is at most its lifetime limit, if it
  -- has one and was within it.
  pub spend_all-lifetime :
      (rest : List (Attempt B)) (s : SessionAccount)
      → s.lifetime_limit ≢ 0
      → s.spent_total ≤ s.lifetime_limit
      → s.spent_total + spend_all rest s ≤ s.lifetime_limit
  unfolding spend_all
  spend_all-lifetime [] s some_limit within = omega arith
  spend_all-lifetime (a ∷ rest) s some_limit within =
      let s' = session_after s (spend_once a s) in
      let c = after-Counts a s in
      let some_limit' : s'.lifetime_limit ≢ 0 = rw c.limit some_limit in
      omega (
        arith,
        c.limit,
        c.total,
        spend_all-lifetime rest s' some_limit' (c.within (λ _. within) some_limit'),
      )

  -- All attempts are made on the day `d`.
  abbrev pub AreOn : ℤ → List (Attempt B) → Type 0
  AreOn d [] = Unit
  AreOn d (a ∷ rest) = (day_of a.clock ≡ d) × AreOn d rest

  -- Whatever is attempted with a session on one day: what it moves on it, with what it has spent on it
  -- before, is at most its daily limit, if it has one and was within it. (The session was last reset
  -- on no later day.)
  pub spend_all-daily :
      (rest : List (Attempt B)) (d : ℤ) (s : SessionAccount)
      → AreOn d rest
      → s.last_reset_day ≤ℤ d
      → s.daily_limit ≢ 0
      → spent_on d s ≤ s.daily_limit
      → spent_on d s + spend_all rest s ≤ s.daily_limit
  unfolding spend_all
  spend_all-daily [] d s on reset some_limit within = omega arith
  spend_all-daily (a ∷ rest) d s on reset some_limit within =
      let s' = session_after s (spend_once a s) in
      let c : CountsDay d s s' (amount_moved a.amount (spend_once a s)) =
        subst (λ e. CountsDay e s s' (amount_moved a.amount (spend_once a s))) on.0
          (after-CountsDay a s (rw on.0 reset)) in
      let some_limit' : s'.daily_limit ≢ 0 = rw c.limit some_limit in
      omega (
        arith,
        c.limit,
        c.today,
        spend_all-daily rest d s' on.1 c.reset some_limit' (c.within (λ _. within) some_limit'),
      )
