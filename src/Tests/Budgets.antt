-- ===== src/Tests/Budgets.antt =====
-- The theorems on what a session spends over time.
use vow_protocol.Prelude.{ℕ, ◌+◌, ◌*◌, ◌≤◌, refl, List, [], ◌∷◌, arith}
use vow_protocol.Prelude.Int.{pos}
use vow_protocol.State.Accounts.{SessionAccount}
use vow_protocol.Treasury.Spend.Budget.{Attempt, spend_all, spend_all-lifetime, spend_all-daily}
use vow_protocol.Tests.Ledger.{Balances, chain, at_time, xnt}
use vow_protocol.Tests.Calls.{held}
use vow_protocol.Tests.Spends.{session, call}

-- Alice's session may spend 5 XNT in all and 3 XNT a day.
abbrev limited : SessionAccount
limited = record session { lifetime_limit = 5 * xnt }

abbrev spend_at : ℕ → Attempt Balances
spend_at t = record { clock = at_time t 5; call = call; amount = 2 * xnt; position = held }

-- On three days.
abbrev on_three_days : List (Attempt Balances)
on_three_days = spend_at 8_000_000 ∷ spend_at 8_090_000 ∷ spend_at 8_180_000 ∷ []

-- On one day.
abbrev on_one_day : List (Attempt Balances)
on_one_day = spend_at 8_000_000 ∷ spend_at 8_000_100 ∷ []

spend_all-lifetime_example : 0 + spend_all chain on_three_days limited ≤ 5 * xnt
spend_all-lifetime_example =
    spend_all-lifetime chain on_three_days limited (omega arith) (omega arith)

spend_all-daily_example : 0 + spend_all chain on_one_day limited ≤ 3 * xnt
spend_all-daily_example =
    spend_all-daily chain on_one_day (pos 92) limited (refl, (refl, tt)) (omega arith) (omega arith)
      (omega arith)
