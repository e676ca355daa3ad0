-- ===== src/Harvest/Burn.antt =====
-- What realising a gain credits and burns (programs/vow/src/instructions/harvest.rs).
use vow_protocol.Prelude.{ℕ, ◌+◌, ◌*◌, ◌/◌, ◌%◌, ◌≤◌, ◌<◌, ◌≡◌, arith}
use vow_protocol.Prelude.Int.{pos}
use vow_protocol.Prelude.Machine.{u64_max}
use native.Mathlib.Nat.{div-mul-le_self, lt-mul-div-succ, mul_comm}
use vow_protocol.State.Errors.{ok}
use vow_protocol.State.Accounts.{hybrid, treasury, share_precision}
use vow_protocol.State.Position.{Position}
use vow_protocol.Harvest.{credit, realise}

-- `amount` lamports were moved to the yield balance for `burned` shares, which are worth at most the
-- amount, and one share more would be worth more.
pub record Burns {B : Type 0} (amount : ℕ) (p q : Position B) : Type 0 where
  pub burned : ℕ
  pub shares : q.idnft.shares + burned ≡ p.idnft.shares
  pub credited : q.idnft.yield_balance ≡ p.idnft.yield_balance + amount
  pub at_most : burned * p.config.current_share_price ≤ amount * share_precision
  pub at_least : amount * share_precision < (burned + 1) * p.config.current_share_price

quotient_bounds : (a t : ℕ) → 0 < t → (a / t * t ≤ a) × (a < (a / t + 1) * t)
quotient_bounds a t h = (div-mul-le_self a t, rw (mul_comm (a / t + 1) t) (lt-mul-div-succ a h))

module _ {B : Type 0} where
  credit-Burns :
      (amount total carried : ℕ) (p q : Position B)
      → 0 < p.config.current_share_price
      → p.idnft.yield_balance + amount ≤ u64_max
      → credit amount total carried p ≡ ok q
      → Burns amount p q × (q.idnft.accrued_gain ≡ pos carried)
  unfolding credit
  credit-Burns amount total carried p q price fits h =
      let burned = amount * share_precision / p.config.current_share_price in
      let b = quotient_bounds (amount * share_precision) p.config.current_share_price price in
      (
        record {
          burned = burned;
          shares = ground arith;
          credited = ground arith;
          at_most = b.0;
          at_least = b.1;
        },
        ground arith,
      )

  -- A position in mode Treasury with a positive gain is credited the whole gain, and none is left
  -- to credit. The shares burnt for it are the most that are worth no more than it. (The balance
  -- has room for the gain, and the price is not 0.)
  pub realise-treasury :
      (gain : ℕ) (p q : Position B)
      → 0 < gain
      → 0 < p.config.current_share_price
      → p.idnft.yield_balance + gain ≤ u64_max
      → realise treasury (pos gain) p ≡ ok q
      → Burns gain p q × (q.idnft.accrued_gain ≡ pos 0)
  unfolding realise
  realise-treasury gain p q some_gain price fits h =
      credit-Burns gain gain 0 p q price fits (ground arith)

  -- A position in mode Hybrid with a positive gain is credited half of it, rounded down, and an
  -- odd lamport of the gain stays accrued. The shares burnt for the half are the most that are
  -- worth no more than it. (The balance has room for the half, and the price is not 0.)
  pub realise-hybrid :
      (gain : ℕ) (p q : Position B)
      → 0 < gain
      → 0 < p.config.current_share_price
      → p.idnft.yield_balance + gain / 2 ≤ u64_max
      → realise hybrid (pos gain) p ≡ ok q
      → Burns (gain / 2) p q × (q.idnft.accrued_gain ≡ pos (gain % 2))
  unfolding realise
  realise-hybrid gain p q some_gain price fits h =
      credit-Burns (gain / 2) gain (gain % 2) p q price fits (ground arith)
