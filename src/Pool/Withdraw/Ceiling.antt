-- ===== src/Pool/Withdraw/Ceiling.antt =====
-- The pool tokens that `withdraw_from_pool` asks for, and the price that `update_share_price` stores
-- (programs/vow/src/instructions/pool/).
use vow_protocol.Prelude.{ℕ, ◌+◌, ◌-◌, ◌*◌, ◌/◌, ◌≤◌, ◌<◌, ◌≡◌, arith}
use vow_protocol.Prelude.Machine.{u64_max}
use vow_protocol.State.Errors.{ok}
use vow_protocol.Pool.UpdateSharePrice.{pool_price}
use vow_protocol.Pool.Withdraw.{tokens_for}

ceiling_bounds : (a t : ℕ) → 0 < t → (a ≤ (a + (t - 1)) / t * t) × ((a + (t - 1)) / t * t < a + t)
ceiling_bounds a t h = grind arith

-- The tokens are the least number that is worth at least the lamports needed, at the pool's rate
-- of `total` lamports for `supply` tokens, if that number fits a u64.
pub tokens_for-ceiling :
    (needed supply total tokens : ℕ)
    → (needed * supply + (total - 1)) / total ≤ u64_max
    → tokens_for needed supply total ≡ ok tokens
    → (needed * supply ≤ tokens * total) × (tokens * total < needed * supply + total)
unfolding tokens_for
tokens_for-ceiling needed supply total tokens fits h =
    ground (arith, ceiling_bounds (needed * supply) total)

-- A stored price is never 0.
pub pool_price-positive :
    (old lamports supply price : ℕ)
    → 0 < old
    → pool_price old lamports supply ≡ ok price
    → 0 < price
unfolding pool_price
pool_price-positive old lamports supply price h e = ground arith
