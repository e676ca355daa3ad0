-- ===== src/Harvest/Path.antt =====
-- Settling follows the share price (`settle_idnft` in programs/vow/src/instructions/harvest.rs):
-- what an identity has gained does not depend on when it was settled on the way.
use vow_protocol.Prelude.{ℕ, ◌+◌, ◌*◌, ◌/◌, ◌^◌, ◌≤◌, ◌≡◌, refl, List, [], ◌∷◌, arith}
use vow_protocol.Prelude.Int.{ℤ, pos_part, neg_part, sub_ℕ, ◌+ℤ◌, eq_of_parts}
use vow_protocol.Prelude.Keyed.{All}
use vow_protocol.Prelude.Machine.{saturating_add_i64, clamp_i64}
use vow_protocol.State.Errors.{Result, ok, ◌>>=◌}
use vow_protocol.State.Accounts.{VowState, ProtocolConfig, share_precision}
use vow_protocol.State.Position.{share_value}
use vow_protocol.Harvest.{settle_idnft}

-- The config at another share price.
abbrev pub at_price : ProtocolConfig → ℕ → ProtocolConfig
at_price c price = record c { current_share_price = price }

-- Settles at each of the prices, in order.
abbrev pub settle_along : ProtocolConfig → List ℕ → VowState → Result VowState
settle_along c [] v = ok v
settle_along c (price ∷ prices) v = settle_idnft v (at_price c price) >>= settle_along c prices

-- What the identity's shares are worth at the price, in lamports.
abbrev pub value_at : VowState → ℕ → ℕ
value_at v price = v.shares * price / share_precision

-- Far from the ends of an `i64`.
abbrev pub IsModest : ℕ → Type 0
IsModest n = n ≤ 2 ^ 61

share_value-modest :
    (shares price : ℕ)
    → IsModest (shares * price / share_precision)
    → share_value shares price ≡ ok (shares * price / share_precision)
unfolding share_value
share_value-modest shares price h = ground arith

clamp_i64-modest : (a b : ℕ) → IsModest a → IsModest b → clamp_i64 (sub_ℕ a b) ≡ sub_ℕ a b
clamp_i64-modest a b ha hb = ground arith

gain_parts :
    (a : ℤ) (x y : ℕ)
    → pos_part (a +ℤ sub_ℕ y x) + neg_part a + x ≡ neg_part (a +ℤ sub_ℕ y x) + pos_part a + y
unfolding ◌+ℤ◌
gain_parts a x y = ground arith

clamp_i64_within : (z : ℤ) → pos_part z ≤ 2 ^ 62 → neg_part z ≤ 2 ^ 62 → clamp_i64 z ≡ z
clamp_i64_within z less more = ground arith

gain-bounds :
    (a : ℤ) (x y : ℕ)
    → IsModest (pos_part a)
    → IsModest (neg_part a)
    → IsModest x
    → IsModest y
    → (pos_part (a +ℤ sub_ℕ y x) ≤ 2 ^ 62) × (neg_part (a +ℤ sub_ℕ y x) ≤ 2 ^ 62)
unfolding ◌+ℤ◌
gain-bounds a x y up down hx hy = ground arith

add_nothing : (a : ℤ) (x : ℕ) → a ≡ a +ℤ sub_ℕ x x
add_nothing a x = eq_of_parts a (a +ℤ sub_ℕ x x) (omega (arith, gain_parts a x x))

-- Gains from `x` to `y` and from `y` to `z` add up, as long as nothing is clamped.
gains_add :
    (a : ℤ) (x y z : ℕ)
    → IsModest (pos_part a)
    → IsModest (neg_part a)
    → IsModest x
    → IsModest y
    → IsModest z
    → saturating_add_i64 (a +ℤ sub_ℕ y x) (clamp_i64 (sub_ℕ z y)) ≡ a +ℤ sub_ℕ z x
gains_add a x y z up down hx hy hz =
    let first = gain_parts a x y in
    let second = gain_parts (a +ℤ sub_ℕ y x) y z in
    let whole = gain_parts a x z in
    let sum : (a +ℤ sub_ℕ y x) +ℤ sub_ℕ z y ≡ a +ℤ sub_ℕ z x =
      eq_of_parts ((a +ℤ sub_ℕ y x) +ℤ sub_ℕ z y) (a +ℤ sub_ℕ z x) (omega arith) in
    let inner : clamp_i64 (sub_ℕ z y) ≡ sub_ℕ z y = clamp_i64-modest z y hz hy in
    let (less, more) = gain-bounds a x z up down hx hz in
    rw inner (rw sum (clamp_i64_within (a +ℤ sub_ℕ z x) less more))

-- `w` is the identity `v`, settled at some price.
pub record IsSettledFrom (v w : VowState) : Type 0 where
  fields : w ≡ record v { accrued_gain = w.accrued_gain; last_share_price = w.last_share_price }
  modest : IsModest (value_at v w.last_share_price)
  gain :
      w.accrued_gain
      ≡ v.accrued_gain +ℤ sub_ℕ (value_at v w.last_share_price) (value_at v v.last_share_price)

pub record IsSmall (v : VowState) : Type 0 where
  pub up : IsModest (pos_part v.accrued_gain)
  pub down : IsModest (neg_part v.accrued_gain)
  pub worth : IsModest (value_at v v.last_share_price)

settle_idnft-IsSettledFrom :
    (v w : VowState) (c : ProtocolConfig)
    → IsSmall v
    → IsSettledFrom v w
    → IsModest (value_at v c.current_share_price)
    → settle_idnft w c
      ≡ ok (record v {
        accrued_gain =
            v.accrued_gain
            +ℤ sub_ℕ (value_at v c.current_share_price) (value_at v v.last_share_price);
        last_share_price = c.current_share_price;
      })
unfolding settle_idnft
settle_idnft-IsSettledFrom v w c s f m = ground (
  arith,
  share_value-modest v.shares c.current_share_price m,
  share_value-modest v.shares w.last_share_price f.modest,
  gains_add v.accrued_gain (value_at v v.last_share_price) (value_at v w.last_share_price)
      (value_at v c.current_share_price),
)

IsSettledFrom-refl : (v : VowState) → IsSmall v → IsSettledFrom v v
IsSettledFrom-refl v s = record {
  fields = refl;
  modest = s.worth;
  gain = add_nothing v.accrued_gain (value_at v v.last_share_price);
}

settle_along-IsSettledFrom :
    (prices : List ℕ) (v w : VowState) (c : ProtocolConfig)
    → IsSmall v
    → IsSettledFrom v w
    → All (λ price. IsModest (value_at v price)) prices
    → (u : VowState) × (settle_along c prices w ≡ ok u) × IsSettledFrom v u
settle_along-IsSettledFrom [] v w c s f m = (w, refl, f)
settle_along-IsSettledFrom (price ∷ prices) v w c s f m =
    let e = settle_idnft-IsSettledFrom v w (at_price c price) s f m.0 in
    let next : VowState = record v {
      accrued_gain = v.accrued_gain +ℤ sub_ℕ (value_at v price) (value_at v v.last_share_price);
      last_share_price = price;
    } in
    rw e (
      settle_along-IsSettledFrom prices v next c s
        (record { fields = refl; modest = m.0; gain = refl }) m.1)

-- Whatever prices an identity is settled at on the way, settling it at the config's price then gives what settling
-- it there at once gives: its last price, and a gain that is the old one and the rise of its value
-- since its last price. (The old gain and the value of its shares at all these prices are at most
-- 2 ^ 61 lamports, so that no sum is clamped.)
pub settle_along-settle_idnft :
    (prices : List ℕ) (v : VowState) (c : ProtocolConfig)
    → IsSmall v
    → All (λ price. IsModest (value_at v price)) prices
    → IsModest (value_at v c.current_share_price)
    → let settled : VowState = record v {
      accrued_gain =
          v.accrued_gain
          +ℤ sub_ℕ (value_at v c.current_share_price) (value_at v v.last_share_price);
      last_share_price = c.current_share_price;
    } in
      (settle_idnft v c ≡ ok settled)
      × ((settle_along c prices v >>= (λ w. settle_idnft w c)) ≡ ok settled)
settle_along-settle_idnft prices v c s m now =
    let (u, e, f) = settle_along-IsSettledFrom prices v v c s (IsSettledFrom-refl v s) m in
    (
      settle_idnft-IsSettledFrom v v c s (IsSettledFrom-refl v s) now,
      rw e (settle_idnft-IsSettledFrom v u c s f now),
    )
