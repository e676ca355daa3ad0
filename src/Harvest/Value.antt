-- ===== src/Harvest/Value.antt =====
-- What a position is worth at a given share price, before and after a gain is realised
-- (programs/vow/src/instructions/harvest.rs).
use vow_protocol.Prelude.{
  ℕ, ◌+◌, ◌-◌, ◌*◌, ◌/◌, ◌%◌, ◌==◌, ◌≤◌, ◌≡◌, ◌⊎◌, inl, inr, Bool-cases, ap, ◌∙◌, arith,
}
use vow_protocol.Prelude.Int.{ℤ, pos_part}
use vow_protocol.Prelude.Machine.{checked_div, u64_max}
use native.Mathlib.Nat.{add-mul, div-mul-le_self, mul-le-mul_left}
use vow_protocol.State.Errors.{ok, unwrap_or}
use vow_protocol.State.Accounts.{VowState, YieldMode, compound, hybrid, treasury, share_precision}
use vow_protocol.State.Position.{Position}
use vow_protocol.Harvest.{keep, credit, realise}

-- What the shares are worth at the price, with the yield balance, in units of 10^-12 lamports.
abbrev pub value_at : ℕ → VowState → ℕ
value_at price v = v.shares * price + v.yield_balance * share_precision

-- The value at the price did not fall, or the yield balance is full.
abbrev pub KeepsValue : ℕ → VowState → VowState → Type 0
KeepsValue price v w = (u64_max ≤ w.yield_balance) ⊎ (value_at price v ≤ value_at price w)

-- The quotient that `credit` burns, which is 0 at the price 0.
burned-le :
    (a current price : ℕ) → price ≤ current → unwrap_or (checked_div a current) 0 * price ≤ a
burned-le a current price h = elim (Bool-cases (current == 0)) [
  | inl zero ↦ ground arith
  | inr some_price ↦
      let b = a / current in
      let below : b * price ≤ b * current = mul-le-mul_left b h in
      let quotient = div-mul-le_self a current in ground (arith, below, quotient)
]

split-shares : (s b price : ℕ) → b ≤ s → s * price ≡ (s - b) * price + b * price
split-shares s b price h =
    let whole : s ≡ s - b + b = omega (arith, h) in
    ap (λ x. x * price) whole ∙ add-mul (s - b) b price

module _ {B : Type 0} where
  credit-KeepsValue :
      (price amount total carried : ℕ) (p q : Position B)
      → price ≤ p.config.current_share_price
      → credit amount total carried p ≡ ok q
      → KeepsValue price p.idnft q.idnft
  unfolding credit
  credit-KeepsValue price amount total carried p q low h =
      let burned =
        unwrap_or (checked_div (amount * share_precision) p.config.current_share_price) 0 in
      ground (
        arith,
        burned-le (amount * share_precision) p.config.current_share_price price low,
        split-shares p.idnft.shares burned price,
      )

  pub realise-KeepsValue :
      (mode : YieldMode) (gain : ℤ) (price : ℕ) (p q : Position B)
      → price ≤ p.config.current_share_price
      → realise mode gain p ≡ ok q
      → KeepsValue price p.idnft q.idnft
  unfolding realise keep
  realise-KeepsValue compound gain price p q low h = ground arith
  realise-KeepsValue treasury gain price p q low h =
      ground (arith, credit-KeepsValue price (pos_part gain) (pos_part gain) 0 p q low)
  realise-KeepsValue hybrid gain price p q low h = ground (
    arith,
    credit-KeepsValue price (pos_part gain / 2) (pos_part gain) (pos_part gain % 2) p q low,
  )
