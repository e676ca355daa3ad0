-- ===== src/Accounting/Harvest.antt =====
-- What a harvest (programs/vow/src/instructions/harvest.rs) does to the totals of the config.
use vow_protocol.Prelude.{ℕ, ◌≡◌, arith}
use vow_protocol.Prelude.Int.{ℤ}
use vow_protocol.State.Errors.{ok}
use vow_protocol.State.Accounts.{YieldMode, compound, hybrid, treasury}
use vow_protocol.State.Runtime.{Clock}
use vow_protocol.State.Position.{Position, mature}
use vow_protocol.Accounting.{IsBacked, Fits, Balances}
use vow_protocol.Harvest.{credit, realise, harvest}
use vow_protocol.Harvest.Settle.{settle_idnft-Settled, mature_keeps, harvest-ok}

module _ {B : Type 0} where
  credit-Balances :
      (amount total carried : ℕ) (p : Position B) {q : Position B}
      → IsBacked p
      → Fits p q
      → credit amount total carried p ≡ ok q
      → Balances p q
  unfolding credit
  credit-Balances amount total carried p b f h = ground arith

  realise-Balances :
      (mode : YieldMode) (gain : ℤ) (p : Position B) {q : Position B}
      → IsBacked p
      → Fits p q
      → realise mode gain p ≡ ok q
      → Balances p q
  unfolding realise
  realise-Balances compound gain p b f h = ground arith
  realise-Balances hybrid gain p b f h = ground (arith, credit-Balances _ _ _ p b f)
  realise-Balances treasury gain p b f h = ground (arith, credit-Balances _ _ _ p b f)

  pub harvest-Balances :
      (clock : Clock) (p : Position B) {q : Position B}
      → IsBacked p
      → Fits p q
      → harvest clock p ≡ ok q
      → Balances p q
  harvest-Balances clock p {q} b f h =
      let (w, e, r) = harvest-ok clock p h in
      ground (
        arith,
        settle_idnft-Settled (mature clock p).idnft (mature clock p).config,
        mature_keeps clock p,
        realise-Balances w.yield_mode w.accrued_gain (record (mature clock p) { idnft = w })
            {q = q},
      )
