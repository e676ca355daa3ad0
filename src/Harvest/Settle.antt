-- ===== src/Harvest/Settle.antt =====
-- What settling changes, and that it is settled once and for all at a given price.
use vow_protocol.Prelude.{◌≡◌, arith}
use vow_protocol.State.Errors.{Result, ok, err, >>=-eq-ok}
use vow_protocol.State.Accounts.{VowState, ProtocolConfig}
use vow_protocol.State.Runtime.{Clock}
use vow_protocol.State.Position.{Position, mature}
use vow_protocol.Harvest.{settle_idnft, realise, harvest}

-- Settling writes two fields; `ground` reads this once it has split on the result.
abbrev pub Settled : VowState → ProtocolConfig → Result VowState → Type 0
Settled v config (ok w) =
    w ≡ record v { accrued_gain = w.accrued_gain; last_share_price = config.current_share_price }
Settled v config (err _) = Unit

pub settle_idnft-Settled :
    (v : VowState) (config : ProtocolConfig) → Settled v config (settle_idnft v config)
unfolding settle_idnft
settle_idnft-Settled v config = ground arith

-- What settling returns, settling again at the same price returns unchanged.
pub settle_idnft_idempotent :
    (v : VowState) (config : ProtocolConfig) {w : VowState}
    → settle_idnft v config ≡ ok w
    → settle_idnft w config ≡ ok w
unfolding settle_idnft
settle_idnft_idempotent v config h = ground (arith, settle_idnft-Settled v config)

module _ {B : Type 0} where
  -- Maturing sets one flag of the identity, and emits.
  pub mature_keeps :
      (clock : Clock) (p : Position B)
      → mature clock p ≡ record p {
        idnft = record (p.idnft) { matured = (mature clock p).idnft.matured };
        log = (mature clock p).log;
      }
  unfolding mature
  mature_keeps clock p = ground arith

  -- A successful harvest has settled, and then realised the gain.
  pub harvest-ok :
      (clock : Clock) (p : Position B) {q : Position B}
      → harvest clock p ≡ ok q
      → (w : VowState) × (settle_idnft (mature clock p).idnft (mature clock p).config ≡ ok w)
        × (realise w.yield_mode w.accrued_gain (record (mature clock p) { idnft = w }) ≡ ok q)
  unfolding harvest
  harvest-ok clock p h = >>=-eq-ok _ _ h
