-- ===== src/Treasury/Withdraw.antt =====
-- programs/vow/src/instructions/treasury/withdraw_yield.rs
use vow_protocol.Prelude.{ℕ, ◌-◌, ltb, leb, ◌∷◌, Option}
use vow_protocol.Prelude.Machine.{saturating_sub}
use vow_protocol.State.Errors.{
  Result, ok, invalid_owner, insufficient_yield_balance, unwrap_or, require, require_keys_eq, ◌>>=◌,
  ◌>>◌,
}
use vow_protocol.State.Accounts.{Pubkey}
use vow_protocol.State.Events.{yield_withdrawn}
use vow_protocol.State.Runtime.{Runtime, reserve_pda}
use vow_protocol.State.Position.{Position, transfer}

module _ {B : Type 0} (rt : Runtime B) where
  unfoldable pub withdraw_yield : Pubkey → Option ℕ → Position B → Result (Position B)
  withdraw_yield owner amount p = do
    require_keys_eq p.idnft.owner owner invalid_owner
    let withdraw_amount = unwrap_or amount p.idnft.yield_balance
    let reserve = (reserve_pda rt).0
    require (leb withdraw_amount p.idnft.yield_balance) insufficient_yield_balance
    require (ltb 0 withdraw_amount) insufficient_yield_balance
    require (leb withdraw_amount (rt.lamports p.bank reserve)) insufficient_yield_balance
    bank ← transfer rt reserve owner withdraw_amount p.bank
    ok (record p {
      idnft = record (p.idnft) { yield_balance = p.idnft.yield_balance - withdraw_amount };
      config = record (p.config) {
        total_yield_claims = saturating_sub p.config.total_yield_claims withdraw_amount;
      };
      bank = bank;
      log = yield_withdrawn p.idnft.asset_id owner withdraw_amount ∷ p.log;
    })
