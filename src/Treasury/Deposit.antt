-- ===== src/Treasury/Deposit.antt =====
-- programs/vow/src/instructions/treasury/deposit_yield_balance.rs
use vow_protocol.Prelude.{ℕ, ltb, ◌∷◌, Option, none, some, Bool, true, false}
use vow_protocol.Prelude.Machine.{saturating_add, u64_max}
use vow_protocol.State.Errors.{
  Result, ok, insufficient_yield_balance, identity_inactive, already_unstaking, require, ◌>>=◌,
  ◌>>◌,
}
use vow_protocol.State.Accounts.{Pubkey}
use vow_protocol.State.Events.{yield_deposited}
use vow_protocol.State.Runtime.{Runtime, reserve_pda}
use vow_protocol.State.Position.{Position, transfer}

-- `unstake_escrow.data_is_empty()`
abbrev pub is_empty {ℓ} : {A : Type ℓ} → Option A → Bool
is_empty none = true
is_empty (some _) = false

module _ {B : Type 0} (rt : Runtime B) where
  -- Anyone may be the depositor.
  unfoldable pub deposit_yield_balance : Pubkey → ℕ → Position B → Result (Position B)
  deposit_yield_balance depositor amount p = do
    require (ltb 0 amount) insufficient_yield_balance
    require p.idnft.active_stake identity_inactive
    require (is_empty p.escrow) already_unstaking
    bank ← transfer rt depositor (reserve_pda rt).0 amount p.bank
    ok (record p {
      idnft = record (p.idnft) {
        yield_balance = saturating_add u64_max p.idnft.yield_balance amount;
      };
      config = record (p.config) {
        total_yield_claims = saturating_add u64_max p.config.total_yield_claims amount;
      };
      bank = bank;
      log = yield_deposited p.idnft.asset_id depositor amount ∷ p.log;
    })
