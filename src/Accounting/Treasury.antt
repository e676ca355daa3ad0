-- ===== src/Accounting/Treasury.antt =====
-- What the handlers of programs/vow/src/instructions/treasury/ do to the totals of the config.
use vow_protocol.Prelude.{ℕ, ◌≡◌, Option, arith}
use vow_protocol.State.Errors.{ok}
use vow_protocol.State.Accounts.{Pubkey, SessionAccount}
use vow_protocol.State.Runtime.{Clock, Runtime}
use vow_protocol.State.Position.{Position}
use vow_protocol.Accounting.{IsBacked, Fits, Balances}
use vow_protocol.Treasury.Deposit.{deposit_yield_balance}
use vow_protocol.Treasury.Withdraw.{withdraw_yield}
use vow_protocol.Treasury.Spend.{SpendCall, yield_spend}

module _ {B : Type 0} (rt : Runtime B) {p q : Position B} (b : IsBacked p) where
  pub deposit_yield_balance-Balances :
      (depositor : Pubkey) (amount : ℕ)
      → Fits p q
      → deposit_yield_balance rt depositor amount p ≡ ok q
      → Balances p q
  unfolding deposit_yield_balance
  deposit_yield_balance-Balances depositor amount f h = ground arith

  pub withdraw_yield-Balances :
      (owner : Pubkey) (amount : Option ℕ) → withdraw_yield rt owner amount p ≡ ok q → Balances p q
  unfolding withdraw_yield
  withdraw_yield-Balances owner amount h = ground arith

  pub yield_spend-Balances :
      (clock : Clock) (call : SpendCall) (amount : ℕ) (session session' : SessionAccount)
      → yield_spend rt clock call amount session p ≡ ok (session', q)
      → Balances p q
  unfolding yield_spend
  yield_spend-Balances clock call amount session session' h = ground arith
