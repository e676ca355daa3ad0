-- ===== src/Accounting.antt =====
-- How each instruction moves the protocol's totals: `total_shares`, `total_yield_claims` and
-- `total_pending_unstake` of the config follow what the identities and escrows hold.
use vow_protocol.Prelude.{ℕ, ◌+◌, ◌≤◌, ◌≡◌, Option, none, some}
use vow_protocol.Prelude.Machine.{u64_max}
use vow_protocol.State.Accounts.{UnstakeEscrow}
use vow_protocol.State.Position.{Position}
pub mod Treasury
pub mod World
pub mod Solvent
pub mod Solvency
pub mod Claims
pub mod Margin
pub mod Vow
pub mod Harvest

-- What an escrow owes.
abbrev pub owed : Option UnstakeEscrow → ℕ
owed none = 0
owed (some e) = e.lamports_owed

-- The totals cover what this identity holds.
pub record IsBacked {B : Type 0} (p : Position B) : Type 0 where
  pub shares : p.idnft.shares ≤ p.config.total_shares
  pub claims : p.idnft.yield_balance ≤ p.config.total_yield_claims
  pub pending : owed p.escrow ≤ p.config.total_pending_unstake

-- All claims after the step fit a u64.
abbrev pub Fits : {B : Type 0} → Position B → Position B → Type 0
Fits p q = p.config.total_yield_claims + q.idnft.yield_balance ≤ u64_max + p.idnft.yield_balance

-- Each total has moved by as much as the identity's own amount.
pub record Balances {B : Type 0} (p q : Position B) : Type 0 where
  pub shares : q.config.total_shares + p.idnft.shares ≡ p.config.total_shares + q.idnft.shares
  pub claims :
      q.config.total_yield_claims + p.idnft.yield_balance
      ≡ p.config.total_yield_claims + q.idnft.yield_balance
  pub pending :
      q.config.total_pending_unstake + owed p.escrow
      ≡ p.config.total_pending_unstake + owed q.escrow
