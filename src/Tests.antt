-- ===== src/Tests.antt =====
-- The theorems at concrete inputs: a small chain, its ledger, and transactions on it.
pub mod Ledger
pub mod Amounts
pub mod Calls
pub mod Spends
pub mod Histories
pub mod Budgets
pub mod Identities
pub mod Activations
pub mod Whole
pub mod Flows
pub mod Records
