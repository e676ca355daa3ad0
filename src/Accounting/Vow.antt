-- ===== src/Accounting/Vow.antt =====
-- What the handlers of programs/vow/src/instructions/vow/ do to the totals of the config.
use vow_protocol.Prelude.{ℕ, ◌≡◌, arith}
use vow_protocol.State.Errors.{ok}
use vow_protocol.State.Accounts.{Pubkey, YieldMode}
use vow_protocol.State.Runtime.{Clock, Runtime}
use vow_protocol.State.Position.{Position, mature}
use vow_protocol.Accounting.{IsBacked, Balances}
use vow_protocol.Harvest.Settle.{settle_idnft-Settled, mature_keeps}
use vow_protocol.Vow.AddStake.{relock, add_stake}
use vow_protocol.Vow.BeginUnstake.{begin_unstake}
use vow_protocol.Vow.CompleteUnstake.{complete_unstake}
use vow_protocol.Vow.ActivateStake.{activate_stake}
use vow_protocol.Vow.UpdateYieldMode.{update_yield_mode}

module _ {B : Type 0} (rt : Runtime B) {p q : Position B} (b : IsBacked p) where
  pub update_yield_mode-Balances :
      (owner : Pubkey) (mode : YieldMode) → update_yield_mode owner mode p ≡ ok q → Balances p q
  unfolding update_yield_mode
  update_yield_mode-Balances owner mode h = ground (arith, settle_idnft-Settled p.idnft p.config)

  pub activate_stake-Balances :
      (clock : Clock) (owner : Pubkey) (lamports : ℕ) (mode : YieldMode)
      → activate_stake rt clock owner lamports mode p ≡ ok q
      → Balances p q
  unfolding activate_stake
  activate_stake-Balances clock owner lamports mode h =
      ground (arith, settle_idnft-Settled p.idnft p.config)

  pub add_stake-Balances :
      (clock : Clock) (owner : Pubkey) (lamports : ℕ)
      → add_stake rt clock owner lamports p ≡ ok q
      → Balances p q
  unfolding add_stake relock
  add_stake-Balances clock owner lamports h = ground (arith, settle_idnft-Settled p.idnft p.config)

  pub begin_unstake-Balances :
      (clock : Clock) (owner : Pubkey) → begin_unstake rt clock owner p ≡ ok q → Balances p q
  unfolding begin_unstake
  begin_unstake-Balances clock owner h = ground (
    arith,
    mature_keeps clock p,
    settle_idnft-Settled (mature clock p).idnft (mature clock p).config,
  )

  pub complete_unstake-Balances :
      (clock : Clock) (owner : Pubkey) → complete_unstake rt clock owner p ≡ ok q → Balances p q
  unfolding complete_unstake
  complete_unstake-Balances clock owner h = ground arith
