-- ===== src/Tests/Activations.antt =====
-- The theorem on activations and the sessions from before them.
use vow_protocol.Prelude.{◌*◌, ◌≢◌, refl, false, none, some, List, [], ◌∷◌, arith}
use vow_protocol.Prelude.Int.{◌+ℤ◌}
use vow_protocol.Prelude.Keyed.{find, replace}
use vow_protocol.Prelude.Bytes.{from_le_bytes}
use vow_protocol.State.Errors.{ok}
use vow_protocol.State.Accounts.{treasury}
use vow_protocol.State.Class.{class_for_stake, lock_duration, lock_seconds}
use vow_protocol.State.Runtime.{Clock, reserve_pda, vow_pda}
use vow_protocol.State.Position.{shares_for, unlock_time}
use vow_protocol.Harvest.{settle_idnft}
use vow_protocol.Vow.ActivateStake.{activate_stake}
use vow_protocol.Treasury.Deposit.{deposit_yield_balance}
use vow_protocol.Program.World.{Slot, World, asset_of, on_slot}
use vow_protocol.Program.Process.{Instruction, activates_stake, deposits, spends, process}
use vow_protocol.Program.Run.{apply, run}
use vow_protocol.Program.Invalidation.{run-invalidated}
use vow_protocol.Tests.Ledger.{
  Balances, chain, address, send, or_else, at_time, alice, bob, xnt, staked, funded_config,
}
use vow_protocol.Tests.Calls.{funded}
use vow_protocol.Tests.Spends.{session, call}

-- Alice's identity without a stake, with its session.
abbrev resting_slot : Slot
resting_slot = record {
  idnft = record staked { active_stake = false; shares = 0; matured = false };
  escrow = none;
  sessions = session ∷ [];
}

abbrev resting : World Balances
resting = record { config = funded_config; slots = resting_slot ∷ []; bank = funded; log = [] }

abbrev active : World Balances
unfolding process on_slot find replace activate_stake class_for_stake settle_idnft shares_for
    unlock_time lock_duration lock_seconds reserve_pda address from_le_bytes send ◌+ℤ◌
active =
    or_else resting
      (process chain (at_time 8_400_000 6) (activates_stake 10 alice (100 * xnt) treasury) resting)

-- Bob deposits for Alice.
abbrev gift : List (Clock × Instruction Balances)
gift = (at_time 8_450_000 6, deposits 10 bob (3 * xnt)) ∷ []

abbrev later_world : World Balances
unfolding process on_slot find replace run apply activate_stake class_for_stake settle_idnft
    shares_for unlock_time lock_duration lock_seconds deposit_yield_balance reserve_pda address
    from_le_bytes send ◌+ℤ◌
later_world = run chain gift active

abbrev later_slot : Slot
unfolding find
later_slot = elim (find asset_of 10 later_world.slots) [ none ↦ resting_slot | some t ↦ t ]

run-invalidated_example :
    process chain (at_time 8_500_000 6) (spends 10 0 call (2 * xnt)) (run chain gift active)
    ≢ ok resting
unfolding process on_slot find replace run apply activate_stake class_for_stake settle_idnft
    shares_for unlock_time lock_duration lock_seconds deposit_yield_balance reserve_pda address
    from_le_bytes send ◌+ℤ◌ vow_pda
run-invalidated_example =
    run-invalidated chain gift (at_time 8_400_000 6) (at_time 8_500_000 6) alice 10 (100 * xnt) 0
      (2 * xnt) treasury call resting active resting resting_slot later_slot session refl (tt, tt)
      (omega arith, tt) refl (omega arith, tt) refl refl (omega arith)
