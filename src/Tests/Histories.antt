-- ===== src/Tests/Histories.antt =====
-- The theorems on histories, from the protocol's first state.
use vow_protocol.Prelude.{◌*◌, ◌≡◌, refl, none, some, List, [], ◌∷◌, arith}
use vow_protocol.Prelude.Keyed.{find, replace, total}
use vow_protocol.Prelude.Bytes.{from_le_bytes, le_bytes}
use vow_protocol.Prelude.Int.{pos, ◌+ℤ◌}
use vow_protocol.State.Errors.{ok}
use vow_protocol.State.Class.{lock_duration, lock_seconds}
use vow_protocol.State.Runtime.{Clock, reserve_pda, vow_pda, unstake_pda}
use vow_protocol.State.Position.{Position, mature, share_value}
use vow_protocol.Harvest.{settle_idnft}
use vow_protocol.Vow.BeginUnstake.{begin_unstake}
use vow_protocol.Treasury.Deposit.{deposit_yield_balance}
use vow_protocol.Program.World.{Slot, World, asset_of, position, on_slot}
use vow_protocol.Program.Process.{Instruction, deposits, begins_unstake, process}
use vow_protocol.Program.Run.{apply, run, Throughout}
use vow_protocol.Accounting.World.{IsAccounted, ClaimsFit, run-IsAccounted}
use vow_protocol.Identity.Soulbound.{Continues}
use vow_protocol.Identity.Permanence.{run-Continues}
use vow_protocol.Identity.Lock.{Spans, IsLocked}
use vow_protocol.Identity.Unlock.{begin_unstake-waits}
use vow_protocol.Tests.Ledger.{
  Balances, chain, address, send, or_else, at_time, alice, bob, xnt, staked, purse, funded_config,
}

-- Alice's identity in a ledger of its own.
abbrev pub first_slot : Slot
first_slot = record { idnft = staked; escrow = none; sessions = [] }

abbrev pub ledger : World Balances
ledger = record {
  config = record funded_config { total_shares = 200 * xnt; total_yield_claims = 7 * xnt };
  slots = first_slot ∷ [];
  bank = purse;
  log = [];
}

-- Bob deposits for Alice, and she unstakes.
abbrev pub history : List (Clock × Instruction Balances)
history =
    (at_time 8_000_000 5, deposits 10 bob (3 * xnt))
    ∷ (at_time 8_000_100 5, begins_unstake 10 alice)
    ∷ []

history_fits : Throughout chain ClaimsFit history ledger
unfolding apply process on_slot find replace total deposit_yield_balance begin_unstake mature
    settle_idnft share_value vow_pda unstake_pda reserve_pda address from_le_bytes le_bytes send
history_fits = (omega arith, (omega arith, omega arith))

run-IsAccounted_example : IsAccounted (run chain history ledger)
unfolding total
run-IsAccounted_example =
    run-IsAccounted chain history ledger history_fits
      (record { shares = refl; claims = refl; pending = refl })

run-Continues_example :
    (t : Slot) × (find asset_of 10 (run chain history ledger).slots ≡ some t)
    × Continues staked t.idnft
unfolding find
run-Continues_example = run-Continues chain history 10 first_slot ledger refl (omega arith, tt)

-- Bob's deposit only; the lock of 90 days has run out when Alice unstakes.
abbrev pub deposit : List (Clock × Instruction Balances)
deposit = (at_time 8_000_000 5, deposits 10 bob (3 * xnt)) ∷ []

abbrev found_slot : Slot
found_slot = record {
  idnft = record staked { yield_balance = 10 * xnt };
  escrow = none;
  sessions = [];
}

abbrev unstaking : Position Balances
unfolding apply process on_slot find replace deposit_yield_balance begin_unstake mature settle_idnft
    share_value vow_pda unstake_pda reserve_pda address from_le_bytes le_bytes send run
unstaking = or_else (position ledger first_slot) (
    begin_unstake chain (at_time 8_000_100 5) alice
      (position (run chain deposit ledger) found_slot))

deposit_found : find asset_of 10 (run chain deposit ledger).slots ≡ some found_slot
unfolding apply process on_slot find replace deposit_yield_balance reserve_pda address from_le_bytes
    le_bytes send run
deposit_found = refl

begin_unstake_ok :
    begin_unstake chain (at_time 8_000_100 5) alice (position (run chain deposit ledger) found_slot)
    ≡ ok unstaking
unfolding apply process on_slot find replace deposit_yield_balance begin_unstake mature settle_idnft
    share_value vow_pda unstake_pda reserve_pda address from_le_bytes le_bytes send run
begin_unstake_ok = refl

staked_IsLocked : IsLocked (pos 7_999_000) staked
unfolding lock_duration lock_seconds ◌+ℤ◌
staked_IsLocked = record { lock = omega arith; timely = omega arith; started = omega arith }

begin_unstake-waits_example : Spans (lock_duration 1) (pos 1_000) (pos 8_000_100)
begin_unstake-waits_example =
    begin_unstake-waits chain deposit (pos 7_999_000) ledger (at_time 8_000_100 5) alice 10
      found_slot unstaking (omega arith, tt)
      (record { pool = omega arith; slots = (staked_IsLocked, tt) }) (omega arith) deposit_found
      begin_unstake_ok
