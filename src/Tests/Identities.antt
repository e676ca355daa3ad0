-- ===== src/Tests/Identities.antt =====
-- The theorems on identities and their sessions over histories.
use vow_protocol.Prelude.{◌*◌, ◌≡◌, ◌≢◌, false, refl, none, some, List, [], ◌∷◌, arith}
use vow_protocol.Prelude.Int.{◌+ℤ◌}
use vow_protocol.Prelude.Keyed.{find, replace, total, All}
use vow_protocol.Prelude.Bytes.{from_le_bytes, le_bytes}
use vow_protocol.State.Accounts.{Pubkey, SessionAccount, default_key}
use vow_protocol.State.Errors.{ok}
use vow_protocol.State.Runtime.{Clock}
use vow_protocol.Program.World.{Slot, World, asset_of, on_slot, on_session}
use vow_protocol.Program.Run.{apply, run}
use vow_protocol.Program.Process.{
  Instruction, begins_unstake, deposits, harvests, revokes_session, spends, process,
}
use vow_protocol.Program.Governance.{IsRuledBy, run-IsRuledBy}
use vow_protocol.Identity.Strangers.{Unharmed}
use vow_protocol.Identity.Untouched.{run-Unharmed}
use vow_protocol.Tests.Ledger.{
  Balances, chain, address, send_still, at_time, alice, bob, staked, session_key, send, or_else,
  xnt,
}
use vow_protocol.State.Runtime.{reserve_pda, vow_pda}
use vow_protocol.Accounting.Margin.{KeepsMargin, unsigned_count, run-margin}
use vow_protocol.Accounting.Margin.Reserve.{share_worth}
use vow_protocol.Accounting.Solvency.{IsSolvent, run-IsSolvent}
use vow_protocol.Session.Revoke.{revoke_session}
use vow_protocol.Harvest.{settle_idnft, credit, keep, realise, harvest}
use vow_protocol.State.Position.{mature, share_value}
use vow_protocol.Treasury.Deposit.{deposit_yield_balance}
use vow_protocol.Program.Revocation.{run-revoked}
use vow_protocol.Tests.Calls.{funded, alice_is_not_reserve}
use vow_protocol.Tests.Spends.{session, call}
use vow_protocol.Tests.Histories.{first_slot, ledger, deposit}

-- Alice's identity with its session.
abbrev pub session_slot : Slot
session_slot = record first_slot { sessions = session ∷ [] }

abbrev with_session : World Balances
with_session = record ledger { slots = session_slot ∷ [] }

abbrev IsSessionKey : Pubkey → Type 0
IsSessionKey k = k ≡ session_key

-- Anyone harvests for Alice, and she unstakes; Bob, the admin, signs nothing.
abbrev quiet : List (Clock × Instruction Balances)
quiet = (at_time 8_000_000 5, harvests 10) ∷ (at_time 8_000_100 5, begins_unstake 10 alice) ∷ []

run-IsRuledBy_example : IsRuledBy ledger.config (run chain quiet ledger).config
run-IsRuledBy_example = run-IsRuledBy chain quiet ledger (λ e. cc, (λ e. cc, tt))

-- The reserve holds 400 XNT, and Alice is due 207 XNT of it.
abbrev covered_ledger : World Balances
covered_ledger = record ledger {
  config = record ledger.config { spl_stake_pool = default_key };
  bank = funded;
}

covered_ledger-IsSolvent : IsSolvent chain send_still bob covered_ledger
unfolding total reserve_pda address from_le_bytes
covered_ledger-IsSolvent = record {
  ruled = refl;
  pool = refl;
  price = refl;
  settled = (record { price = refl; gain = refl }, tt);
  covered = omega arith;
}

run-IsSolvent_example : IsSolvent chain send_still bob (run chain quiet covered_ledger)
run-IsSolvent_example =
    run-IsSolvent chain send_still quiet bob covered_ledger (λ e. cc, (λ e. cc, tt))
      (λ e. cc, (λ e. ground (arith, e, alice_is_not_reserve), tt)) covered_ledger-IsSolvent

-- The same at a higher price, at which there is a gain to harvest.
abbrev risen_ledger : World Balances
risen_ledger = record covered_ledger {
  config = record covered_ledger.config { current_share_price = 1_010_000_000_000 };
}

run-margin_example :
    KeepsMargin chain
      (unsigned_count quiet * share_worth risen_ledger.config)
      risen_ledger
      (run chain quiet risen_ledger)
run-margin_example =
    run-margin chain send_still quiet bob risen_ledger (λ e. cc, (λ e. cc, tt))
      (λ e. cc, (λ e. ground (arith, e, alice_is_not_reserve), tt))
      (record { ruled = refl; pool = refl; price = omega arith })

-- At a higher price anyone harvests for Alice, and Bob deposits for her.
abbrev with_gain : World Balances
with_gain = record risen_ledger { slots = session_slot ∷ [] }

abbrev favours : List (Clock × Instruction Balances)
favours = (at_time 8_000_000 5, harvests 10) ∷ (at_time 8_000_100 5, deposits 10 bob (3 * xnt)) ∷ []

run-Unharmed_example :
    (t : Slot) × (find asset_of 10 (run chain favours with_gain).slots ≡ some t)
    × Unharmed 1_010_000_000_000 staked t.idnft
    × (t.escrow ≡ session_slot.escrow)
    × All (λ x. IsSessionKey x.session_key) t.sessions
unfolding find apply process on_slot replace harvest mature settle_idnft share_value realise credit
    keep deposit_yield_balance reserve_pda address from_le_bytes le_bytes send ◌+ℤ◌ vow_pda
run-Unharmed_example =
    run-Unharmed chain IsSessionKey 1_010_000_000_000 10 session_slot favours with_gain refl
      (omega arith, tt) (refl, tt)
      (
        record { not_owner = λ e. cc; no_key = λ k h e. cc },
        (record { not_owner = λ e. cc; no_key = λ k h e. cc }, tt),
      )
      (omega arith, (omega arith, omega arith))

-- Alice revokes her session, and Bob deposits for her.
abbrev revoked : World Balances
unfolding process on_session revoke_session find replace vow_pda address from_le_bytes le_bytes
revoked =
    or_else with_session
      (process chain (at_time 7_900_000 5) (revokes_session 10 alice 0) with_session)

abbrev stopped_session : SessionAccount
stopped_session = record session { active = false }

abbrev richer_slot : Slot
richer_slot = record {
  idnft = record staked { yield_balance = 10 * xnt };
  escrow = none;
  sessions = stopped_session ∷ [];
}

run-revoked_example :
    process chain (at_time 8_100_000 5) (spends 10 0 call (2 * xnt)) (run chain deposit revoked)
    ≢ ok with_session
unfolding process on_session on_slot revoke_session find replace deposit_yield_balance run apply
    reserve_pda vow_pda address from_le_bytes le_bytes send
run-revoked_example =
    run-revoked chain deposit (at_time 7_900_000 5) (at_time 8_100_000 5) alice 10 0 0 (2 * xnt)
      call with_session revoked with_session session_slot richer_slot session stopped_session refl
      refl (tt, tt) (omega arith, tt) ((omega arith, tt), (tt, tt)) refl refl refl refl
