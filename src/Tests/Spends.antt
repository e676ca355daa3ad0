-- ===== src/Tests/Spends.antt =====
-- The theorems on spends by session keys.
use vow_protocol.Prelude.{◌↔◌, ◌+◌, ◌*◌, ◌≡◌, ◌≢◌, refl, true, none, [], ◌∷◌, arith}
use vow_protocol.Prelude.Int.{pos}
use vow_protocol.Prelude.Bytes.{from_le_bytes, le_bytes}
use vow_protocol.State.Errors.{IsOk, ok}
use vow_protocol.State.Accounts.{SessionAccount, reset_daily_if_needed}
use vow_protocol.State.Runtime.{reserve_pda, vow_pda}
use vow_protocol.State.Position.{Position}
use vow_protocol.Treasury.Spend.{
  SpendCall, contains, slice_to, check_session, check_program, check_limits, record_spend,
  yield_spend,
}
use vow_protocol.Treasury.Spend.Authority.{yield_spend-pays}
use vow_protocol.Treasury.Spend.Exactly.{MaySpend, yield_spend_iff}
use vow_protocol.Tests.Ledger.{
  Balances, chain, address, send, staked, or_else, at_time, bob, session_key, dapp, xnt,
}
use vow_protocol.Tests.Amounts.{edge_session}
use vow_protocol.Tests.Calls.{held}

-- A session of Alice's identity: two transactions and 3 XNT a day, for one dApp.
abbrev pub session : SessionAccount
session = record edge_session {
  vow_state = (vow_pda chain staked.asset_id).0;
  allowed_program_ids = dapp ∷ 0 ∷ 0 ∷ 0 ∷ 0 ∷ 0 ∷ 0 ∷ 0 ∷ [];
  program_count = 1;
  start_ts = pos 1_500;
  expiry_ts = pos 9_000_000;
  daily_limit = 3 * xnt;
  velocity_limit = 2;
}

abbrev pub call : SpendCall
call = record {
  calling_program = dapp;
  executable = true;
  app_registry = none;
  session_signer = session_key;
  destination = bob;
}

abbrev spent : SessionAccount × Position Balances
unfolding yield_spend check_session check_program slice_to contains check_limits record_spend
    reset_daily_if_needed reserve_pda vow_pda address from_le_bytes send le_bytes
spent =
    or_else (session, held) (yield_spend chain (at_time 8_000_000 5) call (2 * xnt) session held)

yield_spend_ok :
    yield_spend chain (at_time 8_000_000 5) call (2 * xnt) session held ≡ ok (spent.0, spent.1)
unfolding yield_spend check_session check_program slice_to contains check_limits record_spend
    reset_daily_if_needed reserve_pda vow_pda address from_le_bytes send le_bytes
yield_spend_ok = refl

yield_spend_iff_example :
    IsOk (yield_spend chain (at_time 8_000_000 5) call (2 * xnt) session held)
    ↔ MaySpend chain (at_time 8_000_000 5) call (2 * xnt) session held
yield_spend_iff_example = yield_spend_iff chain (at_time 8_000_000 5) call (2 * xnt) session held

bob_is_not_reserve : bob ≢ (reserve_pda chain).0
unfolding reserve_pda address from_le_bytes
bob_is_not_reserve = omega arith

yield_spend-pays_example :
    (spent.1.idnft.yield_balance + 2 * xnt ≡ held.idnft.yield_balance)
    × (spent.1.bank bob ≡ held.bank bob + 2 * xnt)
    × (spent.1.bank (reserve_pda chain).0 + 2 * xnt ≡ held.bank (reserve_pda chain).0)
    × (spent.0.spent_total ≡ session.spent_total + 2 * xnt)
    × (spent.0.daily_limit ≡ session.daily_limit)
    × (spent.0.lifetime_limit ≡ session.lifetime_limit)
    × (spent.0.session_key ≡ session.session_key)
yield_spend-pays_example =
    yield_spend-pays chain (at_time 8_000_000 5) call (2 * xnt) session spent.0 held spent.1
      bob_is_not_reserve yield_spend_ok
