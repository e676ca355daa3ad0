-- ===== src/Tests/Whole.antt =====
-- The theorems on all accounts of the program.
use vow_protocol.Prelude.{
  ◌*◌, ◌≡◌, ◌≢◌, refl, true, false, none, some, List, [], ◌∷◌, ◌++◌, replicate, arith,
}
use vow_protocol.Prelude.Int.{pos}
use vow_protocol.Prelude.Bytes.{from_le_bytes, le_bytes}
use vow_protocol.Prelude.Keyed.{find, total}
use vow_protocol.State.Errors.{ok}
use vow_protocol.State.Accounts.{ProtocolConfig, AppRegistry, AuthorityProfile, default_key}
use vow_protocol.State.Class.{class_for_stake}
use vow_protocol.State.Runtime.{Clock, profile_pda}
use vow_protocol.Pool.Account.{read_le}
use vow_protocol.Treasury.Spend.{SpendCall}
use vow_protocol.Admin.Initialize.{initialize, opening_price}
use vow_protocol.Profile.{AuthorityProfileParams}
use vow_protocol.Accounting.World.{IsAccounted}
use vow_protocol.Program.Process.{begins_unstake, spends}
use vow_protocol.Program.Ledger.{
  Ledger, Layout, Entry, runs, initializes, closes_config, verifies_app, creates_profile,
  closes_profile, records_commitment, records_fulfillment, profile_address, world,
}
use vow_protocol.Program.Ledger.Execute.{execute}
use vow_protocol.Program.Ledger.Histories.{run_ledger, AreKept, run_ledger-AreKept}
use vow_protocol.Program.Ledger.Apps.{run_ledger-blocks}
use vow_protocol.Program.Ledger.Profiles.{run_ledger-profile}
use vow_protocol.Program.Ledger.Gates.{HasGates, run_ledger-HasGates}
use vow_protocol.Program.Ledger.Config.{
  IsAdmin, Appoints, closes_config_iff, closes_config-Appoints, reinitialized-unaccounted,
}
use vow_protocol.Tests.Ledger.{
  Balances, chain, address, at_time, alice, bob, dapp, xnt, purse, or_else,
}
use vow_protocol.Tests.Spends.{call}
use vow_protocol.Tests.Histories.{ledger}
use vow_protocol.Tests.Identities.{session_slot}

-- The admin's key is the number in the ninth byte.
abbrev pub layout : Layout
unfolding read_le from_le_bytes
layout = record {
  config_bytes = λ c. replicate 8 0 ++ (c.admin ∷ replicate 31 0);
  long_enough = λ c. omega arith;
  admin_first = λ c. omega arith;
}

-- An app that the admin has blocked.
abbrev pub blocked_app : AppRegistry
blocked_app = record {
  program_id = dapp;
  verified = false;
  blocked = true;
  registered_at = pos 2_000;
  bump = 255;
}

-- Alice's authority profile.
abbrev pub profile : AuthorityProfile
profile = record {
  wallet = alice;
  profile_id = 1 ∷ [];
  default_daily_limit = 3 * xnt;
  default_lifetime_limit = 0;
  default_expiry_days = 30;
  default_allowed_program_ids = [];
  program_count = 0;
  metadata_uri = [];
  uri_len = 0;
  created_at = pos 2_000;
  bump = 255;
}

abbrev pub whole : Ledger Balances
whole = record {
  config = some ledger.config;
  slots = session_slot ∷ [];
  bank = purse;
  log = [];
  apps = blocked_app ∷ [];
  profiles = profile ∷ [];
  records = [];
  commits = [];
  fulfills = [];
}

-- Alice's commitment is recorded twice; Bob, the admin, closes the config and initializes it anew, and
-- verifies the app; Alice unstakes, and her commitment is recorded as fulfilled.
abbrev pub story : List (Clock × Entry Balances)
story =
    (at_time 7_900_000 5, records_commitment 10)
    ∷ (at_time 7_900_100 5, records_commitment 10)
    ∷ (at_time 7_900_200 5, closes_config bob)
    ∷ (at_time 7_900_300 5, initializes bob default_key 78 0 [])
    ∷ (at_time 7_900_400 5, verifies_app bob dapp)
    ∷ (at_time 7_900_500 5, runs (begins_unstake 10 alice))
    ∷ (at_time 7_900_600 5, records_fulfillment 10)
    ∷ []

run_ledger-AreKept_example :
    AreKept chain layout 10 session_slot (run_ledger chain layout story whole).slots
unfolding find class_for_stake
run_ledger-AreKept_example =
    run_ledger-AreKept chain layout story 10 session_slot whole refl (omega arith, tt)
      (((omega arith, tt), (tt, tt)), tt) (refl, tt)

-- The call passes the registry entry.
abbrev open_call : SpendCall
open_call = record call { app_registry = some blocked_app }

run_ledger-blocks_example :
    execute chain layout
      (at_time 8_000_000 5)
      (runs (spends 10 0 open_call (2 * xnt)))
      (run_ledger chain layout story whole)
    ≢ ok whole
unfolding find
run_ledger-blocks_example =
    run_ledger-blocks chain layout story whole blocked_app (at_time 8_000_000 5) 10 0 (2 * xnt)
      open_call blocked_app whole refl refl refl

abbrev params : AuthorityProfileParams
params = record {
  default_daily_limit = xnt;
  default_lifetime_limit = 0;
  default_expiry_days = 30;
  default_allowed_program_ids = [];
  metadata_uri = [];
}

-- Bob makes a profile of his own, and tries to close Alice's.
abbrev bobs_story : List (Clock × Entry Balances)
bobs_story =
    (at_time 7_900_000 5, creates_profile bob (1 ∷ []) params)
    ∷ (at_time 7_900_100 5, closes_profile bob (1 ∷ []))
    ∷ []

run_ledger-profile_example :
    find
      (profile_address chain)
      (profile_address chain profile)
      (run_ledger chain layout bobs_story whole).profiles
    ≡ some profile
unfolding find profile_pda address from_le_bytes le_bytes
run_ledger-profile_example =
    run_ledger-profile chain layout bobs_story whole profile (omega arith, (omega arith, tt)) refl

run_ledger-HasGates_example : HasGates chain (run_ledger chain layout story whole)
run_ledger-HasGates_example = run_ledger-HasGates chain layout story whole (record {
  counted = tt;
  commits_placed = tt;
  commits_once = tt;
  fulfills_placed = tt;
  fulfills_once = tt;
})

abbrev closed : Ledger Balances
closed = record whole { config = none }

closed_ok : execute chain layout (at_time 7_900_200 5) (closes_config bob) whole ≡ ok closed
closed_ok =
    (closes_config_iff chain layout (at_time 7_900_200 5) bob whole ledger.config refl).1 refl

closes_config-Appoints_example :
    IsAdmin bob whole.config
    × Appoints alice whole
        (execute chain layout (at_time 7_900_300 5) (initializes alice default_key 78 0 []) closed)
closes_config-Appoints_example =
    closes_config-Appoints chain layout (at_time 7_900_200 5) (at_time 7_900_300 5) bob alice 78 0
      [] whole closed closed_ok

abbrev reopened : Ledger Balances
unfolding execute initialize opening_price
reopened =
    or_else closed
      (execute chain layout (at_time 7_900_300 5) (initializes alice default_key 78 0 []) closed)

reopened_ok :
    execute chain layout (at_time 7_900_300 5) (initializes alice default_key 78 0 []) closed
    ≡ ok reopened
unfolding execute initialize opening_price
reopened_ok = refl

reinitialized-unaccounted_example :
    (c : ProtocolConfig) × (reopened.config ≡ some c) × ¬ IsAccounted (world c reopened)
unfolding total
reinitialized-unaccounted_example =
    reinitialized-unaccounted chain layout (at_time 7_900_200 5) (at_time 7_900_300 5) bob alice
      default_key 78 0 [] whole closed reopened closed_ok reopened_ok (omega arith)
