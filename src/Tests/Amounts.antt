-- ===== src/Tests/Amounts.antt =====
-- The theorems on amounts, classes, hashes and sessions.
use vow_protocol.Prelude.{
  ℕ, ◌+◌, ◌-◌, ◌*◌, ◌/◌, ◌≤◌, ◌<◌, ◌≡◌, ◌↔◌, refl, true, List, [], ◌∷◌, arith, none,
}
use vow_protocol.Prelude.Int.{◌+ℤ◌, sub_ℕ, pos}
use vow_protocol.State.Errors.{◌>>=◌, ok}
use vow_protocol.State.Accounts.{ProtocolConfig, lamports_per_xnt, VowState, hybrid, SessionAccount}
use vow_protocol.State.Class.{class_for_stake}
use vow_protocol.State.Class.Tiers.{reached, minimum_stake, class_for_stake-reached}
use vow_protocol.State.Position.{Position}
use vow_protocol.Vow.CompleteUnstake.{pay_amount}
use vow_protocol.Vow.CompleteUnstake.Payout.{pay_amount_fair}
use vow_protocol.Harvest.{credit, keep, realise, settle_idnft}
use vow_protocol.Harvest.Burn.{Burns, realise-hybrid}
use vow_protocol.Pool.Withdraw.{tokens_for}
use vow_protocol.Pool.Withdraw.Ceiling.{tokens_for-ceiling}
use vow_protocol.Compression.Injective.{data_buffer-injective, leaf_buffer-injective}
use vow_protocol.Session.Close.{can_close}
use vow_protocol.Session.Invalidation.{can_close-overlap}
use vow_protocol.Treasury.Spend.{check_session}
use vow_protocol.Harvest.Path.{settle_along, value_at, settle_along-settle_idnft}
use vow_protocol.Tests.Ledger.{
  Balances, staked, funded_config, purse, or_else, at_time, session_key,
}

-- A reserve of 30 against claims of 100, of which 40 are paid out first.
pay_amount_fair_example : 30 * (100 - 40) ≤ (30 - pay_amount 40 30 100) * 100
pay_amount_fair_example = pay_amount_fair 40 30 100 (omega arith) (omega arith)

class_for_stake-reached_example :
    (class_for_stake 301_000_000_000 ≡ ok 2)
    ↔ (reached (301_000_000_000 / lamports_per_xnt) minimum_stake ≡ 3)
class_for_stake-reached_example = class_for_stake-reached 301_000_000_000 2

tokens_for-ceiling_example : (10 * 900 ≤ 9 * 1_001) × (9 * 1_001 < 10 * 900 + 1_001)
unfolding tokens_for
tokens_for-ceiling_example = tokens_for-ceiling 10 900 1_001 9 (omega arith) refl

abbrev dhash : List ℕ
dhash = 1 ∷ 2 ∷ []

data_buffer-injective_example :
    (staked.class ≡ staked.class)
    × (staked.principal_lamports ≡ staked.principal_lamports)
    × (staked.created_at ≡ staked.created_at)
data_buffer-injective_example =
    data_buffer-injective staked.class staked.class staked.principal_lamports
      staked.principal_lamports staked.created_at staked.created_at (omega arith) (omega arith)
      (omega arith) (omega arith) refl

leaf_buffer-injective_example :
    (staked.asset_id ≡ staked.asset_id)
    × (staked.owner ≡ staked.owner)
    × (staked.nonce ≡ staked.nonce)
    × (dhash ≡ dhash)
leaf_buffer-injective_example =
    leaf_buffer-injective staked.asset_id staked.asset_id staked.owner staked.owner staked.nonce
      staked.nonce dhash dhash (omega arith) (omega arith) (omega arith) (omega arith) (omega arith)
      (omega arith) refl

-- A session of Alice's identity without limits, which began at the time of the last invalidation.
abbrev pub edge_session : SessionAccount
edge_session = record {
  vow_state = 11;
  session_key = session_key;
  allowed_program_ids = [];
  program_count = 0;
  session_index = 0;
  creation_nonce = 0;
  start_ts = pos 1_000;
  expiry_ts = pos 0;
  daily_limit = 0;
  lifetime_limit = 0;
  velocity_limit = 0;
  spent_today = 0;
  spent_total = 0;
  tx_count_today = 0;
  last_reset_day = pos 0;
  active = true;
  bump = 255;
}

can_close-overlap_example : edge_session.start_ts ≡ staked.sessions_invalidated_at
unfolding can_close check_session
can_close-overlap_example =
    can_close-overlap (at_time 2_000 3) session_key staked edge_session refl refl

abbrev later_session : SessionAccount
later_session = record edge_session { start_ts = pos 1_500 }

-- The price has risen by a hundredth.
abbrev raised : ProtocolConfig
raised = record funded_config { current_share_price = 1_010_000_000_000 }

-- The price falls and rises on the way.
settle_along-settle_idnft_example :
    let settled : VowState = record staked {
      accrued_gain =
          staked.accrued_gain
          +ℤ sub_ℕ (value_at staked 1_010_000_000_000) (value_at staked staked.last_share_price);
      last_share_price = 1_010_000_000_000;
    } in
    (settle_idnft staked raised ≡ ok settled)
    × ((settle_along raised (900_000_000_000 ∷ 1_200_000_000_000 ∷ []) staked
          >>= (λ w. settle_idnft w raised))
        ≡ ok settled)
settle_along-settle_idnft_example =
    settle_along-settle_idnft (900_000_000_000 ∷ 1_200_000_000_000 ∷ []) staked raised
      (record { up = omega arith; down = omega arith; worth = omega arith })
      (omega arith, (omega arith, tt)) (omega arith)

abbrev gained : Position Balances
gained = record {
  config = record funded_config { current_share_price = 1_010_000_000_000 };
  idnft = staked;
  escrow = none;
  bank = purse;
  log = [];
}

abbrev half_credited : Position Balances
unfolding realise credit keep
half_credited = or_else gained (realise hybrid (pos 2_000_000_001) gained)

realise-hybrid_example :
    Burns 1_000_000_000 gained half_credited × (half_credited.idnft.accrued_gain ≡ pos 1)
unfolding realise credit
realise-hybrid_example =
    realise-hybrid 2_000_000_001 gained half_credited (omega arith) (omega arith) (omega arith) refl
