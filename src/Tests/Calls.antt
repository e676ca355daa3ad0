-- ===== src/Tests/Calls.antt =====
-- The theorems on single instructions.
use vow_protocol.Prelude.{
  ◌↔◌, ℕ, ◌+◌, ◌*◌, ◌==◌, if◌then◌else◌, ◌≤◌, ◌<◌, ◌≡◌, ◌≢◌, refl, false, none, some, [], arith,
}
use vow_protocol.Prelude.Bytes.{from_le_bytes}
use vow_protocol.State.Errors.{IsOk, ok, err, vow, reserve_sufficient}
use vow_protocol.State.Accounts.{UnstakeEscrow}
use vow_protocol.State.Runtime.{reserve_pda}
use vow_protocol.State.Position.{Position, mature, share_value}
use vow_protocol.Harvest.{settle_idnft}
use vow_protocol.Vow.BeginUnstake.{begin_unstake}
use vow_protocol.Vow.CompleteUnstake.{pay_amount, retire, complete_unstake}
use vow_protocol.Vow.CompleteUnstake.Payout.{complete_unstake-pays, withdraw_from_pool-shortfall}
use vow_protocol.Pool.Flush.{PoolCall}
use vow_protocol.Pool.Withdraw.{withdraw_from_pool}
use vow_protocol.Vow.Exactly.{MayBegin, MayComplete, begin_unstake_iff, complete_unstake_iff}
use vow_protocol.Tests.Ledger.{
  Balances, chain, address, send, staked, funded_config, purse, or_else, at_time, alice, xnt,
}

abbrev pub reserve : ℕ
unfolding reserve_pda address from_le_bytes
reserve = (reserve_pda chain).0

abbrev pub funded : Balances
funded k = if k == reserve then 400 * xnt else purse k

abbrev pub held : Position Balances
held = record { config = funded_config; idnft = staked; escrow = none; bank = funded; log = [] }

abbrev unstaking : Position Balances
unfolding begin_unstake mature settle_idnft share_value
unstaking = or_else held (begin_unstake chain (at_time 8_000_000 5) alice held)

begin_unstake_ok : begin_unstake chain (at_time 8_000_000 5) alice held ≡ ok unstaking
unfolding begin_unstake mature settle_idnft share_value
begin_unstake_ok = refl

begin_unstake_iff_example :
    IsOk (begin_unstake chain (at_time 8_000_000 5) alice held)
    ↔ MayBegin chain (at_time 8_000_000 5) alice held
begin_unstake_iff_example = begin_unstake_iff chain (at_time 8_000_000 5) alice held

abbrev pub claim : UnstakeEscrow
claim = record {
  vow_state = 11;
  owner = alice;
  lamports_owed = 207 * xnt;
  deactivation_epoch = 5;
  bump = 255;
}

-- The reserve has 400 XNT against pending claims of 828 XNT.
abbrev pub owed : Position Balances
owed = record {
  config = record funded_config { total_pending_unstake = 828 * xnt };
  idnft = record staked { shares = 0; yield_balance = 0 };
  escrow = some claim;
  bank = funded;
  log = [];
}

abbrev dormant : Position Balances
unfolding complete_unstake pay_amount retire reserve_pda address from_le_bytes send
dormant = or_else owed (complete_unstake chain (at_time 8_200_000 6) alice owed)

complete_unstake_ok : complete_unstake chain (at_time 8_200_000 6) alice owed ≡ ok dormant
unfolding complete_unstake pay_amount retire reserve_pda address from_le_bytes send
complete_unstake_ok = refl

pub alice_is_not_reserve : alice ≢ (reserve_pda chain).0
unfolding reserve_pda address from_le_bytes
alice_is_not_reserve = omega arith

abbrev paid : ℕ
paid =
    pay_amount claim.lamports_owed (chain.lamports owed.bank (reserve_pda chain).0)
      owed.config.total_pending_unstake

complete_unstake-pays_example :
    (0 < paid)
    × (paid ≤ claim.lamports_owed)
    × (dormant.bank alice ≡ owed.bank alice + paid)
    × (dormant.bank (reserve_pda chain).0 + paid ≡ owed.bank (reserve_pda chain).0)
    × (dormant.escrow ≡ none)
    × (dormant.idnft.active_stake ≡ false)
complete_unstake-pays_example =
    complete_unstake-pays chain (at_time 8_200_000 6) alice claim owed dormant refl (omega arith)
      (omega arith) alice_is_not_reserve complete_unstake_ok

complete_unstake_iff_example :
    IsOk (complete_unstake chain (at_time 8_200_000 6) alice owed)
    ↔ MayComplete chain (at_time 8_200_000 6) alice claim owed
complete_unstake_iff_example =
    complete_unstake_iff chain (at_time 8_200_000 6) alice claim owed refl (omega arith)
      (omega arith)

-- The accounts of a stake pool.
abbrev pub pool_call : PoolCall Balances
pool_call = record {
  reserve_pool_tokens = 80;
  reserve_pool_amount = 500;
  spl_pool = 77;
  pool_bytes = [];
  pool_withdraw_authority = 81;
  pool_reserve_stake = 82;
  pool_manager_fee_account = 83;
  pool_referral_fee_account = 84;
  pool_mint = 78;
  stake_pool_program = 79;
  clock_key = 85;
  stake_history = 86;
  stake_program = 87;
  token_program = 88;
  system_program = 0;
  stake_pool_program_id = 79;
  withdraw_authority_of = λ pool. 81;
  rent_exempt = 890_880;
  invoke = λ instruction b. some b;
}

withdraw_from_pool-shortfall_example :
    (withdraw_from_pool chain pool_call claim owed.config owed.bank ≡ err (vow reserve_sufficient))
    × (pay_amount claim.lamports_owed
          (chain.lamports owed.bank (reserve_pda chain).0)
          owed.config.total_pending_unstake
        < claim.lamports_owed)
unfolding reserve_pda address from_le_bytes
withdraw_from_pool-shortfall_example =
    withdraw_from_pool-shortfall chain pool_call claim owed.config owed.bank (omega arith) refl refl
      (omega arith) (omega arith) (omega arith) (omega arith)
