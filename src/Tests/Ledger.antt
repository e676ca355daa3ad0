-- ===== src/Tests/Ledger.antt =====
-- A chain whose balances are a function, and where an address is read off the bytes of its seeds.
use vow_protocol.Prelude.{
  ℕ, ◌+◌, ◌-◌, ◌*◌, ◌≡◌, ◌≢◌, true, Option, none, some, List, [], ◌∷◌, ◌++◌, leb, ◌==◌,
  if◌then◌else◌, arith,
}
use vow_protocol.Prelude.Int.{pos}
use vow_protocol.Prelude.Bytes.{from_le_bytes}
use vow_protocol.State.Accounts.{Pubkey, VowState, ProtocolConfig, treasury, default_key}
use vow_protocol.State.Errors.{Result, ok, err}
use vow_protocol.State.Runtime.{Clock, Runtime}
use vow_protocol.Program.World.{World}

abbrev pub Balances : Type 0
Balances = ℕ → ℕ

abbrev pub flatten : List (List ℕ) → List ℕ
flatten [] = []
flatten (xs ∷ xss) = xs ++ flatten xss

-- Every address is above the small numbers that name the wallets.
unfoldable pub address : List (List ℕ) → Pubkey × ℕ
unfolding from_le_bytes
address seeds = (1_000 + from_le_bytes (flatten seeds), 255)

unfoldable pub send : ℕ → ℕ → ℕ → Balances → Option Balances
send from to n b =
    if leb n (b from)
    then if from == to
      then some b
      else some (λ k. if k == from then b from - n else if k == to then b to + n else b k)
    else none

pub send_debits :
    (from to n : ℕ) (b b' : Balances)
    → send from to n b ≡ some b'
    → from ≢ to
    → b' from + n ≡ b from
unfolding send
send_debits from to n b b' h ne = ground arith

pub send_credits :
    (from to n : ℕ) (b b' : Balances) → send from to n b ≡ some b' → from ≢ to → b' to ≡ b to + n
unfolding send
send_credits from to n b b' h ne = ground arith

pub send_others :
    (from to n k : ℕ) (b b' : Balances)
    → send from to n b ≡ some b'
    → k ≢ from
    → k ≢ to
    → b' k ≡ b k
unfolding send
send_others from to n k b b' h nf nt = ground arith

pub send_still :
    (from to n : ℕ) (b b' : Balances) → from ≡ to → send from to n b ≡ some b' → b' from ≡ b from
unfolding send
send_still from to n b b' same h = ground arith

abbrev pub chain : Runtime Balances
chain = record {
  find_program_address = address;
  lamports = λ b k. b k;
  transfer = send;
  transfer_debits = send_debits;
  transfer_credits = send_credits;
  transfer_others = send_others;
}

abbrev pub xnt : ℕ
xnt = 1_000_000_000

-- Two wallets; a session key; a dApp.
abbrev pub alice : Pubkey
alice = 1

abbrev pub bob : Pubkey
bob = 2

abbrev pub session_key : Pubkey
session_key = 3

abbrev pub dapp : Pubkey
dapp = 4

abbrev pub at_time : ℕ → ℕ → Clock
at_time t epoch = record { unix_timestamp = pos t; epoch = epoch }

-- What a call returned, or the state before it.
abbrev pub or_else : {A : Type 0} → A → Result A → A
or_else a (ok x) = x
or_else a (err _) = a

abbrev pub genesis_config : ProtocolConfig
genesis_config = record {
  admin = bob;
  current_share_price = 1_000_000_000_000;
  total_shares = 0;
  total_yield_claims = 0;
  last_pool_lamports = 5_000_000_000;
  total_minted = 0;
  merkle_tree = default_key;
  total_pending_unstake = 0;
  spl_stake_pool = 77;
  spl_pool_mint = 78;
  reserve_bump = 255;
  bump = 255;
}

abbrev pub purse : Balances
purse k = if k == alice then 500 * xnt else if k == bob then 500 * xnt else 0

abbrev pub genesis : World Balances
genesis = record { config = genesis_config; slots = []; bank = purse; log = [] }

-- Alice's identity: staked 200 XNT at the first price, in mode Treasury, locked for 90 days.
abbrev pub staked : VowState
staked = record {
  asset_id = 10;
  owner = alice;
  class = 1;
  nonce = 0;
  principal_lamports = 200 * xnt;
  shares = 200 * xnt;
  last_share_price = 1_000_000_000_000;
  accrued_gain = pos 0;
  yield_mode = treasury;
  yield_balance = 7 * xnt;
  total_harvested = 7 * xnt;
  created_at = pos 1_000;
  unlock_at = pos 7_777_000;
  matured = true;
  sessions_invalidated_at = pos 1_000;
  active_stake = true;
  session_nonce = 1;
  first_staked_at = pos 1_000;
  current_stake_started_at = pos 1_000;
  total_commitments = 1;
  total_fulfilled = 0;
  cumulative_stake_days = 0;
  highest_class_ever = 1;
  bump = 255;
}

abbrev pub funded_config : ProtocolConfig
funded_config = record genesis_config {
  total_shares = 300 * xnt;
  total_yield_claims = 9 * xnt;
  total_pending_unstake = 0;
  total_minted = 2;
}
