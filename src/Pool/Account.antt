-- ===== src/Pool/Account.antt =====
-- What the cranks read of the stake pool's account, at fixed offsets of its bytes, and the calls that
-- they make of the stake pool program.
use vow_protocol.Prelude.{ℕ, Bool, List, take, drop}
use vow_protocol.Prelude.Bytes.{from_le_bytes}
use vow_protocol.State.Accounts.{Pubkey}

-- The bytes `bytes[first..last]`, where `count` is `last - first`, read little-endian: a `u64`, or
-- a key by `Pubkey::new_from_array`.
unfoldable pub read_le : List ℕ → ℕ → ℕ → ℕ
read_le bytes first count = from_le_bytes (take count (drop first bytes))

unfoldable pub reserve_stake_of : List ℕ → Pubkey
unfolding read_le
reserve_stake_of bytes = read_le bytes 131 32

unfoldable pub manager_fee_of : List ℕ → Pubkey
unfolding read_le
manager_fee_of bytes = read_le bytes 195 32

unfoldable pub total_lamports_of : List ℕ → ℕ
unfolding read_le
total_lamports_of bytes = read_le bytes 259 8

unfoldable pub pool_token_supply_of : List ℕ → ℕ
unfolding read_le
pool_token_supply_of bytes = read_le bytes 267 8

-- `AccountMeta::new` is writable, `new_readonly` is not; then whether the account signs.
pub data AccountMeta : Type 0 where
  new new_readonly : Pubkey → Bool → AccountMeta

pub record PoolInstruction : Type 0 where
  pub program_id : Pubkey
  pub accounts : List AccountMeta
  pub data_bytes : List ℕ
