-- ===== src/Admin/Config.antt =====
-- The admin's instructions on the config and on identities: set_admin.rs, set_mint_counter.rs,
-- dev_set_share_price.rs, dev_fast_unlock.rs and close_config.rs of
-- programs/vow/src/instructions/admin/.
use vow_protocol.Prelude.{ℕ, ltb, leb, ◌==◌, not, List, map, length}
use vow_protocol.Prelude.Int.{pos}
use vow_protocol.State.Errors.{
  Result, ok, unauthorized, invalid_stake_account, share_price_overflow, require, require_keys_eq,
  ◌>>◌,
}
use vow_protocol.State.Accounts.{Pubkey, VowState, ProtocolConfig, default_key}
use vow_protocol.Pool.Account.{read_le}

unfoldable pub set_admin : Pubkey → Pubkey → ProtocolConfig → Result ProtocolConfig
set_admin admin new_admin config = do
  require_keys_eq config.admin admin unauthorized
  require (not (new_admin == default_key)) unauthorized
  ok (record config { admin = new_admin })

unfoldable pub set_mint_counter : Pubkey → ℕ → ProtocolConfig → Result ProtocolConfig
set_mint_counter admin new_counter config = do
  require_keys_eq config.admin admin unauthorized
  require (ltb config.total_minted new_counter) invalid_stake_account
  ok (record config { total_minted = new_counter })

unfoldable pub dev_set_share_price : Pubkey → ℕ → ProtocolConfig → Result ProtocolConfig
dev_set_share_price admin new_price config = do
  require_keys_eq config.admin admin unauthorized
  require (config.spl_stake_pool == default_key) unauthorized
  require (ltb 0 new_price) share_price_overflow
  ok (record config { current_share_price = new_price })

unfoldable pub dev_fast_unlock : Pubkey → ProtocolConfig → VowState → Result VowState
dev_fast_unlock admin config idnft = do
  require_keys_eq config.admin admin unauthorized
  require (config.spl_stake_pool == default_key) unauthorized
  ok (record idnft { unlock_at = pos 1 })

-- The account's bytes after the instruction: all zero. Its lamports go to the admin.
unfoldable pub close_config : Pubkey → List ℕ → Result (List ℕ)
unfolding read_le
close_config admin bytes = do
  require (leb 40 (length bytes)) invalid_stake_account
  require_keys_eq (read_le bytes 8 32) admin unauthorized
  ok (map (λ _. 0) bytes)
