-- ===== src/State/Events.antt =====
-- programs/vow/src/events.rs: a constructor for each event, its fields in the source's order.
use vow_protocol.Prelude.{ℕ}
use vow_protocol.Prelude.Int.{ℤ}
use vow_protocol.State.Accounts.{Pubkey}

pub data Event : Type 0 where
  -- admin, merkle_tree
  protocol_initialized : Pubkey → Pubkey → Event
  -- asset_id, owner, class, stake_lamports, shares, unlock_at
  vow_minted : Pubkey → Pubkey → ℕ → ℕ → ℕ → ℤ → Event
  -- asset_id, owner, class
  vow_matured : Pubkey → Pubkey → ℕ → Event
  -- asset_id, owner, lamports_owed
  vow_unstake_begun : Pubkey → Pubkey → ℕ → Event
  -- asset_id, owner, lamports_returned
  vow_unstaked : Pubkey → Pubkey → ℕ → Event
  -- asset_id, owner, new_class, stake_lamports, shares, unlock_at
  vow_stake_activated : Pubkey → Pubkey → ℕ → ℕ → ℕ → ℤ → Event
  -- asset_id, owner, gain, yield_credited, shares_burned
  harvested : Pubkey → Pubkey → ℤ → ℕ → ℕ → Event
  -- asset_id, owner, amount
  yield_withdrawn : Pubkey → Pubkey → ℕ → Event
  -- asset_id, depositor, amount
  yield_deposited : Pubkey → Pubkey → ℕ → Event
  -- asset_id, session_key, program_id, amount, destination
  yield_spent : Pubkey → Pubkey → Pubkey → ℕ → Pubkey → Event
  -- vow_state, session_key, expiry_ts, creation_nonce
  session_created : Pubkey → Pubkey → ℤ → ℕ → Event
  -- vow_state, session_key
  session_revoked : Pubkey → Pubkey → Event
  -- old_price, new_price, pool_lamports, total_shares
  share_price_updated : ℕ → ℕ → ℕ → ℕ → Event
  -- program_id
  app_registered : Pubkey → Event
  app_blocked : Pubkey → Event
  -- asset_id, old_mode, new_mode
  yield_mode_updated : Pubkey → ℕ → ℕ → Event
  -- asset_id, owner, lamports_added, new_principal, old_class, new_class, new_unlock_at
  stake_added : Pubkey → Pubkey → ℕ → ℕ → ℕ → ℕ → ℤ → Event
