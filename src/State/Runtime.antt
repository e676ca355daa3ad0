-- ===== src/State/Runtime.antt =====
-- What the program asks of the chain: the clock, program-derived addresses, and transfers of
-- lamports by the system program. `B` is the runtime's record of all lamports. None of this is
-- code of the repository: the laws state what the system program documents.
use vow_protocol.Prelude.{ℕ, ◌+◌, ◌≡◌, ◌≢◌, Option, some, List, [], ◌∷◌}
use vow_protocol.Prelude.Int.{ℤ}
use vow_protocol.Prelude.Bytes.{le_bytes}
use vow_protocol.State.Accounts.{Pubkey}

-- `Clock::get()`
pub record Clock : Type 0 where
  pub unix_timestamp : ℤ
  pub epoch : ℕ

pub record Runtime (B : Type 0) : Type 0 where
  -- `Pubkey::find_program_address(seeds, program_id)`, for this program: address and bump.
  pub find_program_address : List (List ℕ) → Pubkey × ℕ
  pub lamports : B → Pubkey → ℕ
  -- `system_program::transfer`: from, to, amount.
  pub transfer : Pubkey → Pubkey → ℕ → B → Option B
  pub transfer_debits :
      (from to n : ℕ) (b b' : B)
      → transfer from to n b ≡ some b'
      → from ≢ to
      → lamports b' from + n ≡ lamports b from
  pub transfer_credits :
      (from to n : ℕ) (b b' : B)
      → transfer from to n b ≡ some b'
      → from ≢ to
      → lamports b' to ≡ lamports b to + n
  pub transfer_others :
      (from to n k : ℕ) (b b' : B)
      → transfer from to n b ≡ some b'
      → k ≢ from
      → k ≢ to
      → lamports b' k ≡ lamports b k

-- The bytes of a key, and the byte strings that the seeds begin with.
abbrev key_bytes : Pubkey → List ℕ
key_bytes k = le_bytes 32 k

module _ {B : Type 0} (rt : Runtime B) where
  open rt use {find_program_address}

  -- [b"reserve"]
  unfoldable pub reserve_pda : Pubkey × ℕ
  reserve_pda = find_program_address ((b'r' ∷ b'e' ∷ b's' ∷ b'e' ∷ b'r' ∷ b'v' ∷ b'e' ∷ []) ∷ [])

  -- [b"config"]
  unfoldable pub config_pda : Pubkey × ℕ
  config_pda = find_program_address ((b'c' ∷ b'o' ∷ b'n' ∷ b'f' ∷ b'i' ∷ b'g' ∷ []) ∷ [])

  -- [b"vow_asset", nonce_le8]
  unfoldable pub get_asset_id_pda : ℕ → Pubkey × ℕ
  get_asset_id_pda nonce =
      find_program_address (
        (b'v' ∷ b'o' ∷ b'w' ∷ b'_' ∷ b'a' ∷ b's' ∷ b's' ∷ b'e' ∷ b't' ∷ []) ∷ le_bytes 8 nonce ∷ [])

  -- [b"vow", asset_id]
  unfoldable pub vow_pda : Pubkey → Pubkey × ℕ
  vow_pda asset_id = find_program_address ((b'v' ∷ b'o' ∷ b'w' ∷ []) ∷ key_bytes asset_id ∷ [])

  -- [b"unstake", vow_state]
  unfoldable pub unstake_pda : Pubkey → Pubkey × ℕ
  unstake_pda vow_state =
      find_program_address
        ((b'u' ∷ b'n' ∷ b's' ∷ b't' ∷ b'a' ∷ b'k' ∷ b'e' ∷ []) ∷ key_bytes vow_state ∷ [])

  -- [b"session", vow_state, session_index_le4]
  unfoldable pub session_pda : Pubkey → ℕ → Pubkey × ℕ
  session_pda vow_state session_index = find_program_address (
      (b's' ∷ b'e' ∷ b's' ∷ b's' ∷ b'i' ∷ b'o' ∷ b'n' ∷ [])
      ∷ key_bytes vow_state
      ∷ le_bytes 4 session_index
      ∷ [])

  -- [b"app", program_id]
  unfoldable pub app_pda : Pubkey → Pubkey × ℕ
  app_pda program_id = find_program_address ((b'a' ∷ b'p' ∷ b'p' ∷ []) ∷ key_bytes program_id ∷ [])

  -- [b"authority_profile", wallet, profile_id]
  unfoldable pub profile_pda : Pubkey → List ℕ → Pubkey × ℕ
  profile_pda wallet profile_id = find_program_address (
      (b'a' ∷ b'u' ∷ b't' ∷ b'h' ∷ b'o' ∷ b'r' ∷ b'i' ∷ b't' ∷ b'y' ∷ b'_' ∷ b'p' ∷ b'r' ∷ b'o'
        ∷ b'f' ∷ b'i' ∷ b'l' ∷ b'e' ∷ [])
      ∷ key_bytes wallet
      ∷ profile_id
      ∷ [])

  -- [b"commitment", owner]
  unfoldable pub commitment_pda : Pubkey → Pubkey × ℕ
  commitment_pda owner = find_program_address (
      (b'c' ∷ b'o' ∷ b'm' ∷ b'm' ∷ b'i' ∷ b't' ∷ b'm' ∷ b'e' ∷ b'n' ∷ b't' ∷ [])
      ∷ key_bytes owner
      ∷ [])

  -- [b"cr_commit", commitment_record, vow_state]
  unfoldable pub cr_commit_pda : Pubkey → Pubkey → Pubkey × ℕ
  cr_commit_pda commitment_record vow_state = find_program_address (
      (b'c' ∷ b'r' ∷ b'_' ∷ b'c' ∷ b'o' ∷ b'm' ∷ b'm' ∷ b'i' ∷ b't' ∷ [])
      ∷ key_bytes commitment_record
      ∷ key_bytes vow_state
      ∷ [])

  -- [b"cr_fulfill", commitment_record, vow_state]
  unfoldable pub cr_fulfill_pda : Pubkey → Pubkey → Pubkey × ℕ
  cr_fulfill_pda commitment_record vow_state = find_program_address (
      (b'c' ∷ b'r' ∷ b'_' ∷ b'f' ∷ b'u' ∷ b'l' ∷ b'f' ∷ b'i' ∷ b'l' ∷ b'l' ∷ [])
      ∷ key_bytes commitment_record
      ∷ key_bytes vow_state
      ∷ [])
