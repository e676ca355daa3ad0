-- ===== src/Compression.antt =====
-- programs/vow/src/compression.rs: the leaf hash of an identity. `keccak` is the chain's hash of bytes.
pub mod Injective
use vow_protocol.Prelude.{ℕ, List, [], ◌∷◌, ◌++◌}
use vow_protocol.Prelude.Int.{ℤ, pos_part, neg_part}
use vow_protocol.Prelude.{◌+◌, ◌-◌, ◌^◌, ◌%◌}
use vow_protocol.Prelude.Bytes.{le_bytes}
use vow_protocol.State.Accounts.{Pubkey}

-- b"idnft-leaf-v1"
abbrev pub leaf_prefix : List ℕ
leaf_prefix =
    b'i' ∷ b'd' ∷ b'n' ∷ b'f' ∷ b't' ∷ b'-' ∷ b'l' ∷ b'e' ∷ b'a' ∷ b'f' ∷ b'-' ∷ b'v' ∷ b'1' ∷ []

-- The bits of an `i64`, as a number below 2^64.
unfoldable pub i64_bits : ℤ → ℕ
i64_bits z = (2 ^ 64 + pos_part z - neg_part z) % 2 ^ 64

-- The 17 bytes that `data_hash` hashes.
unfoldable pub data_buffer : ℕ → ℕ → ℤ → List ℕ
unfolding i64_bits
data_buffer class principal_lamports created_at =
    class ∷ (le_bytes 8 principal_lamports ++ le_bytes 8 (i64_bits created_at))

-- The 117 bytes that `leaf_hash` hashes.
unfoldable pub leaf_buffer : Pubkey → Pubkey → ℕ → List ℕ → List ℕ
leaf_buffer asset_id owner nonce dhash =
    leaf_prefix ++ (le_bytes 32 asset_id ++ (le_bytes 32 owner ++ (le_bytes 8 nonce ++ dhash)))

module _ (keccak : List ℕ → List ℕ) where
  unfoldable pub data_hash : ℕ → ℕ → ℤ → List ℕ
  data_hash class principal_lamports created_at =
      keccak (data_buffer class principal_lamports created_at)

  unfoldable pub leaf_hash : Pubkey → Pubkey → ℕ → List ℕ → List ℕ
  leaf_hash asset_id owner nonce dhash = keccak (leaf_buffer asset_id owner nonce dhash)
