-- ===== src/Commitment/Exceeds.antt =====
-- A stake that grows between the two records of its commitment
-- (programs/vow/src/instructions/commitment/ and vow/add_stake.rs).
use vow_protocol.Prelude.{ℕ, ◌+◌, ◌≤◌, ◌<◌, ◌≡◌, Option, none, arith}
use vow_protocol.Prelude.Machine.{u64_max}
use vow_protocol.State.Errors.{ok}
use vow_protocol.State.Accounts.{Pubkey, VowState, CommitmentRecord, CrGate}
use vow_protocol.State.Runtime.{Clock, Runtime}
use vow_protocol.State.Position.{Position}
use vow_protocol.Harvest.Settle.{settle_idnft-Settled}
use vow_protocol.Vow.AddStake.{add_stake}
use vow_protocol.Commitment.{record_commitment, record_fulfillment}

module _ {B : Type 0} (rt : Runtime B) where
  add_stake-principal :
      (clock : Clock) (owner : Pubkey) (n : ℕ) (p q : Position B)
      → add_stake rt clock owner n p ≡ ok q
      → (q.idnft.principal_lamports ≡ p.idnft.principal_lamports + n)
        × (0 < n)
        × (p.idnft.principal_lamports + n ≤ u64_max)
  unfolding add_stake
  add_stake-principal clock owner n p q h = ground (arith, settle_idnft-Settled p.idnft p.config)

  record_commitment-first :
      (clock : Clock) (v : VowState) (gate : Option CrGate) (r : CommitmentRecord) (g : CrGate)
      → v.principal_lamports ≤ u64_max
      → record_commitment rt clock v none gate ≡ ok (r, g)
      → (r.total_xnt_committed ≡ v.principal_lamports) × (r.total_xnt_fulfilled ≡ 0)
  unfolding record_commitment
  record_commitment-first clock v gate r g fits h = ground arith

  record_fulfillment-adds :
      (clock : Clock) (v : VowState) (old : CommitmentRecord) (gate : Option CrGate)
      (r : CommitmentRecord) (g : CrGate)
      → v.principal_lamports ≤ u64_max
      → old.total_xnt_fulfilled ≡ 0
      → record_fulfillment rt clock v old gate ≡ ok (r, g)
      → (r.total_xnt_committed ≡ old.total_xnt_committed)
        × (r.total_xnt_fulfilled ≡ v.principal_lamports)
  unfolding record_fulfillment
  record_fulfillment-adds clock v old gate r g fits zero h = ground arith

  -- A wallet's record can show more fulfilled than committed: if the commitment of its first identity is
  -- recorded, then stake is added to the identity, and then its fulfilment is recorded (when the
  -- principal is what it was after the addition), the record shows the first principal as committed and
  -- the larger one as fulfilled.
  pub add_stake-exceeds :
      (clock later last : Clock) (owner : Pubkey) (n : ℕ) (p q : Position B) (v : VowState)
      (gate gate' : Option CrGate) (r r' : CommitmentRecord) (g g' : CrGate)
      → record_commitment rt clock p.idnft none gate ≡ ok (r, g)
      → add_stake rt later owner n p ≡ ok q
      → v.principal_lamports ≡ q.idnft.principal_lamports
      → record_fulfillment rt last v r gate' ≡ ok (r', g')
      → (r'.total_xnt_fulfilled ≡ r'.total_xnt_committed + n)
        × (r'.total_xnt_committed < r'.total_xnt_fulfilled)
  add_stake-exceeds clock later last owner n p q v gate gate' r r' g g' h1 h2 same h3 =
      let added = add_stake-principal later owner n p q h2 in
      ground (
        arith,
        record_commitment-first clock p.idnft gate r g,
        record_fulfillment-adds last v r gate' r' g',
      )
