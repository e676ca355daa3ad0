-- ===== src/Program/Ledger/Gates.antt =====
-- Commitment records and their one-time gates over histories
-- (programs/vow/src/instructions/commitment/).
pub mod Count
use vow_protocol.Prelude.{
  ℕ, suc, ◌+◌, ◌≤◌, ◌≡◌, ◌≢◌, refl, sym, some, none, Option, List, [], ◌∷◌, arith, ◌==◌, ==_iff,
  if◌then◌else◌, Bool-cases, inl, inr,
}
use vow_protocol.Prelude.Keyed.{
  find, replace, find-key, All, All-find, All-map, All-replace, Distinct,
}
use vow_protocol.State.Errors.{Result, ok, err, ok_or-eq-ok, >>=-eq-ok}
use vow_protocol.State.Accounts.{Pubkey, CommitmentRecord, CrGate, VowState, ProtocolConfig}
use vow_protocol.State.Runtime.{
  Clock, Runtime, commitment_pda, vow_pda, cr_commit_pda, cr_fulfill_pda,
}
use vow_protocol.Commitment.{record_commitment, record_fulfillment, or_blank}
use vow_protocol.Program.World.{Slot, asset_of}
use vow_protocol.Program.Process.{Instruction}
use vow_protocol.Program.Ledger.{
  Gate, Ledger, Layout, Entry, runs, initializes, closes_config, registers_app, verifies_app,
  blocks_app, creates_profile, updates_profile, closes_profile, records_commitment,
  records_fulfillment, wallet_of, address_of, load_accounts, put_record, gate_account,
}
use vow_protocol.Program.Ledger.Execute.{run_instruction, run_commitment, run_fulfillment, execute}
use vow_protocol.Program.Ledger.Histories.{run_ledger, run_ledger_inv}
use vow_protocol.Program.Ledger.Gates.Count.{IsCounted, find-none-ne, put_record-IsCounted}

module _ {B : Type 0} (rt : Runtime B) where
  -- The address of the gate that counts an identity for a wallet.
  abbrev pub commit_address : Pubkey → Pubkey → Pubkey
  commit_address wallet asset =
      (cr_commit_pda rt (commitment_pda rt wallet).0 (vow_pda rt asset).0).0

  abbrev pub fulfill_address : Pubkey → Pubkey → Pubkey
  fulfill_address wallet asset =
      (cr_fulfill_pda rt (commitment_pda rt wallet).0 (vow_pda rt asset).0).0

  -- Every gate stands at the address of its wallet and identity, no two gates at one address, and no
  -- record counts more identities than gates were opened for its wallet.
  pub record HasGates (l : Ledger B) : Type 0 where
    pub counted : All (IsCounted l.commits) l.records
    pub commits_placed : All (λ g. g.address ≡ commit_address g.wallet g.asset) l.commits
    pub commits_once : Distinct address_of l.commits
    pub fulfills_placed : All (λ g. g.address ≡ fulfill_address g.wallet g.asset) l.fulfills
    pub fulfills_once : Distinct address_of l.fulfills

  record SameGates (l l' : Ledger B) : Type 0 where
    records : l'.records ≡ l.records
    commits : l'.commits ≡ l.commits
    fulfills : l'.fulfills ≡ l.fulfills

  SameGates-HasGates : (l l' : Ledger B) → SameGates l l' → HasGates l → HasGates l'
  SameGates-HasGates l l' s g = record {
    counted = rw (s.records, s.commits) g.counted;
    commits_placed = rw s.commits g.commits_placed;
    commits_once = rw s.commits g.commits_once;
    fulfills_placed = rw s.fulfills g.fulfills_placed;
    fulfills_once = rw s.fulfills g.fulfills_once;
  }

  record_commitment-ok :
      (clock : Clock) (v : VowState) (old : Option CommitmentRecord) (gate : Option CrGate)
      (r : CommitmentRecord) (account : CrGate)
      → record_commitment rt clock v old gate ≡ ok (r, account)
      → (gate ≡ none)
        × (r.wallet ≡ v.owner)
        × (r.total_xnfts_minted ≤ (or_blank old).total_xnfts_minted + 1)
  unfolding record_commitment
  record_commitment-ok clock v old gate r account h = ground arith

  record_fulfillment-ok :
      (clock : Clock) (v : VowState) (old : CommitmentRecord) (gate : Option CrGate)
      (r : CommitmentRecord) (account : CrGate)
      → record_fulfillment rt clock v old gate ≡ ok (r, account)
      → (gate ≡ none) × (r.wallet ≡ old.wallet) × (r.total_xnfts_minted ≡ old.total_xnfts_minted)
  unfolding record_fulfillment
  record_fulfillment-ok clock v old gate r account h = ground arith

module _ {B : Type 0} (rt : Runtime B) (layout : Layout) where
  run_instruction-SameGates :
      (clock : Clock) (config : Option ProtocolConfig) (i : Instruction B) (l l' : Ledger B)
      → run_instruction rt layout clock config i l ≡ ok l'
      → SameGates rt l l'
  unfolding run_instruction
  run_instruction-SameGates clock (some c) i l l' h = ground arith
  run_instruction-SameGates clock none i l l' h = ground arith

  run_commitment-HasGates :
      (clock : Clock) (asset : Pubkey) (l l' : Ledger B)
      → run_commitment rt layout clock asset l ≡ ok l'
      → HasGates rt l
      → HasGates rt l'
  unfolding run_commitment
  run_commitment-HasGates clock asset l l' h g =
      let (slot, _, h1) = ok_or-eq-ok (find asset_of asset l.slots) _ _ h in
      let wallet = slot.idnft.owner in
      let address = commit_address rt wallet asset in
      let ((r, account), ran, done) =
        >>=-eq-ok
          (record_commitment rt clock slot.idnft (find wallet_of wallet l.records)
            (gate_account (find address_of address l.commits)))
          _ h1 in
      let (free, own, count) = record_commitment-ok rt clock slot.idnft _ _ r account ran in
      let gate : Gate = record {
        address = address;
        wallet = wallet;
        asset = asset;
        account = account;
      } in
      let e : l'
          ≡ record l { records = put_record wallet r l.records; commits = gate ∷ l.commits } =
        ground arith in
      rw e (record {
        counted = put_record-IsCounted l.commits gate r l.records own count g.counted;
        commits_placed = (refl, g.commits_placed);
        commits_once = (find-none-ne address l.commits free, g.commits_once);
        fulfills_placed = g.fulfills_placed;
        fulfills_once = g.fulfills_once;
      })

  run_fulfillment-HasGates :
      (clock : Clock) (asset : Pubkey) (l l' : Ledger B)
      → run_fulfillment rt layout clock asset l ≡ ok l'
      → HasGates rt l
      → HasGates rt l'
  unfolding run_fulfillment
  run_fulfillment-HasGates clock asset l l' h g =
      let (slot, _, h1) = ok_or-eq-ok (find asset_of asset l.slots) _ _ h in
      let wallet = slot.idnft.owner in
      let address = fulfill_address rt wallet asset in
      let (old, found, h2) = ok_or-eq-ok (find wallet_of wallet l.records) _ _ h1 in
      let ((r, account), ran, done) =
        >>=-eq-ok
          (record_fulfillment rt clock slot.idnft old
            (gate_account (find address_of address l.fulfills)))
          _ h2 in
      let (free, own, count) = record_fulfillment-ok rt clock slot.idnft old _ r account ran in
      let gate : Gate = record {
        address = address;
        wallet = wallet;
        asset = asset;
        account = account;
      } in
      let old_counted =
        All-find wallet_of (IsCounted l.commits) wallet l.records old g.counted found in
      let r_counted : IsCounted l.commits r = rw (own, count) old_counted in
      let e : l' ≡ record l {
        records = replace wallet_of wallet r l.records;
        fulfills = gate ∷ l.fulfills;
      } =
        ground arith in
      rw e (record {
        counted =
            All-replace wallet_of (IsCounted l.commits) wallet r l.records g.counted r_counted;
        commits_placed = g.commits_placed;
        commits_once = g.commits_once;
        fulfills_placed = (refl, g.fulfills_placed);
        fulfills_once = (find-none-ne address l.fulfills free, g.fulfills_once);
      })

  execute-HasGates :
      (clock : Clock) (e : Entry B) (l l' : Ledger B)
      → execute rt layout clock e l ≡ ok l'
      → HasGates rt l
      → HasGates rt l'
  unfolding execute
  execute-HasGates clock (runs i) l l' h g =
      let (j, loaded, h1) = >>=-eq-ok (load_accounts rt l i) _ h in
      SameGates-HasGates rt l l' (run_instruction-SameGates clock l.config j l l' h1) g
  execute-HasGates clock (initializes admin pool mint key bytes) l l' h g =
      SameGates-HasGates rt l l' (ground arith) g
  execute-HasGates clock (closes_config admin) l l' h g =
      SameGates-HasGates rt l l' (ground arith) g
  execute-HasGates clock (registers_app id) l l' h g = SameGates-HasGates rt l l' (ground arith) g
  execute-HasGates clock (verifies_app admin id) l l' h g =
      SameGates-HasGates rt l l' (ground arith) g
  execute-HasGates clock (blocks_app admin id) l l' h g =
      SameGates-HasGates rt l l' (ground arith) g
  execute-HasGates clock (creates_profile wallet id params) l l' h g =
      SameGates-HasGates rt l l' (ground arith) g
  execute-HasGates clock (updates_profile wallet id params) l l' h g =
      SameGates-HasGates rt l l' (ground arith) g
  execute-HasGates clock (closes_profile wallet id) l l' h g =
      SameGates-HasGates rt l l' (ground arith) g
  execute-HasGates clock (records_commitment asset) l l' h g =
      run_commitment-HasGates clock asset l l' h g
  execute-HasGates clock (records_fulfillment asset) l l' h g =
      run_fulfillment-HasGates clock asset l l' h g

  -- Over any history of all entry points, from a ledger where this holds: a wallet's commitment record
  -- counts no more identities than gates were opened for the wallet, no two gates of one kind stand at
  -- one address, and each stands at the address of its wallet and identity. So for a wallet and an
  -- identity at most one gate of each kind is ever opened.
  pub run_ledger-HasGates :
      (es : List (Clock × Entry B)) (l : Ledger B)
      → HasGates rt l
      → HasGates rt (run_ledger rt layout es l)
  run_ledger-HasGates = run_ledger_inv rt layout (HasGates rt) execute-HasGates
