-- ===== src/Program/Ledger/Gates/Count.antt =====
-- The gates that were opened for a wallet, counted against its commitment record
-- (programs/vow/src/state/commitment_record.rs and cr_gate.rs).
use vow_protocol.Prelude.{
  ℕ, suc, ◌+◌, ◌≤◌, ◌≡◌, ◌≢◌, refl, some, none, Option, List, [], ◌∷◌, arith, ◌==◌, if◌then◌else◌,
  Bool-cases, inl, inr,
}
use vow_protocol.Prelude.Keyed.{find, replace, find-key, All, All-find, All-map, All-replace}
use vow_protocol.State.Accounts.{Pubkey, CommitmentRecord}
use vow_protocol.Commitment.{or_blank}
use vow_protocol.Program.Ledger.{Gate, wallet_of, address_of, put_record, gate_account}

-- How many gates were opened for the wallet.
unfoldable pub opened_for : Pubkey → List Gate → ℕ
opened_for wallet [] = 0
opened_for wallet (g ∷ gs) =
    if g.wallet == wallet then suc (opened_for wallet gs) else opened_for wallet gs

opened_for-cons :
    (wallet : Pubkey) (g : Gate) (gs : List Gate)
    → opened_for wallet gs ≤ opened_for wallet (g ∷ gs)
unfolding opened_for
opened_for-cons wallet g gs = ground arith

opened_for-own :
    (g : Gate) (gs : List Gate) → opened_for g.wallet (g ∷ gs) ≡ opened_for g.wallet gs + 1
unfolding opened_for
opened_for-own g gs = ground arith

-- An address that is not found is the address of no gate.
pub find-none-ne :
    (address : Pubkey) (gs : List Gate)
    → gate_account (find address_of address gs) ≡ none
    → All (λ g. address_of g ≢ address) gs
unfolding find
find-none-ne address [] h = tt
find-none-ne address (g ∷ gs) h = elim (Bool-cases (address_of g == address)) [
  | inl here ↦ let taken : ⊥ = ground arith in absurd taken
  | inr there ↦ (ground arith, find-none-ne address gs (ground arith))
]

-- The record counts no more identities than gates were opened for its wallet.
abbrev pub IsCounted : List Gate → CommitmentRecord → Type 0
IsCounted gates r = r.total_xnfts_minted ≤ opened_for r.wallet gates

put_record-new :
    (wallet : Pubkey) (r : CommitmentRecord) (records : List CommitmentRecord)
    → find wallet_of wallet records ≡ none
    → put_record wallet r records ≡ r ∷ records
unfolding put_record
put_record-new wallet r records e = ground arith

put_record-old :
    (wallet : Pubkey) (r old : CommitmentRecord) (records : List CommitmentRecord)
    → find wallet_of wallet records ≡ some old
    → put_record wallet r records ≡ replace wallet_of wallet r records
unfolding put_record
put_record-old wallet r old records e = ground arith

pub put_record-IsCounted :
    (gates : List Gate) (g : Gate) (r : CommitmentRecord) (records : List CommitmentRecord)
    → r.wallet ≡ g.wallet
    → r.total_xnfts_minted ≤ (or_blank (find wallet_of g.wallet records)).total_xnfts_minted + 1
    → All (IsCounted gates) records
    → All (IsCounted (g ∷ gates)) (put_record g.wallet r records)
put_record-IsCounted gates g r records own count h = by_old (find wallet_of g.wallet records) refl
  where
    later : All (IsCounted (g ∷ gates)) records
    later =
        All-map (IsCounted gates) (IsCounted (g ∷ gates)) records
          (λ x c. omega (arith, c, opened_for-cons x.wallet g gates)) h

    by_old :
        (o : Option CommitmentRecord)
        → find wallet_of g.wallet records ≡ o
        → All (IsCounted (g ∷ gates)) (put_record g.wallet r records)
    by_old none e =
        let fits : IsCounted (g ∷ gates) r = ground (arith, opened_for-own g gates) in
        rw (put_record-new g.wallet r records e) (fits, later)
    by_old (some old) e =
        let old_fits = All-find wallet_of (IsCounted gates) g.wallet records old h e in
        let key = find-key wallet_of g.wallet records old e in
        let fits : IsCounted (g ∷ gates) r = ground (arith, opened_for-own g gates) in
        rw (put_record-old g.wallet r old records e)
          (All-replace wallet_of (IsCounted (g ∷ gates)) g.wallet r records later fits)
