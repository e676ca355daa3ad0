-- ===== src/Vow/Unstake.antt =====
-- An unstake from its beginning to its payment (programs/vow/src/instructions/vow/begin_unstake.rs and
-- complete_unstake.rs).
use vow_protocol.Prelude.{
  ℕ, ◌+◌, ◌*◌, ◌/◌, ◌≤◌, ◌<◌, ◌≡◌, ◌⊎◌, true, false, leb, if◌then◌else◌, zero, suc, Option, some,
  none, arith,
}
use vow_protocol.Prelude.Int.{◌≤ℤ◌}
use native.Mathlib.Decide.{dec_lt}
use vow_protocol.Prelude.Machine.{u64_max, u128_max}
use vow_protocol.State.Errors.{Result, ok, err, ◌>>=◌}
use vow_protocol.State.Accounts.{Pubkey, VowState, ProtocolConfig, UnstakeEscrow, share_precision}
use vow_protocol.State.Runtime.{Clock, Runtime, reserve_pda}
use vow_protocol.State.Position.{Position, mature, share_value}
use vow_protocol.Harvest.{settle_idnft}
use vow_protocol.Harvest.Settle.{mature_keeps}
use vow_protocol.Vow.BeginUnstake.{begin_unstake}
use vow_protocol.Vow.CompleteUnstake.{pay_amount, retire, complete_unstake}
use vow_protocol.Vow.CompleteUnstake.Payout.{pay_amount-full, pay_amount-short}

-- What the identity's shares are worth at the config's price, with its yield balance.
abbrev pub worth : {B : Type 0} → Position B → ℕ
worth p = p.idnft.shares * p.config.current_share_price / share_precision + p.idnft.yield_balance

-- An unstaker's part of the reserve: the claim if the reserve covers all pending claims, and else the pro-rata
-- part of the reserve, rounded down.
abbrev pub part_of_reserve : ℕ → ℕ → ℕ → ℕ
part_of_reserve claim reserve pending =
    if leb pending reserve then claim else claim * reserve / pending

pay_amount-part_of_reserve :
    (claim reserve pending : ℕ)
    → claim ≤ pending
    → pending ≤ u64_max
    → pay_amount claim reserve pending ≡ part_of_reserve claim reserve pending
pay_amount-part_of_reserve claim reserve pending h m = elim (dec_lt reserve pending) [
  | yes s ↦ ground (arith, s, pay_amount-short claim reserve pending h m s)
  | no f ↦ ground (arith, f, pay_amount-full claim reserve pending)
]

-- What is paid comes from a reserve that is not empty.
part_of_reserve-positive :
    (claim reserve pending : ℕ)
    → claim ≤ pending
    → 0 < part_of_reserve claim reserve pending
    → 0 < reserve
part_of_reserve-positive claim zero pending h some_part = ground arith
part_of_reserve-positive claim (suc r) pending h some_part = omega arith

share_value-exact :
    (shares price : ℕ)
    → shares * price ≤ u128_max
    → share_value shares price ≡ ok (shares * price / share_precision)
unfolding share_value
share_value-exact shares price fits = ground arith

-- The call returned a settled identity.
abbrev Settles : VowState → ProtocolConfig → Result VowState → Type 0
Settles v c (ok w) =
    w ≡ record v { accrued_gain = w.accrued_gain; last_share_price = c.current_share_price }
Settles v c (err _) = ⊥

settle_idnft-Settles :
    (v : VowState) (c : ProtocolConfig)
    → v.shares * c.current_share_price ≤ u128_max
    → v.shares * v.last_share_price ≤ u128_max
    → Settles v c (settle_idnft v c)
unfolding settle_idnft
settle_idnft-Settles v c now last = ground (
  arith,
  share_value-exact v.shares c.current_share_price now,
  share_value-exact v.shares v.last_share_price last,
)

-- The escrow of an unstake that began in this epoch.
abbrev Owes : Pubkey → ℕ → ℕ → Option UnstakeEscrow → Type 0
Owes owner n epoch (some e) =
    (e.owner ≡ owner) × (e.lamports_owed ≡ n) × (e.deactivation_epoch ≡ epoch)
Owes owner n epoch none = ⊥

module _ {B : Type 0} where
  -- The call returned, with this escrow, the balances as they were, and the claim pending.
  record HasBegun (owner : Pubkey) (epoch : ℕ) (p q : Position B) : Type 0 where
    owner_kept : q.idnft.owner ≡ owner
    escrow : Owes owner (worth p) epoch q.escrow
    pending : q.config.total_pending_unstake ≡ p.config.total_pending_unstake + worth p
    bank : q.bank ≡ p.bank

  abbrev Begins : Pubkey → ℕ → Position B → Result (Position B) → Type 0
  Begins owner epoch p (ok q) = HasBegun owner epoch p q
  Begins owner epoch p (err _) = ⊥

  -- The call returned: the balances are these, the escrow is gone and the identity dormant.
  abbrev pub EndsWith : B → Result (Position B) → Type 0
  EndsWith bank (ok q) = (q.bank ≡ bank) × (q.escrow ≡ none) × (q.idnft.active_stake ≡ false)
  EndsWith bank (err _) = ⊥

module _ {B : Type 0} (rt : Runtime B) where
  mature-matured :
      (clock : Clock) (p : Position B)
      → (p.idnft.matured ≡ true) ⊎ (p.idnft.unlock_at ≤ℤ clock.unix_timestamp)
      → (mature clock p).idnft.matured ≡ true
  unfolding mature
  mature-matured clock p h = ground arith

  begin_unstake-Begins :
      (clock : Clock) (owner : Pubkey) (p : Position B)
      → p.idnft.owner ≡ owner
      → p.escrow ≡ none
      → p.idnft.active_stake ≡ true
      → (p.idnft.matured ≡ true) ⊎ (p.idnft.unlock_at ≤ℤ clock.unix_timestamp)
      → p.idnft.shares * p.config.current_share_price ≤ u128_max
      → p.idnft.shares * p.idnft.last_share_price ≤ u128_max
      → p.config.total_pending_unstake + worth p ≤ u64_max
      → Begins owner clock.epoch p (begin_unstake rt clock owner p)
  unfolding begin_unstake
  begin_unstake-Begins clock owner p own free staked ripe now last fits =
      let m = mature clock p in
      ground (
        arith,
        mature_keeps clock p,
        mature-matured clock p ripe,
        settle_idnft-Settles m.idnft m.config,
        share_value-exact p.idnft.shares p.config.current_share_price now,
      )

  complete_unstake-EndsWith :
      (clock : Clock) (owner : Pubkey) (n epoch : ℕ) (q : Position B) (bank : B)
      → q.idnft.owner ≡ owner
      → Owes owner n epoch q.escrow
      → epoch < clock.epoch
      → n ≤ q.config.total_pending_unstake
      → q.config.total_pending_unstake ≤ u64_max
      → 0 < part_of_reserve n (rt.lamports q.bank (reserve_pda rt).0) q.config.total_pending_unstake
      → rt.transfer
          (reserve_pda rt).0
          owner
          (part_of_reserve n (rt.lamports q.bank (reserve_pda rt).0) q.config.total_pending_unstake)
          q.bank
        ≡ some bank
      → EndsWith bank (complete_unstake rt clock owner q)
  unfolding complete_unstake retire
  complete_unstake-EndsWith clock owner n epoch q bank own owes later pending fits some_part sent =
      let reserve = rt.lamports q.bank (reserve_pda rt).0 in
      let total = q.config.total_pending_unstake in
      let paid = pay_amount-part_of_reserve n reserve total pending fits in
      let positive : 0 < pay_amount n reserve total = rw paid some_part in
      let moved : rt.transfer (reserve_pda rt).0 owner (pay_amount n reserve total) q.bank
          ≡ some bank =
        rw paid sent in
      ground (arith, positive, moved, part_of_reserve-positive n reserve total pending some_part)

  -- The owner of an active identity whose lock has passed gets it out: `begin_unstake`, and in any
  -- later epoch `complete_unstake`, succeed one after the other, while nothing comes between them. With the
  -- value of the shares and the yield balance as the claim, the owner is paid the claim in full if the reserve
  -- covers all claims that are then pending, and else its pro-rata part of the reserve; the escrow is
  -- gone, and the identity is dormant. (The payment is not 0, the chain makes the transfer, and the
  -- products and the sum fit their machine types.)
  pub unstake-pays_out :
      (clock later : Clock) (owner : Pubkey) (p : Position B) (bank : B)
      → p.idnft.owner ≡ owner
      → p.escrow ≡ none
      → p.idnft.active_stake ≡ true
      → (p.idnft.matured ≡ true) ⊎ (p.idnft.unlock_at ≤ℤ clock.unix_timestamp)
      → p.idnft.shares * p.config.current_share_price ≤ u128_max
      → p.idnft.shares * p.idnft.last_share_price ≤ u128_max
      → p.config.total_pending_unstake + worth p ≤ u64_max
      → clock.epoch < later.epoch
      → 0
        < part_of_reserve
            (worth p)
            (rt.lamports p.bank (reserve_pda rt).0)
            (p.config.total_pending_unstake + worth p)
      → rt.transfer
          (reserve_pda rt).0
          owner
          (part_of_reserve
            (worth p)
            (rt.lamports p.bank (reserve_pda rt).0)
            (p.config.total_pending_unstake + worth p))
          p.bank
        ≡ some bank
      → EndsWith bank (begin_unstake rt clock owner p >>= (λ q. complete_unstake rt later owner q))
  unstake-pays_out clock later owner p bank own free staked ripe now last fits epochs some_part
        sent =
      by_result (begin_unstake rt clock owner p)
        (begin_unstake-Begins clock owner p own free staked ripe now last fits)
    where
      by_result :
          (r : Result (Position B))
          → Begins owner clock.epoch p r
          → EndsWith bank (r >>= (λ q. complete_unstake rt later owner q))
      by_result (ok q) b =
          complete_unstake-EndsWith later owner (worth p) clock.epoch q bank b.owner_kept b.escrow
            epochs (omega (arith, b.pending)) (omega (arith, b.pending, fits))
            (rw (b.bank, b.pending) some_part) (rw (b.bank, b.pending) sent)
      by_result (err x) b = absurd b
