-- ===== src/Identity/Lifecycle.antt =====
-- The life cycle of an identity: active, unstaking while its escrow is open, dormant.
use vow_protocol.Prelude.{ℕ, ◌<◌, ◌≡◌, ◌⊎◌, Bool, true, false, Option, none, some, arith}
use vow_protocol.Prelude.Int.{ℤ}
use vow_protocol.State.Errors.{ok}
use vow_protocol.State.Accounts.{Pubkey, UnstakeEscrow, YieldMode, compound, hybrid, treasury}
use vow_protocol.State.Runtime.{Clock, Runtime}
use vow_protocol.State.Position.{Position, mature}
use vow_protocol.Harvest.{credit, realise, harvest}
use vow_protocol.Harvest.Settle.{settle_idnft-Settled, mature_keeps, harvest-ok}
use vow_protocol.Vow.AddStake.{relock, add_stake}
use vow_protocol.Vow.BeginUnstake.{begin_unstake}
use vow_protocol.Vow.CompleteUnstake.{complete_unstake}
use vow_protocol.Vow.ActivateStake.{activate_stake}
use vow_protocol.Vow.UpdateYieldMode.{update_yield_mode}
use vow_protocol.Treasury.Deposit.{deposit_yield_balance}
use vow_protocol.Treasury.Withdraw.{withdraw_yield}
use vow_protocol.Treasury.Spend.{yield_spend}
use vow_protocol.Session.Create.{create_session}
use vow_protocol.Session.Revoke.{revoke_session}
use vow_protocol.Admin.Config.{dev_fast_unlock}
use vow_protocol.Program.Process.{run_fast_unlock}
use vow_protocol.Program.Steps.{
  Handles, adding, beginning, completing, activating, switching, harvesting, depositing,
  withdrawing, spending, creating, revoking, closing, unlocking,
}

pub data Phase : Type 0 where
  active unstaking dormant : Phase

abbrev pub phase_of : Bool → Option UnstakeEscrow → Phase
phase_of false _ = dormant
phase_of true none = active
phase_of true (some _) = unstaking

abbrev pub phase : {B : Type 0} → Position B → Phase
phase p = phase_of p.idnft.active_stake p.escrow

-- The life cycle that the README draws.
pub data Edge : Phase → Phase → Type 0 where
  stay : {s : Phase} → Edge s s
  begin : Edge active unstaking
  complete : Edge unstaking dormant
  activate : Edge dormant active

-- What a phase says of the position: no escrow while dormant, and no shares unless active.
abbrev pub IsCoherentAt : Bool → Option UnstakeEscrow → ℕ → Type 0
IsCoherentAt true none shares = Unit
IsCoherentAt true (some _) shares = shares ≡ 0
IsCoherentAt false none shares = shares ≡ 0
IsCoherentAt false (some _) shares = ⊥

abbrev pub IsCoherent : {B : Type 0} → Position B → Type 0
IsCoherent p = IsCoherentAt p.idnft.active_stake p.escrow p.idnft.shares

-- A handler that moves no phase, and makes no shares where there are none.
pub record Stays {B : Type 0} (p q : Position B) : Type 0 where
  pub active_stake : q.idnft.active_stake ≡ p.idnft.active_stake
  pub escrow : q.escrow ≡ p.escrow
  pub shares : (q.idnft.shares ≡ 0) ⊎ (0 < p.idnft.shares)

module _ {B : Type 0} where
  credit-Stays :
      (amount total carried : ℕ) (p : Position B) {q : Position B}
      → credit amount total carried p ≡ ok q
      → Stays p q
  unfolding credit
  credit-Stays amount total carried p h = ground arith

  realise-Stays :
      (mode : YieldMode) (gain : ℤ) (p : Position B) {q : Position B}
      → realise mode gain p ≡ ok q
      → Stays p q
  unfolding realise
  realise-Stays compound gain p h = ground arith
  realise-Stays hybrid gain p h = ground (arith, credit-Stays _ _ _ p)
  realise-Stays treasury gain p h = ground (arith, credit-Stays _ _ _ p)

  harvest-Stays : (clock : Clock) (p q : Position B) → harvest clock p ≡ ok q → Stays p q
  harvest-Stays clock p q h =
      let (w, e, done) = harvest-ok clock p h in
      ground (
        arith,
        settle_idnft-Settled (mature clock p).idnft (mature clock p).config,
        mature_keeps clock p,
        realise-Stays w.yield_mode w.accrued_gain (record (mature clock p) { idnft = w }) {q = q},
      )

  Stays-Edge :
      (p q : Position B) → Stays p q → IsCoherent p → Edge (phase p) (phase q) × IsCoherent q
  Stays-Edge p q s c = (rw (s.active_stake, s.escrow) stay, ground arith)

-- A handler that crosses from one phase to another.
abbrev Crosses : {B : Type 0} → Phase → Phase → Position B → Position B → Type 0
Crosses s t p q = (phase p ≡ s) × (phase q ≡ t) × IsCoherent q

Crosses-Edge :
    {B : Type 0} (s t : Phase) (p q : Position B)
    → Edge s t
    → Crosses s t p q
    → Edge (phase p) (phase q) × IsCoherent q
Crosses-Edge s t p q e c = (rw (c.0, c.1) e, c.2)

module _ {B : Type 0} (rt : Runtime B) (clock : Clock) where
  begin_unstake-Crosses :
      (owner : Pubkey) (p q : Position B)
      → begin_unstake rt clock owner p ≡ ok q
      → Crosses active unstaking p q
  unfolding begin_unstake
  begin_unstake-Crosses owner p q h = ground (
    arith,
    mature_keeps clock p,
    settle_idnft-Settled (mature clock p).idnft (mature clock p).config,
  )

  complete_unstake-Crosses :
      (owner : Pubkey) (p q : Position B)
      → complete_unstake rt clock owner p ≡ ok q
      → IsCoherent p
      → Crosses unstaking dormant p q
  unfolding complete_unstake
  complete_unstake-Crosses owner p q h c = ground arith

  activate_stake-Crosses :
      (owner : Pubkey) (n : ℕ) (mode : YieldMode) (p q : Position B)
      → activate_stake rt clock owner n mode p ≡ ok q
      → IsCoherent p
      → Crosses dormant active p q
  unfolding activate_stake
  activate_stake-Crosses owner n mode p q h c =
      ground (arith, settle_idnft-Settled p.idnft p.config)

  -- From a position where an identity that is not active has no shares, and a dormant one no
  -- escrow, every handler follows an edge of the life cycle (active, unstaking, dormant, and
  -- active again) or stays in its phase, and leaves such a position.
  pub Handles-Edge :
      (p q : Position B)
      → Handles rt clock p q
      → IsCoherent p
      → Edge (phase p) (phase q) × IsCoherent q
  unfolding add_stake relock update_yield_mode deposit_yield_balance withdraw_yield yield_spend
      create_session revoke_session run_fast_unlock dev_fast_unlock
  Handles-Edge p q (adding owner n h) c =
      Stays-Edge p q (ground (arith, settle_idnft-Settled p.idnft p.config)) c
  Handles-Edge p q (beginning owner h) c =
      Crosses-Edge active unstaking p q begin (begin_unstake-Crosses owner p q h)
  Handles-Edge p q (completing owner h) c =
      Crosses-Edge unstaking dormant p q complete (complete_unstake-Crosses owner p q h c)
  Handles-Edge p q (activating owner n mode h) c =
      Crosses-Edge dormant active p q activate (activate_stake-Crosses owner n mode p q h c)
  Handles-Edge p q (switching owner mode h) c =
      Stays-Edge p q (ground (arith, settle_idnft-Settled p.idnft p.config)) c
  Handles-Edge p q (harvesting h) c = Stays-Edge p q (harvest-Stays clock p q h) c
  Handles-Edge p q (depositing depositor n h) c = Stays-Edge p q (ground arith) c
  Handles-Edge p q (withdrawing owner n h) c = Stays-Edge p q (ground arith) c
  Handles-Edge p q (spending call n s s' h) c = Stays-Edge p q (ground arith) c
  Handles-Edge p q (creating owner key ids params index profile slot s' h) c =
      Stays-Edge p q (ground arith) c
  Handles-Edge p q (revoking owner s s' h) c = Stays-Edge p q (ground arith) c
  Handles-Edge p q (closing owner s _ h) c = Stays-Edge p q (ground arith) c
  Handles-Edge p q (unlocking admin h) c = Stays-Edge p q (ground arith) c
