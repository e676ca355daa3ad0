-- ===== src/Identity/Tier.antt =====
-- The class of an identity is that of its principal, over any history (`class_for_stake` in
-- programs/vow/src/state/vow_state.rs, and the handlers that write the two fields).
use vow_protocol.Prelude.{ℕ, ◌+◌, ◌≤◌, ◌≡◌, refl, List, [], ◌∷◌, arith}
use vow_protocol.Prelude.Keyed.{All, All-find, All-replace}
use vow_protocol.State.Errors.{Result, ok, err, Ensures}
use vow_protocol.State.Accounts.{VowState, YieldMode, ProtocolConfig}
use vow_protocol.State.Class.{class_for_stake}
use vow_protocol.State.Class.Tiers.{class_for_stake_mono}
use vow_protocol.State.Events.{Event}
use vow_protocol.State.Runtime.{Clock, Runtime}
use vow_protocol.State.Position.{Position, mature}
use vow_protocol.Harvest.{credit, keep, realise, harvest}
use vow_protocol.Harvest.Settle.{settle_idnft-Settled, mature_keeps, harvest-ok}
use vow_protocol.Vow.Mint.{mint}
use vow_protocol.Vow.AddStake.{upgrade, relock, add_stake}
use vow_protocol.Vow.BeginUnstake.{begin_unstake}
use vow_protocol.Vow.CompleteUnstake.{retire, complete_unstake}
use vow_protocol.Vow.ActivateStake.{activate_stake}
use vow_protocol.Vow.UpdateYieldMode.{update_yield_mode}
use vow_protocol.Treasury.Deposit.{deposit_yield_balance}
use vow_protocol.Treasury.Withdraw.{withdraw_yield}
use vow_protocol.Treasury.Spend.{yield_spend}
use vow_protocol.Session.Create.{create_session}
use vow_protocol.Session.Revoke.{revoke_session}
use vow_protocol.Admin.Config.{dev_fast_unlock}
use vow_protocol.Program.World.{Slot, World, asset_of, position}
use vow_protocol.Program.Process.{Instruction, run_fast_unlock}
use vow_protocol.Program.Steps.{
  Handles, adding, beginning, completing, activating, switching, harvesting, depositing,
  withdrawing, spending, creating, revoking, closing, unlocking, Steps, minted, handled, configured,
  moved, add_slot-ok,
}
use vow_protocol.Program.Run.{apply, run, apply_inv}

abbrev pub HasTier : VowState → Type 0
HasTier v = class_for_stake v.principal_lamports ≡ ok v.class

abbrev pub HasTierSlot : Slot → Type 0
HasTierSlot t = HasTier t.idnft

-- The principal and the class are as they were.
record SameTier (v w : VowState) : Type 0 where
  principal : w.principal_lamports ≡ v.principal_lamports
  class : w.class ≡ v.class

SameTier-HasTier : (v w : VowState) → SameTier v w → HasTier v → HasTier w
SameTier-HasTier v w s h = rw (s.principal, s.class) h

-- More lamports have a class that is no lower, if they have one.
class_for_stake-grows :
    (a b c : ℕ) → a ≤ b → class_for_stake a ≡ ok c → Ensures (λ d. c ≤ d) (class_for_stake b)
class_for_stake-grows a b c le e = by_result (class_for_stake b) refl
  where
    by_result : (r : Result ℕ) → class_for_stake b ≡ r → Ensures (λ d. c ≤ d) r
    by_result (ok d) h = class_for_stake_mono a b c d le e h
    by_result (err x) h = tt

module _ {B : Type 0} where
  realise-SameTier :
      (p q : Position B) (v : VowState)
      → realise v.yield_mode v.accrued_gain (record p { idnft = v }) ≡ ok q
      → SameTier v q.idnft
  unfolding realise credit keep
  realise-SameTier p q v h = ground arith

module _ {B : Type 0} (rt : Runtime B) (clock : Clock) where
  add_stake-HasTier :
      (owner n : ℕ) (p q : Position B)
      → add_stake rt clock owner n p ≡ ok q
      → HasTier p.idnft
      → HasTier q.idnft
  unfolding add_stake relock upgrade
  add_stake-HasTier owner n p q h t = ground (
    arith,
    settle_idnft-Settled p.idnft p.config,
    class_for_stake-grows p.idnft.principal_lamports (p.idnft.principal_lamports + n) p.idnft.class,
  )

  harvest-SameTier : (p q : Position B) → harvest clock p ≡ ok q → SameTier p.idnft q.idnft
  harvest-SameTier p q h =
      let (v, settled, realised) = harvest-ok clock p h in
      ground (
        arith,
        mature_keeps clock p,
        settle_idnft-Settled (mature clock p).idnft (mature clock p).config,
        realise-SameTier (mature clock p) q v realised,
      )

  Handles-HasTier : (p q : Position B) → Handles rt clock p q → HasTier p.idnft → HasTier q.idnft
  unfolding begin_unstake complete_unstake retire activate_stake update_yield_mode
      deposit_yield_balance withdraw_yield yield_spend create_session revoke_session run_fast_unlock
      dev_fast_unlock
  Handles-HasTier p q (adding owner n h) t = add_stake-HasTier owner n p q h t
  Handles-HasTier p q (beginning owner h) t =
      SameTier-HasTier p.idnft q.idnft
        (ground (
          arith,
          mature_keeps clock p,
          settle_idnft-Settled (mature clock p).idnft (mature clock p).config,
        ))
        t
  Handles-HasTier p q (completing owner h) t = SameTier-HasTier p.idnft q.idnft (ground arith) t
  Handles-HasTier p q (activating owner n mode h) t = ground arith
  Handles-HasTier p q (switching owner mode h) t =
      SameTier-HasTier p.idnft q.idnft (ground (arith, settle_idnft-Settled p.idnft p.config)) t
  Handles-HasTier p q (harvesting h) t = SameTier-HasTier p.idnft q.idnft (harvest-SameTier p q h) t
  Handles-HasTier p q (depositing depositor n h) t =
      SameTier-HasTier p.idnft q.idnft (ground arith) t
  Handles-HasTier p q (withdrawing owner n h) t = SameTier-HasTier p.idnft q.idnft (ground arith) t
  Handles-HasTier p q (spending call n s s' h) t = SameTier-HasTier p.idnft q.idnft (ground arith) t
  Handles-HasTier p q (creating owner key ids params index profile slot s' h) t =
      SameTier-HasTier p.idnft q.idnft (ground arith) t
  Handles-HasTier p q (revoking owner s s' h) t = SameTier-HasTier p.idnft q.idnft (ground arith) t
  Handles-HasTier p q (closing owner s _ h) t = SameTier-HasTier p.idnft q.idnft (ground arith) t
  Handles-HasTier p q (unlocking admin h) t = SameTier-HasTier p.idnft q.idnft (ground arith) t

  mint-HasTier :
      (owner n : ℕ) (mode : YieldMode) (p : Position B) (c : ProtocolConfig) (b : B)
      (log : List Event)
      → mint rt clock owner n mode c b log ≡ ok p
      → HasTier p.idnft
  unfolding mint
  mint-HasTier owner n mode p c b log h = ground arith

  pub Steps-HasTier :
      (w w' : World B) → Steps rt clock w w' → All HasTierSlot w.slots → All HasTierSlot w'.slots
  Steps-HasTier w w' (minted owner n mode p ran added) h =
      rw (add_slot-ok p w w' added).1 (mint-HasTier owner n mode p w.config w.bank w.log ran, h)
  Steps-HasTier w w' (handled k t sessions p found step _ _ e) h = rw e (
      All-replace asset_of HasTierSlot k
        (record { idnft = p.idnft; escrow = p.escrow; sessions = sessions }) w.slots h
        (Handles-HasTier (position w t) p step (All-find asset_of HasTierSlot k w.slots t h found)))
  Steps-HasTier w w' (configured config log step e) h = rw e h
  Steps-HasTier w w' (moved bank _ e) h = rw e h

module _ {B : Type 0} (rt : Runtime B) where
  -- Over any history, from a ledger where this holds: the class of every identity is the one that
  -- `class_for_stake` gives its principal, however often stake was added and activated.
  pub run-HasTier :
      (is : List (Clock × Instruction B)) (w : World B)
      → All HasTierSlot w.slots
      → All HasTierSlot (run rt is w).slots
  unfolding run
  run-HasTier [] w h = h
  run-HasTier ((clock, i) ∷ is) w h = run-HasTier is (apply rt clock i w) (
      apply_inv rt (λ v. All HasTierSlot v.slots) clock i w
        (λ w' _ step. Steps-HasTier rt clock w w' step h) h)
