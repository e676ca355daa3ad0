-- ===== src/Program/Invalidation/Renewed.antt =====
-- The invalidation of an identity's sessions over a history
-- (programs/vow/src/instructions/vow/activate_stake.rs, `sessions_invalidated_at`).
use vow_protocol.Prelude.{
  ℕ, ◌≡◌, ◌≢◌, ◌∙◌, sym, ◌==◌, inl, inr, Bool-cases, some, List, [], ◌∷◌, arith,
}
use vow_protocol.Prelude.Int.{ℤ, ◌≤ℤ◌}
use vow_protocol.Prelude.Keyed.{Distinct, find, replace, All, All-find, All-replace, All-map}
use vow_protocol.State.Errors.{ok}
use vow_protocol.State.Accounts.{Pubkey, VowState, YieldMode, compound, hybrid, treasury}
use vow_protocol.State.Runtime.{Clock, Runtime}
use vow_protocol.State.Position.{Position, mature}
use vow_protocol.Harvest.{keep, credit, realise, harvest}
use vow_protocol.Harvest.Settle.{settle_idnft-Settled, mature_keeps, harvest-ok}
use vow_protocol.Vow.AddStake.{relock, upgrade, add_stake}
use vow_protocol.Vow.BeginUnstake.{begin_unstake}
use vow_protocol.Vow.CompleteUnstake.{retire, complete_unstake}
use vow_protocol.Vow.ActivateStake.{activate_stake}
use vow_protocol.Vow.UpdateYieldMode.{update_yield_mode}
use vow_protocol.Treasury.Deposit.{deposit_yield_balance}
use vow_protocol.Treasury.Withdraw.{withdraw_yield}
use vow_protocol.Treasury.Spend.{yield_spend}
use vow_protocol.Session.Create.{create_session}
use vow_protocol.Session.Revoke.{revoke_session}
use vow_protocol.Admin.Config.{dev_fast_unlock}
use vow_protocol.Program.Process.{Instruction, run_fast_unlock}
use vow_protocol.Program.Steps.{
  Steps, minted, handled, configured, moved, add_slot-ok, Handles, adding, beginning, completing,
  activating, switching, harvesting, depositing, withdrawing, spending, creating, revoking, closing,
  unlocking,
}
use vow_protocol.Identity.Soulbound.{Handles-Continues}
use vow_protocol.Identity.Permanence.{IsRangedSlot, Survives, Steps-Survives}
use vow_protocol.Program.World.{Slot, World, asset_of, position}
use vow_protocol.Program.Run.{apply, run, apply_inv}

-- The identity's sessions were invalidated at `since` or later.
abbrev IsInvalidated : ℤ → VowState → Type 0
IsInvalidated since v = since ≤ℤ v.sessions_invalidated_at

abbrev pub IsInvalidatedSlot : Pubkey → ℤ → Slot → Type 0
IsInvalidatedSlot asset since t = t.idnft.asset_id ≡ asset → IsInvalidated since t.idnft

-- The identity is in the ledger, with its sessions invalidated at `since` or later.
pub record IsRenewed {B : Type 0} (asset : Pubkey) (since : ℤ) (s : Slot) (w : World B)
    : Type 0 where
  pub survives : Survives asset s w
  pub invalidated : All (IsInvalidatedSlot asset since) w.slots

-- No two identities have the same asset id.
pub replace-IsInvalidatedSlot :
    (asset : Pubkey) (since : ℤ) (t new : Slot) (ts : List Slot)
    → find asset_of asset ts ≡ some t
    → IsInvalidated since new.idnft
    → Distinct asset_of ts
    → All (IsInvalidatedSlot asset since) (replace asset_of asset new ts)
unfolding find replace
replace-IsInvalidatedSlot asset since t new [] found i d = cc
replace-IsInvalidatedSlot asset since t new (x ∷ xs) found i d =
    elim (Bool-cases (asset_of x == asset)) [
      | inl here ↦
          let same : asset_of x ≡ asset = ground arith in
          rw here (
            (λ _. i),
            All-map (λ y. asset_of y ≢ asset_of x) (IsInvalidatedSlot asset since) xs
                (λ y ne e. absurd (ne (e ∙ sym same))) d.0,
          )
      | inr there ↦
          let later : find asset_of asset xs ≡ some t = ground arith in
          rw there (
            (λ e. absurd (ground (arith, e))),
            replace-IsInvalidatedSlot asset since t new xs later i d.1,
          )
    ]

module _ {B : Type 0} where
  realise-sessions_invalidated_at :
      (mode : YieldMode) (gain : ℤ) (p : Position B) {q : Position B}
      → realise mode gain p ≡ ok q
      → q.idnft.sessions_invalidated_at ≡ p.idnft.sessions_invalidated_at
  unfolding realise credit keep
  realise-sessions_invalidated_at compound gain p h = ground arith
  realise-sessions_invalidated_at hybrid gain p h = ground arith
  realise-sessions_invalidated_at treasury gain p h = ground arith

  harvest-sessions_invalidated_at :
      (clock : Clock) (p q : Position B)
      → harvest clock p ≡ ok q
      → q.idnft.sessions_invalidated_at ≡ p.idnft.sessions_invalidated_at
  harvest-sessions_invalidated_at clock p q h =
      let (w, e, done) = harvest-ok clock p h in
      ground (
        arith,
        settle_idnft-Settled (mature clock p).idnft (mature clock p).config,
        mature_keeps clock p,
        realise-sessions_invalidated_at w.yield_mode w.accrued_gain
            (record (mature clock p) { idnft = w }) {q = q},
      )

module _ {B : Type 0} (rt : Runtime B) (clock : Clock) where
  Handles-IsInvalidated :
      (since : ℤ) (p q : Position B)
      → Handles rt clock p q
      → since ≤ℤ clock.unix_timestamp
      → IsInvalidated since p.idnft
      → IsInvalidated since q.idnft
  unfolding add_stake relock upgrade begin_unstake complete_unstake retire activate_stake
      update_yield_mode deposit_yield_balance withdraw_yield yield_spend create_session
      revoke_session run_fast_unlock dev_fast_unlock
  Handles-IsInvalidated since p q (adding owner n h) t i =
      ground (arith, settle_idnft-Settled p.idnft p.config)
  Handles-IsInvalidated since p q (beginning owner h) t i = ground (
    arith,
    mature_keeps clock p,
    settle_idnft-Settled (mature clock p).idnft (mature clock p).config,
  )
  Handles-IsInvalidated since p q (completing owner h) t i = ground arith
  Handles-IsInvalidated since p q (activating owner n mode h) t i =
      ground (arith, settle_idnft-Settled p.idnft p.config)
  Handles-IsInvalidated since p q (switching owner mode h) t i =
      ground (arith, settle_idnft-Settled p.idnft p.config)
  Handles-IsInvalidated since p q (harvesting h) t i =
      rw (harvest-sessions_invalidated_at clock p q h) i
  Handles-IsInvalidated since p q (depositing depositor n h) t i = ground arith
  Handles-IsInvalidated since p q (withdrawing owner n h) t i = ground arith
  Handles-IsInvalidated since p q (spending call n s s' h) t i = ground arith
  Handles-IsInvalidated since p q (creating owner key ids params index profile slot s' h) t i =
      ground arith
  Handles-IsInvalidated since p q (revoking owner s s' h) t i = ground arith
  Handles-IsInvalidated since p q (closing owner s _ h) t i = ground arith
  Handles-IsInvalidated since p q (unlocking admin h) t i = ground arith

  pub activate_stake-sessions_invalidated_at :
      (owner : Pubkey) (n : ℕ) (mode : YieldMode) (p q : Position B)
      → activate_stake rt clock owner n mode p ≡ ok q
      → q.idnft.sessions_invalidated_at ≡ clock.unix_timestamp
  unfolding activate_stake
  activate_stake-sessions_invalidated_at owner n mode p q h = ground arith

  Steps-IsRenewed :
      (asset : Pubkey) (since : ℤ) (s : Slot) (w w' : World B)
      → Steps rt clock w w'
      → since ≤ℤ clock.unix_timestamp
      → IsRenewed asset since s w
      → IsRenewed asset since s w'
  Steps-IsRenewed asset since s w w' step time f = record {
    survives = Steps-Survives rt clock asset s w w' step f.survives;
    invalidated = by_step step;
  }
    where
      by_step : Steps rt clock w w' → All (IsInvalidatedSlot asset since) w'.slots
      by_step (minted owner m mode p ran added) =
          let (absent, e) = add_slot-ok p w w' added in
          rw e (
            (λ same.
                let found : find asset_of p.idnft.asset_id w.slots ≡ some f.survives.slot =
                  rw same f.survives.found in
                let clash : ⊥ = ground (arith, absent, found) in absurd clash),
            f.invalidated,
          )
      by_step (handled k t sessions p found step _ _ e) =
          let new : Slot = record { idnft = p.idnft; escrow = p.escrow; sessions = sessions } in
          let (c, r) =
            Handles-Continues rt clock (position w t) p step
              (All-find asset_of IsRangedSlot k w.slots t f.survives.ranged found) in
          rw e (
            All-replace asset_of (IsInvalidatedSlot asset since) k new w.slots f.invalidated
              (λ same. Handles-IsInvalidated since (position w t) p step time (
                All-find asset_of (IsInvalidatedSlot asset since) k w.slots t f.invalidated found
                  (sym c.asset_id ∙ same))))
      by_step (configured config log step e) = rw e f.invalidated
      by_step (moved bank _ e) = rw e f.invalidated

-- No transaction of the history is earlier than `since`.
abbrev pub AreSince : {B : Type 0} → ℤ → List (Clock × Instruction B) → Type 0
AreSince since [] = Unit
AreSince since ((clock, _) ∷ is) = (since ≤ℤ clock.unix_timestamp) × AreSince since is

module _ {B : Type 0} (rt : Runtime B) where
  pub run-IsRenewed :
      (is : List (Clock × Instruction B)) (asset : Pubkey) (since : ℤ) (s : Slot) (w : World B)
      → AreSince since is
      → IsRenewed asset since s w
      → IsRenewed asset since s (run rt is w)
  unfolding run
  run-IsRenewed [] asset since s w a f = f
  run-IsRenewed ((clock, i) ∷ is) asset since s w a f =
      run-IsRenewed is asset since s (apply rt clock i w) a.1 (
        apply_inv rt (IsRenewed asset since s) clock i w
          (λ w' _ step. Steps-IsRenewed rt clock asset since s w w' step a.0 f) f)
