-- ===== src/Program/Invalidation.antt =====
-- A session from before an activation never spends again
-- (programs/vow/src/instructions/vow/activate_stake.rs, `sessions_invalidated_at`).
pub mod Renewed
use vow_protocol.Prelude.{
  ℕ, ◌≡◌, ◌≢◌, ◌∙◌, sym, ◌==◌, inl, inr, Bool-cases, some, none, List, [], ◌∷◌, arith,
}
use vow_protocol.Prelude.Int.{ℤ, ◌≤ℤ◌, ◌<ℤ◌}
use vow_protocol.Prelude.Keyed.{
  Distinct, find, replace, All, All-find, All-replace, All-map, find-key,
}
use vow_protocol.State.Errors.{ok, ok_or-eq-ok, >>=-eq-ok}
use vow_protocol.State.Accounts.{
  Pubkey, VowState, YieldMode, SessionAccount, compound, hybrid, treasury,
}
use vow_protocol.State.Runtime.{Clock, Runtime}
use vow_protocol.State.Position.{Position, mature}
use vow_protocol.Harvest.{keep, credit, realise, harvest}
use vow_protocol.Harvest.Settle.{settle_idnft-Settled, mature_keeps, harvest-ok}
use vow_protocol.Vow.AddStake.{relock, upgrade, add_stake}
use vow_protocol.Vow.BeginUnstake.{begin_unstake}
use vow_protocol.Vow.CompleteUnstake.{retire, complete_unstake}
use vow_protocol.Vow.ActivateStake.{activate_stake}
use vow_protocol.Vow.UpdateYieldMode.{update_yield_mode}
use vow_protocol.Treasury.Deposit.{deposit_yield_balance}
use vow_protocol.Treasury.Withdraw.{withdraw_yield}
use vow_protocol.Treasury.Spend.{yield_spend}
use vow_protocol.Session.Create.{create_session}
use vow_protocol.Session.Revoke.{revoke_session}
use vow_protocol.Admin.Config.{dev_fast_unlock}
use vow_protocol.Program.Process.{Instruction, activates_stake, spends, process, run_fast_unlock}
use vow_protocol.Program.Steps.{
  Steps, minted, handled, configured, moved, add_slot-ok, Handles, adding, beginning, completing,
  activating, switching, harvesting, depositing, withdrawing, spending, creating, revoking, closing,
  unlocking,
}
use vow_protocol.Treasury.Spend.{SpendCall}
use vow_protocol.Treasury.Spend.Authority.{yield_spend-IsLive}
use vow_protocol.Identity.Soulbound.{Continues, Continues-refl, Handles-Continues}
use vow_protocol.Identity.Permanence.{IsRangedSlot, Survives, Steps-Survives}
use vow_protocol.Program.World.{Slot, World, asset_of, index_of, position, store, on_slot}
use vow_protocol.Program.Run.{apply, run, apply_inv}
use vow_protocol.Program.Steps.Process.{process-Steps}
use vow_protocol.Program.Revocation.{on_session-ok}
use vow_protocol.Program.Invalidation.Renewed.{
  IsRenewed, IsInvalidatedSlot, AreSince, replace-IsInvalidatedSlot,
  activate_stake-sessions_invalidated_at, run-IsRenewed,
}

module _ {B : Type 0} (rt : Runtime B) where
  activated-IsRenewed :
      (clock : Clock) (owner asset n : ℕ) (mode : YieldMode) (w w' : World B) (t : Slot)
      → find asset_of asset w.slots ≡ some t
      → Distinct asset_of w.slots
      → All IsRangedSlot w.slots
      → process rt clock (activates_stake asset owner n mode) w ≡ ok w'
      → IsRenewed asset clock.unix_timestamp t w'
  unfolding process on_slot
  activated-IsRenewed clock owner asset n mode w w' t found distinct ranged h =
      let h1 = rw found at h in
      let (p, ran, h2) = >>=-eq-ok (activate_stake rt clock owner n mode (position w t)) _ h1 in
      let e : w' ≡ store asset t.sessions p w = ground arith in
      let new : Slot = record { idnft = p.idnft; escrow = p.escrow; sessions = t.sessions } in
      let now = activate_stake-sessions_invalidated_at rt clock owner n mode (position w t) p ran in
      record {
        survives =
            Steps-Survives rt clock asset t w w'
              (process-Steps rt clock (activates_stake asset owner n mode) w w' h)
              (record {
                slot = t;
                found = found;
                continues = Continues-refl t.idnft;
                ranged = ranged;
              });
        invalidated = rw e (
            replace-IsInvalidatedSlot asset clock.unix_timestamp t new w.slots found
              (rw now (omega arith)) distinct);
      }

  -- Once an identity's stake has been activated anew, no session that started before the activation
  -- spends again: after any history of transactions that are not earlier than the activation, a spend
  -- from a session of the identity with an earlier start is refused, whatever happened to the
  -- session before. (At the activation no two identities have the same asset id, and their counters
  -- are within their machine types.)
  pub run-invalidated :
      (is : List (Clock × Instruction B)) (clock later : Clock) (owner asset n index m : ℕ)
      (mode : YieldMode) (call : SpendCall) (w w' w'' : World B) (t t' : Slot) (s : SessionAccount)
      → find asset_of asset w.slots ≡ some t
      → Distinct asset_of w.slots
      → All IsRangedSlot w.slots
      → process rt clock (activates_stake asset owner n mode) w ≡ ok w'
      → AreSince clock.unix_timestamp is
      → find asset_of asset (run rt is w').slots ≡ some t'
      → find index_of index t'.sessions ≡ some s
      → s.start_ts <ℤ clock.unix_timestamp
      → process rt later (spends asset index call m) (run rt is w') ≢ ok w''
  unfolding process
  run-invalidated is clock later owner asset n index m mode call w w' w'' t t' s found distinct
        ranged h since found' at_index early spent =
      let last = run rt is w' in
      let f =
        run-IsRenewed rt is asset clock.unix_timestamp t w' since
          (activated-IsRenewed clock owner asset n mode w w' t found distinct ranged h) in
      let ((s2, p), ran, _) =
        on_session-ok asset index (yield_spend rt later call m) last w'' t' s found' at_index
          spent in
      let (_, live) = yield_spend-IsLive rt later call m s s2 (position last t') p ran in
      let kept =
        All-find asset_of (IsInvalidatedSlot asset clock.unix_timestamp) asset last.slots t'
          f.invalidated found' (find-key asset_of asset last.slots t' found') in
      ground (arith, live.valid, kept, early)
