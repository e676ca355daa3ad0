-- ===== src/Program/Steps/Process/Signers.antt =====
-- Who signs a transaction (the `Signer` of each account struct), and that the step it makes has the
-- same signer. The cranks (harvest, share price, flush, refill) need nobody's signature.
use vow_protocol.Prelude.{◌≡◌, refl, Option, none, some}
use vow_protocol.State.Errors.{Result, ok, err}
use vow_protocol.State.Accounts.{Pubkey, ProtocolConfig}
use vow_protocol.State.Runtime.{Clock, Runtime}
use vow_protocol.State.Position.{Position}
use vow_protocol.Program.World.{World}
use vow_protocol.Program.Process.{
  Instruction, mints, adds_stake, begins_unstake, completes_unstake, activates_stake,
  updates_yield_mode, harvests, deposits, withdraws_yield, spends, creates_session, revokes_session,
  closes_session, updates_share_price, flushes, withdraws_from_pool, sets_admin, sets_mint_counter,
  sets_share_price, fast_unlocks, process,
}
use vow_protocol.Program.Steps.{
  Handles, adding, beginning, completing, activating, switching, harvesting, depositing,
  withdrawing, spending, creating, revoking, closing, unlocking, Configures, repricing, appointing,
  counting, pricing, Steps, minted, handled, configured, moved,
}
use vow_protocol.Program.Steps.Process.{
  process-Steps, slot_step, session_step, create_step, close_step, pool_step, config_step,
}
use vow_protocol.Program.Run.{apply, or_unchanged}

abbrev pub signer : {B : Type 0} → Instruction B → Option Pubkey
signer (mints owner lamports mode) = some owner
signer (adds_stake asset owner lamports) = some owner
signer (begins_unstake asset owner) = some owner
signer (completes_unstake asset owner) = some owner
signer (activates_stake asset owner lamports mode) = some owner
signer (updates_yield_mode asset owner mode) = some owner
signer (harvests asset) = none
signer (deposits asset depositor amount) = some depositor
signer (withdraws_yield asset owner amount) = some owner
signer (spends asset index call amount) = some call.session_signer
signer (creates_session asset owner key ids params index profile) = some owner
signer (revokes_session asset owner index) = some owner
signer (closes_session asset owner index) = some owner
signer (updates_share_price pool_key bytes) = none
signer (flushes c) = none
signer (withdraws_from_pool asset c) = none
signer (sets_admin admin new_admin) = some admin
signer (sets_mint_counter admin counter) = some admin
signer (sets_share_price admin price) = some admin
signer (fast_unlocks admin asset) = some admin

module _ {B : Type 0} (rt : Runtime B) (clock : Clock) where
  abbrev pub handler_signer : {p q : Position B} → Handles rt clock p q → Option Pubkey
  handler_signer (adding owner lamports h) = some owner
  handler_signer (beginning owner h) = some owner
  handler_signer (completing owner h) = some owner
  handler_signer (activating owner lamports mode h) = some owner
  handler_signer (switching owner mode h) = some owner
  handler_signer (harvesting h) = none
  handler_signer (depositing depositor amount h) = some depositor
  handler_signer (withdrawing owner amount h) = some owner
  handler_signer (spending call amount s s' h) = some call.session_signer
  handler_signer (creating owner key ids params index profile slot s' h) = some owner
  handler_signer (revoking owner s s' h) = some owner
  handler_signer (closing owner s h e) = some owner
  handler_signer (unlocking admin h) = some admin

  abbrev pub config_signer : {c d : ProtocolConfig} → Configures rt clock c d → Option Pubkey
  config_signer (repricing pool_key bytes log log' h) = none
  config_signer (appointing admin new_admin h) = some admin
  config_signer (counting admin counter h) = some admin
  config_signer (pricing admin price h) = some admin

  abbrev pub step_signer : {w w' : World B} → Steps rt clock w w' → Option Pubkey
  step_signer (minted owner lamports mode p h added) = some owner
  step_signer (handled asset slot sessions p found step _ _ e) = handler_signer step
  step_signer (configured config log step e) = config_signer step
  step_signer (moved bank _ e) = none

  -- The step that a transaction makes is signed by the transaction's signer.
  pub process-step_signer :
      (i : Instruction B) (w w' : World B) (h : process rt clock i w ≡ ok w')
      → step_signer (process-Steps rt clock i w w' h) ≡ signer i
  unfolding process-Steps slot_step session_step create_step close_step pool_step config_step
  process-step_signer (mints owner lamports mode) w w' h = refl
  process-step_signer (adds_stake asset owner lamports) w w' h = refl
  process-step_signer (begins_unstake asset owner) w w' h = refl
  process-step_signer (completes_unstake asset owner) w w' h = refl
  process-step_signer (activates_stake asset owner lamports mode) w w' h = refl
  process-step_signer (updates_yield_mode asset owner mode) w w' h = refl
  process-step_signer (harvests asset) w w' h = refl
  process-step_signer (deposits asset depositor amount) w w' h = refl
  process-step_signer (withdraws_yield asset owner amount) w w' h = refl
  process-step_signer (spends asset index call amount) w w' h = refl
  process-step_signer (creates_session asset owner key ids params index profile) w w' h = refl
  process-step_signer (revokes_session asset owner index) w w' h = refl
  process-step_signer (closes_session asset owner index) w w' h = refl
  process-step_signer (updates_share_price pool_key bytes) w w' h = refl
  process-step_signer (flushes c) w w' h = refl
  process-step_signer (withdraws_from_pool asset c) w w' h = refl
  process-step_signer (sets_admin admin new_admin) w w' h = refl
  process-step_signer (sets_mint_counter admin counter) w w' h = refl
  process-step_signer (sets_share_price admin price) w w' h = refl
  process-step_signer (fast_unlocks admin asset) w w' h = refl

module _ {B : Type 0} (rt : Runtime B) where
  -- What a successful step keeps, given its signer, a transaction keeps.
  pub apply_signed :
      (P : World B → Type 0) (clock : Clock) (i : Instruction B) (w : World B)
      → ((w' : World B) (step : Steps rt clock w w') → step_signer rt clock step ≡ signer i → P w')
      → P w
      → P (apply rt clock i w)
  unfolding apply
  apply_signed P clock i w keep h = by_result (process rt clock i w) refl
    where
      by_result : (r : Result (World B)) → process rt clock i w ≡ r → P (or_unchanged rt w r)
      by_result (ok w') e =
          keep w' (process-Steps rt clock i w w' e) (process-step_signer rt clock i w w' e)
      by_result (err x) e = h
