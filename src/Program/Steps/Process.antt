-- ===== src/Program/Steps/Process.antt =====
-- `process` takes a step of the relation whenever it succeeds.
pub mod Signers
use vow_protocol.Prelude.{ℕ, ◌≡◌, refl, Option, none, some, List, [], ◌∷◌, arith}
use vow_protocol.Prelude.Keyed.{find, replace, remove}
use vow_protocol.State.Errors.{Result, ok, ok_or-eq-ok, >>=-eq-ok}
use vow_protocol.State.Accounts.{
  default_key, Pubkey, YieldMode, ProtocolConfig, SessionAccount, AuthorityProfile,
}
use vow_protocol.State.Events.{Event}
use vow_protocol.State.Runtime.{Clock, Runtime}
use vow_protocol.State.Position.{Position}
use vow_protocol.Harvest.{harvest}
use vow_protocol.Vow.Mint.{mint}
use vow_protocol.Vow.AddStake.{add_stake}
use vow_protocol.Vow.BeginUnstake.{begin_unstake}
use vow_protocol.Vow.CompleteUnstake.{complete_unstake}
use vow_protocol.Vow.ActivateStake.{activate_stake}
use vow_protocol.Vow.UpdateYieldMode.{update_yield_mode}
use vow_protocol.Treasury.Deposit.{deposit_yield_balance}
use vow_protocol.Treasury.Withdraw.{withdraw_yield}
use vow_protocol.Treasury.Spend.{SpendCall, yield_spend}
use vow_protocol.Session.Create.{SessionParams, create_session}
use vow_protocol.Session.Revoke.{revoke_session}
use vow_protocol.Session.Close.{close_session}
use vow_protocol.Pool.UpdateSharePrice.{update_share_price}
use vow_protocol.Pool.Flush.{PoolCall, flush_reserve_to_pool}
use vow_protocol.Pool.Withdraw.{withdraw_from_pool}
use vow_protocol.Admin.Config.{set_admin, set_mint_counter, dev_set_share_price}
use vow_protocol.Program.World.{
  Slot, World, asset_of, index_of, position, store, on_slot, on_session,
}
use vow_protocol.Program.Process.{
  Instruction, mints, adds_stake, begins_unstake, completes_unstake, activates_stake,
  updates_yield_mode, harvests, deposits, withdraws_yield, spends, creates_session, revokes_session,
  closes_session, updates_share_price, flushes, withdraws_from_pool, sets_admin, sets_mint_counter,
  sets_share_price, fast_unlocks, add_slot, run_create_session, run_close_session,
  run_withdraw_from_pool, run_fast_unlock, process, on_config,
}
use vow_protocol.Program.Steps.{
  Handles, adding, beginning, completing, activating, switching, harvesting, depositing,
  withdrawing, spending, creating, revoking, closing, unlocking, Configures, repricing, appointing,
  counting, pricing, IsListed, Touches, untouched, used, opened, stopped, dropped, Steps, minted,
  handled, configured, moved,
}

module _ {B : Type 0} (rt : Runtime B) (clock : Clock) where
  slot_step :
      (asset : Pubkey) (handler : Position B → Result (Position B)) (w w' : World B)
      → (does : (p q : Position B) → handler p ≡ ok q → Handles rt clock p q)
      → ((p q : Position B) (ss : List SessionAccount) (ran : handler p ≡ ok q)
          → IsListed rt clock ss (does p q ran))
      → on_slot asset handler w ≡ ok w'
      → Steps rt clock w w'
  unfolding on_slot
  slot_step asset handler w w' does listed h =
      let (slot, found, h1) = ok_or-eq-ok (find asset_of asset w.slots) _ _ h in
      let (p, ran, h2) = >>=-eq-ok (handler (position w slot)) _ h1 in
      handled asset slot slot.sessions p found (does (position w slot) p ran)
        (listed (position w slot) p slot.sessions ran) (untouched refl) (ground arith)

  session_step :
      (asset : Pubkey) (index : ℕ)
      (handler : SessionAccount → Position B → Result (SessionAccount × Position B))
      (w w' : World B)
      → (does : (s s' : SessionAccount) (p q : Position B)
          → handler s p ≡ ok (s', q)
          → Handles rt clock p q)
      → ((s s' : SessionAccount) (p q : Position B) (ss : List SessionAccount)
            (ran : handler s p ≡ ok (s', q))
          → find index_of index ss ≡ some s
          → IsListed rt clock ss (does s s' p q ran))
      → ((s s' : SessionAccount) (p q : Position B) (ss : List SessionAccount)
          → find index_of index ss ≡ some s
          → handler s p ≡ ok (s', q)
          → Touches rt clock p q ss (replace index_of index s' ss))
      → on_session asset index handler w ≡ ok w'
      → Steps rt clock w w'
  unfolding on_session
  session_step asset index handler w w' does listed touches h =
      let (slot, found, h1) = ok_or-eq-ok (find asset_of asset w.slots) _ _ h in
      let (s, at_index, h2) = ok_or-eq-ok (find index_of index slot.sessions) _ _ h1 in
      let ((s', p), ran, h3) = >>=-eq-ok (handler s (position w slot)) _ h2 in
      handled asset slot (replace index_of index s' slot.sessions) p found
        (does s s' (position w slot) p ran)
        (listed s s' (position w slot) p slot.sessions ran at_index)
        (touches s s' (position w slot) p slot.sessions at_index ran) (ground arith)

  create_step :
      (asset owner key : Pubkey) (ids : List Pubkey) (params : SessionParams) (index : ℕ)
      (profile : Option AuthorityProfile) (w w' : World B)
      → run_create_session rt clock asset owner key ids params index profile w ≡ ok w'
      → Steps rt clock w w'
  unfolding run_create_session
  create_step asset owner key ids params index profile w w' h =
      let (slot, found, h1) = ok_or-eq-ok (find asset_of asset w.slots) _ _ h in
      let ((s', p), ran, h2) =
        >>=-eq-ok
          (create_session rt clock owner key ids params index profile
            (find index_of index slot.sessions) (position w slot))
          _ h1 in
      handled asset slot (s' ∷ slot.sessions) p found
        (creating owner key ids params index profile _ s' ran) tt
        (opened owner key ids params index profile s' ran refl) (ground arith)

  close_step :
      (asset owner : Pubkey) (index : ℕ) (w w' : World B)
      → run_close_session rt clock asset owner index w ≡ ok w'
      → Steps rt clock w w'
  unfolding run_close_session
  close_step asset owner index w w' h =
      let (slot, found, h1) = ok_or-eq-ok (find asset_of asset w.slots) _ _ h in
      let (s, _, h2) = ok_or-eq-ok (find index_of index slot.sessions) _ _ h1 in
      let (_, ran, h3) = >>=-eq-ok (close_session rt clock owner slot.idnft s) _ h2 in
      handled asset slot (remove index_of index slot.sessions) (position w slot) found
        (closing owner s ran refl) tt (dropped index refl) (ground arith)

  -- The cranks do nothing where there is no stake pool.
  flush_keeps :
      (c : PoolCall B) (config : ProtocolConfig) (bank bank' : B)
      → flush_reserve_to_pool rt c config bank ≡ ok bank'
      → config.spl_stake_pool ≡ default_key
      → bank' ≡ bank
  unfolding flush_reserve_to_pool
  flush_keeps c config bank bank' ran no_pool = ground arith

  pool_step :
      (asset : Pubkey) (c : PoolCall B) (w w' : World B)
      → run_withdraw_from_pool rt clock asset c w ≡ ok w'
      → Steps rt clock w w'
  unfolding run_withdraw_from_pool withdraw_from_pool
  pool_step asset c w w' h =
      let (slot, _, h1) = ok_or-eq-ok (find asset_of asset w.slots) _ _ h in
      let (escrow, _, h2) = ok_or-eq-ok slot.escrow _ _ h1 in
      let (bank, ran, h3) = >>=-eq-ok (withdraw_from_pool rt c escrow w.config w.bank) _ h2 in
      moved bank (λ no_pool. ground arith) (ground arith)

  config_step :
      (f : ProtocolConfig → Result ProtocolConfig) (w w' : World B)
      → ((c d : ProtocolConfig) → f c ≡ ok d → Configures rt clock c d)
      → on_config f w ≡ ok w'
      → Steps rt clock w w'
  config_step f w w' does h =
      let (config, ran, h1) = >>=-eq-ok (f w.config) _ h in
      configured config w.log (does w.config config ran) (ground arith)

  -- Every transaction that succeeds is a step.
  pub process-Steps :
      (i : Instruction B) (w w' : World B) → process rt clock i w ≡ ok w' → Steps rt clock w w'
  unfolding process
  process-Steps (mints owner lamports mode) w w' h =
      let (p, ran, h1) = >>=-eq-ok (mint rt clock owner lamports mode w.config w.bank w.log) _ h in
      minted owner lamports mode p ran h1
  process-Steps (adds_stake asset owner lamports) w w' h =
      slot_step asset _ w w' (λ p q. adding owner lamports) (λ _ _ _ _. tt) h
  process-Steps (begins_unstake asset owner) w w' h =
      slot_step asset _ w w' (λ p q. beginning owner) (λ _ _ _ _. tt) h
  process-Steps (completes_unstake asset owner) w w' h =
      slot_step asset _ w w' (λ p q. completing owner) (λ _ _ _ _. tt) h
  process-Steps (activates_stake asset owner lamports mode) w w' h =
      slot_step asset _ w w' (λ p q. activating owner lamports mode) (λ _ _ _ _. tt) h
  process-Steps (updates_yield_mode asset owner mode) w w' h =
      slot_step asset _ w w' (λ p q. switching owner mode) (λ _ _ _ _. tt) h
  process-Steps (harvests asset) w w' h =
      slot_step asset _ w w' (λ p q. harvesting) (λ _ _ _ _. tt) h
  process-Steps (deposits asset depositor amount) w w' h =
      slot_step asset _ w w' (λ p q. depositing depositor amount) (λ _ _ _ _. tt) h
  process-Steps (withdraws_yield asset owner amount) w w' h =
      slot_step asset _ w w' (λ p q. withdrawing owner amount) (λ _ _ _ _. tt) h
  process-Steps (spends asset index call amount) w w' h =
      session_step asset index _ w w' (λ s s' p q. spending call amount s s')
        (λ s s' p q ss ran at_index. (index, at_index))
        (λ s s' p q ss at_index ran. used call amount index s s' at_index ran refl) h
  process-Steps (creates_session asset owner key ids params index profile) w w' h =
      create_step asset owner key ids params index profile w w' h
  process-Steps (revokes_session asset owner index) w w' h =
      session_step asset index _ w w' (λ s s' p q. revoking owner s s') (λ _ _ _ _ _ _ _. tt)
        (λ s s' p q ss at_index ran. stopped owner index s s' at_index ran refl) h
  process-Steps (closes_session asset owner index) w w' h = close_step asset owner index w w' h
  process-Steps (updates_share_price pool_key bytes) w w' h =
      let ((config, log), ran, h1) =
        >>=-eq-ok (update_share_price pool_key bytes w.config w.log) _ h in
      configured config log (repricing pool_key bytes w.log log ran) (ground arith)
  process-Steps (flushes c) w w' h =
      let (bank, ran, h1) = >>=-eq-ok (flush_reserve_to_pool rt c w.config w.bank) _ h in
      moved bank (flush_keeps c w.config w.bank bank ran) (ground arith)
  process-Steps (withdraws_from_pool asset c) w w' h = pool_step asset c w w' h
  process-Steps (sets_admin admin new_admin) w w' h =
      config_step _ w w' (λ c d. appointing admin new_admin) h
  process-Steps (sets_mint_counter admin counter) w w' h =
      config_step _ w w' (λ c d. counting admin counter) h
  process-Steps (sets_share_price admin price) w w' h =
      config_step _ w w' (λ c d. pricing admin price) h
  process-Steps (fast_unlocks admin asset) w w' h =
      slot_step asset _ w w' (λ p q. unlocking admin) (λ _ _ _ _. tt) h
