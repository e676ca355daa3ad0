-- ===== src/Program/Process.antt =====
-- The entry points of programs/vow/src/lib.rs that act on the config, on identities and on sessions,
-- as one step from a ledger to the next. A failed transaction leaves the ledger as it was.
use vow_protocol.Prelude.{ℕ, Option, List, [], ◌∷◌}
use vow_protocol.Prelude.Keyed.{find, remove}
use vow_protocol.State.Errors.{Result, ok, account_missing, ok_or, ◌>>=◌, ◌>>◌}
use vow_protocol.State.Accounts.{Pubkey, YieldMode, ProtocolConfig, AuthorityProfile}
use vow_protocol.State.Runtime.{Clock, Runtime}
use vow_protocol.State.Position.{Position}
use vow_protocol.Harvest.{harvest}
use vow_protocol.Vow.Mint.{mint}
use vow_protocol.Vow.AddStake.{add_stake}
use vow_protocol.Vow.BeginUnstake.{begin_unstake, init}
use vow_protocol.Vow.CompleteUnstake.{complete_unstake}
use vow_protocol.Vow.ActivateStake.{activate_stake}
use vow_protocol.Vow.UpdateYieldMode.{update_yield_mode}
use vow_protocol.Treasury.Deposit.{deposit_yield_balance}
use vow_protocol.Treasury.Withdraw.{withdraw_yield}
use vow_protocol.Treasury.Spend.{SpendCall, yield_spend}
use vow_protocol.Session.Create.{SessionParams, create_session}
use vow_protocol.Session.Revoke.{revoke_session}
use vow_protocol.Session.Close.{close_session}
use vow_protocol.Pool.UpdateSharePrice.{update_share_price}
use vow_protocol.Pool.Flush.{PoolCall, flush_reserve_to_pool}
use vow_protocol.Pool.Withdraw.{withdraw_from_pool}
use vow_protocol.Admin.Config.{set_admin, set_mint_counter, dev_set_share_price, dev_fast_unlock}
use vow_protocol.Program.World.{
  Slot, World, asset_of, index_of, position, store, on_slot, on_session,
}

-- A transaction names its accounts: `asset` is the identity's asset id, then comes the signer, if
-- there is one, and for a session its index.
pub data Instruction (B : Type 0) : Type 0 where
  mints : (owner : Pubkey) → ℕ → YieldMode → Instruction B
  adds_stake : (asset owner : Pubkey) → ℕ → Instruction B
  begins_unstake completes_unstake : (asset owner : Pubkey) → Instruction B
  activates_stake : (asset owner : Pubkey) → ℕ → YieldMode → Instruction B
  updates_yield_mode : (asset owner : Pubkey) → YieldMode → Instruction B
  harvests : (asset : Pubkey) → Instruction B
  deposits : (asset depositor : Pubkey) → ℕ → Instruction B
  withdraws_yield : (asset owner : Pubkey) → Option ℕ → Instruction B
  spends : (asset : Pubkey) → (index : ℕ) → SpendCall → ℕ → Instruction B
  creates_session :
      (asset owner session_key : Pubkey)
      → List Pubkey
      → SessionParams
      → (index : ℕ) → Option AuthorityProfile
      → Instruction B
  revokes_session closes_session : (asset owner : Pubkey) → (index : ℕ) → Instruction B
  updates_share_price : (pool_key : Pubkey) → List ℕ → Instruction B
  flushes : PoolCall B → Instruction B
  withdraws_from_pool : (asset : Pubkey) → PoolCall B → Instruction B
  sets_admin : (admin new_admin : Pubkey) → Instruction B
  sets_mint_counter : (admin : Pubkey) → ℕ → Instruction B
  sets_share_price : (admin : Pubkey) → ℕ → Instruction B
  fast_unlocks : (admin asset : Pubkey) → Instruction B

module _ {B : Type 0} where
  -- The identity's account is created, so none may have its asset id.
  unfoldable pub add_slot : Position B → World B → Result (World B)
  add_slot p w = do
    init (find asset_of p.idnft.asset_id w.slots)
    let slot : Slot = record { idnft = p.idnft; escrow = p.escrow; sessions = [] }
    ok (record { config = p.config; slots = slot ∷ w.slots; bank = p.bank; log = p.log })

  abbrev pub on_config : (ProtocolConfig → Result ProtocolConfig) → World B → Result (World B)
  on_config f w = do config ← f w.config; ok (record w { config = config })

  unfoldable pub run_fast_unlock : Pubkey → Position B → Result (Position B)
  run_fast_unlock admin p = do
    idnft ← dev_fast_unlock admin p.config p.idnft
    ok (record p { idnft = idnft })

module _ {B : Type 0} (rt : Runtime B) (clock : Clock) where
  unfoldable pub run_create_session :
      Pubkey
      → Pubkey
      → Pubkey
      → List Pubkey
      → SessionParams
      → ℕ
      → Option AuthorityProfile
      → World B
      → Result (World B)
  run_create_session asset owner key ids params index profile w = do
    slot ← ok_or (find asset_of asset w.slots) account_missing
    (session, p) ←
        create_session rt clock owner key ids params index profile
          (find index_of index slot.sessions) (position w slot)
    ok (store asset (session ∷ slot.sessions) p w)

  unfoldable pub run_close_session : Pubkey → Pubkey → ℕ → World B → Result (World B)
  run_close_session asset owner index w = do
    slot ← ok_or (find asset_of asset w.slots) account_missing
    session ← ok_or (find index_of index slot.sessions) account_missing
    close_session rt clock owner slot.idnft session
    ok (store asset (remove index_of index slot.sessions) (position w slot) w)

  unfoldable pub run_withdraw_from_pool : Pubkey → PoolCall B → World B → Result (World B)
  run_withdraw_from_pool asset c w = do
    slot ← ok_or (find asset_of asset w.slots) account_missing
    escrow ← ok_or slot.escrow account_missing
    bank ← withdraw_from_pool rt c escrow w.config w.bank
    ok (record w { bank = bank })

  unfoldable pub process : Instruction B → World B → Result (World B)
  process (mints owner lamports mode) w = do
    p ← mint rt clock owner lamports mode w.config w.bank w.log
    add_slot p w
  process (adds_stake asset owner lamports) w = on_slot asset (add_stake rt clock owner lamports) w
  process (begins_unstake asset owner) w = on_slot asset (begin_unstake rt clock owner) w
  process (completes_unstake asset owner) w = on_slot asset (complete_unstake rt clock owner) w
  process (activates_stake asset owner lamports mode) w =
      on_slot asset (activate_stake rt clock owner lamports mode) w
  process (updates_yield_mode asset owner mode) w = on_slot asset (update_yield_mode owner mode) w
  process (harvests asset) w = on_slot asset (harvest clock) w
  process (deposits asset depositor amount) w =
      on_slot asset (deposit_yield_balance rt depositor amount) w
  process (withdraws_yield asset owner amount) w = on_slot asset (withdraw_yield rt owner amount) w
  process (spends asset index call amount) w =
      on_session asset index (yield_spend rt clock call amount) w
  process (creates_session asset owner key ids params index profile) w =
      run_create_session asset owner key ids params index profile w
  process (revokes_session asset owner index) w = on_session asset index (revoke_session rt owner) w
  process (closes_session asset owner index) w = run_close_session asset owner index w
  process (updates_share_price pool_key bytes) w = do
    (config, log) ← update_share_price pool_key bytes w.config w.log
    ok (record w { config = config; log = log })
  process (flushes c) w = do
    bank ← flush_reserve_to_pool rt c w.config w.bank
    ok (record w { bank = bank })
  process (withdraws_from_pool asset c) w = run_withdraw_from_pool asset c w
  process (sets_admin admin new_admin) w = on_config (set_admin admin new_admin) w
  process (sets_mint_counter admin counter) w = on_config (set_mint_counter admin counter) w
  process (sets_share_price admin price) w = on_config (dev_set_share_price admin price) w
  process (fast_unlocks admin asset) w = on_slot asset (run_fast_unlock admin) w
