-- ===== src/Program/Steps.antt =====
-- A transaction that succeeds, as a step relation: it creates one identity, or runs one handler on
-- one identity, or writes the config, or moves lamports.
pub mod Process
use vow_protocol.Prelude.{ℕ, ◌≡◌, refl, Option, none, some, List, [], ◌∷◌, arith}
use vow_protocol.Prelude.Keyed.{find, replace, remove}
use vow_protocol.State.Errors.{Result, ok, ok_or-eq-ok, >>=-eq-ok}
use vow_protocol.State.Accounts.{
  default_key, Pubkey, YieldMode, ProtocolConfig, SessionAccount, AuthorityProfile,
}
use vow_protocol.State.Events.{Event}
use vow_protocol.State.Runtime.{Clock, Runtime}
use vow_protocol.State.Position.{Position}
use vow_protocol.Harvest.{harvest}
use vow_protocol.Vow.Mint.{mint}
use vow_protocol.Vow.AddStake.{add_stake}
use vow_protocol.Vow.BeginUnstake.{begin_unstake}
use vow_protocol.Vow.CompleteUnstake.{complete_unstake}
use vow_protocol.Vow.ActivateStake.{activate_stake}
use vow_protocol.Vow.UpdateYieldMode.{update_yield_mode}
use vow_protocol.Treasury.Deposit.{deposit_yield_balance}
use vow_protocol.Treasury.Withdraw.{withdraw_yield}
use vow_protocol.Treasury.Spend.{SpendCall, yield_spend}
use vow_protocol.Session.Create.{SessionParams, create_session}
use vow_protocol.Session.Revoke.{revoke_session}
use vow_protocol.Session.Close.{close_session}
use vow_protocol.Pool.UpdateSharePrice.{update_share_price}
use vow_protocol.Pool.Flush.{PoolCall, flush_reserve_to_pool}
use vow_protocol.Pool.Withdraw.{withdraw_from_pool}
use vow_protocol.Admin.Config.{set_admin, set_mint_counter, dev_set_share_price}
use vow_protocol.Program.World.{
  Slot, World, asset_of, index_of, position, store, on_slot, on_session,
}
use vow_protocol.Program.Process.{
  Instruction, mints, adds_stake, begins_unstake, completes_unstake, activates_stake,
  updates_yield_mode, harvests, deposits, withdraws_yield, spends, creates_session, revokes_session,
  closes_session, updates_share_price, flushes, withdraws_from_pool, sets_admin, sets_mint_counter,
  sets_share_price, fast_unlocks, add_slot, run_create_session, run_close_session,
  run_withdraw_from_pool, run_fast_unlock, process, on_config,
}

module _ {B : Type 0} (rt : Runtime B) (clock : Clock) where
  -- One handler has run on one identity.
  pub data Handles (p q : Position B) : Type 0 where
    adding :
        (owner : Pubkey) (lamports : ℕ) → add_stake rt clock owner lamports p ≡ ok q → Handles p q
    beginning : (owner : Pubkey) → begin_unstake rt clock owner p ≡ ok q → Handles p q
    completing : (owner : Pubkey) → complete_unstake rt clock owner p ≡ ok q → Handles p q
    activating :
        (owner : Pubkey) (lamports : ℕ) (mode : YieldMode)
        → activate_stake rt clock owner lamports mode p ≡ ok q
        → Handles p q
    switching :
        (owner : Pubkey) (mode : YieldMode) → update_yield_mode owner mode p ≡ ok q → Handles p q
    harvesting : harvest clock p ≡ ok q → Handles p q
    depositing :
        (depositor : Pubkey) (amount : ℕ)
        → deposit_yield_balance rt depositor amount p ≡ ok q
        → Handles p q
    withdrawing :
        (owner : Pubkey) (amount : Option ℕ) → withdraw_yield rt owner amount p ≡ ok q → Handles p q
    spending :
        (call : SpendCall) (amount : ℕ) (session session' : SessionAccount)
        → yield_spend rt clock call amount session p ≡ ok (session', q)
        → Handles p q
    creating :
        (owner key : Pubkey) (ids : List Pubkey) (params : SessionParams) (index : ℕ)
        (profile : Option AuthorityProfile) (slot : Option SessionAccount)
        (session' : SessionAccount)
        → create_session rt clock owner key ids params index profile slot p ≡ ok (session', q)
        → Handles p q
    revoking :
        (owner : Pubkey) (session session' : SessionAccount)
        → revoke_session rt owner session p ≡ ok (session', q)
        → Handles p q
    closing :
        (owner : Pubkey) (session : SessionAccount)
        → close_session rt clock owner p.idnft session ≡ ok tt
        → q ≡ p
        → Handles p q
    unlocking : (admin : Pubkey) → run_fast_unlock admin p ≡ ok q → Handles p q

  -- A session that spends is in the identity's list.
  abbrev pub IsListed : {p q : Position B} → List SessionAccount → Handles p q → Type 0
  IsListed ss (spending call amount session session' h) =
      (index : ℕ) × (find index_of index ss ≡ some session)
  IsListed ss _ = Unit

  -- One instruction has written the config.
  pub data Configures (c d : ProtocolConfig) : Type 0 where
    repricing :
        (pool_key : Pubkey) (bytes : List ℕ) (log log' : List Event)
        → update_share_price pool_key bytes c log ≡ ok (d, log')
        → Configures c d
    appointing : (admin new_admin : Pubkey) → set_admin admin new_admin c ≡ ok d → Configures c d
    counting :
        (admin : Pubkey) (counter : ℕ) → set_mint_counter admin counter c ≡ ok d → Configures c d
    pricing :
        (admin : Pubkey) (price : ℕ) → dev_set_share_price admin price c ≡ ok d → Configures c d

  -- What the handler that took `p` to `q` does to the identity's sessions.
  pub data Touches (p q : Position B) (ss ss' : List SessionAccount) : Type 0 where
    untouched : ss' ≡ ss → Touches p q ss ss'
    used :
        (call : SpendCall) (amount index : ℕ) (s s' : SessionAccount)
        → find index_of index ss ≡ some s
        → yield_spend rt clock call amount s p ≡ ok (s', q)
        → ss' ≡ replace index_of index s' ss
        → Touches p q ss ss'
    opened :
        (owner key : Pubkey) (ids : List Pubkey) (params : SessionParams) (index : ℕ)
        (profile : Option AuthorityProfile) (s' : SessionAccount)
        → create_session rt clock owner key ids params index profile (find index_of index ss) p
          ≡ ok (s', q)
        → ss' ≡ s' ∷ ss
        → Touches p q ss ss'
    stopped :
        (owner : Pubkey) (index : ℕ) (s s' : SessionAccount)
        → find index_of index ss ≡ some s
        → revoke_session rt owner s p ≡ ok (s', q)
        → ss' ≡ replace index_of index s' ss
        → Touches p q ss ss'
    dropped : (index : ℕ) → ss' ≡ remove index_of index ss → Touches p q ss ss'

  pub data Steps (w w' : World B) : Type 0 where
    minted :
        (owner : Pubkey) (lamports : ℕ) (mode : YieldMode) (p : Position B)
        → mint rt clock owner lamports mode w.config w.bank w.log ≡ ok p
        → add_slot p w ≡ ok w'
        → Steps w w'
    handled :
        (asset : Pubkey) (slot : Slot) (sessions : List SessionAccount) (p : Position B)
        → find asset_of asset w.slots ≡ some slot
        → (step : Handles (position w slot) p) → IsListed slot.sessions step
        → Touches (position w slot) p slot.sessions sessions
        → w' ≡ store asset sessions p w
        → Steps w w'
    configured :
        (config : ProtocolConfig) (log : List Event)
        → Configures w.config config
        → w' ≡ record w { config = config; log = log }
        → Steps w w'
    moved :
        (bank : B)
        → (w.config.spl_stake_pool ≡ default_key → bank ≡ w.bank)
        → w' ≡ record w { bank = bank }
        → Steps w w'

-- A new identity stands first in the ledger, with no session.
abbrev pub new_slot : {B : Type 0} → Position B → Slot
new_slot p = record { idnft = p.idnft; escrow = p.escrow; sessions = [] }

pub add_slot-ok :
    {B : Type 0} (p : Position B) (w w' : World B)
    → add_slot p w ≡ ok w'
    → (find asset_of p.idnft.asset_id w.slots ≡ none)
      × (w'
          ≡ record { config = p.config; slots = new_slot p ∷ w.slots; bank = p.bank; log = p.log })
unfolding add_slot
add_slot-ok p w w' h = ground arith
