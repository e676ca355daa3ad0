-- ===== src/Accounting/World.antt =====
-- The totals of the config over the whole ledger.
use vow_protocol.Prelude.{ℕ, ◌≤◌, ◌≡◌, List, [], ◌∷◌, some, arith}
use vow_protocol.Prelude.Keyed.{find, total, total-replace, le-total}
use vow_protocol.Prelude.Machine.{u64_max}
use vow_protocol.State.Accounts.{Pubkey, SessionAccount}
use vow_protocol.State.Position.{Position}
use vow_protocol.Accounting.{owed, IsBacked, Fits, Balances}
use vow_protocol.State.Accounts.{ProtocolConfig}
use vow_protocol.State.Runtime.{Clock, Runtime}
use vow_protocol.Accounting.Vow.{
  add_stake-Balances, begin_unstake-Balances, complete_unstake-Balances, activate_stake-Balances,
  update_yield_mode-Balances,
}
use vow_protocol.Accounting.Harvest.{harvest-Balances}
use vow_protocol.Accounting.Treasury.{
  deposit_yield_balance-Balances, withdraw_yield-Balances, yield_spend-Balances,
}
use vow_protocol.Vow.Mint.{mint}
use vow_protocol.Session.Create.{create_session}
use vow_protocol.Session.Revoke.{revoke_session}
use vow_protocol.Pool.UpdateSharePrice.{update_share_price}
use vow_protocol.Admin.Config.{set_admin, set_mint_counter, dev_set_share_price, dev_fast_unlock}
use vow_protocol.Program.Run.{Throughout, apply, run, apply_inv, Throughout-first}
use vow_protocol.Program.Process.{Instruction, add_slot, run_fast_unlock}
use vow_protocol.Program.Steps.{
  Handles, adding, beginning, completing, activating, switching, harvesting, depositing,
  withdrawing, spending, creating, revoking, closing, unlocking, Configures, repricing, appointing,
  counting, pricing, Steps, minted, handled, configured, moved,
}
use vow_protocol.Program.World.{Slot, World, asset_of, position, store}

abbrev pub shares_of : Slot → ℕ
shares_of s = s.idnft.shares

abbrev pub yield_of : Slot → ℕ
yield_of s = s.idnft.yield_balance

abbrev pub owed_of : Slot → ℕ
owed_of s = owed s.escrow

module _ {B : Type 0} where
  -- The config's totals are the sums over the identities.
  pub record IsAccounted (w : World B) : Type 0 where
    pub shares : total shares_of w.slots ≡ w.config.total_shares
    pub claims : total yield_of w.slots ≡ w.config.total_yield_claims
    pub pending : total owed_of w.slots ≡ w.config.total_pending_unstake

  -- All yield balances together fit a u64.
  abbrev pub ClaimsFit : World B → Type 0
  ClaimsFit w = total yield_of w.slots ≤ u64_max

  IsAccounted-IsBacked :
      (asset : Pubkey) (slot : Slot) (w : World B)
      → find asset_of asset w.slots ≡ some slot
      → IsAccounted w
      → IsBacked (position w slot)
  IsAccounted-IsBacked asset slot w e a = ground (
    arith,
    le-total asset_of shares_of asset w.slots slot e,
    le-total asset_of yield_of asset w.slots slot e,
    le-total asset_of owed_of asset w.slots slot e,
  )

  store-IsAccounted :
      (asset : Pubkey) (slot : Slot) (sessions : List SessionAccount) (p : Position B) (w : World B)
      → find asset_of asset w.slots ≡ some slot
      → IsAccounted w
      → Balances (position w slot) p
      → IsAccounted (store asset sessions p w)
  store-IsAccounted asset slot sessions p w e a b =
      let new : Slot = record { idnft = p.idnft; escrow = p.escrow; sessions = sessions } in
      ground (
        arith,
        total-replace asset_of shares_of asset new slot w.slots e,
        total-replace asset_of yield_of asset new slot w.slots e,
        total-replace asset_of owed_of asset new slot w.slots e,
      )

  store-Fits :
      (asset : Pubkey) (slot : Slot) (sessions : List SessionAccount) (p : Position B) (w : World B)
      → find asset_of asset w.slots ≡ some slot
      → IsAccounted w
      → ClaimsFit (store asset sessions p w)
      → Fits (position w slot) p
  store-Fits asset slot sessions p w e a f =
      let new : Slot = record { idnft = p.idnft; escrow = p.escrow; sessions = sessions } in
      ground (arith, total-replace asset_of yield_of asset new slot w.slots e)

module _ {B : Type 0} (rt : Runtime B) (clock : Clock) where
  -- Every handler moves the totals by what it moves of the identity's own amounts.
  Handles-Balances :
      (p q : Position B) → Handles rt clock p q → IsBacked p → Fits p q → Balances p q
  unfolding create_session revoke_session run_fast_unlock dev_fast_unlock
  Handles-Balances p q (adding owner n h) b f = add_stake-Balances rt b clock owner n h
  Handles-Balances p q (beginning owner h) b f = begin_unstake-Balances rt b clock owner h
  Handles-Balances p q (completing owner h) b f = complete_unstake-Balances rt b clock owner h
  Handles-Balances p q (activating owner n mode h) b f =
      activate_stake-Balances rt b clock owner n mode h
  Handles-Balances p q (switching owner mode h) b f = update_yield_mode-Balances rt b owner mode h
  Handles-Balances p q (harvesting h) b f = harvest-Balances clock p b f h
  Handles-Balances p q (depositing depositor n h) b f =
      deposit_yield_balance-Balances rt b depositor n f h
  Handles-Balances p q (withdrawing owner n h) b f = withdraw_yield-Balances rt b owner n h
  Handles-Balances p q (spending call n s s' h) b f = yield_spend-Balances rt b clock call n s s' h
  Handles-Balances p q (creating owner key ids params index profile slot s' h) b f = ground arith
  Handles-Balances p q (revoking owner s s' h) b f = ground arith
  Handles-Balances p q (closing owner s _ h) b f = ground arith
  Handles-Balances p q (unlocking admin h) b f = ground arith

  Configures-IsAccounted :
      (c d : ProtocolConfig)
      → Configures rt clock c d
      → (d.total_shares ≡ c.total_shares)
        × (d.total_yield_claims ≡ c.total_yield_claims)
        × (d.total_pending_unstake ≡ c.total_pending_unstake)
  unfolding update_share_price set_admin set_mint_counter dev_set_share_price
  Configures-IsAccounted c d (repricing pool_key bytes log log' h) = ground arith
  Configures-IsAccounted c d (appointing admin new_admin h) = ground arith
  Configures-IsAccounted c d (counting admin counter h) = ground arith
  Configures-IsAccounted c d (pricing admin price h) = ground arith

  -- Every transaction that succeeds keeps the totals equal to the sums, while the claims fit a u64.
  pub Steps-IsAccounted :
      (w w' : World B) → Steps rt clock w w' → ClaimsFit w' → IsAccounted w → IsAccounted w'
  unfolding mint add_slot total
  Steps-IsAccounted w w' (minted owner n mode p ran added) f a = ground arith
  Steps-IsAccounted w w' (handled asset slot sessions p found step _ _ e) f a = rw e (
      store-IsAccounted asset slot sessions p w found a (
        Handles-Balances (position w slot) p step (IsAccounted-IsBacked asset slot w found a)
          (store-Fits asset slot sessions p w found a (rw e at f))))
  Steps-IsAccounted w w' (configured config log step e) f a =
      ground (arith, Configures-IsAccounted w.config config step)
  Steps-IsAccounted w w' (moved bank _ e) f a = ground arith

module _ {B : Type 0} (rt : Runtime B) where
  -- After any history from a ledger whose totals are the sums over its identities (shares, yield
  -- balances, and what the escrows owe), they still are, if at every state of the history the yield
  -- balances together fit a u64.
  pub run-IsAccounted :
      (is : List (Clock × Instruction B)) (w : World B)
      → Throughout rt ClaimsFit is w
      → IsAccounted w
      → IsAccounted (run rt is w)
  unfolding run
  run-IsAccounted [] w f a = a
  run-IsAccounted ((clock, i) ∷ is) w f a = run-IsAccounted is (apply rt clock i w) f.1 (
      apply_inv rt IsAccounted clock i w
        (λ w' e step.
          let fits = Throughout-first rt ClaimsFit is (apply rt clock i w) f.1 in
          Steps-IsAccounted rt clock w w' step (rw e fits) a)
        a)
