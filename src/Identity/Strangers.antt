-- ===== src/Identity/Strangers.antt =====
-- What an identity is safe from: transactions that neither its owner nor a session key of it signs
-- (the `address`, `has_one` and signer checks of the handlers).
use vow_protocol.Prelude.{ℕ, ◌≤◌, ◌≡◌, ◌≢◌, Option, some, List, arith}
use vow_protocol.Prelude.Keyed.{find, All, All-find, All-replace, All-remove}
use vow_protocol.State.Errors.{ok}
use vow_protocol.State.Accounts.{Pubkey, VowState, SessionAccount, reset_daily_if_needed}
use vow_protocol.State.Runtime.{Clock, Runtime}
use vow_protocol.State.Position.{Position, mature}
use vow_protocol.Harvest.{credit, keep, realise, harvest}
use vow_protocol.Harvest.Value.{KeepsValue, realise-KeepsValue}
use vow_protocol.Harvest.Settle.{settle_idnft-Settled, mature_keeps, harvest-ok}
use vow_protocol.Vow.AddStake.{add_stake}
use vow_protocol.Vow.BeginUnstake.{begin_unstake}
use vow_protocol.Vow.CompleteUnstake.{complete_unstake}
use vow_protocol.Vow.ActivateStake.{activate_stake}
use vow_protocol.Vow.UpdateYieldMode.{update_yield_mode}
use vow_protocol.Treasury.Deposit.{deposit_yield_balance}
use vow_protocol.Treasury.Withdraw.{withdraw_yield}
use vow_protocol.Treasury.Spend.{SpendCall, record_spend, yield_spend}
use vow_protocol.Treasury.Spend.Authority.{yield_spend-IsLive}
use vow_protocol.Session.Create.{create_session}
use vow_protocol.Session.Revoke.{revoke_session}
use vow_protocol.Admin.Config.{dev_fast_unlock}
use vow_protocol.Identity.Soulbound.{IsRanged}
use vow_protocol.Program.World.{index_of}
use vow_protocol.Program.Process.{run_fast_unlock}
use vow_protocol.Program.Steps.{
  Handles, adding, beginning, completing, activating, switching, harvesting, depositing,
  withdrawing, spending, creating, revoking, closing, unlocking, IsListed, Touches, untouched, used,
  opened, stopped, dropped,
}
use vow_protocol.Program.Steps.Process.Signers.{handler_signer}

-- `w` is the identity `v` with what is its owner's untouched: it has the same owner, principal, class,
-- yield mode, stake, session nonce and time of invalidation; it has no more shares and
-- no less yield balance (a harvest turns shares into yield balance); and at the share price shares and
-- balance together are worth no less, or the balance is full.
pub record Unharmed (price : ℕ) (v w : VowState) : Type 0 where
  pub owner : w.owner ≡ v.owner
  pub principal : w.principal_lamports ≡ v.principal_lamports
  pub class : w.class ≡ v.class
  pub mode : w.yield_mode ≡ v.yield_mode
  pub stake : w.active_stake ≡ v.active_stake
  pub nonce : w.session_nonce ≡ v.session_nonce
  pub invalidated : w.sessions_invalidated_at ≡ v.sessions_invalidated_at
  pub shares : w.shares ≤ v.shares
  pub balance : v.yield_balance ≤ w.yield_balance
  pub value : KeepsValue price v w

pub Unharmed-trans :
    (price : ℕ) (u v w : VowState) → Unharmed price u v → Unharmed price v w → Unharmed price u w
Unharmed-trans price u v w h k = ground (arith, h.value, k.value)

-- The signature is not the owner's, nor by the key of a session in the list.
pub record IsStranger (owner : Pubkey) (ss : List SessionAccount) (who : Option Pubkey)
    : Type 0 where
  pub not_owner : who ≢ some owner
  pub no_key : All (λ s. who ≢ some (s.session_key)) ss

module _ {B : Type 0} where
  realise-Unharmed :
      (price : ℕ) (p q : Position B) (v : VowState)
      → IsRanged v
      → price ≤ p.config.current_share_price
      → realise v.yield_mode v.accrued_gain (record p { idnft = v }) ≡ ok q
      → Unharmed price v q.idnft × (q.escrow ≡ p.escrow)
  unfolding realise credit keep
  realise-Unharmed price p q v r low h =
      let value =
        realise-KeepsValue v.yield_mode v.accrued_gain price (record p { idnft = v }) q low h in
      ground (arith, value)

module _ {B : Type 0} (rt : Runtime B) (clock : Clock) where
  harvest-Unharmed :
      (price : ℕ) (p q : Position B)
      → IsRanged p.idnft
      → price ≤ p.config.current_share_price
      → harvest clock p ≡ ok q
      → Unharmed price p.idnft q.idnft × (q.escrow ≡ p.escrow)
  harvest-Unharmed price p q r low h =
      let (v, settled, realised) = harvest-ok clock p h in
      ground (
        arith,
        mature_keeps clock p,
        settle_idnft-Settled (mature clock p).idnft (mature clock p).config,
        realise-Unharmed price (mature clock p) q v,
      )

  spend_needs_key :
      (call : SpendCall) (n index : ℕ) (s s' : SessionAccount) (p q : Position B)
      (ss : List SessionAccount)
      → yield_spend rt clock call n s p ≡ ok (s', q)
      → find index_of index ss ≡ some s
      → All (λ t. some call.session_signer ≢ some (t.session_key)) ss
      → ⊥
  spend_needs_key call n index s s' p q ss h found none_match =
      let live = (yield_spend-IsLive rt clock call n s s' p q h).1 in
      All-find index_of (λ t. some call.session_signer ≢ some (t.session_key)) index ss s none_match
        found (ground (arith, live.signer_is_key))

  -- A handler that a stranger signs, or nobody, does no harm.
  pub Handles-Unharmed :
      (price : ℕ) (p q : Position B) (ss : List SessionAccount) (h : Handles rt clock p q)
      → IsListed rt clock ss h
      → IsStranger p.idnft.owner ss (handler_signer rt clock h)
      → IsRanged p.idnft
      → price ≤ p.config.current_share_price
      → Unharmed price p.idnft q.idnft × (q.escrow ≡ p.escrow)
  unfolding add_stake begin_unstake complete_unstake activate_stake update_yield_mode
      deposit_yield_balance withdraw_yield create_session revoke_session run_fast_unlock
      dev_fast_unlock
  Handles-Unharmed price p q ss (adding owner n h) l st r low = ground (arith, st.not_owner)
  Handles-Unharmed price p q ss (beginning owner h) l st r low = ground (arith, st.not_owner)
  Handles-Unharmed price p q ss (completing owner h) l st r low = ground (arith, st.not_owner)
  Handles-Unharmed price p q ss (activating owner n mode h) l st r low =
      ground (arith, st.not_owner)
  Handles-Unharmed price p q ss (switching owner mode h) l st r low = ground (arith, st.not_owner)
  Handles-Unharmed price p q ss (harvesting h) l st r low = harvest-Unharmed price p q r low h
  Handles-Unharmed price p q ss (depositing depositor n h) l st r low = ground arith
  Handles-Unharmed price p q ss (withdrawing owner n h) l st r low = ground (arith, st.not_owner)
  Handles-Unharmed price p q ss (spending call n s s' h) (index, found) st r low =
      absurd (spend_needs_key call n index s s' p q ss h found st.no_key)
  Handles-Unharmed price p q ss (creating owner key ids params index profile slot s' h) l st r low =
      ground (arith, st.not_owner)
  Handles-Unharmed price p q ss (revoking owner s s' h) l st r low = ground (arith, st.not_owner)
  Handles-Unharmed price p q ss (closing owner s h e) l st r low = ground arith
  Handles-Unharmed price p q ss (unlocking admin h) l st r low = ground arith

  pub Touches-keys :
      (K : Pubkey → Type 0) (p q : Position B) (ss ss' : List SessionAccount)
      → Touches rt clock p q ss ss'
      → q.idnft.session_nonce ≡ p.idnft.session_nonce
      → All (λ s. K s.session_key) ss
      → All (λ s. K s.session_key) ss'
  unfolding create_session revoke_session yield_spend record_spend reset_daily_if_needed
  Touches-keys K p q ss ss' (untouched e) n h = rw e h
  Touches-keys K p q ss ss' (used call amount index s s' found ran e) n h =
      let same : s'.session_key ≡ s.session_key = ground arith in
      rw e (
        All-replace index_of (λ t. K t.session_key) index s' ss h
          (rw same (All-find index_of (λ t. K t.session_key) index ss s h found)))
  Touches-keys K p q ss ss' (opened owner key ids params index profile s' ran e) n h =
      let none_opened : ⊥ = ground arith in absurd none_opened
  Touches-keys K p q ss ss' (stopped owner index s s' found ran e) n h =
      let same : s'.session_key ≡ s.session_key = ground arith in
      rw e (
        All-replace index_of (λ t. K t.session_key) index s' ss h
          (rw same (All-find index_of (λ t. K t.session_key) index ss s h found)))
  Touches-keys K p q ss ss' (dropped index e) n h =
      rw e (All-remove index_of (λ t. K t.session_key) index ss h)
