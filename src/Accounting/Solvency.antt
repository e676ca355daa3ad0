-- ===== src/Accounting/Solvency.antt =====
-- Whether the reserve can pay all that it owes, over the whole ledger, on a chain without a stake pool
-- and at the opening share price.
use vow_protocol.Prelude.{ℕ, ◌≤◌, ◌≡◌, ◌≢◌, ap, ◌∙◌, some, List, [], ◌∷◌, arith}
use vow_protocol.Prelude.Keyed.{find, total, total-replace, All, All-find, All-replace}
use vow_protocol.State.Accounts.{Pubkey, SessionAccount, default_key, share_precision}
use vow_protocol.State.Runtime.{Clock, Runtime, reserve_pda}
use vow_protocol.State.Position.{Position}
use vow_protocol.Session.Create.{create_session}
use vow_protocol.Session.Revoke.{revoke_session}
use vow_protocol.Admin.Config.{dev_fast_unlock}
use vow_protocol.Program.World.{Slot, World, asset_of, position, store}
use vow_protocol.Program.Process.{Instruction, run_fast_unlock}
use vow_protocol.Program.Steps.{
  Handles, adding, beginning, completing, activating, switching, harvesting, depositing,
  withdrawing, spending, creating, revoking, closing, unlocking, Steps, minted, handled, configured,
  moved, add_slot-ok,
}
use vow_protocol.Program.Steps.Process.Signers.{handler_signer, step_signer, apply_signed}
use vow_protocol.Program.Governance.{Steps-IsRuledBy, AreUnsignedBy}
use vow_protocol.Program.Run.{apply, run}
use vow_protocol.Accounting.Solvent.{
  IsSettled, due, IsCovered, add_stake-IsCovered, begin_unstake-IsCovered,
  complete_unstake-IsCovered, activate_stake-IsCovered, update_yield_mode-IsCovered,
  harvest-IsCovered, deposit_yield_balance-IsCovered, withdraw_yield-IsCovered,
  yield_spend-IsCovered, mint-due,
}

abbrev pub due_of : Slot → ℕ
due_of s = due s.idnft s.escrow

abbrev pub IsSettledSlot : Slot → Type 0
IsSettledSlot s = IsSettled s.idnft

-- What the system program documents of a transfer from an account to itself.
abbrev pub StaysPut : {B : Type 0} → Runtime B → Type 0
StaysPut {B} rt =
    (a b : Pubkey) (n : ℕ) (x x' : B)
    → a ≡ b
    → rt.transfer a b n x ≡ some x'
    → rt.lamports x' a ≡ rt.lamports x a

module _ {B : Type 0} (rt : Runtime B) (still : StaysPut rt) where
  Handles-IsCovered :
      (clock : Clock) (p q : Position B) (step : Handles rt clock p q)
      → handler_signer rt clock step ≢ some ((reserve_pda rt).0)
      → IsSettled p.idnft
      → p.config.current_share_price ≡ share_precision
      → IsCovered rt p q
  unfolding create_session revoke_session run_fast_unlock dev_fast_unlock
  Handles-IsCovered clock p q (adding owner n h) ne s par =
      add_stake-IsCovered rt p q clock s par owner n (λ e. ne (ap some e)) h
  Handles-IsCovered clock p q (beginning owner h) ne s par =
      begin_unstake-IsCovered rt p q clock s par owner h
  Handles-IsCovered clock p q (completing owner h) ne s par =
      complete_unstake-IsCovered rt p q clock s par owner (λ e. ne (ap some e)) h
  Handles-IsCovered clock p q (activating owner n mode h) ne s par =
      activate_stake-IsCovered rt p q clock s par owner n mode (λ e. ne (ap some e)) h
  Handles-IsCovered clock p q (switching owner mode h) ne s par =
      update_yield_mode-IsCovered rt p q clock s par owner mode h
  Handles-IsCovered clock p q (harvesting h) ne s par = harvest-IsCovered rt p q clock s par h
  Handles-IsCovered clock p q (depositing depositor n h) ne s par =
      deposit_yield_balance-IsCovered rt p q clock s par depositor n (λ e. ne (ap some e)) h
  Handles-IsCovered clock p q (withdrawing owner n h) ne s par =
      withdraw_yield-IsCovered rt p q clock s par owner n (λ e. ne (ap some e)) h
  Handles-IsCovered clock p q (spending call n x x' h) ne s par =
      yield_spend-IsCovered rt p q clock s par call n x x' still h
  Handles-IsCovered clock p q (creating owner key ids params index profile slot x h) ne s par =
      ground arith
  Handles-IsCovered clock p q (revoking owner x x' h) ne s par = ground arith
  Handles-IsCovered clock p q (closing owner x _ h) ne s par = ground arith
  Handles-IsCovered clock p q (unlocking admin h) ne s par = ground arith

  -- There is no stake pool and the share price is the opening one; no identity has a gain to settle;
  -- and the reserve holds at least all shares, yield balances and claims together.
  pub record IsSolvent (admin : Pubkey) (w : World B) : Type 0 where
    pub ruled : w.config.admin ≡ admin
    pub pool : w.config.spl_stake_pool ≡ default_key
    pub price : w.config.current_share_price ≡ share_precision
    pub settled : All IsSettledSlot w.slots
    pub covered : total due_of w.slots ≤ rt.lamports w.bank (reserve_pda rt).0

  store-covered :
      (k : Pubkey) (t : Slot) (sessions : List SessionAccount) (p : Position B) (w : World B)
      → find asset_of k w.slots ≡ some t
      → IsCovered rt (position w t) p
      → total due_of w.slots ≤ rt.lamports w.bank (reserve_pda rt).0
      → total due_of (store k sessions p w).slots ≤ rt.lamports p.bank (reserve_pda rt).0
  store-covered k t sessions p w found c before =
      let new : Slot = record { idnft = p.idnft; escrow = p.escrow; sessions = sessions } in
      omega (arith, total-replace asset_of due_of k new t w.slots found, c.due)

  -- What a step leaves of the slots and the reserve; the config is left to `Steps-IsRuledBy`.
  Steps-covered :
      (admin : Pubkey) (clock : Clock) (w w' : World B) (step : Steps rt clock w w')
      → step_signer rt clock step ≢ some ((reserve_pda rt).0)
      → IsSolvent admin w
      → All IsSettledSlot w'.slots
        × (total due_of w'.slots ≤ rt.lamports w'.bank (reserve_pda rt).0)
  unfolding total
  Steps-covered admin clock w w' (minted owner n mode p ran added) ne v =
      let (paid, settled) =
        mint-due rt clock owner n mode p w.config w.bank w.log (λ e. ne (ap some e)) v.price ran in
      rw (add_slot-ok p w w' added).1 ((settled, v.settled), omega (arith, paid, v.covered))
  Steps-covered admin clock w w' (handled k t sessions p found step _ _ e) ne v =
      let c =
        Handles-IsCovered clock (position w t) p step ne
          (All-find asset_of IsSettledSlot k w.slots t v.settled found) v.price in
      let new : Slot = record { idnft = p.idnft; escrow = p.escrow; sessions = sessions } in
      rw e (
        All-replace asset_of IsSettledSlot k new w.slots v.settled c.settled,
        store-covered k t sessions p w found c v.covered,
      )
  Steps-covered admin clock w w' (configured config log step e) ne v = rw e (v.settled, v.covered)
  Steps-covered admin clock w w' (moved bank keeps e) ne v =
      rw e (v.settled, rw (keeps v.pool) v.covered)

  Steps-IsSolvent :
      (admin : Pubkey) (clock : Clock) (w w' : World B) (step : Steps rt clock w w')
      → step_signer rt clock step ≢ some admin
      → step_signer rt clock step ≢ some ((reserve_pda rt).0)
      → IsSolvent admin w
      → IsSolvent admin w'
  Steps-IsSolvent admin clock w w' step not_admin ne v =
      let r = Steps-IsRuledBy rt clock w w' step (rw v.ruled not_admin) in
      let (settled, covered) = Steps-covered admin clock w w' step ne v in
      record {
        ruled = r.admin ∙ v.ruled;
        pool = r.pool ∙ v.pool;
        price = r.price v.pool ∙ v.price;
        settled = settled;
        covered = covered;
      }

  -- On a chain without a stake pool, from a ledger at the opening share price in which no identity has a
  -- gain to settle: if the reserve holds at least all shares, yield balances and claims together, then it
  -- does after any history in which neither the admin nor the reserve signs. (A transfer from an account
  -- to itself leaves its balance.)
  pub run-IsSolvent :
      (is : List (Clock × Instruction B)) (admin : Pubkey) (w : World B)
      → AreUnsignedBy rt admin is
      → AreUnsignedBy rt (reserve_pda rt).0 is
      → IsSolvent admin w
      → IsSolvent admin (run rt is w)
  unfolding run
  run-IsSolvent [] admin w a r v = v
  run-IsSolvent ((clock, i) ∷ is) admin w a r v =
      run-IsSolvent is admin (apply rt clock i w) a.1 r.1 (
        apply_signed rt (IsSolvent admin) clock i w
          (λ w' step e. Steps-IsSolvent admin clock w w' step (rw e a.0) (rw e r.0) v) v)
