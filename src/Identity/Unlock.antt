-- ===== src/Identity/Unlock.antt =====
-- The lock over histories, on a chain with a stake pool (where the admin's `dev_fast_unlock` fails).
use vow_protocol.Prelude.{ℕ, ◌≡◌, ◌≢◌, some, List, [], ◌∷◌, arith}
use vow_protocol.Prelude.Int.{ℤ, ◌≤ℤ◌}
use vow_protocol.Prelude.Keyed.{find, All, All-find, All-replace}
use vow_protocol.State.Errors.{ok}
use vow_protocol.State.Accounts.{Pubkey, ProtocolConfig, default_key, YieldMode}
use vow_protocol.State.Class.{lock_duration}
use vow_protocol.State.Events.{Event}
use vow_protocol.State.Runtime.{Clock, Runtime}
use vow_protocol.State.Position.{Position, mature}
use vow_protocol.Harvest.Settle.{settle_idnft-Settled}
use vow_protocol.Vow.Mint.{mint}
use vow_protocol.Vow.BeginUnstake.{begin_unstake}
use vow_protocol.Vow.CompleteUnstake.{complete_unstake}
use vow_protocol.Vow.UpdateYieldMode.{update_yield_mode}
use vow_protocol.Treasury.Deposit.{deposit_yield_balance}
use vow_protocol.Treasury.Withdraw.{withdraw_yield}
use vow_protocol.Treasury.Spend.{yield_spend}
use vow_protocol.Session.Create.{create_session}
use vow_protocol.Session.Revoke.{revoke_session}
use vow_protocol.Pool.UpdateSharePrice.{update_share_price}
use vow_protocol.Admin.Config.{set_admin, set_mint_counter, dev_set_share_price, dev_fast_unlock}
use vow_protocol.Program.Frame.{Handles-SameRates}
use vow_protocol.Program.World.{Slot, World, asset_of, position}
use vow_protocol.Program.Process.{Instruction, run_fast_unlock}
use vow_protocol.Program.Steps.{
  Handles, adding, beginning, completing, activating, switching, harvesting, depositing,
  withdrawing, spending, creating, revoking, closing, unlocking, Configures, repricing, appointing,
  counting, pricing, Steps, minted, handled, configured, moved, add_slot-ok,
}
use vow_protocol.Program.Run.{apply, run, apply_inv}
use vow_protocol.Identity.Lock.{
  Spans, IsLocked, IsLocked-later, KeepsLock-IsLocked, mature-IsLocked, harvest-KeepsLock,
}
use vow_protocol.Identity.Lock.Handlers.{
  add_stake-IsLocked, activate_stake-IsLocked, mint-IsLocked, begin_unstake-KeepsLock,
  begin_unstake-Spans,
}

module _ {B : Type 0} (rt : Runtime B) (clock : Clock) where
  Handles-IsLocked :
      (p q : Position B)
      → Handles rt clock p q
      → p.config.spl_stake_pool ≢ default_key
      → IsLocked clock.unix_timestamp p.idnft
      → IsLocked clock.unix_timestamp q.idnft
  unfolding complete_unstake update_yield_mode deposit_yield_balance withdraw_yield yield_spend
      create_session revoke_session run_fast_unlock dev_fast_unlock
  Handles-IsLocked p q (adding owner n h) m l = add_stake-IsLocked rt clock owner n p q h l
  Handles-IsLocked p q (beginning owner h) m l =
      KeepsLock-IsLocked clock.unix_timestamp (mature clock p).idnft q.idnft
        (begin_unstake-KeepsLock rt clock owner p q h) (mature-IsLocked clock p l)
  Handles-IsLocked p q (completing owner h) m l =
      KeepsLock-IsLocked clock.unix_timestamp p.idnft q.idnft (ground arith) l
  Handles-IsLocked p q (activating owner n mode h) m l =
      activate_stake-IsLocked rt clock owner n mode p q h
  Handles-IsLocked p q (switching owner mode h) m l =
      KeepsLock-IsLocked clock.unix_timestamp p.idnft q.idnft
        (ground (arith, settle_idnft-Settled p.idnft p.config)) l
  Handles-IsLocked p q (harvesting h) m l =
      KeepsLock-IsLocked clock.unix_timestamp (mature clock p).idnft q.idnft
        (harvest-KeepsLock clock p q h) (mature-IsLocked clock p l)
  Handles-IsLocked p q (depositing depositor n h) m l =
      KeepsLock-IsLocked clock.unix_timestamp p.idnft q.idnft (ground arith) l
  Handles-IsLocked p q (withdrawing owner n h) m l =
      KeepsLock-IsLocked clock.unix_timestamp p.idnft q.idnft (ground arith) l
  Handles-IsLocked p q (spending call n s s' h) m l =
      KeepsLock-IsLocked clock.unix_timestamp p.idnft q.idnft (ground arith) l
  Handles-IsLocked p q (creating owner key ids params index profile slot s' h) m l =
      KeepsLock-IsLocked clock.unix_timestamp p.idnft q.idnft (ground arith) l
  Handles-IsLocked p q (revoking owner s s' h) m l =
      KeepsLock-IsLocked clock.unix_timestamp p.idnft q.idnft (ground arith) l
  Handles-IsLocked p q (closing owner s _ h) m l =
      KeepsLock-IsLocked clock.unix_timestamp p.idnft q.idnft (ground arith) l
  Handles-IsLocked p q (unlocking admin h) m l = ground arith

  Configures-pool :
      (c d : ProtocolConfig) → Configures rt clock c d → d.spl_stake_pool ≡ c.spl_stake_pool
  unfolding update_share_price set_admin set_mint_counter dev_set_share_price
  Configures-pool c d (repricing pool_key bytes log log' h) = ground arith
  Configures-pool c d (appointing admin new_admin h) = ground arith
  Configures-pool c d (counting admin counter h) = ground arith
  Configures-pool c d (pricing admin price h) = ground arith

abbrev pub LockedSlot : ℤ → Slot → Type 0
LockedSlot now s = IsLocked now s.idnft

All-later :
    (now later : ℤ) (xs : List Slot)
    → now ≤ℤ later
    → All (LockedSlot now) xs
    → All (LockedSlot later) xs
All-later now later [] h l = tt
All-later now later (x ∷ xs) h l =
    (IsLocked-later now later x.idnft h l.0, All-later now later xs h l.1)

module _ {B : Type 0} where
  -- The protocol follows a stake pool, and at time `now` no stake has been unlocked early.
  pub record AllLocked (now : ℤ) (w : World B) : Type 0 where
    pub pool : w.config.spl_stake_pool ≢ default_key
    pub slots : All (LockedSlot now) w.slots

  AllLocked-later :
      (now later : ℤ) (w : World B) → now ≤ℤ later → AllLocked now w → AllLocked later w
  AllLocked-later now later w h l = record {
    pool = l.pool;
    slots = All-later now later w.slots h l.slots;
  }

module _ {B : Type 0} (rt : Runtime B) (clock : Clock) where
  mint-pool :
      (owner n : ℕ) (mode : YieldMode) (c : ProtocolConfig) (b : B) (log : List Event)
      (q : Position B)
      → mint rt clock owner n mode c b log ≡ ok q
      → q.config.spl_stake_pool ≡ c.spl_stake_pool
  unfolding mint
  mint-pool owner n mode c b log q h = ground arith

  Steps-AllLocked :
      (w w' : World B)
      → Steps rt clock w w'
      → AllLocked clock.unix_timestamp w
      → AllLocked clock.unix_timestamp w'
  Steps-AllLocked w w' (minted owner n mode p ran added) l =
      rw (add_slot-ok p w w' added).1 (record {
        pool = rw (mint-pool owner n mode w.config w.bank w.log p ran) l.pool;
        slots = (mint-IsLocked rt clock owner n mode w.config w.bank w.log p ran, l.slots);
      })
  Steps-AllLocked w w' (handled k t sessions p found step _ _ e) l = rw e (record {
    pool = rw (Handles-SameRates rt clock (position w t) p step).pool l.pool;
    slots =
        All-replace asset_of (LockedSlot clock.unix_timestamp) k
          (record { idnft = p.idnft; escrow = p.escrow; sessions = sessions }) w.slots l.slots
          (Handles-IsLocked rt clock (position w t) p step l.pool
            (All-find asset_of (LockedSlot clock.unix_timestamp) k w.slots t l.slots found));
  })
  Steps-AllLocked w w' (configured config log step e) l =
      rw e (record {
        pool = rw (Configures-pool rt clock w.config config step) l.pool;
        slots = l.slots;
      })
  Steps-AllLocked w w' (moved bank _ e) l = rw e (record { pool = l.pool; slots = l.slots })

module _ {B : Type 0} (rt : Runtime B) where
  -- The clock never runs back along the history, which begins at `now`.
  abbrev pub InOrder : ℤ → List (Clock × Instruction B) → Type 0
  InOrder now [] = Unit
  InOrder now ((clock, i) ∷ is) = (now ≤ℤ clock.unix_timestamp) × InOrder clock.unix_timestamp is

  -- The time of the last transaction.
  abbrev pub last_time : ℤ → List (Clock × Instruction B) → ℤ
  last_time now [] = now
  last_time now ((clock, i) ∷ is) = last_time clock.unix_timestamp is

  run-AllLocked :
      (is : List (Clock × Instruction B)) (now : ℤ) (w : World B)
      → InOrder now is
      → AllLocked now w
      → AllLocked (last_time now is) (run rt is w)
  unfolding run
  run-AllLocked [] now w o l = l
  run-AllLocked ((clock, i) ∷ is) now w o l =
      let l' = AllLocked-later now clock.unix_timestamp w o.0 l in
      run-AllLocked is clock.unix_timestamp (apply rt clock i w) o.1 (
        apply_inv rt (AllLocked clock.unix_timestamp) clock i w
          (λ w' _ step. Steps-AllLocked rt clock w w' step l') l')

  -- After any history in the order of time, on a chain with a stake pool and from a ledger in
  -- which nothing has been unlocked early, a `begin_unstake` no earlier than the last transaction
  -- succeeds for an identity only when the lock of its class has passed since its stake began.
  pub begin_unstake-waits :
      (is : List (Clock × Instruction B)) (now : ℤ) (w : World B) (clock : Clock)
      (owner asset : Pubkey) (s : Slot) (q : Position B)
      → InOrder now is
      → AllLocked now w
      → last_time now is ≤ℤ clock.unix_timestamp
      → find asset_of asset (run rt is w).slots ≡ some s
      → begin_unstake rt clock owner (position (run rt is w) s) ≡ ok q
      → Spans (lock_duration s.idnft.class) s.idnft.current_stake_started_at clock.unix_timestamp
  begin_unstake-waits is now w clock owner asset s q o l later found h =
      let end =
        AllLocked-later (last_time now is) clock.unix_timestamp (run rt is w) later
          (run-AllLocked is now w o l) in
      begin_unstake-Spans rt clock owner (position (run rt is w) s) q h (
        All-find asset_of (LockedSlot clock.unix_timestamp) asset (run rt is w).slots s end.slots
          found)
