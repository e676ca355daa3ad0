-- ===== src/Identity/Lock/Handlers.antt =====
-- The handlers that set or keep a lock (programs/vow/src/instructions/vow/).
use vow_protocol.Prelude.{ℕ, ◌≡◌, refl, inl, inr, true, List, arith, ltb, Bool-cases}
use vow_protocol.State.Errors.{
  ok, vow, invalid_owner, insufficient_stake, identity_inactive, already_unstaking, math_overflow,
  ok_or, require, require_keys_eq, Ensures, Ensures-ok, >>=-Ensures,
}
use vow_protocol.State.Accounts.{Pubkey, VowState, YieldMode, ProtocolConfig}
use vow_protocol.State.Class.{class_for_stake, lock_duration}
use vow_protocol.State.Events.{Event}
use vow_protocol.State.Runtime.{Clock, Runtime, reserve_pda}
use vow_protocol.State.Position.{Position, mature, transfer, shares_for}
use vow_protocol.Prelude.Machine.{checked_add, u64_max, u128_max}
use vow_protocol.Harvest.{settle_idnft}
use vow_protocol.Harvest.Settle.{settle_idnft-Settled, mature_keeps}
use vow_protocol.Vow.Mint.{mint}
use vow_protocol.Vow.AddStake.{relock, add_stake}
use vow_protocol.Vow.BeginUnstake.{begin_unstake}
use vow_protocol.Vow.ActivateStake.{activate_stake}
use vow_protocol.Identity.Lock.{
  upgrade-IsLocked, fresh-IsLocked, Spans, IsLocked, mature-IsLocked, KeepsLock, KeepsLock-IsLocked,
}

abbrev Locked : {B : Type 0} → Clock → Position B → Type 0
Locked clock q = IsLocked clock.unix_timestamp q.idnft

module _ {B : Type 0} (rt : Runtime B) (clock : Clock) where
  relock-IsLocked :
      (class : ℕ) (v w : VowState)
      → relock clock class v ≡ ok w
      → IsLocked clock.unix_timestamp v
      → IsLocked clock.unix_timestamp w
  unfolding relock
  relock-IsLocked class v w h l = elim (Bool-cases (ltb v.class class)) [
    | inl up ↦ upgrade-IsLocked clock class v w (ground arith) l
    | inr same ↦ let e : w ≡ v = ground arith in rw e l
  ]

  pub add_stake-IsLocked :
      (owner : Pubkey) (n : ℕ) (p q : Position B)
      → add_stake rt clock owner n p ≡ ok q
      → IsLocked clock.unix_timestamp p.idnft
      → IsLocked clock.unix_timestamp q.idnft
  unfolding add_stake
  add_stake-IsLocked owner n p q h l =
      Ensures-ok (Locked clock) (add_stake rt clock owner n p) ends h
    where
      kept : (v : VowState) → settle_idnft p.idnft p.config ≡ ok v → IsLocked clock.unix_timestamp v
      kept v e =
          KeepsLock-IsLocked clock.unix_timestamp p.idnft v
            (ground (arith, settle_idnft-Settled p.idnft p.config)) l

      ends : Ensures (Locked clock) (add_stake rt clock owner n p)
      ends = >>=-Ensures (Locked clock) (require_keys_eq p.idnft.owner owner invalid_owner) _ λ _ _.
          >>=-Ensures (Locked clock) (require (ltb 0 n) insufficient_stake) _ λ _ _.
            >>=-Ensures (Locked clock) (require p.idnft.active_stake identity_inactive) _ λ _ _.
              >>=-Ensures (Locked clock) (require (ltb 0 p.idnft.shares) already_unstaking) _ λ _ _.
                >>=-Ensures (Locked clock) (settle_idnft p.idnft p.config) _ λ v settled.
                  >>=-Ensures (Locked clock) (transfer rt owner (reserve_pda rt).0 n p.bank) _
                    λ bank _.
                      >>=-Ensures (Locked clock)
                        (ok_or (checked_add u64_max v.principal_lamports n) (vow math_overflow)) _
                        λ total _. >>=-Ensures (Locked clock) (class_for_stake total) _ λ class _.
                          >>=-Ensures (Locked clock) (shares_for n p.config.current_share_price) _
                            λ shares _.
                              >>=-Ensures (Locked clock) (relock clock class v) _ λ w locked.
                                >>=-Ensures (Locked clock)
                                  (ok_or (checked_add u128_max w.shares shares) (vow math_overflow))
                                  _
                                  λ _ _.
                                    >>=-Ensures (Locked clock)
                                      (ok_or (checked_add u128_max p.config.total_shares shares)
                                        (vow math_overflow))
                                      _
                                      λ _ _.
                                        KeepsLock-IsLocked clock.unix_timestamp w _
                                          (record {
                                            class = refl;
                                            started = refl;
                                            unlock_at = refl;
                                            matured = refl;
                                          })
                                          (relock-IsLocked class v w locked (kept v settled))

  pub activate_stake-IsLocked :
      (owner : Pubkey) (n : ℕ) (mode : YieldMode) (p q : Position B)
      → activate_stake rt clock owner n mode p ≡ ok q
      → IsLocked clock.unix_timestamp q.idnft
  unfolding activate_stake
  activate_stake-IsLocked owner n mode p q h =
      ground (arith, fresh-IsLocked clock q.idnft.class q.idnft.unlock_at q.idnft)

  pub mint-IsLocked :
      (owner : Pubkey) (n : ℕ) (mode : YieldMode) (c : ProtocolConfig) (b : B) (log : List Event)
      (q : Position B)
      → mint rt clock owner n mode c b log ≡ ok q
      → IsLocked clock.unix_timestamp q.idnft
  unfolding mint
  mint-IsLocked owner n mode c b log q h =
      ground (arith, fresh-IsLocked clock q.idnft.class q.idnft.unlock_at q.idnft)

  pub begin_unstake-KeepsLock :
      (owner : Pubkey) (p q : Position B)
      → begin_unstake rt clock owner p ≡ ok q
      → KeepsLock (mature clock p).idnft q.idnft
  unfolding begin_unstake
  begin_unstake-KeepsLock owner p q h =
      ground (arith, settle_idnft-Settled (mature clock p).idnft (mature clock p).config)

  matured-Spans :
      (v : VowState)
      → v.matured ≡ true
      → IsLocked clock.unix_timestamp v
      → Spans (lock_duration v.class) v.current_stake_started_at clock.unix_timestamp
  matured-Spans v m l = ground arith

  begin_unstake-matured :
      (owner : Pubkey) (p q : Position B)
      → begin_unstake rt clock owner p ≡ ok q
      → (mature clock p).idnft.matured ≡ true
  unfolding begin_unstake
  begin_unstake-matured owner p q h = ground arith

  pub begin_unstake-Spans :
      (owner : Pubkey) (p q : Position B)
      → begin_unstake rt clock owner p ≡ ok q
      → IsLocked clock.unix_timestamp p.idnft
      → Spans (lock_duration p.idnft.class) p.idnft.current_stake_started_at clock.unix_timestamp
  begin_unstake-Spans owner p q h l = rw (mature_keeps clock p) at (
      matured-Spans (mature clock p).idnft (begin_unstake-matured owner p q h)
        (mature-IsLocked clock p l))
