-- ===== src/Identity/Lock.antt =====
-- The lock: stake is not released before its class's lock period has passed.
pub mod Handlers
use vow_protocol.Prelude.{ℕ, ◌≡◌, refl, inl, inr, Bool, true, false, List, arith, ltb, Bool-cases}
use vow_protocol.Prelude.Int.{ℤ, pos, ◌+ℤ◌, ◌≤ℤ◌, +ℤ_parts}
use vow_protocol.State.Errors.{
  Result, ok, err, vow, invalid_owner, insufficient_stake, identity_inactive, already_unstaking,
  math_overflow, ok_or, require, require_keys_eq, >>=-eq-ok, Ensures, Ensures-ok, >>=-Ensures,
}
use vow_protocol.State.Accounts.{
  Pubkey, VowState, YieldMode, compound, hybrid, treasury, ProtocolConfig,
}
use vow_protocol.State.Class.{class_for_stake, lock_duration}
use vow_protocol.State.Events.{Event}
use vow_protocol.State.Runtime.{Clock, Runtime, reserve_pda}
use vow_protocol.State.Position.{Position, mature, unlock_time, transfer, shares_for}
use vow_protocol.Prelude.Machine.{checked_add, u64_max, u128_max}
use vow_protocol.Harvest.{settle_idnft, credit, realise, harvest}
use vow_protocol.Harvest.Settle.{settle_idnft-Settled, mature_keeps, harvest-ok}
use vow_protocol.Vow.Mint.{mint}
use vow_protocol.Vow.AddStake.{upgrade, relock, add_stake}
use vow_protocol.Vow.BeginUnstake.{begin_unstake}
use vow_protocol.Vow.ActivateStake.{activate_stake}

-- A lock of this duration, from `start`, ends at `unlock` or earlier.
abbrev pub Spans : Result ℕ → ℤ → ℤ → Type 0
Spans (ok n) start unlock = start +ℤ pos n ≤ℤ unlock
Spans (err _) start unlock = ⊥

-- Nothing is matured before it unlocks.
abbrev pub NotEarly : Bool → ℤ → ℤ → Type 0
NotEarly true unlock now = unlock ≤ℤ now
NotEarly false unlock now = Unit

-- At time `now` the stake of `v` has not been unlocked early: its lock spans the class's duration from
-- the moment when the stake began, and it counts as matured only once the lock has run out.
pub record IsLocked (now : ℤ) (v : VowState) : Type 0 where
  pub lock : Spans (lock_duration v.class) v.current_stake_started_at v.unlock_at
  pub timely : NotEarly v.matured v.unlock_at now
  pub started : v.current_stake_started_at ≤ℤ now

module _ {B : Type 0} where
  pub mature-IsLocked :
      (clock : Clock) (p : Position B)
      → IsLocked clock.unix_timestamp p.idnft
      → IsLocked clock.unix_timestamp (mature clock p).idnft
  unfolding mature
  mature-IsLocked clock p l = ground arith

unlock_time-Spans :
    (clock : Clock) (class : ℕ) (u : ℤ)
    → unlock_time clock class ≡ ok u
    → Spans (lock_duration class) clock.unix_timestamp u
unfolding unlock_time
unlock_time-Spans clock class u h = ground arith

-- Later is no earlier.
pub IsLocked-later :
    (now later : ℤ) (v : VowState) → now ≤ℤ later → IsLocked now v → IsLocked later v
IsLocked-later now later v h l = ground arith

-- A lock from a later start is one from an earlier start.
Spans-mono : (r : Result ℕ) (a b u : ℤ) → a ≤ℤ b → Spans r b u → Spans r a u
Spans-mono (ok n) a b u h s = omega (arith, +ℤ_parts)
Spans-mono (err e) a b u h s = s

pub upgrade-IsLocked :
    (clock : Clock) (class : ℕ) (v w : VowState)
    → upgrade clock class v ≡ ok w
    → IsLocked clock.unix_timestamp v
    → IsLocked clock.unix_timestamp w
unfolding upgrade
upgrade-IsLocked clock class v w h l =
    let (u, eu, ew) = >>=-eq-ok (unlock_time clock class) _ h in
    let c : w.class ≡ class = ground arith in
    let t : w.unlock_at ≡ u = ground arith in
    let m : w.matured ≡ false = ground arith in
    let b : w.current_stake_started_at ≡ v.current_stake_started_at = ground arith in
    record {
      lock =
          rw (c, t, b)
            (Spans-mono (lock_duration class) v.current_stake_started_at clock.unix_timestamp u
              l.started (unlock_time-Spans clock class u eu));
      timely = rw m tt;
      started = rw b l.started;
    }

-- What the lock depends on.
pub record KeepsLock (v w : VowState) : Type 0 where
  pub class : w.class ≡ v.class
  pub started : w.current_stake_started_at ≡ v.current_stake_started_at
  pub unlock_at : w.unlock_at ≡ v.unlock_at
  pub matured : w.matured ≡ v.matured

pub KeepsLock-IsLocked :
    (now : ℤ) (v w : VowState) → KeepsLock v w → IsLocked now v → IsLocked now w
KeepsLock-IsLocked now v w k l = record {
  lock = rw (k.class, k.started, k.unlock_at) l.lock;
  timely = rw (k.unlock_at, k.matured) l.timely;
  started = rw k.started l.started;
}

module _ {B : Type 0} where
  credit-KeepsLock :
      (amount total carried : ℕ) (p : Position B) {q : Position B}
      → credit amount total carried p ≡ ok q
      → KeepsLock p.idnft q.idnft
  unfolding credit
  credit-KeepsLock amount total carried p h = ground arith

  realise-KeepsLock :
      (mode : YieldMode) (gain : ℤ) (p : Position B) {q : Position B}
      → realise mode gain p ≡ ok q
      → KeepsLock p.idnft q.idnft
  unfolding realise
  realise-KeepsLock compound gain p h = ground arith
  realise-KeepsLock hybrid gain p h = ground (arith, credit-KeepsLock _ _ _ p)
  realise-KeepsLock treasury gain p h = ground (arith, credit-KeepsLock _ _ _ p)

  pub harvest-KeepsLock :
      (clock : Clock) (p q : Position B)
      → harvest clock p ≡ ok q
      → KeepsLock (mature clock p).idnft q.idnft
  harvest-KeepsLock clock p q h =
      let (w, e, done) = harvest-ok clock p h in
      ground (
        arith,
        settle_idnft-Settled (mature clock p).idnft (mature clock p).config,
        realise-KeepsLock w.yield_mode w.accrued_gain (record (mature clock p) { idnft = w })
            {q = q},
      )

-- A stake that begins now, for this class.
pub fresh-IsLocked :
    (clock : Clock) (class : ℕ) (u : ℤ) (v : VowState)
    → unlock_time clock class ≡ ok u
    → v.class ≡ class
    → v.unlock_at ≡ u
    → v.current_stake_started_at ≡ clock.unix_timestamp
    → v.matured ≡ false
    → IsLocked clock.unix_timestamp v
fresh-IsLocked clock class u v e c t b m = record {
  lock = rw (c, t, b) (unlock_time-Spans clock class u e);
  timely = rw m tt;
  started = rw b (omega arith);
}
