-- ===== src/Treasury/Spend.antt =====
-- programs/vow/src/instructions/treasury/yield_spend.rs: a session key spends an identity's yield.
pub mod Authority
pub mod Budget
pub mod Exactly
use vow_protocol.Prelude.{
  ℕ, ◌-◌, Bool, true, false, not, ◌&&◌, ◌||◌, Option, none, some, List, [], ◌∷◌, ltb, leb, ◌==◌,
  take, length, if◌then◌else◌,
}
use vow_protocol.Prelude.Int.{ℤ, pos, ltb_ℤ, leb_ℤ, pos_part, neg_part}
use vow_protocol.Prelude.Machine.{checked_add, saturating_add, saturating_sub, u32_max, u64_max}
use vow_protocol.State.Errors.{
  Result, ok, err, VowError, session_inactive, session_expired, session_invalidated,
  identity_inactive, program_not_allowed, app_blocked, velocity_limit_exceeded,
  daily_limit_exceeded, lifetime_limit_exceeded, insufficient_yield_balance, or_panic, require,
  require_keys_eq, ◌>>=◌, ◌>>◌,
}
use vow_protocol.State.Accounts.{
  Pubkey, VowState, SessionAccount, AppRegistry, reset_daily_if_needed,
}
use vow_protocol.State.Events.{yield_spent}
use vow_protocol.State.Runtime.{Clock, Runtime, reserve_pda, vow_pda}
use vow_protocol.State.Position.{Position, transfer}

unfoldable pub contains : List Pubkey → Pubkey → Bool
contains [] k = false
contains (x ∷ xs) k = x == k || contains xs k

-- `z == 0` for an `i64`.
abbrev pub is_zero : ℤ → Bool
is_zero z = pos_part z == 0 && neg_part z == 0

-- The call as the transaction names it: the calling program's account, its registry entry if one is
-- passed, the signer and the destination.
pub record SpendCall : Type 0 where
  pub calling_program : Pubkey
  pub executable : Bool
  pub app_registry : Option AppRegistry
  pub session_signer : Pubkey
  pub destination : Pubkey

-- The checks of the session against the clock, the signer and the identity.
unfoldable pub check_session : Clock → Pubkey → VowState → SessionAccount → Result (Unit {0})
check_session clock session_signer idnft session = do
  require_keys_eq session_signer session.session_key session_inactive
  require session.active session_inactive
  require (is_zero session.expiry_ts || ltb_ℤ clock.unix_timestamp session.expiry_ts)
      session_expired
  require (leb_ℤ idnft.sessions_invalidated_at session.start_ts) session_invalidated
  require idnft.active_stake identity_inactive

-- `&ids[..n]`: a slice past the end panics.
unfoldable pub slice_to : List Pubkey → ℕ → Option (List Pubkey)
slice_to ids n = if leb n (length ids) then some (take n ids) else none

-- The checks of the calling program: executable, whitelisted where there is a whitelist, not blocked.
unfoldable pub check_program : SpendCall → SessionAccount → Result (Unit {0})
unfolding contains slice_to
check_program call session = do
  require call.executable program_not_allowed
  allowed ← or_panic (slice_to session.allowed_program_ids session.program_count)
  require (session.program_count == 0 || contains allowed call.calling_program) program_not_allowed
  require (elim call.app_registry [ none ↦ true | some reg ↦ not reg.blocked ]) app_blocked

-- The limits, on the session after its daily reset; a limit of 0 is none.
unfoldable pub check_limits : ℕ → SessionAccount → Result (Unit {0})
check_limits amount session = do
  require (session.velocity_limit == 0 || ltb session.tx_count_today session.velocity_limit)
      velocity_limit_exceeded
  require
      (session.daily_limit == 0
        || leb (saturating_add u64_max session.spent_today amount) session.daily_limit)
      daily_limit_exceeded
  require
      (session.lifetime_limit == 0
        || leb (saturating_add u64_max session.spent_total amount) session.lifetime_limit)
      lifetime_limit_exceeded

-- `session.spent_today += amount; …`
unfoldable pub record_spend : ℕ → SessionAccount → Result SessionAccount
record_spend amount session = do
  spent_today ← or_panic (checked_add u64_max session.spent_today amount)
  spent_total ← or_panic (checked_add u64_max session.spent_total amount)
  tx_count_today ← or_panic (checked_add u32_max session.tx_count_today 1)
  ok (record session {
    spent_today = spent_today;
    spent_total = spent_total;
    tx_count_today = tx_count_today;
  })

module _ {B : Type 0} (rt : Runtime B) where
  unfoldable pub yield_spend :
      Clock → SpendCall → ℕ → SessionAccount → Position B → Result (SessionAccount × Position B)
  yield_spend clock call amount session p = do
    require_keys_eq session.vow_state (vow_pda rt p.idnft.asset_id).0 session_inactive
    check_session clock call.session_signer p.idnft session
    check_program call session
    let session = reset_daily_if_needed session clock.unix_timestamp
    check_limits amount session
    let reserve = (reserve_pda rt).0
    require (leb amount p.idnft.yield_balance) insufficient_yield_balance
    require (leb amount (rt.lamports p.bank reserve)) insufficient_yield_balance
    session ← record_spend amount session
    bank ← transfer rt reserve call.destination amount p.bank
    ok (
      session,
      record p {
        idnft = record (p.idnft) { yield_balance = p.idnft.yield_balance - amount };
        config = record (p.config) {
          total_yield_claims = saturating_sub p.config.total_yield_claims amount;
        };
        bank = bank;
        log =
            yield_spent p.idnft.asset_id session.session_key call.calling_program amount
              call.destination
            ∷ p.log;
      },
    )
