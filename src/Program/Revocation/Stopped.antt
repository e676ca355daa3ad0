-- ===== src/Program/Revocation/Stopped.antt =====
-- What every step keeps of a session that has been stopped
-- (programs/vow/src/instructions/session/revoke_session.rs).
use vow_protocol.Prelude.{
  ℕ, ◌<◌, ◌≡◌, ◌≢◌, ◌∙◌, sym, ◌==◌, inl, inr, Bool-cases, false, Option, some, List, [], ◌∷◌, arith,
}
use vow_protocol.Prelude.Keyed.{
  Distinct, find, replace, All, All-find, All-replace, All-remove, All-map,
}
use vow_protocol.State.Errors.{ok}
use vow_protocol.State.Accounts.{Pubkey, SessionAccount, AuthorityProfile, reset_daily_if_needed}
use vow_protocol.State.Runtime.{Clock, Runtime}
use vow_protocol.State.Position.{Position}
use vow_protocol.Session.Create.{SessionParams, create_session}
use vow_protocol.Session.Revoke.{revoke_session}
use vow_protocol.Treasury.Spend.{SpendCall, record_spend, yield_spend}
use vow_protocol.Identity.Soulbound.{Handles-Continues}
use vow_protocol.Identity.Permanence.{IsRangedSlot, Survives, Steps-Survives}
use vow_protocol.Program.Sessions.{nonce_of}
use vow_protocol.Program.World.{Slot, World, asset_of, index_of, position}
use vow_protocol.Program.Process.{Instruction}
use vow_protocol.Program.Steps.{
  Touches, untouched, used, opened, stopped, dropped, Steps, minted, handled, configured, moved,
  add_slot-ok,
}
use vow_protocol.Program.Run.{apply, run, apply_inv}

-- If the session has this nonce, it is not active.
abbrev pub IsStopped : ℕ → SessionAccount → Type 0
IsStopped n s = s.creation_nonce ≡ n → s.active ≡ false

-- If the slot is that of the identity, then the nonce has been given out, and its session is stopped.
abbrev pub IsStoppedSlot : Pubkey → ℕ → Slot → Type 0
IsStoppedSlot asset n t =
    t.idnft.asset_id ≡ asset → (n < t.idnft.session_nonce) × All (IsStopped n) t.sessions

-- The identity is in the ledger, and the session of this nonce is stopped.
pub record IsFinal {B : Type 0} (asset : Pubkey) (n : ℕ) (s : Slot) (w : World B) : Type 0 where
  pub survives : Survives asset s w
  pub stopped : All (IsStoppedSlot asset n) w.slots

-- No two sessions have the same nonce: once one has been stopped, all of its nonce are.
pub replace-IsStopped :
    (index : ℕ) (s s' : SessionAccount) (ss : List SessionAccount)
    → find index_of index ss ≡ some s
    → s'.active ≡ false
    → Distinct nonce_of ss
    → All (IsStopped s.creation_nonce) (replace index_of index s' ss)
unfolding find replace
replace-IsStopped index s s' [] found off d = cc
replace-IsStopped index s s' (x ∷ xs) found off d = elim (Bool-cases (index_of x == index)) [
  | inl here ↦
      let same : x ≡ s = ground arith in
      rw here (
        (λ _. off),
        All-map (λ y. nonce_of y ≢ nonce_of x) (IsStopped s.creation_nonce) xs
            (λ y ne e. absurd (ne (rw same e))) d.0,
      )
  | inr there ↦
      let later : find index_of index xs ≡ some s = ground arith in
      rw there (
        (λ e.
            absurd (All-find index_of (λ y. nonce_of y ≢ nonce_of x) index xs s d.0 later (sym e))),
        replace-IsStopped index s s' xs later off d.1,
      )
]

-- No two identities have the same asset id.
pub replace-IsStoppedSlot :
    (asset : Pubkey) (n : ℕ) (t new : Slot) (ts : List Slot)
    → find asset_of asset ts ≡ some t
    → IsStoppedSlot asset n new
    → Distinct asset_of ts
    → All (IsStoppedSlot asset n) (replace asset_of asset new ts)
unfolding find replace
replace-IsStoppedSlot asset n t new [] found p d = cc
replace-IsStoppedSlot asset n t new (x ∷ xs) found p d = elim (Bool-cases (asset_of x == asset)) [
  | inl here ↦
      let same : asset_of x ≡ asset = ground arith in
      rw here (
        p,
        All-map (λ y. asset_of y ≢ asset_of x) (IsStoppedSlot asset n) xs
            (λ y ne e. absurd (ne (e ∙ sym same))) d.0,
      )
  | inr there ↦
      let later : find asset_of asset xs ≡ some t = ground arith in
      rw there
        ((λ e. absurd (ground (arith, e))), replace-IsStoppedSlot asset n t new xs later p d.1)
]

module _ {B : Type 0} (rt : Runtime B) (clock : Clock) where
  yield_spend-IsStopped :
      (n : ℕ) (call : SpendCall) (m : ℕ) (s s' : SessionAccount) (p q : Position B)
      → yield_spend rt clock call m s p ≡ ok (s', q)
      → IsStopped n s
      → IsStopped n s'
  unfolding yield_spend record_spend reset_daily_if_needed
  yield_spend-IsStopped n call m s s' p q h i = λ e.
      let kept : (s'.creation_nonce ≡ s.creation_nonce) × (s'.active ≡ s.active) = ground arith in
      kept.1 ∙ i (sym kept.0 ∙ e)

  create_session-nonce :
      (owner key : Pubkey) (ids : List Pubkey) (params : SessionParams) (index : ℕ)
      (profile : Option AuthorityProfile) (old : Option SessionAccount) (s' : SessionAccount)
      (p q : Position B)
      → create_session rt clock owner key ids params index profile old p ≡ ok (s', q)
      → s'.creation_nonce ≡ p.idnft.session_nonce
  unfolding create_session
  create_session-nonce owner key ids params index profile old s' p q h = ground arith

  pub revoke_session-inactive :
      (owner : Pubkey) (s s' : SessionAccount) (p q : Position B)
      → revoke_session rt owner s p ≡ ok (s', q)
      → s'.active ≡ false
  unfolding revoke_session
  revoke_session-inactive owner s s' p q h = ground arith

  Touches-IsStopped :
      (n : ℕ) (p q : Position B) (ss ss' : List SessionAccount)
      → Touches rt clock p q ss ss'
      → n < p.idnft.session_nonce
      → All (IsStopped n) ss
      → All (IsStopped n) ss'
  Touches-IsStopped n p q ss ss' (untouched e) less h = rw e h
  Touches-IsStopped n p q ss ss' (used call m index s s' found ran e) less h = rw e (
      All-replace index_of (IsStopped n) index s' ss h (
        yield_spend-IsStopped n call m s s' p q ran
          (All-find index_of (IsStopped n) index ss s h found)))
  Touches-IsStopped n p q ss ss' (opened owner key ids params index profile s' ran e) less h =
      let nonce = create_session-nonce owner key ids params index profile _ s' p q ran in
      rw e ((λ same. absurd (omega (arith, nonce, same, less))), h)
  Touches-IsStopped n p q ss ss' (stopped owner index s s' found ran e) less h = rw e (
      All-replace index_of (IsStopped n) index s' ss h
        (λ _. revoke_session-inactive owner s s' p q ran))
  Touches-IsStopped n p q ss ss' (dropped index e) less h =
      rw e (All-remove index_of (IsStopped n) index ss h)

  Steps-IsFinal :
      (asset : Pubkey) (n : ℕ) (s : Slot) (w w' : World B)
      → Steps rt clock w w'
      → IsFinal asset n s w
      → IsFinal asset n s w'
  Steps-IsFinal asset n s w w' step f = record {
    survives = Steps-Survives rt clock asset s w w' step f.survives;
    stopped = by_step step;
  }
    where
      by_step : Steps rt clock w w' → All (IsStoppedSlot asset n) w'.slots
      by_step (minted owner m mode p ran added) =
          let (absent, e) = add_slot-ok p w w' added in
          rw e (
            (λ same.
                let found : find asset_of p.idnft.asset_id w.slots ≡ some f.survives.slot =
                  rw same f.survives.found in
                let clash : ⊥ = ground (arith, absent, found) in absurd clash),
            f.stopped,
          )
      by_step (handled k t sessions p found step _ touch e) =
          let new : Slot = record { idnft = p.idnft; escrow = p.escrow; sessions = sessions } in
          let (c, r) =
            Handles-Continues rt clock (position w t) p step
              (All-find asset_of IsRangedSlot k w.slots t f.survives.ranged found) in
          rw e (
            All-replace asset_of (IsStoppedSlot asset n) k new w.slots f.stopped (λ same.
              let old =
                All-find asset_of (IsStoppedSlot asset n) k w.slots t f.stopped found
                  (sym c.asset_id ∙ same) in
              (
                omega (arith, old.0, c.session_nonce),
                Touches-IsStopped n (position w t) p t.sessions sessions touch old.0 old.1,
              )))
      by_step (configured config log step e) = rw e f.stopped
      by_step (moved bank _ e) = rw e f.stopped

module _ {B : Type 0} (rt : Runtime B) where
  pub run-IsFinal :
      (is : List (Clock × Instruction B)) (asset : Pubkey) (n : ℕ) (s : Slot) (w : World B)
      → IsFinal asset n s w
      → IsFinal asset n s (run rt is w)
  unfolding run
  run-IsFinal [] asset n s w f = f
  run-IsFinal ((clock, i) ∷ is) asset n s w f = run-IsFinal is asset n s (apply rt clock i w) (
      apply_inv rt (IsFinal asset n s) clock i w
        (λ w' _ step. Steps-IsFinal rt clock asset n s w w' step f) f)
