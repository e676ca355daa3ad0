-- ===== src/Program/Revocation.antt =====
-- A revoked session is revoked for ever (programs/vow/src/instructions/session/revoke_session.rs).
pub mod Stopped
use vow_protocol.Prelude.{
  ℕ, ◌<◌, ◌≡◌, ◌≢◌, ◌∙◌, sym, refl, ◌==◌, inl, inr, Bool-cases, Bool, true, false, Option, some,
  none, List, [], ◌∷◌, arith,
}
use vow_protocol.Prelude.Keyed.{
  Distinct, find, replace, All, All-find, All-replace, All-remove, All-map, find-key,
}
use vow_protocol.State.Errors.{Result, ok, >>=-eq-ok}
use vow_protocol.State.Accounts.{
  Pubkey, VowState, SessionAccount, AuthorityProfile, reset_daily_if_needed,
}
use vow_protocol.State.Runtime.{Clock, Runtime}
use vow_protocol.State.Position.{Position}
use vow_protocol.Session.Create.{SessionParams, create_session}
use vow_protocol.Session.Revoke.{revoke_session}
use vow_protocol.Treasury.Spend.{SpendCall, record_spend, yield_spend}
use vow_protocol.Treasury.Spend.Authority.{yield_spend-IsLive}
use vow_protocol.Identity.Soulbound.{Continues, Continues-refl, Handles-Continues}
use vow_protocol.Identity.Permanence.{IsRangedSlot, Survives, Steps-Survives}
use vow_protocol.Program.Sessions.{nonce_of, IsSound, IsSoundSlot}
use vow_protocol.Program.World.{Slot, World, asset_of, index_of, position, store, on_session}
use vow_protocol.Program.Process.{Instruction, revokes_session, spends, process}
use vow_protocol.Program.Steps.{
  Touches, untouched, used, opened, stopped, dropped, Steps, minted, handled, configured, moved,
  add_slot-ok,
}
use vow_protocol.Program.Steps.Process.{process-Steps}
use vow_protocol.Program.Run.{apply, run, apply_inv}
use vow_protocol.Program.Revocation.Stopped.{
  IsStopped, IsStoppedSlot, IsFinal, replace-IsStopped, replace-IsStoppedSlot,
  revoke_session-inactive, run-IsFinal,
}

module _ {B : Type 0} where
  pub on_session-ok :
      (asset : Pubkey) (index : ℕ)
      (handler : SessionAccount → Position B → Result (SessionAccount × Position B))
      (w w' : World B) (t : Slot) (s : SessionAccount)
      → find asset_of asset w.slots ≡ some t
      → find index_of index t.sessions ≡ some s
      → on_session asset index handler w ≡ ok w'
      → (x : SessionAccount × Position B) × (handler s (position w t) ≡ ok x)
        × (w' ≡ store asset (replace index_of index (x.0) t.sessions) (x.1) w)
  unfolding on_session
  on_session-ok asset index handler w w' t s found at_index h =
      let h1 = rw found at h in
      let h2 = rw at_index at h1 in
      let (x, ran, h3) = >>=-eq-ok (handler s (position w t)) _ h2 in (x, ran, ground arith)

module _ {B : Type 0} (rt : Runtime B) where
  revoke_session-idnft :
      (owner : Pubkey) (s s' : SessionAccount) (p q : Position B)
      → revoke_session rt owner s p ≡ ok (s', q)
      → q.idnft ≡ p.idnft
  unfolding revoke_session
  revoke_session-idnft owner s s' p q h = ground arith

  revoked-IsFinal :
      (clock : Clock) (owner asset : Pubkey) (index : ℕ) (w w' : World B) (t : Slot)
      (s : SessionAccount)
      → find asset_of asset w.slots ≡ some t
      → find index_of index t.sessions ≡ some s
      → Distinct asset_of w.slots
      → All IsRangedSlot w.slots
      → IsSoundSlot rt t
      → process rt clock (revokes_session asset owner index) w ≡ ok w'
      → IsFinal asset s.creation_nonce t w'
  unfolding process
  revoked-IsFinal clock owner asset index w w' t s found at_index distinct ranged sound h =
      let ((s', p), ran, e) =
        on_session-ok asset index (revoke_session rt owner) w w' t s found at_index h in
      let new : Slot = record {
        idnft = p.idnft;
        escrow = p.escrow;
        sessions = replace index_of index s' t.sessions;
      } in
      let given =
        (All-find index_of (IsSound rt t.idnft) index t.sessions s sound.0 at_index).nonce in
      let same = revoke_session-idnft owner s s' (position w t) p ran in
      record {
        survives =
            Steps-Survives rt clock asset t w w'
              (process-Steps rt clock (revokes_session asset owner index) w w' h)
              (record {
                slot = t;
                found = found;
                continues = Continues-refl t.idnft;
                ranged = ranged;
              });
        stopped = rw e (
            replace-IsStoppedSlot asset s.creation_nonce t new w.slots found
              (λ _. (
                rw same given,
                replace-IsStopped index s s' t.sessions at_index
                    (revoke_session-inactive rt clock owner s s' (position w t) p ran) sound.1,
              ))
              distinct);
      }

  -- Once a session has been revoked, no later spend from it succeeds: after any history, whatever its
  -- transactions, a spend from a session of the identity that has the revoked one's creation nonce, and at
  -- whatever index it stands, is refused. (At the revocation no two identities have the same
  -- asset id, the identities' counters are within their machine types, and the identity's sessions are
  -- sound: they have nonces of their own that were given out.)
  pub run-revoked :
      (is : List (Clock × Instruction B)) (clock later : Clock) (owner asset : Pubkey)
      (index index' m : ℕ) (call : SpendCall) (w w' w'' : World B) (t t' : Slot)
      (s s' : SessionAccount)
      → find asset_of asset w.slots ≡ some t
      → find index_of index t.sessions ≡ some s
      → Distinct asset_of w.slots
      → All IsRangedSlot w.slots
      → IsSoundSlot rt t
      → process rt clock (revokes_session asset owner index) w ≡ ok w'
      → find asset_of asset (run rt is w').slots ≡ some t'
      → find index_of index' t'.sessions ≡ some s'
      → s'.creation_nonce ≡ s.creation_nonce
      → process rt later (spends asset index' call m) (run rt is w') ≢ ok w''
  unfolding process
  run-revoked is clock later owner asset index index' m call w w' w'' t t' s s' found at_index
        distinct ranged sound h found' at_index' nonce spent =
      let f =
        run-IsFinal rt is asset s.creation_nonce t w' (
          revoked-IsFinal clock owner asset index w w' t s found at_index distinct ranged sound
            h) in
      let last = run rt is w' in
      let ((s2, p), ran, _) =
        on_session-ok asset index' (yield_spend rt later call m) last w'' t' s' found' at_index'
          spent in
      let (_, live) = yield_spend-IsLive rt later call m s' s2 (position last t') p ran in
      let (_, off_all) =
        All-find asset_of (IsStoppedSlot asset s.creation_nonce) asset last.slots t' f.stopped
          found' (find-key asset_of asset last.slots t' found') in
      let off =
        All-find index_of (IsStopped s.creation_nonce) index' t'.sessions s' off_all at_index'
          nonce in
      ground (arith, live.active, off)
