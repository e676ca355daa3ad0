-- ===== src/Program/Sessions.antt =====
-- The sessions of the ledger over histories: what each one has spent, whose it is, and its nonce
-- (programs/vow/src/state/session_account.rs).
use vow_protocol.Prelude.{
  ℕ, ◌+◌, ◌-◌, ◌≤◌, ◌<◌, ◌≡◌, ◌≢◌, refl, Option, some, List, [], ◌∷◌, arith, length, replicate,
  length-append, length-replicate,
}
use vow_protocol.Prelude.Keyed.{
  find, replace, All, All-find, All-replace, All-remove, All-map, Distinct, Distinct-replace,
  Distinct-remove,
}
use vow_protocol.State.Errors.{ok}
use vow_protocol.State.Accounts.{
  Pubkey, VowState, SessionAccount, AuthorityProfile, max_program_ids, default_key,
  reset_daily_if_needed,
}
use vow_protocol.State.Runtime.{Clock, Runtime, vow_pda}
use vow_protocol.State.Position.{Position}
use vow_protocol.Session.Create.{SessionParams, fill_program_ids, create_session}
use vow_protocol.Session.Revoke.{revoke_session}
use vow_protocol.Treasury.Spend.{SpendCall, record_spend, yield_spend}
use vow_protocol.Treasury.Spend.Authority.{IsWithinLimits, yield_spend-IsWithinLimits}
use vow_protocol.Identity.Soulbound.{Continues, Handles-Continues}
use vow_protocol.Identity.Permanence.{IsRangedSlot, mint-IsRanged}
use vow_protocol.Program.World.{Slot, World, asset_of, index_of, position}
use vow_protocol.Program.Process.{Instruction}
use vow_protocol.Program.Steps.{
  Touches, untouched, used, opened, stopped, dropped, Steps, minted, handled, configured, moved,
  add_slot-ok,
}
use vow_protocol.Program.Run.{apply, run, apply_inv}

abbrev pub nonce_of : SessionAccount → ℕ
nonce_of s = s.creation_nonce

module _ {B : Type 0} (rt : Runtime B) where
  -- A session in the account list of the identity `v`: it belongs to it, has room for eight programs
  -- of which the first `program_count` count, is within its limits, and has a nonce that was given out.
  pub record IsSound (v : VowState) (s : SessionAccount) : Type 0 where
    pub owned : s.vow_state ≡ (vow_pda rt v.asset_id).0
    pub slots : length s.allowed_program_ids ≡ max_program_ids
    pub count : s.program_count ≤ max_program_ids
    pub limits : IsWithinLimits s
    pub nonce : s.creation_nonce < v.session_nonce

  IsSound-later : (v w : VowState) (s : SessionAccount) → Continues v w → IsSound v s → IsSound w s
  IsSound-later v w s c h = record {
    owned = rw c.asset_id h.owned;
    slots = h.slots;
    count = h.count;
    limits = h.limits;
    nonce = omega (arith, c.session_nonce, h.nonce);
  }

  yield_spend-IsSound :
      (clock : Clock) (call : SpendCall) (n : ℕ) (s s' : SessionAccount) (p q : Position B)
      → yield_spend rt clock call n s p ≡ ok (s', q)
      → IsSound p.idnft s
      → IsSound q.idnft s' × (s'.creation_nonce ≡ s.creation_nonce)
  unfolding yield_spend record_spend reset_daily_if_needed
  yield_spend-IsSound clock call n s s' p q h i =
      let limits = yield_spend-IsWithinLimits rt clock call n s s' p q h in
      (
        record {
          owned = ground arith;
          slots = ground arith;
          count = ground arith;
          limits = limits;
          nonce = ground arith;
        },
        ground arith,
      )

  length-fill_program_ids :
      (ids : List Pubkey)
      → length ids ≤ max_program_ids
      → length (fill_program_ids ids) ≡ max_program_ids
  unfolding fill_program_ids
  length-fill_program_ids ids h = omega (
    arith,
    length-append {0} ids (replicate (max_program_ids - length ids) default_key),
    length-replicate {0} (max_program_ids - length ids) default_key,
  )

  create_session-IsSound :
      (clock : Clock) (owner key : Pubkey) (ids : List Pubkey) (params : SessionParams) (index : ℕ)
      (profile : Option AuthorityProfile) (old : Option SessionAccount) (s' : SessionAccount)
      (p q : Position B)
      → create_session rt clock owner key ids params index profile old p ≡ ok (s', q)
      → IsSound q.idnft s'
        × (s'.creation_nonce ≡ p.idnft.session_nonce)
        × (q.idnft.session_nonce ≡ p.idnft.session_nonce + 1)
        × (q.idnft.asset_id ≡ p.idnft.asset_id)
  unfolding create_session
  create_session-IsSound clock owner key ids params index profile old s' p q h =
      ground (arith, length-fill_program_ids ids)

  revoke_session-IsSound :
      (owner : Pubkey) (s s' : SessionAccount) (p q : Position B)
      → revoke_session rt owner s p ≡ ok (s', q)
      → IsSound p.idnft s
      → IsSound q.idnft s' × (s'.creation_nonce ≡ s.creation_nonce)
  unfolding revoke_session
  revoke_session-IsSound owner s s' p q h i = ground arith

  -- The sessions of one identity are sound, and no two have the same nonce.
  abbrev pub AreSound : VowState → List SessionAccount → Type 0
  AreSound v ss = All (IsSound v) ss × Distinct nonce_of ss

  abbrev pub IsSoundSlot : Slot → Type 0
  IsSoundSlot t = AreSound t.idnft t.sessions

  below-ne :
      (v : VowState) (n : ℕ) (ss : List SessionAccount)
      → v.session_nonce ≡ n
      → All (IsSound v) ss
      → All (λ s. s.creation_nonce ≢ n) ss
  below-ne v n [] e h = tt
  below-ne v n (s ∷ ss) e h = (omega (arith, h.0.nonce), below-ne v n ss e h.1)

  replace-AreSound :
      (v w : VowState) (index : ℕ) (s s' : SessionAccount) (ss : List SessionAccount)
      → find index_of index ss ≡ some s
      → Continues v w
      → IsSound w s' × (s'.creation_nonce ≡ s.creation_nonce)
      → AreSound v ss
      → AreSound w (replace index_of index s' ss)
  replace-AreSound v w index s s' ss e c h all = (
    All-replace index_of (IsSound w) index s' ss
        (All-map (IsSound v) (IsSound w) ss (λ t. IsSound-later v w t c) all.0) h.0,
    Distinct-replace index_of nonce_of index s' s ss e h.1 all.1,
  )

  Touches-AreSound :
      (clock : Clock) (p q : Position B) (ss ss' : List SessionAccount)
      → Touches rt clock p q ss ss'
      → Continues p.idnft q.idnft
      → AreSound p.idnft ss
      → AreSound q.idnft ss'
  Touches-AreSound clock p q ss ss' (untouched e) c h = rw e (
    All-map (IsSound p.idnft) (IsSound q.idnft) ss (λ t. IsSound-later p.idnft q.idnft t c) h.0,
    h.1,
  )
  Touches-AreSound clock p q ss ss' (used call n index s s' found ran e) c h = rw e (
      replace-AreSound p.idnft q.idnft index s s' ss found c
        (yield_spend-IsSound clock call n s s' p q ran
          (All-find index_of (IsSound p.idnft) index ss s h.0 found))
        h)
  Touches-AreSound clock p q ss ss' (opened owner key ids params index profile s' ran e) c h =
      let (sound, nonce, next, asset) =
        create_session-IsSound clock owner key ids params index profile _ s' p q ran in
      rw e (
        (
          sound,
          All-map (IsSound p.idnft) (IsSound q.idnft) ss (λ t. IsSound-later p.idnft q.idnft t c)
              h.0,
        ),
        (rw nonce (below-ne p.idnft p.idnft.session_nonce ss refl h.0), h.1),
      )
  Touches-AreSound clock p q ss ss' (stopped owner index s s' found ran e) c h = rw e (
      replace-AreSound p.idnft q.idnft index s s' ss found c
        (revoke_session-IsSound owner s s' p q ran
          (All-find index_of (IsSound p.idnft) index ss s h.0 found))
        h)
  Touches-AreSound clock p q ss ss' (dropped index e) c h = rw e (
    All-remove index_of (IsSound q.idnft) index ss (
        All-map (IsSound p.idnft) (IsSound q.idnft) ss (λ t. IsSound-later p.idnft q.idnft t c)
          h.0),
    Distinct-remove index_of nonce_of index ss h.1,
  )

  -- The counters are in range, and the sessions of every identity are sound.
  pub record HasSoundSessions (w : World B) : Type 0 where
    pub ranged : All IsRangedSlot w.slots
    pub sessions : All IsSoundSlot w.slots

  pub Steps-HasSoundSessions :
      (clock : Clock) (w w' : World B)
      → Steps rt clock w w'
      → HasSoundSessions w
      → HasSoundSessions w'
  Steps-HasSoundSessions clock w w' (minted owner n mode p ran added) h =
      rw (add_slot-ok p w w' added).1 (record {
        ranged = (mint-IsRanged rt clock owner n mode p w.config w.bank w.log ran, h.ranged);
        sessions = ((tt, tt), h.sessions);
      })
  Steps-HasSoundSessions clock w w' (handled k t sessions p found step _ touch e) h =
      let (c, r) =
        Handles-Continues rt clock (position w t) p step
          (All-find asset_of IsRangedSlot k w.slots t h.ranged found) in
      let new : Slot = record { idnft = p.idnft; escrow = p.escrow; sessions = sessions } in
      rw e (record {
        ranged = All-replace asset_of IsRangedSlot k new w.slots h.ranged r;
        sessions = All-replace asset_of IsSoundSlot k new w.slots h.sessions (
            Touches-AreSound clock (position w t) p t.sessions sessions touch c
              (All-find asset_of IsSoundSlot k w.slots t h.sessions found));
      })
  Steps-HasSoundSessions clock w w' (configured config log step e) h =
      rw e (record { ranged = h.ranged; sessions = h.sessions })
  Steps-HasSoundSessions clock w w' (moved bank _ e) h =
      rw e (record { ranged = h.ranged; sessions = h.sessions })

  -- Over any history, from a ledger where this holds: every session in an identity's list belongs to
  -- that identity, has eight program slots of which at most eight count, is within its limits (of the
  -- day, of its life, and of transactions), and no two sessions of an identity have the same creation
  -- nonce. (The counters of the identities are supposed to be within their machine types at first.)
  pub run-HasSoundSessions :
      (is : List (Clock × Instruction B)) (w : World B)
      → HasSoundSessions w
      → HasSoundSessions (run rt is w)
  unfolding run
  run-HasSoundSessions [] w h = h
  run-HasSoundSessions ((clock, i) ∷ is) w h = run-HasSoundSessions is (apply rt clock i w) (
      apply_inv rt HasSoundSessions clock i w
        (λ w' _ step. Steps-HasSoundSessions clock w w' step h) h)
