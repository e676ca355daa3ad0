-- ===== src/Identity/Untouched.antt =====
-- Histories that neither the owner of an identity nor a session key of it signs
-- (programs/vow/src/lib.rs).
use vow_protocol.Prelude.{ℕ, ◌≤◌, ◌≡◌, ◌≢◌, refl, ◌∙◌, inl, inr, Option, some, List, [], ◌∷◌, arith}
use vow_protocol.Prelude.Keyed.{find, find-key, find-replace, All, All-find, All-map, All-replace}
use vow_protocol.State.Errors.{ok}
use vow_protocol.State.Accounts.{Pubkey, SessionAccount}
use vow_protocol.State.Runtime.{Clock, Runtime}
use vow_protocol.State.Position.{Position}
use vow_protocol.Identity.Soulbound.{IsRanged, Handles-Continues}
use vow_protocol.Identity.Permanence.{IsRangedSlot, mint-IsRanged}
use vow_protocol.Identity.Strangers.{
  Unharmed, Unharmed-trans, IsStranger, Handles-Unharmed, Touches-keys,
}
use vow_protocol.Program.World.{Slot, World, asset_of, position, store}
use vow_protocol.Program.Process.{Instruction, add_slot}
use vow_protocol.Program.Steps.{
  Handles, IsListed, Touches, Steps, minted, handled, configured, moved, add_slot-ok,
}
use vow_protocol.Program.Steps.Process.Signers.{signer, handler_signer, step_signer, apply_signed}
use vow_protocol.Program.Run.{apply, run, Throughout}

module _ (owner : Pubkey) (Key : Pubkey → Type 0) where
  -- The signature is neither the owner's nor by one of the keys.
  pub record IsForeign (who : Option Pubkey) : Type 0 where
    pub not_owner : who ≢ some owner
    pub no_key : (k : Pubkey) → Key k → who ≢ some k

  IsForeign-IsStranger :
      (who : Option Pubkey) (ss : List SessionAccount)
      → IsForeign who
      → All (λ s. Key s.session_key) ss
      → IsStranger owner ss who
  IsForeign-IsStranger who ss f h = record {
    not_owner = f.not_owner;
    no_key =
        All-map (λ s. Key s.session_key) (λ s. who ≢ some (s.session_key)) ss
          (λ s k. f.no_key (s.session_key) k) h;
  }

module _ {B : Type 0} (Key : Pubkey → Type 0) (price : ℕ) where
  -- The identity `s` is in the ledger, unharmed, with the same escrow and with no new session key.
  pub record IsSafe (asset : Pubkey) (s : Slot) (w : World B) : Type 0 where
    pub slot : Slot
    pub found : find asset_of asset w.slots ≡ some slot
    pub unharmed : Unharmed price s.idnft slot.idnft
    pub escrow : slot.escrow ≡ s.escrow
    pub keys : All (λ t. Key t.session_key) slot.sessions
    pub ranged : All IsRangedSlot w.slots

-- The share price is this or more.
abbrev pub IsPricedFrom : {B : Type 0} → ℕ → World B → Type 0
IsPricedFrom price w = price ≤ w.config.current_share_price

module _ {B : Type 0} (rt : Runtime B) (Key : Pubkey → Type 0) (price : ℕ) (asset : Pubkey)
    (s : Slot) where
  handled-IsSafe :
      (clock : Clock) (k : Pubkey) (t : Slot) (sessions : List SessionAccount) (p : Position B)
      (w : World B)
      → find asset_of k w.slots ≡ some t
      → (step : Handles rt clock (position w t) p) → IsListed rt clock t.sessions step
      → Touches rt clock (position w t) p t.sessions sessions
      → IsForeign s.idnft.owner Key (handler_signer rt clock step)
      → IsPricedFrom price w
      → IsSafe Key price asset s w
      → IsSafe Key price asset s (store k sessions p w)
  handled-IsSafe clock k t sessions p w found step listed touch f low v =
      let ranged_t = All-find asset_of IsRangedSlot k w.slots t v.ranged found in
      let (c, r) = Handles-Continues rt clock (position w t) p step ranged_t in
      let new : Slot = record { idnft = p.idnft; escrow = p.escrow; sessions = sessions } in
      let ranged = All-replace asset_of IsRangedSlot k new w.slots v.ranged r in
      let key_of_new : asset_of new ≡ k = c.asset_id ∙ find-key asset_of k w.slots t found in
      elim (find-replace asset_of k asset new t v.slot w.slots found key_of_new v.found) [
        | inl (same, at) ↦
            let keys : All (λ x. Key x.session_key) t.sessions = rw same v.keys in
            let before : Unharmed price s.idnft t.idnft = rw same v.unharmed in
            let st =
              IsForeign-IsStranger t.idnft.owner Key (handler_signer rt clock step) t.sessions
                (rw before.owner f) keys in
            let (u, e) =
              Handles-Unharmed rt clock price (position w t) p t.sessions step listed st ranged_t
                low in
            record {
              slot = new;
              found = at;
              unharmed = Unharmed-trans price s.idnft t.idnft p.idnft before u;
              escrow = ground (arith, e, same, v.escrow);
              keys =
                  Touches-keys rt clock Key (position w t) p t.sessions sessions touch u.nonce keys;
              ranged = ranged;
            }
        | inr at ↦ record {
          slot = v.slot;
          found = at;
          unharmed = v.unharmed;
          escrow = v.escrow;
          keys = v.keys;
          ranged = ranged;
        }
      ]

  minted-IsSafe :
      (w w' : World B) (p : Position B)
      → add_slot p w ≡ ok w'
      → IsRanged p.idnft
      → IsSafe Key price asset s w
      → IsSafe Key price asset s w'
  unfolding add_slot find
  minted-IsSafe w w' p added r v = record {
    slot = v.slot;
    found = ground (arith, v.found);
    unharmed = v.unharmed;
    escrow = v.escrow;
    keys = v.keys;
    ranged = rw (add_slot-ok p w w' added).1 (r, v.ranged);
  }

  Steps-IsSafe :
      (clock : Clock) (w w' : World B) (step : Steps rt clock w w')
      → IsForeign s.idnft.owner Key (step_signer rt clock step)
      → IsPricedFrom price w
      → IsSafe Key price asset s w
      → IsSafe Key price asset s w'
  Steps-IsSafe clock w w' (minted owner n mode p ran added) f low v =
      minted-IsSafe w w' p added (mint-IsRanged rt clock owner n mode p w.config w.bank w.log ran) v
  Steps-IsSafe clock w w' (handled k t sessions p found step listed touch e) f low v =
      rw e (handled-IsSafe clock k t sessions p w found step listed touch f low v)
  Steps-IsSafe clock w w' (configured config log step e) f low v = rw e (record {
    slot = v.slot;
    found = v.found;
    unharmed = v.unharmed;
    escrow = v.escrow;
    keys = v.keys;
    ranged = v.ranged;
  })
  Steps-IsSafe clock w w' (moved bank _ e) f low v = rw e (record {
    slot = v.slot;
    found = v.found;
    unharmed = v.unharmed;
    escrow = v.escrow;
    keys = v.keys;
    ranged = v.ranged;
  })

  -- Every transaction of the history is signed by a stranger, or by nobody.
  abbrev pub ByStrangers : List (Clock × Instruction B) → Type 0
  ByStrangers [] = Unit
  ByStrangers ((clock, i) ∷ is) = IsForeign s.idnft.owner Key (signer i) × ByStrangers is

  run-IsSafe :
      (is : List (Clock × Instruction B)) (w : World B)
      → ByStrangers is
      → Throughout rt (IsPricedFrom price) is w
      → IsSafe Key price asset s w
      → IsSafe Key price asset s (run rt is w)
  unfolding run
  run-IsSafe [] w f low v = v
  run-IsSafe ((clock, i) ∷ is) w f low v = run-IsSafe is (apply rt clock i w) f.1 low.1 (
      apply_signed rt (IsSafe Key price asset s) clock i w
        (λ w' step e. Steps-IsSafe clock w w' step (rw e f.0) low.0 v) v)

  -- Take a set of keys that has those of all sessions of an identity, and a share price. Over any history
  -- in which neither the identity's owner nor one of these keys signs, and the config's share price is
  -- never below that price, the identity keeps its owner, principal, class, yield mode, stake, escrow,
  -- session nonce and time of invalidation; its yield balance does not fall and its shares do not grow;
  -- its shares at that price and its yield balance are together worth no less than before, unless the yield
  -- balance is full; and it gets no session with another key. (The counters of all identities are
  -- supposed to be within their machine types at first.)
  pub run-Unharmed :
      (is : List (Clock × Instruction B)) (w : World B)
      → find asset_of asset w.slots ≡ some s
      → All IsRangedSlot w.slots
      → All (λ t. Key t.session_key) s.sessions
      → ByStrangers is
      → Throughout rt (IsPricedFrom price) is w
      → (t : Slot) × (find asset_of asset (run rt is w).slots ≡ some t)
        × Unharmed price s.idnft t.idnft
        × (t.escrow ≡ s.escrow)
        × All (λ x. Key x.session_key) t.sessions
  run-Unharmed is w found ranged keys f low =
      let v : IsSafe Key price asset s (run rt is w) = run-IsSafe is w f low (record {
        slot = s;
        found = found;
        unharmed = ground arith;
        escrow = refl;
        keys = keys;
        ranged = ranged;
      }) in
      (v.slot, v.found, v.unharmed, v.escrow, v.keys)
