-- ===== src/Identity/Permanence.antt =====
-- An identity is never lost: over any history it is found under its asset id, as its own successor.
use vow_protocol.Prelude.{ℕ, ◌≡◌, ◌∙◌, inl, inr, some, List, [], ◌∷◌, arith, Bool-cases, ◌==◌}
use vow_protocol.Prelude.Keyed.{
  find, find-key, find-replace_self, find-replace_ne, All, All-find, All-replace,
}
use vow_protocol.State.Errors.{ok}
use vow_protocol.State.Accounts.{Pubkey, YieldMode, SessionAccount, ProtocolConfig}
use vow_protocol.State.Events.{Event}
use vow_protocol.State.Runtime.{Clock, Runtime}
use vow_protocol.State.Position.{Position}
use vow_protocol.Vow.Mint.{mint}
use vow_protocol.Program.World.{Slot, World, asset_of, position, store}
use vow_protocol.Program.Process.{Instruction, add_slot}
use vow_protocol.Program.Steps.{Steps, minted, handled, configured, moved, add_slot-ok}
use vow_protocol.Program.Run.{apply, run, apply_inv}
use vow_protocol.Identity.Soulbound.{IsRanged, Continues, Continues-refl, Handles-Continues}

abbrev pub IsRangedSlot : Slot → Type 0
IsRangedSlot s = IsRanged s.idnft

module _ {B : Type 0} where
  -- The identity `s` is in the ledger, at an equal or later state, and all counters are in range.
  pub record Survives (asset : Pubkey) (s : Slot) (w : World B) : Type 0 where
    pub slot : Slot
    pub found : find asset_of asset w.slots ≡ some slot
    pub continues : Continues s.idnft slot.idnft
    pub ranged : All IsRangedSlot w.slots

  store-Survives :
      (asset : Pubkey) (s : Slot) (k : Pubkey) (t : Slot) (sessions : List SessionAccount)
      (p : Position B) (w : World B)
      → find asset_of k w.slots ≡ some t
      → Continues t.idnft p.idnft
      → IsRanged p.idnft
      → Survives asset s w
      → Survives asset s (store k sessions p w)
  store-Survives asset s k t sessions p w e c r v = elim (Bool-cases (k == asset)) [
    | inl same ↦ record {
      slot = new;
      found =
          ground
            (arith, find-replace_self asset_of k new t w.slots e, find-key asset_of k w.slots t e);
      continues = ground (arith, v.found, v.continues);
      ranged = All-replace asset_of IsRangedSlot k new w.slots v.ranged r;
    }
    | inr other ↦ record {
      slot = v.slot;
      found =
          find-replace_ne asset_of k asset new w.slots (ground arith)
            (ground (arith, find-key asset_of k w.slots t e))
          ∙ v.found;
      continues = v.continues;
      ranged = All-replace asset_of IsRangedSlot k new w.slots v.ranged r;
    }
  ]
    where
      new : Slot
      new = record { idnft = p.idnft; escrow = p.escrow; sessions = sessions }

  mint-Survives :
      (asset : Pubkey) (s : Slot) (w w' : World B) (p : Position B)
      → add_slot p w ≡ ok w'
      → IsRanged p.idnft
      → Survives asset s w
      → Survives asset s w'
  unfolding add_slot find
  mint-Survives asset s w w' p added r v = record {
    slot = v.slot;
    found = ground (arith, v.found);
    continues = v.continues;
    ranged = rw (add_slot-ok p w w' added).1 (r, v.ranged);
  }

module _ {B : Type 0} (rt : Runtime B) (clock : Clock) where
  pub mint-IsRanged :
      (owner n : ℕ) (mode : YieldMode) (p : Position B) (c : ProtocolConfig) (b : B)
      (log : List Event)
      → mint rt clock owner n mode c b log ≡ ok p
      → IsRanged p.idnft
  unfolding mint
  mint-IsRanged owner n mode p c b log h = ground arith

  pub Steps-Survives :
      (asset : Pubkey) (s : Slot) (w w' : World B)
      → Steps rt clock w w'
      → Survives asset s w
      → Survives asset s w'
  Steps-Survives asset s w w' (minted owner n mode p ran added) v =
      mint-Survives asset s w w' p added (mint-IsRanged owner n mode p w.config w.bank w.log ran) v
  Steps-Survives asset s w w' (handled k t sessions p found step _ _ e) v =
      let (c, r) =
        Handles-Continues rt clock (position w t) p step
          (All-find asset_of IsRangedSlot k w.slots t v.ranged found) in
      rw e (store-Survives asset s k t sessions p w found c r v)
  Steps-Survives asset s w w' (configured config log step e) v =
      rw e (record { slot = v.slot; found = v.found; continues = v.continues; ranged = v.ranged })
  Steps-Survives asset s w w' (moved bank _ e) v =
      rw e (record { slot = v.slot; found = v.found; continues = v.continues; ranged = v.ranged })

module _ {B : Type 0} (rt : Runtime B) where
  run-Survives :
      (is : List (Clock × Instruction B)) (asset : Pubkey) (s : Slot) (w : World B)
      → Survives asset s w
      → Survives asset s (run rt is w)
  unfolding run
  run-Survives [] asset s w v = v
  run-Survives ((clock, i) ∷ is) asset s w v = run-Survives is asset s (apply rt clock i w) (
      apply_inv rt (Survives asset s) clock i w
        (λ w' _ step. Steps-Survives rt clock asset s w w' step v) v)

  -- Whatever transactions follow, an identity in the ledger is found under its asset id ever
  -- after: its owner, mint nonce and dates of creation and first stake are the same, and its
  -- commitments, fulfilments, stake days, harvested yield, highest class and session nonce are no
  -- smaller. (The counters and yield balances of all identities are supposed to be within their
  -- machine types at first.)
  pub run-Continues :
      (is : List (Clock × Instruction B)) (asset : Pubkey) (s : Slot) (w : World B)
      → find asset_of asset w.slots ≡ some s
      → All IsRangedSlot w.slots
      → (t : Slot) × (find asset_of asset (run rt is w).slots ≡ some t) × Continues s.idnft t.idnft
  run-Continues is asset s w e r =
      let v : Survives asset s (run rt is w) =
        run-Survives is asset s w
          (record { slot = s; found = e; continues = Continues-refl s.idnft; ranged = r }) in
      (v.slot, v.found, v.continues)
