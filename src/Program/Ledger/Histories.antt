-- ===== src/Program/Ledger/Histories.antt =====
-- Histories of all entry points of programs/vow/src/lib.rs, and what the theorems on identities and
-- sessions become over them.
use vow_protocol.Prelude.{◌≡◌, refl, inl, inr, some, none, Option, List, [], ◌∷◌, arith, Bool-cases}
use vow_protocol.Prelude.Keyed.{find, All}
use vow_protocol.State.Errors.{Result, ok, err, >>=-eq-ok}
use vow_protocol.State.Accounts.{Pubkey, ProtocolConfig}
use vow_protocol.State.Runtime.{Clock, Runtime}
use vow_protocol.Program.World.{Slot, World, asset_of}
use vow_protocol.Program.Process.{Instruction, process}
use vow_protocol.Program.Steps.{Steps}
use vow_protocol.Program.Steps.Process.{process-Steps}
use vow_protocol.Program.Sessions.{IsSoundSlot, Steps-HasSoundSessions}
use vow_protocol.Identity.Soulbound.{Continues, Continues-refl}
use vow_protocol.Identity.Permanence.{IsRangedSlot, Survives, Steps-Survives}
use vow_protocol.Identity.Tier.{HasTierSlot, Steps-HasTier}
use vow_protocol.Program.Ledger.{
  Ledger, Layout, Entry, runs, initializes, closes_config, registers_app, verifies_app, blocks_app,
  creates_profile, updates_profile, closes_profile, records_commitment, records_fulfillment, world,
  names_config, no_config, written, load_accounts,
}
use vow_protocol.Program.Ledger.Execute.{
  run_instruction, run_commitment, run_fulfillment, execute, or_kept, attempt,
}

module _ {B : Type 0} (rt : Runtime B) (layout : Layout) where
  unfoldable pub run_ledger : List (Clock × Entry B) → Ledger B → Ledger B
  run_ledger [] l = l
  run_ledger ((clock, e) ∷ es) l = run_ledger es (attempt rt layout clock e l)

  pub attempt_inv :
      (P : Ledger B → Type 0) (clock : Clock) (e : Entry B) (l : Ledger B)
      → ((l' : Ledger B) → execute rt layout clock e l ≡ ok l' → P l')
      → P l
      → P (attempt rt layout clock e l)
  unfolding attempt
  attempt_inv P clock e l keep h = by_result (execute rt layout clock e l) refl
    where
      by_result :
          (r : Result (Ledger B))
          → execute rt layout clock e l ≡ r
          → P (or_kept rt layout clock l r)
      by_result (ok l') done = keep l' done
      by_result (err x) done = h

  -- What every successful entry keeps, a history keeps.
  pub run_ledger_inv :
      (P : Ledger B → Type 0)
      → ((clock : Clock) (e : Entry B) (l l' : Ledger B)
          → execute rt layout clock e l ≡ ok l'
          → P l
          → P l')
      → (es : List (Clock × Entry B)) (l : Ledger B) → P l
      → P (run_ledger es l)
  unfolding run_ledger
  run_ledger_inv P keep [] l h = h
  run_ledger_inv P keep ((clock, e) ∷ es) l h =
      run_ledger_inv P keep es (attempt rt layout clock e l)
        (attempt_inv P clock e l (λ l' done. keep clock e l l' done h) h)

  -- The identities change only by a step on them, under some config.
  pub data MovesSlots (clock : Clock) (l l' : Ledger B) : Type 0 where
    same : l'.slots ≡ l.slots → MovesSlots clock l l'
    stepped :
        (c : ProtocolConfig) (w : World B)
        → Steps rt clock (world c l) w
        → l'.slots ≡ w.slots
        → MovesSlots clock l l'

  run_instruction-MovesSlots :
      (clock : Clock) (config : Option ProtocolConfig) (i : Instruction B) (l l' : Ledger B)
      → run_instruction rt layout clock config i l ≡ ok l'
      → MovesSlots clock l l'
  unfolding run_instruction
  run_instruction-MovesSlots clock (some c) i l l' h =
      let (w, ran, done) = >>=-eq-ok (process rt clock i (world c l)) _ h in
      stepped c w (process-Steps rt clock i (world c l) w ran) (ground arith)
  run_instruction-MovesSlots clock none i l l' h = elim (Bool-cases (names_config i)) [
    | inl named ↦ let refused : ⊥ = ground arith in absurd refused
    | inr unnamed ↦
        let (w, ran, done) =
          >>=-eq-ok (process rt clock i (world no_config l)) (λ w. ok (written none w l)) {w = l'}
            (ground arith) in
        stepped no_config w (process-Steps rt clock i (world no_config l) w ran) (ground arith)
  ]

  pub execute-MovesSlots :
      (clock : Clock) (e : Entry B) (l l' : Ledger B)
      → execute rt layout clock e l ≡ ok l'
      → MovesSlots clock l l'
  unfolding execute run_commitment run_fulfillment
  execute-MovesSlots clock (runs i) l l' h =
      let (j, loaded, h1) = >>=-eq-ok (load_accounts rt l i) _ h in
      run_instruction-MovesSlots clock l.config j l l' h1
  execute-MovesSlots clock (initializes admin pool mint key bytes) l l' h = same (ground arith)
  execute-MovesSlots clock (closes_config admin) l l' h = same (ground arith)
  execute-MovesSlots clock (registers_app program_id) l l' h = same (ground arith)
  execute-MovesSlots clock (verifies_app admin program_id) l l' h = same (ground arith)
  execute-MovesSlots clock (blocks_app admin program_id) l l' h = same (ground arith)
  execute-MovesSlots clock (creates_profile wallet id params) l l' h = same (ground arith)
  execute-MovesSlots clock (updates_profile wallet id params) l l' h = same (ground arith)
  execute-MovesSlots clock (closes_profile wallet id) l l' h = same (ground arith)
  execute-MovesSlots clock (records_commitment asset) l l' h = same (ground arith)
  execute-MovesSlots clock (records_fulfillment asset) l l' h = same (ground arith)

module _ {B : Type 0} (rt : Runtime B) (layout : Layout) where
  -- What steps keep of the identities, a history of all entry points keeps.
  pub run_ledger-slots :
      (P : List Slot → Type 0)
      → ((clock : Clock) (w w' : World B) → Steps rt clock w w' → P w.slots → P w'.slots)
      → (es : List (Clock × Entry B)) (l : Ledger B) → P l.slots
      → P (run_ledger rt layout es l).slots
  run_ledger-slots P keep es l h =
      run_ledger_inv rt layout (λ l. P l.slots)
        (λ clock e l l' done h.
          by_move clock l l' (execute-MovesSlots rt layout clock e l l' done) h)
        es l h
    where
      by_move :
          (clock : Clock) (l l' : Ledger B)
          → MovesSlots rt layout clock l l'
          → P l.slots
          → P l'.slots
      by_move clock l l' (same e) h = rw e h
      by_move clock l l' (stepped c w step e) h = rw e (keep clock (world c l) w step h)

  -- What the proofs on steps establish of the identities.
  pub record AreKept (asset : Pubkey) (s : Slot) (slots : List Slot) : Type 0 where
    pub slot : Slot
    pub found : find asset_of asset slots ≡ some slot
    pub continues : Continues s.idnft slot.idnft
    pub ranged : All IsRangedSlot slots
    pub sessions : All (IsSoundSlot rt) slots
    pub tiers : All HasTierSlot slots

  Steps-AreKept :
      (asset : Pubkey) (s : Slot) (clock : Clock) (w w' : World B)
      → Steps rt clock w w'
      → AreKept asset s w.slots
      → AreKept asset s w'.slots
  Steps-AreKept asset s clock w w' step k =
      let v : Survives asset s w' =
        Steps-Survives rt clock asset s w w' step
          (record { slot = k.slot; found = k.found; continues = k.continues; ranged = k.ranged }) in
      let sound =
        Steps-HasSoundSessions rt clock w w' step
          (record { ranged = k.ranged; sessions = k.sessions }) in
      record {
        slot = v.slot;
        found = v.found;
        continues = v.continues;
        ranged = v.ranged;
        sessions = sound.sessions;
        tiers = Steps-HasTier rt clock w w' step k.tiers;
      }

  -- Over any history of all entry points of the program, the closing of the config and its
  -- initialization anew included: an identity in the ledger is found under its asset id ever after, as
  -- its own later state (same owner and origin, reputation that only grows). If at first the counters of
  -- all identities are within their machine types, their sessions sound and their classes those of
  -- their principals, then all of this holds at the end. (A session is sound if it belongs to its
  -- identity, is within its limits, and has a nonce of its own.)
  pub run_ledger-AreKept :
      (es : List (Clock × Entry B)) (asset : Pubkey) (s : Slot) (l : Ledger B)
      → find asset_of asset l.slots ≡ some s
      → All IsRangedSlot l.slots
      → All (IsSoundSlot rt) l.slots
      → All HasTierSlot l.slots
      → AreKept asset s (run_ledger rt layout es l).slots
  run_ledger-AreKept es asset s l found ranged sessions tiers =
      run_ledger-slots (AreKept asset s) (Steps-AreKept asset s) es l (record {
        slot = s;
        found = found;
        continues = Continues-refl s.idnft;
        ranged = ranged;
        sessions = sessions;
        tiers = tiers;
      })
