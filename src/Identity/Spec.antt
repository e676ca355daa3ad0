-- ===== src/Identity/Spec.antt =====
-- What the program promises of stakes, without accounts: a map from asset ids to phases. The ledger of
-- identities (programs/vow/src/lib.rs) refines it.
use vow_protocol.Prelude.{◌≡◌, ◌≢◌, Option, none, some}
use vow_protocol.Prelude.Keyed.{find, All}
use vow_protocol.State.Accounts.{Pubkey}
use vow_protocol.State.Runtime.{Runtime}
use vow_protocol.State.Position.{Position}
use vow_protocol.Program.World.{Slot, World, asset_of}
use vow_protocol.Program.Steps.{Steps}
use vow_protocol.Identity.Lifecycle.{Phase, active, phase_of, Edge, IsCoherentAt}
use vow_protocol.Identity.Permanence.{IsRangedSlot}

-- The abstract state: which identities there are, and the phase of each.
abbrev pub Stakes : Type 0
Stakes = Pubkey → Option Phase

-- A step: nothing happens, a new identity begins as active, or one identity follows an edge of the
-- life cycle.
pub data Advances (v v' : Stakes) : Type 0 where
  idles : ((k : Pubkey) → v' k ≡ v k) → Advances v v'
  begins :
      (a : Pubkey)
      → v a ≡ none
      → v' a ≡ some active
      → ((k : Pubkey) → k ≢ a → v' k ≡ v k)
      → Advances v v'
  follows :
      (a : Pubkey) (s t : Phase)
      → Edge s t
      → v a ≡ some s
      → v' a ≡ some t
      → ((k : Pubkey) → k ≢ a → v' k ≡ v k)
      → Advances v v'

-- A sequence of steps.
pub data Reaches : Stakes → Stakes → Type 0 where
  here : {v : Stakes} → Reaches v v
  next : {v v' v'' : Stakes} → Advances v v' → Reaches v' v'' → Reaches v v''

abbrev phase_in : Option Slot → Option Phase
phase_in none = none
phase_in (some t) = some (phase_of t.idnft.active_stake t.escrow)

abbrev pub IsCoherentSlot : Slot → Type 0
IsCoherentSlot t = IsCoherentAt t.idnft.active_stake t.escrow t.idnft.shares

module _ {B : Type 0} where
  -- The stakes that a ledger stands for.
  abbrev pub stakes : World B → Stakes
  stakes w k = phase_in (find asset_of k w.slots)

module _ {B : Type 0} (rt : Runtime B) where
  -- The identities are coherent and their counters in range.
  pub record IsReady (w : World B) : Type 0 where
    pub ranged : All IsRangedSlot w.slots
    pub coherent : All IsCoherentSlot w.slots

  -- A step of the ledger is a step of the stakes.
  record Refines (w w' : World B) : Type 0 where
    advances : Advances (stakes w) (stakes w')
    ready : IsReady w'
