-- ===== src/Program/World.antt =====
-- The config, every identity with its escrow and sessions, all lamports, and the events so far. An
-- account is found by the seeds of its address: an identity by its asset id, a session by its
-- identity and index.
use vow_protocol.Prelude.{ℕ, Option, List}
use vow_protocol.Prelude.Keyed.{find, replace}
use vow_protocol.State.Errors.{Result, ok, account_missing, ok_or, ◌>>=◌}
use vow_protocol.State.Accounts.{Pubkey, VowState, ProtocolConfig, UnstakeEscrow, SessionAccount}
use vow_protocol.State.Events.{Event}
use vow_protocol.State.Position.{Position}

pub record Slot : Type 0 where
  pub idnft : VowState
  pub escrow : Option UnstakeEscrow
  pub sessions : List SessionAccount

pub record World (B : Type 0) : Type 0 where
  pub config : ProtocolConfig
  pub slots : List Slot
  pub bank : B
  pub log : List Event

abbrev pub asset_of : Slot → ℕ
asset_of s = s.idnft.asset_id

abbrev pub index_of : SessionAccount → ℕ
index_of s = s.session_index

module _ {B : Type 0} where
  -- The accounts that a transaction on one identity names.
  abbrev pub position : World B → Slot → Position B
  position w s = record {
    config = w.config;
    idnft = s.idnft;
    escrow = s.escrow;
    bank = w.bank;
    log = w.log;
  }

  -- Writes them back.
  abbrev pub store : Pubkey → List SessionAccount → Position B → World B → World B
  store asset sessions p w = record {
    config = p.config;
    slots =
        replace asset_of asset (record { idnft = p.idnft; escrow = p.escrow; sessions = sessions })
          w.slots;
    bank = p.bank;
    log = p.log;
  }

  -- Runs a handler on the identity that has this asset id.
  unfoldable pub on_slot : Pubkey → (Position B → Result (Position B)) → World B → Result (World B)
  on_slot asset handler w = do
    slot ← ok_or (find asset_of asset w.slots) account_missing
    p ← handler (position w slot)
    ok (store asset slot.sessions p w)

  -- The same for a handler on one of its sessions.
  unfoldable pub on_session :
      Pubkey
      → ℕ
      → (SessionAccount → Position B → Result (SessionAccount × Position B))
      → World B
      → Result (World B)
  on_session asset index handler w = do
    slot ← ok_or (find asset_of asset w.slots) account_missing
    session ← ok_or (find index_of index slot.sessions) account_missing
    (session', p) ← handler session (position w slot)
    ok (store asset (replace index_of index session' slot.sessions) p w)
