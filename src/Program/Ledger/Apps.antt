-- ===== src/Program/Ledger/Apps.antt =====
-- Registered apps over histories (programs/vow/src/instructions/admin/register_app.rs).
use vow_protocol.Prelude.{
  ℕ, ◌≡◌, ◌≢◌, refl, ◌∙◌, inl, inr, some, none, Option, true, List, ◌∷◌, arith,
}
use vow_protocol.Prelude.Keyed.{find, replace, find-key, find-replace}
use vow_protocol.State.Errors.{ok, ok_or-eq-ok, >>=-eq-ok}
use vow_protocol.State.Accounts.{Pubkey, ProtocolConfig, AppRegistry}
use vow_protocol.State.Runtime.{Clock, Runtime}
use vow_protocol.Admin.Apps.{register_app, verify_app, block_app}
use vow_protocol.Treasury.Spend.{SpendCall, yield_spend}
use vow_protocol.Treasury.Spend.Authority.{yield_spend-IsAllowed}
use vow_protocol.Program.World.{asset_of, index_of, position, on_session}
use vow_protocol.Program.Process.{Instruction, spends, process}
use vow_protocol.Program.Ledger.{
  Ledger, Layout, Entry, runs, initializes, closes_config, registers_app, verifies_app, blocks_app,
  creates_profile, updates_profile, closes_profile, records_commitment, records_fulfillment,
  program_of, load_accounts, load_registry, world,
}
use vow_protocol.Program.Ledger.Execute.{run_instruction, run_commitment, run_fulfillment, execute}
use vow_protocol.Program.Ledger.Histories.{run_ledger, run_ledger_inv}

-- The app is registered, and blocked.
pub record IsBlocked (k : Pubkey) (apps : List AppRegistry) : Type 0 where
  pub registry : AppRegistry
  pub found : find program_of k apps ≡ some registry
  pub blocked : registry.blocked ≡ true

-- A new entry for another program does not hide it.
registered-IsBlocked :
    (k : Pubkey) (r : AppRegistry) (apps : List AppRegistry)
    → find program_of r.program_id apps ≡ none
    → IsBlocked k apps
    → IsBlocked k (r ∷ apps)
unfolding find
registered-IsBlocked k r apps fresh b = record {
  registry = b.registry;
  found = ground (arith, b.found);
  blocked = b.blocked;
}

-- A new state of an entry that is blocked if the old one is.
replaced-IsBlocked :
    (k j : Pubkey) (r old : AppRegistry) (apps : List AppRegistry)
    → find program_of j apps ≡ some old
    → r.program_id ≡ old.program_id
    → (old.blocked ≡ true → r.blocked ≡ true)
    → IsBlocked k apps
    → IsBlocked k (replace program_of j r apps)
replaced-IsBlocked k j r old apps e same keeps b =
    let key : program_of r ≡ j = same ∙ find-key program_of j apps old e in
    elim (find-replace program_of j k r old b.registry apps e key b.found) [
      | inl (here, at) ↦ record {
        registry = r;
        found = at;
        blocked = keeps (ground (arith, here, b.blocked));
      }
      | inr at ↦ record { registry = b.registry; found = at; blocked = b.blocked }
    ]

module _ {B : Type 0} (rt : Runtime B) (layout : Layout) where
  run_instruction-apps :
      (clock : Clock) (config : Option ProtocolConfig) (i : Instruction B) (l l' : Ledger B)
      → run_instruction rt layout clock config i l ≡ ok l'
      → l'.apps ≡ l.apps
  unfolding run_instruction
  run_instruction-apps clock (some c) i l l' h = ground arith
  run_instruction-apps clock none i l l' h = ground arith

  execute-IsBlocked :
      (k : Pubkey) (clock : Clock) (e : Entry B) (l l' : Ledger B)
      → execute rt layout clock e l ≡ ok l'
      → IsBlocked k l.apps
      → IsBlocked k l'.apps
  unfolding execute run_commitment run_fulfillment register_app verify_app block_app
  execute-IsBlocked k clock (runs i) l l' h b =
      let (j, loaded, h1) = >>=-eq-ok (load_accounts rt l i) _ h in
      rw (run_instruction-apps clock l.config j l l' h1) b
  execute-IsBlocked k clock (initializes admin pool mint key bytes) l l' h b =
      let e : l'.apps ≡ l.apps = ground arith in rw e b
  execute-IsBlocked k clock (closes_config admin) l l' h b =
      let e : l'.apps ≡ l.apps = ground arith in rw e b
  execute-IsBlocked k clock (registers_app program_id) l l' h b =
      let ((r, log), ran, done) =
        >>=-eq-ok (register_app rt clock program_id (find program_of program_id l.apps) l.log) _
          h in
      let id : r.program_id ≡ program_id = ground arith in
      let fresh : find program_of program_id l.apps ≡ none = ground arith in
      let e : l'.apps ≡ r ∷ l.apps = ground arith in
      rw e (registered-IsBlocked k r l.apps (rw id fresh) b)
  execute-IsBlocked k clock (verifies_app admin program_id) l l' h b =
      let (config, _, h1) = ok_or-eq-ok l.config _ _ h in
      let (old, at, h2) = ok_or-eq-ok (find program_of program_id l.apps) _ _ h1 in
      let (r, ran, done) = >>=-eq-ok (verify_app admin config old) _ h2 in
      let e : l'.apps ≡ replace program_of program_id r l.apps = ground arith in
      rw e (replaced-IsBlocked k program_id r old l.apps at (ground arith) (λ o. ground arith) b)
  execute-IsBlocked k clock (blocks_app admin program_id) l l' h b =
      let (config, _, h1) = ok_or-eq-ok l.config _ _ h in
      let (old, at, h2) = ok_or-eq-ok (find program_of program_id l.apps) _ _ h1 in
      let ((r, log), ran, done) = >>=-eq-ok (block_app admin config old l.log) _ h2 in
      let e : l'.apps ≡ replace program_of program_id r l.apps = ground arith in
      rw e (replaced-IsBlocked k program_id r old l.apps at (ground arith) (λ o. ground arith) b)
  execute-IsBlocked k clock (creates_profile wallet id params) l l' h b =
      let e : l'.apps ≡ l.apps = ground arith in rw e b
  execute-IsBlocked k clock (updates_profile wallet id params) l l' h b =
      let e : l'.apps ≡ l.apps = ground arith in rw e b
  execute-IsBlocked k clock (closes_profile wallet id) l l' h b =
      let e : l'.apps ≡ l.apps = ground arith in rw e b
  execute-IsBlocked k clock (records_commitment asset) l l' h b =
      let e : l'.apps ≡ l.apps = ground arith in rw e b
  execute-IsBlocked k clock (records_fulfillment asset) l l' h b =
      let e : l'.apps ≡ l.apps = ground arith in rw e b

  -- A spend that passes a registry entry passes the one of the calling program.
  loaded_refused :
      (clock : Clock) (config : Option ProtocolConfig) (asset : Pubkey) (index n : ℕ)
      (call : SpendCall) (r : AppRegistry) (l l' : Ledger B)
      → call.app_registry ≡ some r
      → r.blocked ≡ true
      → run_instruction rt layout clock config (spends asset index call n) l ≢ ok l'
  unfolding run_instruction process on_session
  loaded_refused clock none asset index n call r l l' passed blocked h = ground arith
  loaded_refused clock (some c) asset index n call r l l' passed blocked h =
      let (w, ran, _) = >>=-eq-ok (process rt clock (spends asset index call n) (world c l)) _ h in
      let (slot, _, h1) = ok_or-eq-ok (find asset_of asset l.slots) _ _ ran in
      let (s, _, h2) = ok_or-eq-ok (find index_of index slot.sessions) _ _ h1 in
      let ((s', p), spent, _) =
        >>=-eq-ok (yield_spend rt clock call n s (position (world c l) slot)) _ h2 in
      let allowed =
        yield_spend-IsAllowed rt clock call n s s' (position (world c l) slot) p spent in
      ground (arith, allowed.unblocked r passed)

  -- Once an app's entry is blocked, it is blocked ever after: whatever transactions follow, no spend that names
  -- it as the calling program and passes a registry entry succeeds.
  pub run_ledger-blocks :
      (es : List (Clock × Entry B)) (l : Ledger B) (r : AppRegistry) (clock : Clock)
      (asset : Pubkey) (index n : ℕ) (call : SpendCall) (passed : AppRegistry) (l' : Ledger B)
      → find program_of call.calling_program l.apps ≡ some r
      → r.blocked ≡ true
      → call.app_registry ≡ some passed
      → execute rt layout clock (runs (spends asset index call n)) (run_ledger rt layout es l)
        ≢ ok l'
  unfolding execute load_accounts load_registry
  run_ledger-blocks es l r clock asset index n call passed l' found blocked e h =
      let later = run_ledger rt layout es l in
      let b : IsBlocked call.calling_program later.apps =
        run_ledger_inv rt layout (λ l. IsBlocked call.calling_program l.apps)
          (execute-IsBlocked call.calling_program) es l
          (record { registry = r; found = found; blocked = blocked }) in
      loaded_refused clock later.config asset index n
        (record call { app_registry = some b.registry }) b.registry later l' refl b.blocked
        (ground (arith, b.found))
