-- ===== src/Program/Ledger/Profiles.antt =====
-- Authority profiles over histories (programs/vow/src/instructions/authority_profile/).
use vow_protocol.Prelude.{ℕ, ◌≡◌, ◌≢◌, ◌∙◌, some, none, Option, List, [], ◌∷◌, arith}
use vow_protocol.Prelude.Keyed.{find, replace, remove, find-key, find-replace_ne, find-remove_ne}
use vow_protocol.State.Errors.{ok, ok_or-eq-ok, >>=-eq-ok}
use vow_protocol.State.Accounts.{Pubkey, AuthorityProfile, ProtocolConfig}
use vow_protocol.State.Runtime.{Clock, Runtime, profile_pda}
use vow_protocol.Profile.{
  AuthorityProfileParams, write_params, write_uri, create_authority_profile,
  update_authority_profile, close_authority_profile,
}
use vow_protocol.Program.Process.{Instruction}
use vow_protocol.Program.Ledger.{
  Ledger, Layout, Entry, runs, initializes, closes_config, registers_app, verifies_app, blocks_app,
  creates_profile, updates_profile, closes_profile, records_commitment, records_fulfillment,
  profile_address, load_accounts,
}
use vow_protocol.Program.Ledger.Execute.{
  run_instruction, run_commitment, run_fulfillment, execute, attempt,
}
use vow_protocol.Program.Ledger.Histories.{run_ledger, attempt_inv}

-- The entry is no instruction on profiles that the wallet signs.
abbrev pub IsNotBy : {B : Type 0} → Pubkey → Entry B → Type 0
IsNotBy wallet (creates_profile w id params) = w ≢ wallet
IsNotBy wallet (updates_profile w id params) = w ≢ wallet
IsNotBy wallet (closes_profile w id) = w ≢ wallet
IsNotBy wallet _ = Unit

module _ {B : Type 0} (rt : Runtime B) (layout : Layout) where
  run_instruction-profiles :
      (clock : Clock) (config : Option ProtocolConfig) (i : Instruction B) (l l' : Ledger B)
      → run_instruction rt layout clock config i l ≡ ok l'
      → l'.profiles ≡ l.profiles
  unfolding run_instruction
  run_instruction-profiles clock (some c) i l l' h = ground arith
  run_instruction-profiles clock none i l l' h = ground arith

  update_authority_profile-keeps :
      (wallet : Pubkey) (params : AuthorityProfileParams) (old r : AuthorityProfile)
      → update_authority_profile wallet params old ≡ ok r
      → (old.wallet ≡ wallet) × (profile_address rt r ≡ profile_address rt old)
  unfolding update_authority_profile write_params write_uri
  update_authority_profile-keeps wallet params old r h = ground arith

  close_authority_profile-own :
      (wallet : Pubkey) (old : AuthorityProfile)
      → close_authority_profile wallet old ≡ ok tt
      → old.wallet ≡ wallet
  unfolding close_authority_profile
  close_authority_profile-own wallet old h = ground arith

  create_authority_profile-address :
      (clock : Clock) (wallet : Pubkey) (id : List ℕ) (params : AuthorityProfileParams)
      (old : Option AuthorityProfile) (r : AuthorityProfile)
      → create_authority_profile rt clock wallet id params old ≡ ok r
      → (profile_address rt r ≡ (profile_pda rt wallet id).0) × (old ≡ none)
  unfolding create_authority_profile write_params write_uri
  create_authority_profile-address clock wallet id params old r h = ground arith

  -- A profile stands at the address of its wallet and id.
  Stands : AuthorityProfile → Ledger B → Type 0
  Stands p l = find (profile_address rt) (profile_address rt p) l.profiles ≡ some p

  -- Another wallet does not find the profile at the address that it writes.
  not_there :
      (p old : AuthorityProfile) (wallet address : Pubkey) (profiles : List AuthorityProfile)
      → find (profile_address rt) (profile_address rt p) profiles ≡ some p
      → find (profile_address rt) address profiles ≡ some old
      → old.wallet ≡ wallet
      → wallet ≢ p.wallet
      → address ≢ profile_address rt p
  not_there p old wallet address profiles stands found own other same =
      let one : old ≡ p = ground (arith, found, stands, same) in other (ground (arith, own, one))

  find_behind :
      (p r : AuthorityProfile) (address : Pubkey) (profiles : List AuthorityProfile)
      → profile_address rt r ≡ address
      → find (profile_address rt) address profiles ≡ none
      → find (profile_address rt) (profile_address rt p) profiles ≡ some p
      → find (profile_address rt) (profile_address rt p) (r ∷ profiles) ≡ some p
  unfolding find
  find_behind p r address profiles key free b = ground arith

  execute-Stands :
      (p : AuthorityProfile) (clock : Clock) (e : Entry B) (l l' : Ledger B)
      → IsNotBy p.wallet e
      → execute rt layout clock e l ≡ ok l'
      → Stands p l
      → Stands p l'
  unfolding Stands execute run_commitment run_fulfillment
  execute-Stands p clock (runs i) l l' n h b =
      let (j, loaded, h1) = >>=-eq-ok (load_accounts rt l i) _ h in
      rw (run_instruction-profiles clock l.config j l l' h1) b
  execute-Stands p clock (initializes admin pool mint key bytes) l l' n h b = ground arith
  execute-Stands p clock (closes_config admin) l l' n h b = ground arith
  execute-Stands p clock (registers_app program_id) l l' n h b = ground arith
  execute-Stands p clock (verifies_app admin program_id) l l' n h b = ground arith
  execute-Stands p clock (blocks_app admin program_id) l l' n h b = ground arith
  execute-Stands p clock (creates_profile wallet id params) l l' n h b =
      let address = (profile_pda rt wallet id).0 in
      let (r, ran, done) =
        >>=-eq-ok
          (create_authority_profile rt clock wallet id params
            (find (profile_address rt) address l.profiles))
          _ h in
      let (key, free) = create_authority_profile-address clock wallet id params _ r ran in
      let e : l'.profiles ≡ r ∷ l.profiles = ground arith in
      rw e (find_behind p r address l.profiles key free b)
  execute-Stands p clock (updates_profile wallet id params) l l' n h b =
      let address = (profile_pda rt wallet id).0 in
      let (old, found, h1) = ok_or-eq-ok (find (profile_address rt) address l.profiles) _ _ h in
      let (r, ran, done) = >>=-eq-ok (update_authority_profile wallet params old) _ h1 in
      let kept = update_authority_profile-keeps wallet params old r ran in
      let ne = not_there p old wallet address l.profiles b found kept.0 n in
      let key : profile_address rt r ≡ address =
        kept.1 ∙ find-key (profile_address rt) address l.profiles old found in
      let e : l'.profiles ≡ replace (profile_address rt) address r l.profiles = ground arith in
      rw e (
        find-replace_ne (profile_address rt) address (profile_address rt p) r l.profiles ne key ∙ b)
  execute-Stands p clock (closes_profile wallet id) l l' n h b =
      let address = (profile_pda rt wallet id).0 in
      let (old, found, h1) = ok_or-eq-ok (find (profile_address rt) address l.profiles) _ _ h in
      let (_, ran, done) = >>=-eq-ok (close_authority_profile wallet old) _ h1 in
      let ne =
        not_there p old wallet address l.profiles b found
          (close_authority_profile-own wallet old ran) n in
      let e : l'.profiles ≡ remove (profile_address rt) address l.profiles = ground arith in
      rw e (find-remove_ne (profile_address rt) address (profile_address rt p) l.profiles ne ∙ b)
  execute-Stands p clock (records_commitment asset) l l' n h b = ground arith
  execute-Stands p clock (records_fulfillment asset) l l' n h b = ground arith

  abbrev pub AreNotBy : Pubkey → List (Clock × Entry B) → Type 0
  AreNotBy wallet [] = Unit
  AreNotBy wallet ((clock, e) ∷ es) = IsNotBy wallet e × AreNotBy wallet es

  -- A profile that is found at its address stays there, unchanged, over every history in which its
  -- wallet signs no instruction on profiles.
  pub run_ledger-profile :
      (es : List (Clock × Entry B)) (l : Ledger B) (p : AuthorityProfile)
      → AreNotBy p.wallet es
      → find (profile_address rt) (profile_address rt p) l.profiles ≡ some p
      → find (profile_address rt) (profile_address rt p) (run_ledger rt layout es l).profiles
        ≡ some p
  unfolding run_ledger Stands
  run_ledger-profile [] l p n h = h
  run_ledger-profile ((clock, e) ∷ es) l p n h =
      run_ledger-profile es (attempt rt layout clock e l) p n.1 (
        attempt_inv rt layout (Stands p) clock e l
          (λ l' done. execute-Stands p clock e l l' n.0 done h) h)
