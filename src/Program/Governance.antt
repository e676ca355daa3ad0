-- ===== src/Program/Governance.antt =====
-- What the protocol's admin alone can change (programs/vow/src/instructions/admin/).
use vow_protocol.Prelude.{ℕ, ◌≤◌, ◌≡◌, ◌≢◌, some, List, [], ◌∷◌, arith}
use vow_protocol.State.Errors.{ok}
use vow_protocol.State.Accounts.{Pubkey, ProtocolConfig, YieldMode, default_key}
use vow_protocol.State.Events.{Event}
use vow_protocol.State.Runtime.{Clock, Runtime}
use vow_protocol.State.Position.{Position}
use vow_protocol.Vow.Mint.{mint}
use vow_protocol.Pool.UpdateSharePrice.{update_share_price}
use vow_protocol.Admin.Config.{set_admin, set_mint_counter, dev_set_share_price}
use vow_protocol.Program.World.{World, position}
use vow_protocol.Program.Process.{Instruction}
use vow_protocol.Program.Frame.{SameRates, Handles-SameRates}
use vow_protocol.Program.Steps.{
  Configures, repricing, appointing, counting, pricing, Steps, minted, handled, configured, moved,
  add_slot-ok,
}
use vow_protocol.Program.Steps.Process.Signers.{signer, config_signer, step_signer, apply_signed}
use vow_protocol.Program.Run.{apply, run}

-- The config `d` is under the rule of `c`: it has the same admin, stake pool and pool mint, no lower
-- mint counter, and the same share price if there is no pool.
pub record IsRuledBy (c d : ProtocolConfig) : Type 0 where
  pub admin : d.admin ≡ c.admin
  pub pool : d.spl_stake_pool ≡ c.spl_stake_pool
  pub mint : d.spl_pool_mint ≡ c.spl_pool_mint
  pub minted : c.total_minted ≤ d.total_minted
  pub price : c.spl_stake_pool ≡ default_key → d.current_share_price ≡ c.current_share_price

pub IsRuledBy-refl : (c : ProtocolConfig) → IsRuledBy c c
IsRuledBy-refl c = ground arith

IsRuledBy-trans : (c d e : ProtocolConfig) → IsRuledBy c d → IsRuledBy d e → IsRuledBy c e
IsRuledBy-trans c d e h k = ground arith

SameRates-IsRuledBy : (c d : ProtocolConfig) → SameRates c d → IsRuledBy c d
SameRates-IsRuledBy c d s = ground arith

module _ {B : Type 0} (rt : Runtime B) (clock : Clock) where
  Configures-IsRuledBy :
      (c d : ProtocolConfig) (step : Configures rt clock c d)
      → config_signer rt clock step ≢ some (c.admin)
      → IsRuledBy c d
  unfolding update_share_price set_admin set_mint_counter dev_set_share_price
  Configures-IsRuledBy c d (repricing pool_key bytes log log' h) ne = ground arith
  Configures-IsRuledBy c d (appointing admin new_admin h) ne = ground arith
  Configures-IsRuledBy c d (counting admin counter h) ne = ground arith
  Configures-IsRuledBy c d (pricing admin price h) ne = ground arith

  mint-IsRuledBy :
      (owner n : ℕ) (mode : YieldMode) (p : Position B) (c : ProtocolConfig) (b : B)
      (log : List Event)
      → mint rt clock owner n mode c b log ≡ ok p
      → IsRuledBy c p.config
  unfolding mint
  mint-IsRuledBy owner n mode p c b log h = ground arith

  pub Steps-IsRuledBy :
      (w w' : World B) (step : Steps rt clock w w')
      → step_signer rt clock step ≢ some (w.config.admin)
      → IsRuledBy w.config w'.config
  Steps-IsRuledBy w w' (minted owner n mode p ran added) ne =
      rw (add_slot-ok p w w' added).1 (mint-IsRuledBy owner n mode p w.config w.bank w.log ran)
  Steps-IsRuledBy w w' (handled k t sessions p found step _ _ e) ne =
      rw e
        (SameRates-IsRuledBy w.config p.config (Handles-SameRates rt clock (position w t) p step))
  Steps-IsRuledBy w w' (configured config log step e) ne =
      rw e (Configures-IsRuledBy w.config config step ne)
  Steps-IsRuledBy w w' (moved bank _ e) ne = rw e (IsRuledBy-refl w.config)

module _ {B : Type 0} (rt : Runtime B) where
  -- No transaction of the history is signed by the wallet.
  abbrev pub AreUnsignedBy : Pubkey → List (Clock × Instruction B) → Type 0
  AreUnsignedBy who [] = Unit
  AreUnsignedBy who ((_, i) ∷ is) = (signer i ≢ some who) × AreUnsignedBy who is

  -- Over any history in which the admin signs nothing, the config keeps its admin, its stake pool and
  -- its pool mint; the mint counter does not fall; and without a stake pool the share price stays.
  pub run-IsRuledBy :
      (is : List (Clock × Instruction B)) (w : World B)
      → AreUnsignedBy w.config.admin is
      → IsRuledBy w.config (run rt is w).config
  unfolding run
  run-IsRuledBy [] w ne = IsRuledBy-refl w.config
  run-IsRuledBy ((clock, i) ∷ is) w ne =
      let w' = apply rt clock i w in
      let first : IsRuledBy w.config w'.config =
        apply_signed rt (λ v. IsRuledBy w.config v.config) clock i w
          (λ v step e. Steps-IsRuledBy rt clock w v step (rw e ne.0)) (IsRuledBy-refl w.config) in
      IsRuledBy-trans w.config w'.config (run rt is w').config first
        (run-IsRuledBy is w' (rw first.admin ne.1))
