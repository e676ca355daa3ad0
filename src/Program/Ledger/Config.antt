-- ===== src/Program/Ledger/Config.antt =====
-- The config's closing and its initialization anew (programs/vow/src/instructions/admin/close_config.rs
-- and initialize.rs).
use vow_protocol.Prelude.{ℕ, ◌<◌, ◌≡◌, ◌↔◌, some, none, Option, List, arith}
use vow_protocol.Prelude.Keyed.{total}
use vow_protocol.State.Errors.{ok_or-eq-ok, Result, ok, err, >>=-eq-ok}
use vow_protocol.State.Accounts.{Pubkey, ProtocolConfig, default_key}
use vow_protocol.State.Runtime.{Clock, Runtime}
use vow_protocol.Admin.Initialize.{opening_price, initialize}
use vow_protocol.Admin.Config.{close_config}
use vow_protocol.Accounting.World.{shares_of, IsAccounted}
use vow_protocol.Program.Ledger.{Ledger, Layout, initializes, closes_config, world}
use vow_protocol.Program.Ledger.Execute.{execute}

-- `close_config` finds the admin's key in the bytes of the account.
close_config-admin :
    (layout : Layout) (admin : Pubkey) (c : ProtocolConfig)
    → (x : List ℕ) × (close_config admin (layout.config_bytes c) ≡ ok x)
    → c.admin ≡ admin
unfolding close_config
close_config-admin layout admin c (x, h) = ground (arith, layout.admin_first c)

-- The config's admin is this wallet.
abbrev pub IsAdmin : Pubkey → Option ProtocolConfig → Type 0
IsAdmin x (some c) = c.admin ≡ x
IsAdmin x none = ⊥

-- The call returned, with this wallet as the admin, over the identities of the ledger `before`.
abbrev pub Appoints : {B : Type 0} → Pubkey → Ledger B → Result (Ledger B) → Type 0
Appoints x before (ok l) = IsAdmin x l.config × (l.slots ≡ before.slots)
Appoints x before (err _) = ⊥

module _ {B : Type 0} (rt : Runtime B) (layout : Layout) where
  -- A config can be closed by its admin, and by nobody else.
  pub closes_config_iff :
      (clock : Clock) (x : Pubkey) (l : Ledger B) (c : ProtocolConfig)
      → l.config ≡ some c
      → (execute rt layout clock (closes_config x) l ≡ ok (record l { config = none }))
        ↔ (x ≡ c.admin)
  unfolding execute close_config
  closes_config_iff clock x l c e = (
    λ h. ground (arith, layout.admin_first c, layout.long_enough c),
    λ h. ground (arith, layout.admin_first c, layout.long_enough c),
  )

  -- Once the config has been closed, which only its admin can do, any wallet makes itself the admin over
  -- the same identities by initializing it (without a stake pool).
  pub closes_config-Appoints :
      (clock clock' : Clock) (admin x mint key : Pubkey) (bytes : List ℕ) (l l' : Ledger B)
      → execute rt layout clock (closes_config admin) l ≡ ok l'
      → IsAdmin admin l.config
        × Appoints x l (execute rt layout clock' (initializes x default_key mint key bytes) l')
  unfolding execute initialize opening_price
  closes_config-Appoints clock clock' admin x mint key bytes l l' h =
      let (c, open_config, h1) = ok_or-eq-ok l.config _ _ h in
      let (erased, ran, done) = >>=-eq-ok (close_config admin (layout.config_bytes c)) _ h1 in
      let e : l' ≡ record l { config = none } = ground arith in
      let own = close_config-admin layout admin c (erased, ran) in
      (rw open_config own, rw e (ground arith))

  initialized :
      (clock : Clock) (x pool mint key : Pubkey) (bytes : List ℕ) (l l' : Ledger B)
      → execute rt layout clock (initializes x pool mint key bytes) l ≡ ok l'
      → (c : ProtocolConfig) × (l'.config ≡ some c) × (l'.slots ≡ l.slots) × (c.total_shares ≡ 0)
  unfolding execute initialize
  initialized clock x pool mint key bytes l l' h =
      let ((c, log), ran, done) =
        >>=-eq-ok (initialize rt x pool mint key bytes l.config l.log) _ h in
      (c, ground arith, ground arith, ground arith)

  -- If the config is closed and initialized anew while an identity holds shares, its totals are no
  -- longer the sums over the identities.
  pub reinitialized-unaccounted :
      (clock clock' : Clock) (admin x pool mint key : Pubkey) (bytes : List ℕ) (l l' l'' : Ledger B)
      → execute rt layout clock (closes_config admin) l ≡ ok l'
      → execute rt layout clock' (initializes x pool mint key bytes) l' ≡ ok l''
      → 0 < total shares_of l.slots
      → (c : ProtocolConfig) × (l''.config ≡ some c) × ¬ IsAccounted (world c l'')
  unfolding execute
  reinitialized-unaccounted clock clock' admin x pool mint key bytes l l' l'' h h' held =
      let (c, e, slots, zero) = initialized clock' x pool mint key bytes l' l'' h' in
      let slots' : l'.slots ≡ l.slots = ground arith in
      (c, e, λ a. ground (arith, a.shares, slots, slots', zero))
