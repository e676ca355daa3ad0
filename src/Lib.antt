-- ===== src/Lib.antt =====
-- A model of the Solana program `vow` (programs/vow/src): soulbound identities that stake XNT for a
-- lock, whose yield session keys can spend.
--
-- The parts of the program, and the files that model them:
--   * state/, errors.rs, events.rs, constants.rs: State/ (Accounts, Errors, Events, Class). A struct is a
--     record with the same fields, an enum a data type, an error of `VowError` a constructor. A `Pubkey` is
--     the number that its bytes write. An unsigned integer is a natural number: the operations of
--     Prelude/Machine (`checked_add`, `saturating_sub`, `as_u64`, ...) are given the largest value of the
--     machine type, and a plain `+` or `*` of the source is the checked one with a panic (overflow checks are
--     on in Cargo.toml). An `i64` is an integer of Prelude/Int, clamped or checked where the source does it.
--   * The chain: State/Runtime. `find_program_address`, the balances and `system_program::transfer` are
--     a record that every handler takes as a parameter, with what the system program documents of a transfer
--     as laws. The seeds of all addresses are written out there.
--   * instructions/harvest.rs: Harvest. `settle_idnft` is the helper that other handlers call first.
--   * instructions/vow/: Vow/ (Mint, AddStake, BeginUnstake, CompleteUnstake, ActivateStake,
--     UpdateYieldMode), one function per handler, with the name of the instruction.
--   * instructions/treasury/: Treasury/ (Deposit, Withdraw, Spend).
--   * instructions/session/: Session/ (Create, Revoke, Close).
--   * instructions/pool/: Pool/ (Account for the bytes of the stake pool's account, UpdateSharePrice, Flush,
--     Withdraw). The stake pool program is a parameter (`PoolCall`): its address and the call of it.
--   * instructions/admin/: Admin/ (Initialize, Config, Apps).
--   * instructions/commitment/: Commitment. instructions/authority_profile/: Profile.
--   * compression.rs: Compression, with keccak as a parameter.
--   * lib.rs: Program/, in two layers. World is the ledger of the config, the identities with their escrows
--     and sessions, the balances and the events; Process runs one instruction on the accounts that it names;
--     Run a history of instructions, each with the clock at its time. Steps is the step relation that the
--     proofs go over, Steps/Process shows that every instruction is a step, and Steps/Process/Signers says
--     who signs it. Ledger adds the registered apps, authority profiles, commitment records and gates, and
--     the config that can be absent; Ledger/Execute runs every entry point of lib.rs, those of Process
--     included, and Ledger/Histories histories of them. A transaction is one instruction, and one that fails
--     changes nothing.
--
-- A handler takes the accounts that the transaction passes (State/Position: config, identity, escrow,
-- balances, events) and returns them, or an error. The checks of the account structs (`address`, `has_one`,
-- `init`, seeds) come before those of the handler's body. What Anchor's client libraries and the deriving
-- of the account structs do beyond these checks (discriminators, owners of accounts, rent of new accounts)
-- is not modelled, nor are the lamports of the accounts that close_protocol_config and others close. How
-- Anchor lays the config out in bytes, which close_protocol_config reads, is a parameter (`Layout`). An
-- account with a fixed address is found by its seeds: an identity by its asset id, a session by its identity
-- and index, an app by its program, a commitment record by its wallet, a profile and a gate by the address.
--
-- The proofs: Accounting/ (the config's totals; Solvency and Margin: what the reserve owes,
-- at the opening share price and at any), Identity/ (Soulbound and Permanence: what never changes;
-- Lifecycle and Spec: the phases, and the abstract machine of them; Lock and Unlock: the lock; Tier: the
-- class; Strangers and Untouched: who can do harm), Program/Sessions, Program/Revocation (a revoked session),
-- Program/Invalidation (sessions from before an activation), Program/Governance (the admin),
-- Program/Ledger/ (Apps, Profiles, Gates, Config), and beside the parts State/Class/Tiers, Harvest/Settle,
-- Harvest/Path (settling on the way), Harvest/Burn, Harvest/Value (what a position is worth),
-- Vow/CompleteUnstake/Payout, Vow/Unstake (an unstake from beginning to end), Vow/Exactly and Treasury/Spend/Exactly (when exactly a handler succeeds),
-- Treasury/Spend/Authority, Treasury/Spend/Budget, Session/Opens, Session/Invalidation, Pool/Flush/Drained,
-- Pool/Withdraw/Ceiling, Profile/Roundtrip, Commitment/Score, Commitment/Exceeds and
-- Compression/Injective. Tests/ applies the theorems on a small chain.
--
-- There is no fuel: every loop of the program runs over a list. Not modelled: initialize_tree.rs, which
-- no mod.rs names; the lists of account infos that go along with a call of the stake pool; the
-- sizes of accounts; the patched crates under patches/, the SDK, the scripts, the IDL and the tests.
pub mod Prelude
pub mod State
pub mod Harvest
pub mod Vow
pub mod Treasury
pub mod Session
pub mod Pool
pub mod Admin
pub mod Commitment
pub mod Profile
pub mod Compression
pub mod Program
pub mod Accounting
pub mod Identity
pub mod Tests
