-- ===== src/State.antt =====
-- The program's data: programs/vow/src/errors.rs, events.rs, constants.rs and state/.
pub mod Errors
pub mod Events
pub mod Accounts
pub mod Class
pub mod Runtime
pub mod Position
