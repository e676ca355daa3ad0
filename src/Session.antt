-- ===== src/Session.antt =====
-- programs/vow/src/instructions/session/: the session keys of an identity.
pub mod Create
pub mod Revoke
pub mod Close
pub mod Invalidation
pub mod Opens
