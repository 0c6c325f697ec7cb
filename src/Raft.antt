-- ===== src/Raft.antt =====
-- internal/raft: fixed-membership Raft, from the checked log up to the protocol core.
pub mod Types
pub mod Log
pub mod Voters
pub mod Messages
pub mod Codec
pub mod Ready
pub mod Core
mod Examples
