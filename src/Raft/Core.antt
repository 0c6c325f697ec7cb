-- ===== src/Raft/Core.antt =====
-- internal/raft/core.go: the deterministic protocol core, a child for each group of its methods.
pub mod State
pub mod Queue
pub mod Proposals
pub mod Replication
pub mod Snapshots
pub mod Roles
pub mod Election
pub mod Append
pub mod Install
pub mod Step
pub mod Frame
pub mod Ballot
pub mod Discipline
pub mod Kept
pub mod Runs
pub mod Completion
pub mod Batches
pub mod Promotion
pub mod Leadership
pub mod Votes
