-- ===== src/Raft/Ready.antt =====
-- internal/raft/ready.go, progress.go, and the snapshot values of snapshot.go and storage.go that
-- the core reads: what one protocol batch asks of the node that owns the core.
use crane.Base.{ℕ, Bool, Option, List}
use crane.Raft.Types.{Error, Entry, HardState}
use crane.Raft.Messages.{Rpc, InstallSnapshotRequest}

pub record SnapshotMetadata : Type 0 where
  pub last_included_index : ℕ
  pub last_included_term : ℕ
  pub state_machine_schema_version : ℕ

-- The envelope bytes, which the core never reads, are left out.
pub record Snapshot : Type 0 where
  pub metadata : SnapshotMetadata
  pub id : ℕ
  pub state_checksum : ℕ
  pub state : List ℕ

-- The storage identity, which the core never reads, is left out.
pub record RecoveredState : Type 0 where
  pub hard_state : HardState
  pub snapshot_base : SnapshotMetadata
  pub snapshot : Option Snapshot
  pub applied_index : ℕ
  pub entries : List Entry

pub record SnapshotTransferMetadata : Type 0 where
  pub leader_id : ℕ
  pub term : ℕ
  pub transfer_id : ℕ
  pub snapshot_id : ℕ
  pub metadata : SnapshotMetadata
  pub total_length : ℕ
  pub checksum : ℕ

pub record Progress : Type 0 where
  pub match_index : ℕ
  pub next_index : ℕ
  pub generation : ℕ
  pub active_generation : ℕ
  pub snapshot_needed : Bool
  pub active_transfer_id : ℕ
  pub active_snapshot_id : ℕ
  pub snapshot_next_offset : ℕ
  pub active_match_index : ℕ

pub record DurabilityPrerequisite : Type 0 where
  pub hard_state : Bool
  pub entries_through : ℕ

pub record PeerMessage : Type 0 where
  pub to : ℕ
  pub rpc : Rpc
  pub requires : DurabilityPrerequisite

pub record CommittedProposal : Type 0 where
  pub id : ℕ
  pub entry : Entry

pub record FailedProposal : Type 0 where
  pub id : ℕ
  pub entry : Entry
  pub reason : Error

pub data SnapshotActionKind : Type 0 where
  stage abort : SnapshotActionKind

pub record SnapshotAction : Type 0 where
  pub kind : SnapshotActionKind
  pub request : InstallSnapshotRequest
  pub reset : Bool

pub record SnapshotActionResult : Type 0 where
  pub next_offset : ℕ
  pub is_done : Bool
  pub state : RecoveredState
  pub rejected : Bool

pub record Ready : Type 0 where
  pub token : ℕ
  pub hard_state : Option HardState
  pub entries : List Entry
  pub messages : List PeerMessage
  pub committed_entries : List Entry
  pub committed_proposals : List CommittedProposal
  pub failed_proposals : List FailedProposal
  pub snapshot_actions : List SnapshotAction
