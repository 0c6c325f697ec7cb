-- ===== src/Raft/Core/Promotion/Calls.antt =====
-- The other methods of the core in internal/raft/core.go, on a core that does not lead.
use crane.Base.{ℕ, refl, inl, inr, List, [], ◌∷◌, arith, Bool-cases, Option-cases}
use crane.Raft.Types.{EntryKind}
use crane.Raft.Messages.{InstallSnapshotRequest}
use crane.Raft.Ready.{Snapshot, SnapshotMetadata, SnapshotAction, SnapshotActionResult}
use crane.Raft.Core.State.{Core, IncomingSnapshot}
use crane.Raft.Core.Proposals.{propose_tracked, fail}
use crane.Raft.Core.Snapshots.{compact_snapshot, start_snapshot_transfer}
use crane.Raft.Core.Install.{
  finish_action, install_state, complete_stage, complete_live, complete_kind, complete_only,
  complete_snapshot_action,
}
use crane.Raft.Core.Step.{tick, ready, advance, apply_committed, has_action}
use crane.Raft.Core.Promotion.{Unled, start_pre_vote-Unled}

pub tick-Unled : (offset now : ℕ) (c : Core) → Unled c → Unled (tick offset now c).0
unfolding tick
tick-Unled offset now c f = elim (Option-cases c.terminal_err) [
  | inr (e, q) ↦ simp (q, tick) f
  | inl q ↦ simp (q, f, tick) (ground (arith, start_pre_vote-Unled now offset c f))
]

pub propose_tracked-Unled :
    (kind : EntryKind) (command : List ℕ) (c : Core)
    → Unled c
    → Unled (propose_tracked kind command c).0
unfolding propose_tracked fail
propose_tracked-Unled kind command c f = elim (Option-cases c.terminal_err) [
  | inr (e, q) ↦ simp (q, propose_tracked, fail) f
  | inl q ↦ elim (Bool-cases c.has_pending) [
    | inl p ↦ simp (q, p, propose_tracked, fail) f
    | inr p ↦ simp (q, p, f, propose_tracked, fail) refl
  ]
]

pub ready-Unled : (c : Core) → Unled c → Unled (ready c).0
unfolding ready
ready-Unled c f = ground arith

pub advance-Unled : (token : ℕ) (c : Core) → Unled c → Unled (advance token c).0
unfolding advance apply_committed has_action
advance-Unled token c f = ground arith

pub compact_snapshot-Unled :
    (m : SnapshotMetadata) (c : Core) → Unled c → Unled (compact_snapshot m c).0
unfolding compact_snapshot
compact_snapshot-Unled m c f = ground arith

pub start_snapshot_transfer-Unled :
    (id : ℕ) (s : Snapshot) (t l : ℕ) (c : Core)
    → Unled c
    → Unled (start_snapshot_transfer id s t l c).0
unfolding start_snapshot_transfer
start_snapshot_transfer-Unled id s t l c f = elim (Option-cases c.terminal_err) [
  | inr (e, q) ↦ simp (q, start_snapshot_transfer) f
  | inl q ↦ elim (Bool-cases c.has_pending) [
    | inl p ↦ simp (q, p, start_snapshot_transfer) f
    | inr p ↦ simp (q, p, f, start_snapshot_transfer) refl
  ]
]

install_state-Unled :
    (m : InstallSnapshotRequest) (r : SnapshotActionResult) (c : Core)
    → Unled c
    → Unled (install_state m r c).0
unfolding install_state finish_action
install_state-Unled m r c f = ground arith

complete_stage-Unled :
    (m : InstallSnapshotRequest) (r : SnapshotActionResult) (i : IncomingSnapshot) (c : Core)
    → Unled c
    → Unled (complete_stage m r i c).0
unfolding complete_stage finish_action
complete_stage-Unled m r i c f = ground (arith, install_state-Unled m r c f)

complete_live-Unled :
    (m : InstallSnapshotRequest) (r : SnapshotActionResult) (c : Core)
    → Unled c
    → Unled (complete_live m r c).0
unfolding complete_live finish_action
complete_live-Unled m r c f = elim (Option-cases c.incoming_snapshot) [
  | inl q ↦ simp (q, complete_live) f
  | inr (i, q) ↦ simp (q, complete_live) (ground (arith, complete_stage-Unled m r i c f))
]

complete_only-Unled :
    (actions : List SnapshotAction) (r : SnapshotActionResult) (c : Core)
    → Unled c
    → Unled (complete_only actions r c).0
unfolding complete_only complete_kind finish_action
complete_only-Unled [] r c f = f
complete_only-Unled (a ∷ b ∷ more) r c f = f
complete_only-Unled (a ∷ []) r c f = ground (arith, complete_live-Unled a.request r c f)

pub complete_snapshot_action-Unled :
    (token : ℕ) (r : SnapshotActionResult) (c : Core)
    → Unled c
    → Unled (complete_snapshot_action token r c).0
unfolding complete_snapshot_action
complete_snapshot_action-Unled token r c f =
    ground (arith, complete_only-Unled c.pending_ready.snapshot_actions r c f)
