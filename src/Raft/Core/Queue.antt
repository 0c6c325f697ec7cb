-- ===== src/Raft/Core/Queue.antt =====
-- internal/raft/core.go: what the core puts into the pending Ready batch.
use crane.Base.{
  ℕ, zero, suc, ◌+◌, ◌-◌, ◌==◌, true, Bool, false, none, some, List, [], ◌∷◌, ◌++◌, if◌then◌else◌,
  ok, err,
}
use crane.Raft.Types.{Error, Entry, same_entry, log_overflow, proposal_failed}
use crane.Raft.Log.{entry, checked_next_index}
use crane.Raft.Messages.{Rpc}
use crane.Raft.Ready.{DurabilityPrerequisite, SnapshotAction}
use crane.Base.Maps.{lookup, remove}
use crane.Raft.Core.State.{Core, Outcome}

unfoldable pub record_hard_state : Core → Core
record_hard_state c = record c {
  pending_ready = record (c.pending_ready) { hard_state = some c.hard_state };
  has_pending = true;
}

unfoldable pub queue_entries : List Entry → Core → Core
queue_entries es c = record c {
  pending_ready = record (c.pending_ready) { entries = c.pending_ready.entries ++ es };
  has_pending = true;
}

unfoldable pub queue_message : ℕ → Rpc → DurabilityPrerequisite → Core → Core
queue_message to rpc requires c = record c {
  pending_ready = record (c.pending_ready) {
    messages =
        c.pending_ready.messages ++ (record { to = to; rpc = rpc; requires = requires } ∷ []);
  };
  has_pending = true;
}

abbrev pub no_prerequisite : DurabilityPrerequisite
no_prerequisite = record { hard_state = false; entries_through = 0 }

abbrev pub needs_hard_state : Bool → DurabilityPrerequisite
needs_hard_state changed = record { hard_state = changed; entries_through = 0 }

unfoldable pub queue_snapshot_action : SnapshotAction → Core → Core
queue_snapshot_action action c = record c {
  pending_ready = record (c.pending_ready) {
    snapshot_actions = c.pending_ready.snapshot_actions ++ (action ∷ []);
  };
  has_pending = true;
}

-- `removePendingProposalOrder`: the first occurrence goes.
unfoldable pub remove_pending_proposal_order : ℕ → List ℕ → List ℕ
remove_pending_proposal_order id [] = []
remove_pending_proposal_order id (x ∷ xs) =
    if x == id then xs else x ∷ remove_pending_proposal_order id xs

-- The end of `resolveCommittedProposal`: the proposal is answered, and forgotten.
unfoldable pub settle_proposal : ℕ → Entry → Entry → Core → Core
settle_proposal id proposal e c =
    let ready = c.pending_ready in
    let answered =
      if same_entry proposal e
      then record ready {
        committed_proposals =
            ready.committed_proposals ++ (record { id = id; entry = proposal } ∷ []);
      }
      else record ready {
        failed_proposals =
            ready.failed_proposals
            ++ (record { id = id; entry = proposal; reason = proposal_failed } ∷ []);
      } in
    record c {
      pending_ready = answered;
      pending_proposals = remove id c.pending_proposals;
      proposal_at_index = remove e.index c.proposal_at_index;
      pending_proposal_order = remove_pending_proposal_order id c.pending_proposal_order;
    }

unfoldable pub resolve_committed_proposal : Entry → Core → Core
unfolding settle_proposal
resolve_committed_proposal e c = elim (lookup e.index c.proposal_at_index) [
  | none ↦ c
  | some id ↦ elim (lookup id c.pending_proposals) [
    | none ↦ record c { proposal_at_index = remove e.index c.proposal_at_index }
    | some proposal ↦ settle_proposal id proposal e c
  ]
]

-- One round of the loop of `queueCommittedEntries`.
unfoldable pub queue_committed_entry : Entry → Core → Core
queue_committed_entry e c =
    let queued = record c {
      pending_ready = record (c.pending_ready) {
        committed_entries = c.pending_ready.committed_entries ++ (e ∷ []);
      };
    } in
    record (resolve_committed_proposal e queued) { has_pending = true }

-- The loop, over the `count` indices from `index` on.
unfoldable pub queue_committed_from : ℕ → ℕ → Core → Outcome
unfolding queue_committed_entry
queue_committed_from zero index c = (c, none)
queue_committed_from (suc count) index c = elim (entry c.log index) [
  | err e ↦ (c, some e)
  | ok e ↦ queue_committed_from count (index + 1) (queue_committed_entry e c)
]

unfoldable pub queue_committed_entries : ℕ → ℕ → Core → Outcome
unfolding queue_committed_from
queue_committed_entries previous_commit commit_index c = elim (checked_next_index previous_commit) [
  | none ↦ (c, some log_overflow)
  | some index ↦ queue_committed_from (commit_index - previous_commit) index c
]

-- The loop of `failPendingProposals`, over the proposals in their order.
unfoldable pub fail_each : Error → List ℕ → Core → Core
fail_each reason [] c = c
fail_each reason (id ∷ ids) c = elim (lookup id c.pending_proposals) [
  | none ↦ fail_each reason ids c
  | some proposal ↦ fail_each reason ids (record c {
    pending_ready = record (c.pending_ready) {
      failed_proposals =
          c.pending_ready.failed_proposals
          ++ (record { id = id; entry = proposal; reason = reason } ∷ []);
    };
    proposal_at_index = remove proposal.index c.proposal_at_index;
    pending_proposals = remove id c.pending_proposals;
    has_pending = true;
  })
]

unfoldable pub fail_pending_proposals : Error → Core → Core
unfolding fail_each
fail_pending_proposals reason c = record (fail_each reason c.pending_proposal_order c) {
  pending_proposal_order = [];
}
