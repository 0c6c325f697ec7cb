-- ===== src/Raft/Core/Frame.antt =====
-- What the sending and queueing methods of internal/raft/core.go leave alone.
use crane.Base.{
  ◌==◌, if◌then◌else◌, ℕ, zero, suc, ◌+◌, ◌-◌, ◌++◌, ◌≡◌, refl, ◌∙◌, inl, inr, none, some, List, [],
  ◌∷◌, arith, Option-cases, Result-cases,
}
use crane.Base.Maps.{lookup}
use crane.Raft.Types.{Error, Entry}
use crane.Raft.Log.{entry, checked_next_index}
use crane.Raft.Voters.{Voter}
use crane.Raft.Messages.{Rpc}
use crane.Raft.Ready.{DurabilityPrerequisite, SnapshotAction}
use crane.Raft.Core.State.{Core, Outcome, ◌▷◌}
use crane.Raft.Core.Queue.{
  queue_entries, queue_message, queue_snapshot_action, resolve_committed_proposal,
  queue_committed_entry, queue_committed_from, queue_committed_entries, fail_each,
  fail_pending_proposals,
}
use crane.Raft.Core.Roles.{cancel_incoming_snapshot}
use crane.Raft.Core.Replication.{put_progress, each_peer, issue_append}
use crane.Raft.Core.Snapshots.{put_outgoing, issue_snapshot_chunk, clear_outgoing_snapshot}
use crane.Raft.Core.Election.{contact_peer}

-- Identity, durable state, log and role stand as they were, and so does the queued hard state.
pub record Steady (c d : Core) : Type 0 where
  pub same_id : d.local_id ≡ c.local_id
  pub same_voters : d.voters ≡ c.voters
  pub same_hard_state : d.hard_state ≡ c.hard_state
  pub same_log : d.log ≡ c.log
  pub same_role : d.role ≡ c.role
  pub same_queued : d.pending_ready.hard_state ≡ c.pending_ready.hard_state

pub Steady-refl : (c : Core) → Steady c c
Steady-refl c = record {
  same_id = refl;
  same_voters = refl;
  same_hard_state = refl;
  same_log = refl;
  same_role = refl;
  same_queued = refl;
}

pub Steady-trans : {c d e : Core} → Steady c d → Steady d e → Steady c e
Steady-trans s t = record {
  same_id = t.same_id ∙ s.same_id;
  same_voters = t.same_voters ∙ s.same_voters;
  same_hard_state = t.same_hard_state ∙ s.same_hard_state;
  same_log = t.same_log ∙ s.same_log;
  same_role = t.same_role ∙ s.same_role;
  same_queued = t.same_queued ∙ s.same_queued;
}

pub queue_entries-Steady : (es : List Entry) (c : Core) → Steady c (queue_entries es c)
unfolding queue_entries
queue_entries-Steady es c = ground arith

pub queue_message-Steady :
    (to : ℕ) (rpc : Rpc) (r : DurabilityPrerequisite) (c : Core)
    → Steady c (queue_message to rpc r c)
unfolding queue_message
queue_message-Steady to rpc r c = ground arith

pub queue_snapshot_action-Steady :
    (a : SnapshotAction) (c : Core) → Steady c (queue_snapshot_action a c)
unfolding queue_snapshot_action
queue_snapshot_action-Steady a c = ground arith

pub cancel_incoming_snapshot-Steady : (c : Core) → Steady c (cancel_incoming_snapshot c)
unfolding cancel_incoming_snapshot queue_snapshot_action
cancel_incoming_snapshot-Steady c = ground arith

resolve_committed_proposal-Steady :
    (e : Entry) (c : Core) → Steady c (resolve_committed_proposal e c)
unfolding resolve_committed_proposal
resolve_committed_proposal-Steady e c = ground arith

queue_committed_entry-Steady : (e : Entry) (c : Core) → Steady c (queue_committed_entry e c)
unfolding queue_committed_entry
queue_committed_entry-Steady e c =
    let q : Core = record c {
      pending_ready = record (c.pending_ready) {
        committed_entries = c.pending_ready.committed_entries ++ (e ∷ []);
      };
    } in
    let s = resolve_committed_proposal-Steady e q in
    record {
      same_id = s.same_id;
      same_voters = s.same_voters;
      same_hard_state = s.same_hard_state;
      same_log = s.same_log;
      same_role = s.same_role;
      same_queued = s.same_queued;
    }

queue_committed_from-Steady : (n i : ℕ) (c : Core) → Steady c (queue_committed_from n i c).0
unfolding queue_committed_from
queue_committed_from-Steady zero i c = Steady-refl c
queue_committed_from-Steady (suc n) i c = elim (Result-cases (entry c.log i)) [
  | inr (e, q) ↦ rw (q, queue_committed_from) (Steady-refl c)
  | inl (e, q) ↦
      rw (q, queue_committed_from)
        (Steady-trans (queue_committed_entry-Steady e c)
          (queue_committed_from-Steady n (i + 1) (queue_committed_entry e c)))
]

pub queue_committed_entries-Steady :
    (p n : ℕ) (c : Core) → Steady c (queue_committed_entries p n c).0
unfolding queue_committed_entries
queue_committed_entries-Steady p n c = elim (Option-cases (checked_next_index p)) [
  | inl q ↦ rw (q, queue_committed_entries) (Steady-refl c)
  | inr (i, q) ↦ rw (q, queue_committed_entries) (queue_committed_from-Steady (n - p) i c)
]

fail_each-Steady : (r : Error) (ids : List ℕ) (c : Core) → Steady c (fail_each r ids c)
unfolding fail_each
fail_each-Steady r [] c = Steady-refl c
fail_each-Steady r (id ∷ ids) c = elim (Option-cases (lookup id c.pending_proposals)) [
  | inl q ↦ rw (q, fail_each) (fail_each-Steady r ids c)
  | inr (e, q) ↦
      rw (q, fail_each)
        (let s = fail_each-Steady r ids _ in
          record {
            same_id = s.same_id;
            same_voters = s.same_voters;
            same_hard_state = s.same_hard_state;
            same_log = s.same_log;
            same_role = s.same_role;
            same_queued = s.same_queued;
          })
]

pub fail_pending_proposals-Steady : (r : Error) (c : Core) → Steady c (fail_pending_proposals r c)
unfolding fail_pending_proposals
fail_pending_proposals-Steady r c =
    let s = fail_each-Steady r c.pending_proposal_order c in
    record {
      same_id = s.same_id;
      same_voters = s.same_voters;
      same_hard_state = s.same_hard_state;
      same_log = s.same_log;
      same_role = s.same_role;
      same_queued = s.same_queued;
    }

pub issue_append-Steady : (id : ℕ) (c : Core) → Steady c (issue_append id c).0
unfolding issue_append put_progress queue_message
issue_append-Steady id c = ground arith

pub issue_snapshot_chunk-Steady : (id : ℕ) (c : Core) → Steady c (issue_snapshot_chunk id c).0
unfolding issue_snapshot_chunk put_outgoing queue_message
issue_snapshot_chunk-Steady id c = ground arith

pub contact_peer-Steady : (id : ℕ) (c : Core) → Steady c (contact_peer id c).0
unfolding contact_peer
contact_peer-Steady id c =
    ground (arith, issue_append-Steady id c, issue_snapshot_chunk-Steady id c)

pub clear_outgoing_snapshot-Steady : (id : ℕ) (c : Core) → Steady c (clear_outgoing_snapshot id c)
unfolding clear_outgoing_snapshot put_progress
clear_outgoing_snapshot-Steady id c = ground arith

-- A statement that runs after another, where both are steady.
pub ▷-Steady :
    (c : Core) (o : Outcome) (k : Core → Outcome)
    → Steady c o.0
    → ((d : Core) → Steady d (k d).0)
    → Steady c (o ▷ k).0
▷-Steady c (d, none) k s t = Steady-trans s (t d)
▷-Steady c (d, some e) k s t = s

pub each_peer-Steady :
    (send : ℕ → Core → Outcome) (vs : List Voter) (c : Core)
    → ((id : ℕ) (d : Core) → Steady d (send id d).0)
    → Steady c (each_peer send vs c).0
unfolding each_peer
each_peer-Steady send [] c s = Steady-refl c
each_peer-Steady send (v ∷ vs) c s =
    ▷-Steady c (if v.id == c.local_id then (c, none) else send v.id c) (each_peer send vs)
      (ground (arith, s v.id c, Steady-refl c)) (λ d. each_peer-Steady send vs d s)
