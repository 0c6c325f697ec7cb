-- ===== src/Raft/Core/Promotion/Followers.antt =====
-- The handlers of a leader's requests in internal/raft/core.go, on a core that does not lead.
use crane.Base.{
  ℕ, inl, inr, Bool, true, false, ltb, none, some, List, arith, if◌then◌else◌, Bool-cases,
  Result-cases,
}
use crane.Raft.Types.{Entry, is_empty}
use crane.Raft.Log.{AppendResult, appended, refused, new_log, append, advance_commit, final_index}
use crane.Raft.Messages.{
  AppendEntriesRequest, AppendEntriesResponse, InstallSnapshotRequest, InstallSnapshotResponse,
}
use crane.Raft.Core.State.{Core, Outcome, ◌▷◌}
use crane.Raft.Messages.{install_snapshot_response}
use crane.Raft.Core.Queue.{
  record_hard_state, queue_entries, queue_snapshot_action, no_prerequisite, needs_hard_state,
}
use crane.Raft.Core.Roles.{handle_leader_contact, cancel_incoming_snapshot}
use crane.Raft.Core.Append.{
  queue_append_response, is_position_error, changed_log_entries, answer_append, commit_through,
  finish_append, settle_append, handle_append_request,
}
use crane.Raft.Core.Replication.{handle_append_response, addressed_append}
use crane.Raft.Core.Snapshots.{handle_install_snapshot_response}
use crane.Raft.Core.Install.{snapshot_response, receive_chunk, handle_install_snapshot_request}
use crane.Raft.Core.Frame.{
  queue_message-Steady, queue_entries-Steady, queue_committed_entries-Steady,
  cancel_incoming_snapshot-Steady,
}
use crane.Raft.Core.Promotion.{Unled, Steady-Unled, handle_leader_contact-Unled}

pub ▷-Unled :
    (o : Outcome) (k : Core → Outcome)
    → Unled o.0
    → ((d : Core) → Unled d → Unled (k d).0)
    → Unled (o ▷ k).0
▷-Unled (d, none) k f g = g d f
▷-Unled (d, some e) k f g = f

answer_append-Unled :
    (m : AppendEntriesRequest) (before : List Entry) (n : ℕ) (b : Bool) (c : Core)
    → Unled c
    → Unled (answer_append m before n b c)
unfolding answer_append queue_append_response
answer_append-Unled m before n b c f =
    elim (Bool-cases (is_empty (changed_log_entries before c.log.entries))) [
      | inl nothing ↦ rw nothing (Steady-Unled (queue_message-Steady _ _ _ c) f)
      | inr something ↦
          let queued = queue_entries (changed_log_entries before c.log.entries) c in
          rw something (
            Steady-Unled (queue_message-Steady _ _ _ queued)
              (Steady-Unled (queue_entries-Steady _ c) f))
    ]

commit_through-Unled : (n : ℕ) (c : Core) → Unled c → Unled (commit_through n c).0
unfolding commit_through record_hard_state
commit_through-Unled n c f = elim (Result-cases (advance_commit c.log n)) [
  | inr (e, q) ↦ rw (q, commit_through) f
  | inl (l, q) ↦
      rw (q, commit_through)
        (Steady-Unled (queue_committed_entries-Steady c.log.commit_index n _) f)
]

finish_append-Unled :
    (m : AppendEntriesRequest) (before : List Entry) (b : Bool) (c : Core)
    → Unled c
    → Unled (finish_append m before b c).0
unfolding finish_append
finish_append-Unled m before b c f =
    let last : ℕ = final_index m.prev_log_index m.entries in
    let n : ℕ = if ltb last m.leader_commit then last else m.leader_commit in
    elim (Bool-cases (ltb c.log.commit_index n)) [
      | inl up ↦
          rw (up, finish_append)
            (▷-Unled (commit_through n c) _ (commit_through-Unled n c f)
              (λ d g. answer_append-Unled m before last true d g))
      | inr level ↦ rw (level, finish_append) (answer_append-Unled m before last b c f)
    ]

settle_append-Unled :
    (m : AppendEntriesRequest) (offset : ℕ) (r : AppendResult) (c : Core)
    → Unled c
    → Unled (settle_append m offset r c).0
unfolding settle_append queue_append_response
settle_append-Unled m offset (appended l) c f =
    finish_append-Unled m c.log.entries _ _
      (handle_leader_contact-Unled m.leader_id m.term offset c f)
settle_append-Unled m offset (refused h x) c f = elim (Bool-cases (is_position_error x)) [
  | inl position ↦ rw position (
      Steady-Unled (queue_message-Steady _ _ _ _)
        (handle_leader_contact-Unled m.leader_id m.term offset c f))
  | inr other ↦ rw other f
]

pub handle_append_request-Unled :
    (offset : ℕ) (m : AppendEntriesRequest) (c : Core)
    → Unled c
    → Unled (handle_append_request offset m c).0
unfolding handle_append_request queue_append_response
handle_append_request-Unled offset m c f = elim (Bool-cases (ltb m.term c.hard_state.term)) [
  | inl old ↦ rw old (Steady-Unled (queue_message-Steady _ _ _ c) f)
  | inr current ↦
      let trial =
        new_log c.log.snapshot_index c.log.snapshot_term c.log.commit_index c.log.applied_index
          c.log.entries in
      elim (Result-cases trial) [
        | inr (e, q) ↦ rw (current, q, handle_append_request) f
        | inl (l, q) ↦
            rw (current, q, handle_append_request)
              (settle_append-Unled m offset (append l m.prev_log_index m.prev_log_term m.entries) c
                f)
      ]
]

pub handle_append_response-Unled :
    (m : AppendEntriesResponse) (c : Core) → Unled c → Unled (handle_append_response m c).0
unfolding handle_append_response addressed_append
handle_append_response-Unled m c f = ground arith

pub handle_install_snapshot_response-Unled :
    (m : InstallSnapshotResponse) (c : Core)
    → Unled c
    → Unled (handle_install_snapshot_response m c).0
unfolding handle_install_snapshot_response
handle_install_snapshot_response-Unled m c f = rw f f

receive_chunk-Unled : (m : InstallSnapshotRequest) (c : Core) → Unled c → Unled (receive_chunk m c)
unfolding receive_chunk queue_snapshot_action
receive_chunk-Unled m c f = ground arith

pub handle_install_snapshot_request-Unled :
    (offset : ℕ) (m : InstallSnapshotRequest) (c : Core)
    → Unled c
    → Unled (handle_install_snapshot_request offset m c).0
unfolding handle_install_snapshot_request
handle_install_snapshot_request-Unled offset m c f =
    let d : Core = handle_leader_contact m.leader_id m.term offset c in
    let g = handle_leader_contact-Unled m.leader_id m.term offset c f in
    let e : Core = cancel_incoming_snapshot d in
    let h = Steady-Unled (cancel_incoming_snapshot-Steady d) g in
    ground (
      arith,
      g,
      receive_chunk-Unled m d g,
      Steady-Unled
          (queue_message-Steady m.leader_id
            (install_snapshot_response (snapshot_response c m false false 0)) no_prerequisite c)
          f,
      Steady-Unled
          (queue_message-Steady m.leader_id
            (install_snapshot_response (snapshot_response e m true true m.total_length))
            (needs_hard_state (ltb c.hard_state.term m.term)) e)
          h,
    )
