-- ===== src/Raft/Core/Discipline/Followers.antt =====
-- The ballot discipline of the follower's handlers, and of snapshot transfers, in
-- internal/raft/core.go.
use crane.Base.{
  ℕ, ◌≡◌, refl, ap, subst, ◌∙◌, inl, inr, Bool, true, false, ◌==◌, ltb, ◌&&◌, ◌||◌, not,
  if◌then◌else◌, List, ok, arith, Bool-cases, Option-cases, Result-cases, ltb→lt,
}
use crane.Base.Maps.{lookup}
use crane.Raft.Types.{Entry}
use crane.Raft.Log.Valid.{IsValid}
use crane.Raft.Log.Recovery.{new_log-state}
use crane.Raft.Log.{
  state, Log, ConflictHint, final_index, checked_next_index, advance_commit, append, AppendResult,
  appended, refused, new_log,
}
use crane.Raft.Messages.{
  AppendEntriesRequest, InstallSnapshotRequest, InstallSnapshotResponse, install_snapshot_response,
}
use crane.Raft.Ready.{DurabilityPrerequisite, Progress}
use crane.Raft.Core.State.{Core, is_leader, OutgoingSnapshot}
use crane.Raft.Core.Queue.{
  queue_entries, queue_message, queue_snapshot_action, no_prerequisite, needs_hard_state,
}
use crane.Raft.Core.Roles.{cancel_incoming_snapshot, handle_leader_contact}
use crane.Raft.Core.Replication.{
  progress_of, put_progress, note_response, issue_append, advance_leader_commit,
}
use crane.Raft.Core.Snapshots.{
  put_outgoing, clear_outgoing_snapshot, transfer_done, transfer_answered, offset_fits,
  answers_transfer, answer_transfer, handle_install_snapshot_response,
}
use crane.Raft.Core.Append.{
  queue_append_response, answer_append, is_position_error, commit_through, finish_append,
  settle_append, handle_append_request,
}
use crane.Raft.Core.Install.{snapshot_response, receive_chunk, handle_install_snapshot_request}
use crane.Raft.Core.Frame.{
  Steady, Steady-trans, queue_message-Steady, cancel_incoming_snapshot-Steady,
  queue_committed_entries-Steady, issue_append-Steady, issue_snapshot_chunk-Steady,
  clear_outgoing_snapshot-Steady,
}
use crane.Raft.Core.Discipline.Replication.{advance_leader_commit-Evolves}
use crane.Raft.Core.Ballot.{
  Evolves, Evolves-refl, Evolves-trans, Steady-Evolves, committed-Evolves, appended-Evolves,
  ▷-Evolves,
}
use crane.Raft.Core.Discipline.Roles.{
  adopt_higher_term-Evolves, handle_leader_contact-Evolves, handle_leader_contact-log,
}

pub commit_through-Evolves : (n : ℕ) (c : Core) → Evolves c (commit_through n c).0
unfolding commit_through
commit_through-Evolves n c = elim (Result-cases (advance_commit c.log n)) [
  | inr (e, q) ↦ rw (q, commit_through) (Evolves-refl c)
  | inl (l, q) ↦
      rw (q, commit_through)
        (Evolves-trans (committed-Evolves n l c q)
          (Steady-Evolves (queue_committed_entries-Steady c.log.commit_index n _)))
]

queue_append_response-Steady :
    (m : AppendEntriesRequest) (b : Bool) (n : ℕ) (h : ConflictHint) (r : DurabilityPrerequisite)
    (c : Core)
    → Steady c (queue_append_response m b n h r c)
unfolding queue_append_response
queue_append_response-Steady m b n h r c = queue_message-Steady _ _ _ c

pub answer_append-Steady :
    (m : AppendEntriesRequest) (es : List Entry) (n : ℕ) (b : Bool) (c : Core)
    → Steady c (answer_append m es n b c)
unfolding answer_append queue_entries queue_append_response queue_message
answer_append-Steady m es n b c = ground arith

finish_append-Evolves :
    (m : AppendEntriesRequest) (es : List Entry) (b : Bool) (c : Core)
    → Evolves c (finish_append m es b c).0
unfolding finish_append
finish_append-Evolves m es b c =
    let last : ℕ = final_index m.prev_log_index m.entries in
    let n : ℕ = if ltb last m.leader_commit then last else m.leader_commit in
    elim (Bool-cases (ltb c.log.commit_index n)) [
      | inl up ↦
          rw (up, finish_append)
            (▷-Evolves c (commit_through n c) _ (commit_through-Evolves n c)
              (λ d. Steady-Evolves (answer_append-Steady m es last true d)))
      | inr level ↦ rw (level, finish_append) (Steady-Evolves (answer_append-Steady m es last b c))
    ]

settle_append-Evolves :
    (m : AppendEntriesRequest) (offset : ℕ) (r : AppendResult) (c : Core)
    → (IsValid c.log → append c.log m.prev_log_index m.prev_log_term m.entries ≡ r)
    → Evolves c (settle_append m offset r c).0
unfolding settle_append
settle_append-Evolves m offset (appended l) c h =
    let d : Core = handle_leader_contact m.leader_id m.term offset c in
    let e : Core = record d { log = l } in
    let q : d.log ≡ c.log = handle_leader_contact-log m.leader_id m.term offset c in
    Evolves-trans (handle_leader_contact-Evolves m.leader_id m.term offset c) (
      Evolves-trans {d = e}
        (appended-Evolves m.prev_log_index m.prev_log_term m.entries d e
          (λ v.
            ap (λ (k : Log). append k m.prev_log_index m.prev_log_term m.entries) q
            ∙ h (subst IsValid q v))
          refl refl refl refl)
        (finish_append-Evolves m _ _ e))
settle_append-Evolves m offset (refused h x) c t = elim (Bool-cases (is_position_error x)) [
  | inl position ↦ rw position (
      Evolves-trans (handle_leader_contact-Evolves m.leader_id m.term offset c)
        (Steady-Evolves (queue_append_response-Steady m false 0 h _ _)))
  | inr other ↦ rw other (Evolves-refl c)
]

-- The copy of a valid log that the trial append starts from is that log.
trial-append :
    (m : AppendEntriesRequest) (c : Core) (l : Log)
    → new_log c.log.snapshot_index c.log.snapshot_term c.log.commit_index c.log.applied_index
        c.log.entries
      ≡ ok l
    → IsValid c.log
    → append c.log m.prev_log_index m.prev_log_term m.entries
      ≡ append l m.prev_log_index m.prev_log_term m.entries
unfolding state
trial-append m c l h v =
    let q : c.log ≡ l = let copy = new_log-state c.log v in cc in
    ap (λ (k : Log). append k m.prev_log_index m.prev_log_term m.entries) q

pub handle_append_request-Evolves :
    (offset : ℕ) (m : AppendEntriesRequest) (c : Core)
    → Evolves c (handle_append_request offset m c).0
unfolding handle_append_request
handle_append_request-Evolves offset m c = elim (Bool-cases (ltb m.term c.hard_state.term)) [
  | inl old ↦ rw old (Steady-Evolves (queue_append_response-Steady m false 0 _ _ c))
  | inr current ↦
      let trial =
        new_log c.log.snapshot_index c.log.snapshot_term c.log.commit_index c.log.applied_index
          c.log.entries in
      elim (Result-cases trial) [
        | inr (e, q) ↦ rw (current, q, handle_append_request) (Evolves-refl c)
        | inl (l, q) ↦
            rw (current, q, handle_append_request)
              (settle_append-Evolves m offset _ c (trial-append m c l q))
      ]
]

receive_chunk-Steady : (m : InstallSnapshotRequest) (c : Core) → Steady c (receive_chunk m c)
unfolding receive_chunk queue_snapshot_action
receive_chunk-Steady m c = ground arith

pub handle_install_snapshot_request-Evolves :
    (offset : ℕ) (m : InstallSnapshotRequest) (c : Core)
    → Evolves c (handle_install_snapshot_request offset m c).0
unfolding handle_install_snapshot_request
handle_install_snapshot_request-Evolves offset m c =
    let d : Core = handle_leader_contact m.leader_id m.term offset c in
    let s = handle_leader_contact-Evolves m.leader_id m.term offset c in
    let e : Core = cancel_incoming_snapshot d in
    ground (
      arith,
      s,
      Steady-Evolves (
          queue_message-Steady m.leader_id
            (install_snapshot_response (snapshot_response c m false false 0)) no_prerequisite c),
      Evolves-trans s (Steady-Evolves (receive_chunk-Steady m d)),
      Evolves-trans s (
          Steady-Evolves (
            Steady-trans (cancel_incoming_snapshot-Steady d) (
              queue_message-Steady m.leader_id
                (install_snapshot_response (snapshot_response e m true true m.total_length))
                (needs_hard_state (ltb c.hard_state.term m.term)) e))),
    )

put_outgoing-Steady : (id : ℕ) (t : OutgoingSnapshot) (c : Core) → Steady c (put_outgoing id t c)
unfolding put_outgoing
put_outgoing-Steady id t c = ground arith

put_progress-Steady : (id : ℕ) (p : Progress) (c : Core) → Steady c (put_progress id p c)
unfolding put_progress
put_progress-Steady id p c = ground arith

note_response-Steady : (id : ℕ) (c : Core) → Steady c (note_response id c)
unfolding note_response
note_response-Steady id c = ground arith

transfer_done-Evolves : (id n : ℕ) (c : Core) → Evolves c (transfer_done id n c).0
unfolding transfer_done
transfer_done-Evolves id n c =
    let d : Core = clear_outgoing_snapshot id c in
    let p : Progress = progress_of id d in
    let s = clear_outgoing_snapshot-Steady id c in
    let matched : ℕ = if ltb p.match_index n then n else p.match_index in
    elim (Option-cases (checked_next_index matched)) [
      | inl q ↦ rw (q, transfer_done) (Steady-Evolves s)
      | inr (k, q) ↦
          rw (q, transfer_done)
            (▷-Evolves c (advance_leader_commit (put_progress id _ d)) (issue_append id)
              (Evolves-trans (Steady-Evolves (Steady-trans s (put_progress-Steady id _ d)))
                (advance_leader_commit-Evolves _))
              (λ e. Steady-Evolves (issue_append-Steady id e)))
    ]

transfer_answered-Evolves :
    (m : InstallSnapshotResponse) (t : OutgoingSnapshot) (c : Core)
    → Evolves c (transfer_answered m t c).0
unfolding transfer_answered
transfer_answered-Evolves m t c =
    let id = m.responder_id in
    let d : Core =
      put_outgoing id (record t { next_offset = m.next_offset }) (note_response id c) in
    let s : Steady c d = Steady-trans (note_response-Steady id c) (put_outgoing-Steady id _ _) in
    elim (Bool-cases m.success) [
      | inr failed ↦ rw failed (
          Steady-Evolves (
            Steady-trans s
              (Steady-trans (put_progress-Steady id _ d) (issue_snapshot_chunk-Steady id _))))
      | inl taken ↦ elim (Bool-cases m.is_done) [
        | inr more ↦
            rw (taken, more)
              (Steady-Evolves (
                Steady-trans s
                  (Steady-trans (put_progress-Steady id _ d) (issue_snapshot_chunk-Steady id _))))
        | inl whole ↦
            rw (taken, whole)
              (Evolves-trans (Steady-Evolves (Steady-trans s (put_progress-Steady id _ d)))
                (transfer_done-Evolves id t.snapshot.metadata.last_included_index _))
      ]
    ]

answer_transfer-Evolves :
    (m : InstallSnapshotResponse) (t : OutgoingSnapshot) (c : Core)
    → Evolves c (answer_transfer m t c).0
unfolding answer_transfer
answer_transfer-Evolves m t c = elim (Bool-cases (ltb c.hard_state.term m.term)) [
  | inl up ↦ rw up (adopt_higher_term-Evolves m.term c (ltb→lt _ _ up))
  | inr level ↦ elim (Bool-cases ((m.term == c.hard_state.term) && offset_fits m t)) [
    | inl fits ↦ rw (level, fits) (transfer_answered-Evolves m t c)
    | inr unfit ↦ rw (level, unfit) (Evolves-refl c)
  ]
]

pub handle_install_snapshot_response-Evolves :
    (m : InstallSnapshotResponse) (c : Core) → Evolves c (handle_install_snapshot_response m c).0
unfolding handle_install_snapshot_response
handle_install_snapshot_response-Evolves m c =
    elim (Bool-cases (not (is_leader c.role) || not (m.leader_id == c.local_id))) [
      | inl other ↦ rw other (Evolves-refl c)
      | inr ours ↦ elim (Option-cases (lookup m.responder_id c.outgoing_snapshots)) [
        | inl q ↦ rw (ours, q, handle_install_snapshot_response) (Evolves-refl c)
        | inr (t, q) ↦ elim (Bool-cases (answers_transfer m t)) [
          | inr old ↦ rw (ours, q, handle_install_snapshot_response, old) (Evolves-refl c)
          | inl live ↦
              rw (ours, q, handle_install_snapshot_response, live) (answer_transfer-Evolves m t c)
        ]
      ]
    ]
