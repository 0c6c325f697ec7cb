-- ===== src/Raft/Core/Append.antt =====
-- internal/raft/core.go: the follower's side of replication (handleAppendRequest).
use crane.Base.{ℕ, ltb, Bool, true, false, none, some, List, [], ◌∷◌, if◌then◌else◌, ok, err}
use crane.Raft.Types.{
  Error, Entry, same_entry, is_empty, log_unavailable, log_compacted, log_mismatch,
}
use crane.Raft.Log.{
  Log, ConflictHint, no_hint, new_log, append, AppendResult, appended, refused, advance_commit,
  checked_next_index, final_index,
}
use crane.Raft.Messages.{AppendEntriesRequest, AppendEntriesResponse, append_entries_response}
use crane.Raft.Ready.{DurabilityPrerequisite}
use crane.Raft.Core.State.{Core, Outcome, ◌▷◌}
use crane.Raft.Core.Queue.{
  record_hard_state, queue_entries, queue_message, queue_committed_entries, no_prerequisite,
  needs_hard_state,
}
use crane.Raft.Core.Roles.{handle_leader_contact}

unfoldable pub queue_append_response :
    AppendEntriesRequest → Bool → ℕ → ConflictHint → DurabilityPrerequisite → Core → Core
queue_append_response request success match_index hint requires c =
    let response : AppendEntriesResponse = record {
      responder_id = c.local_id;
      leader_id = request.leader_id;
      term = c.hard_state.term;
      request_term = request.term;
      generation = request.generation;
      success = success;
      match_index = match_index;
      conflict_term = hint.term;
      conflict_index = hint.index;
    } in
    queue_message request.leader_id (append_entries_response response) requires c

-- `changedLogEntries`: what the second list holds from the first difference on.
unfoldable pub changed_log_entries : List Entry → List Entry → List Entry
changed_log_entries before [] = []
changed_log_entries [] (b ∷ after) = b ∷ after
changed_log_entries (a ∷ before) (b ∷ after) =
    let rest = changed_log_entries before after in if same_entry a b then rest else b ∷ after

abbrev pub is_position_error : Error → Bool
is_position_error log_unavailable = true
is_position_error log_compacted = true
is_position_error log_mismatch = true
is_position_error _ = false

-- The end of a request that was accepted: what changed is queued, and the answer.
unfoldable pub answer_append : AppendEntriesRequest → List Entry → ℕ → Bool → Core → Core
unfolding changed_log_entries
answer_append request before last_verified hard_state_changed c =
    let changed = changed_log_entries before c.log.entries in
    let through = final_index 0 changed in
    queue_append_response request true last_verified no_hint
      (record {
        hard_state = hard_state_changed;
        entries_through = if is_empty changed then 0 else through;
      })
      (if is_empty changed then c else queue_entries changed c)

-- `advanceCommit`, recorded and queued.
unfoldable pub commit_through : ℕ → Core → Outcome
commit_through commit_index c = elim (advance_commit c.log commit_index) [
  | err e ↦ (c, some e)
  | ok log ↦ queue_committed_entries c.log.commit_index commit_index (
      record_hard_state (record c {
        log = log;
        hard_state = record (c.hard_state) { commit_index = commit_index };
      }))
]

-- `handleAppendRequest` once the trial log is the core's.
unfoldable pub finish_append : AppendEntriesRequest → List Entry → Bool → Core → Outcome
unfolding answer_append commit_through
finish_append request before changed c =
    let last_verified = final_index request.prev_log_index request.entries in
    let commit_index =
      if ltb last_verified request.leader_commit then last_verified else request.leader_commit in
    if ltb c.log.commit_index commit_index
    then (commit_through commit_index c ▷ λ d.
        (answer_append request before last_verified true d, none))
    else (answer_append request before last_verified changed c, none)

-- The verdict of the trial append, after the leader has been followed.
unfoldable pub settle_append : AppendEntriesRequest → ℕ → AppendResult → Core → Outcome
unfolding finish_append
settle_append request offset (appended trial) c =
    let changed = ltb c.hard_state.term request.term in
    let followed = handle_leader_contact request.leader_id request.term offset c in
    finish_append request c.log.entries changed (record followed { log = trial })
settle_append request offset (refused hint e) c =
    let changed = ltb c.hard_state.term request.term in
    let followed = handle_leader_contact request.leader_id request.term offset c in
    if is_position_error e
    then (queue_append_response request false 0 hint (needs_hard_state changed) followed, none)
    else (c, some e)

-- `next index`, or the last one where there is no next.
unfoldable pub stale_hint : Log → ConflictHint
stale_hint l = elim (checked_next_index l.last_index) [
  | none ↦ record { term = 0; index = l.last_index }
  | some next ↦ record { term = 0; index = next }
]

unfoldable pub handle_append_request : ℕ → AppendEntriesRequest → Core → Outcome
unfolding settle_append stale_hint
handle_append_request offset request c =
    if ltb request.term c.hard_state.term
    then (queue_append_response request false 0 (stale_hint c.log) no_prerequisite c, none)
    else elim (new_log c.log.snapshot_index c.log.snapshot_term c.log.commit_index
        c.log.applied_index c.log.entries) [
          | err e ↦ (c, some e)
          | ok trial ↦
              settle_append request offset
                (append trial request.prev_log_index request.prev_log_term request.entries) c
        ]
