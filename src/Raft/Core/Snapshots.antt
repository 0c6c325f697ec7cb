-- ===== src/Raft/Core/Snapshots.antt =====
-- internal/raft/core.go: compaction, and the transfers of snapshots to lagging peers.
use crane.Base.{
  ℕ, ◌+◌, ◌-◌, ◌==◌, ltb, leb, max_u64, Bool, true, false, ◌&&◌, ◌||◌, not, none, some, List, [],
  ◌∷◌, length, take, drop, if◌then◌else◌, ok, err,
}
use crane.Base.Maps.{lookup, insert, remove}
use crane.Raft.Types.{ready_outstanding, not_leader, invalid_core_state, log_overflow}
use crane.Raft.Log.{compact, checked_next_index}
use crane.Raft.Messages.{InstallSnapshotRequest, InstallSnapshotResponse, install_snapshot_request}
use crane.Raft.Codec.{max_raft_snapshot_chunk_bytes}
use crane.Raft.Ready.{Progress, Snapshot, SnapshotMetadata}
use crane.Raft.Core.State.{Core, Outcome, ◌▷◌, is_leader, OutgoingSnapshot}
use crane.Raft.Core.Queue.{queue_message, no_prerequisite}
use crane.Raft.Core.Roles.{adopt_higher_term}
use crane.Raft.Core.Replication.{
  progress_of, put_progress, note_response, advance_leader_commit, issue_append,
}

unfoldable pub put_outgoing : ℕ → OutgoingSnapshot → Core → Core
put_outgoing id t c = record c { outgoing_snapshots = insert id t c.outgoing_snapshots }

-- One peer's entry in the loop of `CompactSnapshot`.
unfoldable pub detach : ℕ → Progress → Progress
detach snapshot_index p =
    if leb p.next_index snapshot_index
    then record p {
      snapshot_needed = true;
      active_generation = 0;
      active_match_index = 0;
      active_transfer_id = 0;
      active_snapshot_id = 0;
      snapshot_next_offset = 0;
    }
    else p

unfoldable pub detach_peers : ℕ → ℕ → List (ℕ × Progress) → List (ℕ × Progress)
unfolding detach
detach_peers local_id snapshot_index [] = []
detach_peers local_id snapshot_index ((id, p) ∷ m) =
    (id, if id == local_id then p else detach snapshot_index p)
    ∷ detach_peers local_id snapshot_index m

unfoldable pub compact_snapshot : SnapshotMetadata → Core → Outcome
unfolding detach_peers
compact_snapshot metadata c = elim (c.terminal_err) [
  | some e ↦ (c, some e)
  | none ↦
      if c.has_pending
      then (c, some ready_outstanding)
      else elim (compact c.log metadata.last_included_index metadata.last_included_term) [
        | err e ↦ (c, some e)
        | ok log ↦
            if is_leader c.role
            then (
              record c {
                log = log;
                outgoing_snapshots = [];
                progress = detach_peers c.local_id log.snapshot_index c.progress;
              },
              none,
            )
            else (record c { log = log }, none)
      ]
]

-- The end of the chunk that starts at `nextOffset`; a sum that wraps is cut off as one past the end.
unfoldable pub chunk_end : OutgoingSnapshot → ℕ
chunk_end t =
    let end = t.next_offset + t.chunk_limit in
    if ltb max_u64 end || ltb (length t.state) end then length t.state else end

unfoldable pub chunk_request : Core → OutgoingSnapshot → InstallSnapshotRequest
unfolding chunk_end
chunk_request c t = record {
  leader_id = c.local_id;
  term = t.term;
  transfer_id = t.transfer_id;
  snapshot_id = t.snapshot.id;
  last_included_index = t.snapshot.metadata.last_included_index;
  last_included_term = t.snapshot.metadata.last_included_term;
  state_machine_schema_version = t.snapshot.metadata.state_machine_schema_version;
  total_length = length t.state;
  checksum = t.snapshot.state_checksum;
  offset = t.next_offset;
  chunk = take (chunk_end t - t.next_offset) (drop t.next_offset t.state);
  is_done = chunk_end t == length t.state;
}

unfoldable pub issue_snapshot_chunk : ℕ → Core → Outcome
unfolding chunk_request
issue_snapshot_chunk peer_id c = elim (lookup peer_id c.outgoing_snapshots) [
  | none ↦ (c, none)
  | some t ↦
      if not (is_leader c.role) || not (t.term == c.hard_state.term)
      then (c, none)
      else if ltb (length t.state) t.next_offset
      then (c, some invalid_core_state)
      else (
        queue_message peer_id (install_snapshot_request (chunk_request c t)) no_prerequisite
            (put_outgoing peer_id (record t { active_end = chunk_end t }) c),
        none,
      )
]

-- The transfer is recorded with the leader and with the peer's progress `p`.
unfoldable pub open_transfer : ℕ → Progress → Snapshot → ℕ → ℕ → Core → Core
open_transfer peer_id p snapshot transfer_id chunk_limit c =
    put_progress peer_id
      (record p {
        active_transfer_id = transfer_id;
        active_snapshot_id = snapshot.id;
        snapshot_next_offset = 0;
      })
      (put_outgoing peer_id
        (record {
          term = c.hard_state.term;
          peer_id = peer_id;
          transfer_id = transfer_id;
          snapshot = snapshot;
          state = snapshot.state;
          next_offset = 0;
          chunk_limit = chunk_limit;
          active_end = 0;
        })
        c)

unfoldable pub start_snapshot_transfer : ℕ → Snapshot → ℕ → ℕ → Core → Outcome
unfolding open_transfer
start_snapshot_transfer peer_id snapshot transfer_id chunk_limit c = elim (c.terminal_err) [
  | some e ↦ (c, some e)
  | none ↦
      if c.has_pending
      then (c, some ready_outstanding)
      else if not (is_leader c.role)
      then (c, some not_leader)
      else elim (lookup peer_id c.progress) [
        | none ↦ (c, some invalid_core_state)
        | some p ↦
            if (peer_id == c.local_id) || not p.snapshot_needed
            then (c, some invalid_core_state)
            else if transfer_id == 0
            then (c, some invalid_core_state)
            else if (chunk_limit == 0) || ltb max_raft_snapshot_chunk_bytes chunk_limit
            then (c, some invalid_core_state)
            else if not (snapshot.metadata.last_included_index == c.log.snapshot_index)
                || not (snapshot.metadata.last_included_term == c.log.snapshot_term)
                || (snapshot.id == 0)
            then (c, some invalid_core_state)
            else elim (lookup peer_id c.outgoing_snapshots) [
              | some t ↦ (c, some invalid_core_state)
              | none ↦
                  issue_snapshot_chunk peer_id
                    (open_transfer peer_id p snapshot transfer_id chunk_limit c)
            ]
      ]
]

unfoldable pub clear_outgoing_snapshot : ℕ → Core → Core
clear_outgoing_snapshot peer_id c =
    let d = record c { outgoing_snapshots = remove peer_id c.outgoing_snapshots } in
    elim (lookup peer_id d.progress) [
      | none ↦ d
      | some p ↦
          put_progress peer_id
            (record p { active_transfer_id = 0; active_snapshot_id = 0; snapshot_next_offset = 0 })
            d
    ]

-- The offset that a response to the live chunk may report.
unfoldable pub offset_fits : InstallSnapshotResponse → OutgoingSnapshot → Bool
offset_fits response t =
    let total = length t.state in
    if response.success
    then (if response.is_done
        then response.next_offset == total
        else (response.next_offset == t.active_end) && ltb response.next_offset total)
    else if total == 0
    then response.next_offset == 0
    else ltb response.next_offset total && leb response.next_offset t.next_offset

-- The end of `handleInstallSnapshotResponse`, once the peer holds the whole snapshot.
unfoldable pub transfer_done : ℕ → ℕ → Core → Outcome
transfer_done peer_id included_index c =
    let d = clear_outgoing_snapshot peer_id c in
    let p = progress_of peer_id d in
    let matched = if ltb p.match_index included_index then included_index else p.match_index in
    elim (checked_next_index matched) [
      | none ↦ (d, some log_overflow)
      | some next_index ↦
          advance_leader_commit (
            put_progress peer_id
              (record p { match_index = matched; next_index = next_index; snapshot_needed = false })
              d)
          ▷ issue_append peer_id
    ]

-- `handleInstallSnapshotResponse` past its guards.
unfoldable pub transfer_answered : InstallSnapshotResponse → OutgoingSnapshot → Core → Outcome
unfolding transfer_done
transfer_answered response t c =
    let peer_id = response.responder_id in
    let d =
      put_outgoing peer_id (record t { next_offset = response.next_offset })
        (note_response peer_id c) in
    let p = progress_of peer_id d in
    if not response.success
    then issue_snapshot_chunk peer_id (
        put_progress peer_id
          (record p {
            snapshot_next_offset =
                if ltb p.snapshot_next_offset response.next_offset
                then response.next_offset
                else p.snapshot_next_offset;
          })
          d)
    else (let e =
          put_progress peer_id (record p { snapshot_next_offset = response.next_offset }) d in
        if not response.is_done
        then issue_snapshot_chunk peer_id e
        else transfer_done peer_id t.snapshot.metadata.last_included_index e)

-- The response is to the live transfer.
unfoldable pub answers_transfer : InstallSnapshotResponse → OutgoingSnapshot → Bool
answers_transfer response t =
    (response.request_term == t.term)
    && (response.transfer_id == t.transfer_id)
    && (response.snapshot_id == t.snapshot.id)

-- `handleInstallSnapshotResponse` for a response to the live transfer.
unfoldable pub answer_transfer : InstallSnapshotResponse → OutgoingSnapshot → Core → Outcome
unfolding offset_fits transfer_answered
answer_transfer response t c =
    if ltb c.hard_state.term response.term
    then (adopt_higher_term response.term c, none)
    else if (response.term == c.hard_state.term) && offset_fits response t
    then transfer_answered response t c
    else (c, none)

unfoldable pub handle_install_snapshot_response : InstallSnapshotResponse → Core → Outcome
unfolding answers_transfer answer_transfer
handle_install_snapshot_response response c =
    if not (is_leader c.role) || not (response.leader_id == c.local_id)
    then (c, none)
    else elim (lookup response.responder_id c.outgoing_snapshots) [
      | none ↦ (c, none)
      | some t ↦ if answers_transfer response t then answer_transfer response t c else (c, none)
    ]
