-- ===== src/Raft/Core/Install.antt =====
-- internal/raft/core.go: the follower's side of a snapshot transfer.
use crane.Base.{
  ◌%◌, max_u64, ℕ, ◌+◌, ◌==◌, ltb, leb, Bool, true, false, ◌&&◌, ◌||◌, not, Option, none, some,
  List, [], ◌∷◌, length, if◌then◌else◌, Result, ok, err,
}
use crane.Raft.Types.{Error, advance_token, invalid_core_state}
use crane.Raft.Log.{new_log}
use crane.Raft.Messages.{InstallSnapshotRequest, InstallSnapshotResponse, install_snapshot_response}
use crane.Raft.Ready.{
  SnapshotMetadata, SnapshotTransferMetadata, SnapshotAction, SnapshotActionResult, RecoveredState,
  stage, abort, SnapshotActionKind,
}
use crane.Raft.Core.State.{Core, Outcome, IncomingSnapshot}
use crane.Raft.Core.Queue.{queue_message, queue_snapshot_action, no_prerequisite, needs_hard_state}
use crane.Raft.Core.Roles.{handle_leader_contact, cancel_incoming_snapshot, authority_changed}

unfoldable pub snapshot_transfer_metadata_for : InstallSnapshotRequest → SnapshotTransferMetadata
snapshot_transfer_metadata_for request = record {
  leader_id = request.leader_id;
  term = request.term;
  transfer_id = request.transfer_id;
  snapshot_id = request.snapshot_id;
  metadata = record {
    last_included_index = request.last_included_index;
    last_included_term = request.last_included_term;
    state_machine_schema_version = request.state_machine_schema_version;
  };
  total_length = request.total_length;
  checksum = request.checksum;
}

-- Go's `==` on the two metadata structs.
unfoldable pub same_metadata : SnapshotMetadata → SnapshotMetadata → Bool
same_metadata a b =
    (a.last_included_index == b.last_included_index)
    && (a.last_included_term == b.last_included_term)
    && (a.state_machine_schema_version == b.state_machine_schema_version)

unfoldable pub same_transfer : SnapshotTransferMetadata → SnapshotTransferMetadata → Bool
unfolding same_metadata
same_transfer a b =
    (a.leader_id == b.leader_id)
    && (a.term == b.term)
    && (a.transfer_id == b.transfer_id)
    && (a.snapshot_id == b.snapshot_id)
    && same_metadata a.metadata b.metadata
    && (a.total_length == b.total_length)
    && (a.checksum == b.checksum)

-- `snapshotResponse`, with its other fields from the core and the request.
unfoldable pub snapshot_response :
    Core → InstallSnapshotRequest → Bool → Bool → ℕ → InstallSnapshotResponse
snapshot_response c request success finished next_offset = record {
  responder_id = c.local_id;
  leader_id = request.leader_id;
  term = c.hard_state.term;
  request_term = request.term;
  transfer_id = request.transfer_id;
  snapshot_id = request.snapshot_id;
  next_offset = next_offset;
  success = success;
  is_done = finished;
}

unfoldable pub refuse_chunk : InstallSnapshotRequest → Core → Core
refuse_chunk request =
    queue_snapshot_action (record { kind = abort; request = request; reset = false })

-- The chunk is staged unless it leaves a gap or overlaps in part.
unfoldable pub stage_chunk : InstallSnapshotRequest → Bool → IncomingSnapshot → Core → Core
unfolding refuse_chunk
stage_chunk request reset incoming c =
    let next_offset = incoming.next_offset in
    let end = (request.offset + length request.chunk) % (max_u64 + 1) in
    let current = record c { incoming_snapshot = some incoming } in
    if ltb next_offset request.offset || (ltb request.offset next_offset && ltb next_offset end)
    then refuse_chunk request current
    else queue_snapshot_action (record { kind = stage; request = request; reset = reset })
        (record c { incoming_snapshot = some (record incoming { request = request }) })

-- The transfer that the request starts.
unfoldable pub fresh_incoming : InstallSnapshotRequest → IncomingSnapshot
fresh_incoming request = record {
  metadata = snapshot_transfer_metadata_for request;
  next_offset = 0;
  request = request;
}

unfoldable pub receive_chunk : InstallSnapshotRequest → Core → Core
unfolding stage_chunk fresh_incoming
receive_chunk request c = elim (c.incoming_snapshot) [
  | none ↦
      if not (request.offset == 0)
      then refuse_chunk request c
      else stage_chunk request false (fresh_incoming request) c
  | some incoming ↦
      if same_transfer incoming.metadata (snapshot_transfer_metadata_for request)
      then stage_chunk request false incoming c
      else if not (request.offset == 0)
      then refuse_chunk request c
      else stage_chunk request true (fresh_incoming request) c
]

unfoldable pub handle_install_snapshot_request : ℕ → InstallSnapshotRequest → Core → Outcome
unfolding receive_chunk
handle_install_snapshot_request offset request c =
    let changed = ltb c.hard_state.term request.term in
    let d = handle_leader_contact request.leader_id request.term offset c in
    if ltb request.term c.hard_state.term
    then (
      queue_message request.leader_id
          (install_snapshot_response (snapshot_response c request false false 0)) no_prerequisite c,
      none,
    )
    else if authority_changed c request.leader_id request.term
    then (d, none)
    else if leb request.last_included_index d.log.commit_index
    then (let e = cancel_incoming_snapshot d in
        (
          queue_message request.leader_id
              (install_snapshot_response
                (snapshot_response e request true true request.total_length))
              (needs_hard_state changed) e,
          none,
        ))
    else (receive_chunk request d, none)

-- What `CompleteSnapshotAction` hands to the peer: the response, or an error.
abbrev pub Answer : Type 0
Answer = Core × Result Error InstallSnapshotResponse

-- The state that the owner installed is the one that the request described.
unfoldable pub installed_matches : Core → InstallSnapshotRequest → RecoveredState → Bool
installed_matches c request state = elim (state.snapshot) [
  | none ↦ false
  | some snapshot ↦
      let m = snapshot_transfer_metadata_for request in
      (snapshot.id == request.snapshot_id)
      && same_metadata snapshot.metadata m.metadata
      && (snapshot.state_checksum == request.checksum)
      && same_metadata state.snapshot_base m.metadata
      && (state.hard_state.term == c.hard_state.term)
      && (state.hard_state.voted_for == c.hard_state.voted_for)
      && leb request.last_included_index state.hard_state.commit_index
      && leb request.last_included_index state.applied_index
]

-- The action is done, and the incoming transfer is as given.
unfoldable pub finish_action : Option IncomingSnapshot → Core → Core
finish_action incoming c = record c { incoming_snapshot = incoming; snapshot_action_done = true }

unfoldable pub install_state : InstallSnapshotRequest → SnapshotActionResult → Core → Answer
unfolding installed_matches finish_action
install_state request result c =
    let state = result.state in
    if not (installed_matches c request state)
    then (c, err invalid_core_state)
    else elim (new_log state.snapshot_base.last_included_index
        state.snapshot_base.last_included_term state.hard_state.commit_index state.applied_index
        state.entries) [
          | err e ↦ (c, err invalid_core_state)
          | ok log ↦
              let d = finish_action none (record c { log = log; hard_state = state.hard_state }) in
              (d, ok (snapshot_response d request true true result.next_offset))
        ]

-- The offset that the owner must report after the chunk, where it has one.
unfoldable pub wanted_offset : InstallSnapshotRequest → IncomingSnapshot → Option ℕ
wanted_offset request incoming =
    let end = (request.offset + length request.chunk) % (max_u64 + 1) in
    if request.offset == incoming.next_offset
    then some end
    else if ltb incoming.next_offset end
    then none
    else some incoming.next_offset

unfoldable pub complete_stage :
    InstallSnapshotRequest → SnapshotActionResult → IncomingSnapshot → Core → Answer
unfolding install_state wanted_offset
complete_stage request result incoming c = elim (wanted_offset request incoming) [
  | none ↦ (c, err invalid_core_state)
  | some wanted ↦
      if not (result.next_offset == wanted) || ltb request.total_length result.next_offset
      then (c, err invalid_core_state)
      else if not result.is_done
      then (if request.is_done || (result.next_offset == request.total_length)
          then (c, err invalid_core_state)
          else (
            finish_action (some (record incoming { next_offset = result.next_offset })) c,
            ok (snapshot_response c request true false result.next_offset),
          ))
      else if not request.is_done || not (result.next_offset == request.total_length)
      then (c, err invalid_core_state)
      else install_state request result c
]

-- A staging action is accepted while its transfer is still the live one.
unfoldable pub complete_live : InstallSnapshotRequest → SnapshotActionResult → Core → Answer
unfolding complete_stage
complete_live request result c = elim (c.incoming_snapshot) [
  | none ↦ (c, err invalid_core_state)
  | some incoming ↦
      if not (same_transfer incoming.metadata (snapshot_transfer_metadata_for request))
      then (c, err invalid_core_state)
      else if result.rejected
      then (finish_action none c, ok (snapshot_response c request false false 0))
      else complete_stage request result incoming c
]

unfoldable pub complete_kind :
    SnapshotActionKind → InstallSnapshotRequest → SnapshotActionResult → Core → Answer
unfolding complete_live
complete_kind abort request result c =
    (finish_action none c, ok (snapshot_response c request false false 0))
complete_kind stage request result c = complete_live request result c

unfoldable pub complete_only : List SnapshotAction → SnapshotActionResult → Core → Answer
unfolding complete_kind
complete_only (action ∷ []) result c = complete_kind action.kind action.request result c
complete_only _ result c = (c, err advance_token)

-- The response stands for the `PeerMessage` to its `leader_id`, which has no prerequisite.
unfoldable pub complete_snapshot_action :
    ℕ → SnapshotActionResult → Core → Core × Result Error InstallSnapshotResponse
unfolding complete_only
complete_snapshot_action token result c = elim (c.terminal_err) [
  | some e ↦ (c, err e)
  | none ↦
      if not c.has_pending
        || (token == 0)
        || not (token == c.pending_ready.token)
        || c.snapshot_action_done
      then (c, err advance_token)
      else complete_only c.pending_ready.snapshot_actions result c
]
