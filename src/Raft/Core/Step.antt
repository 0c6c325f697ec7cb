-- ===== src/Raft/Core/Step.antt =====
-- internal/raft/core.go: the entry points of the core (NewCore, Tick, Step, Ready, Advance).
use crane.Base.{
  ℕ, ◌+◌, ◌==◌, ltb, leb, max_u64, Bool, true, false, ◌&&◌, ◌||◌, not, Option, none, some, List, [],
  ◌∷◌, if◌then◌else◌, Result, failure, ok, err,
}
use crane.Raft.Types.{
  Error, Entry, HardState, ready_outstanding, tick_regression, ready_token_exhausted, advance_token,
  invalid_core_state,
}
use crane.Raft.Log.{Log, state, new_log, last_term, advance_applied, final_index}
use crane.Raft.Voters.{VoterSet, contains_voter, validate_local_id}
use crane.Raft.Messages.{
  Rpc, AppendEntriesRequest, handshake, handshake_ack, pre_vote_request, pre_vote_response,
  request_vote_request, request_vote_response, append_entries_request, append_entries_response,
  install_snapshot_request, install_snapshot_response, error_response, validate_rpc_sender,
}
use crane.Raft.Codec.{CodecLimits, default_codec_limits, validate_rpc}
use crane.Raft.Codec.Encode.{encode_rpc}
use crane.Raft.Ready.{Ready}
use crane.Raft.Core.State.{Core, Outcome, is_leader, follower, sample_deadline}
use crane.Raft.Core.Election.{
  start_pre_vote, tick_leader, handle_pre_vote_request, handle_pre_vote_response,
  handle_vote_request, handle_vote_response,
}
use crane.Raft.Core.Append.{handle_append_request}
use crane.Raft.Core.Replication.{handle_append_response}
use crane.Raft.Core.Install.{handle_install_snapshot_request}
use crane.Raft.Core.Snapshots.{handle_install_snapshot_response}

-- The log is never nil here, and the random source is the draw that `new_core` takes.
pub record CoreOptions : Type 0 where
  pub local_id : ℕ
  pub voters : VoterSet
  pub hard_state : HardState
  pub log : Log
  pub applied_index : ℕ
  pub election_timeout_min : ℕ
  pub election_timeout_max : ℕ
  pub heartbeat_interval : ℕ
  pub max_append_entries : ℕ
  pub max_append_bytes : ℕ

abbrev pub empty_ready : Ready
empty_ready = record {
  token = 0;
  hard_state = none;
  entries = [];
  messages = [];
  committed_entries = [];
  committed_proposals = [];
  failed_proposals = [];
  snapshot_actions = [];
}

unfoldable pub heartbeat_of : CoreOptions → ℕ
heartbeat_of o = if o.heartbeat_interval == 0 then 1 else o.heartbeat_interval

unfoldable pub append_limits_of : CoreOptions → CodecLimits
append_limits_of o = record default_codec_limits {
  max_append_entries =
      if o.max_append_entries == 0
      then default_codec_limits.max_append_entries
      else o.max_append_entries;
  max_encoded_bytes =
      if o.max_append_bytes == 0
      then default_codec_limits.max_encoded_bytes
      else o.max_append_bytes;
}

-- The empty request by which the limits are tried.
unfoldable pub probe_request : ℕ → AppendEntriesRequest
probe_request local_id = record {
  leader_id = local_id;
  term = 1;
  generation = 1;
  prev_log_index = 0;
  prev_log_term = 0;
  leader_commit = 0;
  entries = [];
}

-- Every test of `NewCore` but those of the timing: the recovered state is consistent.
unfoldable pub recovered_ok : CoreOptions → Bool
recovered_ok o =
    let s = state o.log in
    (s.commit_index == o.hard_state.commit_index)
    && (s.applied_index == o.applied_index)
    && ((o.hard_state.voted_for == 0)
        || (not (o.hard_state.term == 0) && contains_voter o.voters o.hard_state.voted_for))
    && not (ltb o.hard_state.term (last_term o.log))

unfoldable pub options_ok : CoreOptions → Bool
unfolding recovered_ok heartbeat_of append_limits_of probe_request
options_ok o = elim (validate_local_id o.voters o.local_id) [
  | some e ↦ false
  | none ↦
      if (o.election_timeout_min == 0) || leb o.election_timeout_max o.election_timeout_min
      then false
      else if leb o.election_timeout_min (heartbeat_of o)
      then false
      else elim (encode_rpc (append_entries_request (probe_request o.local_id))
          (append_limits_of o)) [ err e ↦ false | ok payload ↦ recovered_ok o ]
]

unfoldable pub initial : CoreOptions → Log → Core
unfolding heartbeat_of append_limits_of
initial o log = record {
  local_id = o.local_id;
  voters = o.voters;
  hard_state = o.hard_state;
  log = log;
  role = follower;
  leader_id = 0;
  now = 0;
  election_deadline = 0;
  deadline_exhausted = false;
  election_timeout_min = o.election_timeout_min;
  election_timeout_max = o.election_timeout_max;
  recent_leader = false;
  heartbeat_interval = heartbeat_of o;
  heartbeat_deadline = 0;
  quorum_deadline = 0;
  quorum_responses = [];
  append_limits = append_limits_of o;
  pre_votes = [];
  votes = [];
  progress = [];
  next_proposal_id = 0;
  pending_proposals = [];
  pending_proposal_order = [];
  proposal_at_index = [];
  incoming_snapshot = none;
  outgoing_snapshots = [];
  snapshot_action_done = false;
  pending_ready = empty_ready;
  has_pending = false;
  next_token = 0;
  terminal_err = none;
}

-- Every error of `NewCore` is ErrInvalidCoreState.
unfoldable pub new_core : ℕ → CoreOptions → Result Error Core
unfolding options_ok initial
new_core offset o =
    let s = state o.log in
    if not (options_ok o)
    then err invalid_core_state
    else elim (new_log s.snapshot_index s.snapshot_term s.commit_index s.applied_index s.entries) [
      | err e ↦ err invalid_core_state
      | ok log ↦ elim (sample_deadline (initial o log) 0 offset) [
        | err e ↦ err invalid_core_state
        | ok deadline ↦ ok (record (initial o log) { election_deadline = deadline })
      ]
    ]

unfoldable pub tick : ℕ → ℕ → Core → Outcome
tick offset now c = elim (c.terminal_err) [
  | some e ↦ (c, some e)
  | none ↦
      if c.has_pending
      then (c, some ready_outstanding)
      else if ltb now c.now
      then (c, some tick_regression)
      else if is_leader c.role
      then tick_leader now offset c
      else if c.deadline_exhausted
      then (record c { now = now }, none)
      else if ltb now c.election_deadline
      then (record c { now = now }, none)
      else start_pre_vote now offset c
]

-- `Step`'s switch.
unfoldable pub handle_rpc : ℕ → Rpc → Core → Outcome
handle_rpc offset (pre_vote_request m) c = handle_pre_vote_request m c
handle_rpc offset (pre_vote_response m) c = handle_pre_vote_response offset m c
handle_rpc offset (request_vote_request m) c = handle_vote_request m c
handle_rpc offset (request_vote_response m) c = handle_vote_response m c
handle_rpc offset (append_entries_request m) c = handle_append_request offset m c
handle_rpc offset (install_snapshot_request m) c = handle_install_snapshot_request offset m c
handle_rpc offset (append_entries_response m) c = handle_append_response m c
handle_rpc offset (install_snapshot_response m) c = handle_install_snapshot_response m c
handle_rpc offset (error_response m) c = (c, none)
handle_rpc offset (handshake m) c = (c, none)
handle_rpc offset (handshake_ack m) c = (c, none)

-- An AppendEntries request must fit this core's own limits, any other RPC the default ones.
unfoldable pub check_rpc : Rpc → Core → Option Error
check_rpc (append_entries_request m) c =
    failure (encode_rpc (append_entries_request m) c.append_limits)
check_rpc rpc c = validate_rpc rpc default_codec_limits

unfoldable pub step : ℕ → ℕ → Rpc → Core → Outcome
unfolding check_rpc
step offset sender_id rpc c = elim (c.terminal_err) [
  | some e ↦ (c, some e)
  | none ↦
      if c.has_pending
      then (c, some ready_outstanding)
      else elim (validate_rpc_sender rpc sender_id c.voters) [
        | some e ↦ (c, some e)
        | none ↦ elim (check_rpc rpc c) [ some e ↦ (c, some e) | none ↦ handle_rpc offset rpc c ]
      ]
]

-- The batch, or none; the first read of a batch gives it its token.
unfoldable pub ready : Core → Core × Option Ready
ready c =
    if not c.has_pending
    then (c, none)
    else if not (c.pending_ready.token == 0)
    then (c, some c.pending_ready)
    else if c.next_token == max_u64
    then (record c { terminal_err = some ready_token_exhausted }, none)
    else (let stamped = record (c.pending_ready) { token = c.next_token + 1 } in
        (record c { next_token = c.next_token + 1; pending_ready = stamped }, some stamped))

-- The last of the committed entries, where there is one, is applied.
unfoldable pub apply_committed : List Entry → Log → Result Error Log
apply_committed [] l = ok l
apply_committed (e ∷ es) l = advance_applied l (final_index e.index es)

unfoldable pub has_action : Ready → Bool
has_action r = elim (r.snapshot_actions) [ [] ↦ false | a ∷ rest ↦ true ]

unfoldable pub advance : ℕ → Core → Outcome
unfolding apply_committed has_action
advance token c = elim (c.terminal_err) [
  | some e ↦ (c, some e)
  | none ↦
      if not c.has_pending || (token == 0) || not (token == c.pending_ready.token)
      then (c, some advance_token)
      else if has_action c.pending_ready && not c.snapshot_action_done
      then (c, some ready_outstanding)
      else elim (apply_committed c.pending_ready.committed_entries c.log) [
        | err e ↦ (c, some e)
        | ok log ↦ (
          record c {
            log = log;
            pending_ready = empty_ready;
            has_pending = false;
            snapshot_action_done = false;
          },
          none,
        )
      ]
]
