-- ===== src/Raft/Examples/Cores.antt =====
-- Member 1 of three voters, with internal/raft/core.go's methods and the theorems on them.
use mathlib.Core.List.{Memᴰ}
use crane.Base.{ℕ, ◌≡◌, ◌≤◌, ◌<◌, refl, Bool, true, false, leb, [], ◌∷◌, some, none, ok, arith}
use crane.Base.Maps.{lookup, insert, contains, add}
use crane.Raft.Types.{new_entry, validate_log_entry, is_empty}
use crane.Raft.Log.{
  term, entry, last_term, append, repair, graft, new_log, state, check_entries, checked_next_index,
  max_log_index,
}
use crane.Raft.Voters.{
  Voter, VoterSet, voter, contains_voter, majority, validate_local_id, count, quorums_meet,
}
use crane.Raft.Messages.{
  RequestVoteRequest, Rpc, RequestVoteResponse, request_vote_request, request_vote_response,
  validate_rpc_sender,
}
use crane.Raft.Codec.{
  valid_distinct_ids, default_codec_limits, validate_rpc, resolve_codec_limits,
  validate_append_request, valid_log_position,
}
use crane.Base.Bytes.{big_endian}
use crane.Raft.Codec.Wire.{write_uint, write_uints, write_bytes32}
use crane.Raft.Codec.Encode.{encode_rpc, encode_append_entries_request}
use crane.Raft.Ready.{Ready}
use crane.Raft.Core.State.{
  Core, follower, candidate, leader, is_leader, sample_deadline, saturating_tick_add,
}
use crane.Raft.Core.Queue.{queue_message, queue_entries}
use crane.Raft.Core.Replication.{
  progress_of, put_progress, each_peer, issue_append, advance_leader_commit, replicas, no_progress,
}
use crane.Raft.Core.Election.{
  candidate_log_is_up_to_date, queue_vote_response, handle_vote_request, handle_vote_response,
  become_leader, append_barrier, start_leading, lead, contact_peer,
}
use crane.Raft.Core.Step.{
  CoreOptions, empty_ready, heartbeat_of, append_limits_of, probe_request, recovered_ok, options_ok,
  initial, new_core, tick, step, check_rpc, handle_rpc, ready,
}
use crane.Raft.Core.Ballot.{Sound, Evolves}
use crane.Raft.Core.Discipline.{step-Evolves, tick-Evolves}
use crane.Raft.Core.Runs.{unmoved, then_call, stepped, read, new_core-Sound, Run-Sound, votes_once}
use crane.Raft.Core.Leadership.{Backed, Commits, advance_leader_commit_lem, backing_meets}
use crane.Raft.Core.Promotion.Majority.{Victory, elected_by_majority}
use crane.Raft.Core.Votes.{VoteAnswer, handle_vote_request_lem}
use crane.Raft.Core.Batches.{Out, ready_freezes}
use crane.Raft.Examples.Logs.{held, held-IsValid}

abbrev trio : VoterSet
trio = record {
  voters =
      record { id = 1; endpoint = "a" }
      ∷ record { id = 2; endpoint = "b" }
      ∷ record { id = 3; endpoint = "c" }
      ∷ [];
  fingerprint = 9;
}

abbrev member : Core
member = record {
  local_id = 1;
  voters = trio;
  hard_state = record { term = 2; voted_for = 2; commit_index = 4 };
  log = held;
  role = follower;
  leader_id = 0;
  now = 0;
  election_deadline = 15;
  deadline_exhausted = false;
  election_timeout_min = 10;
  election_timeout_max = 20;
  recent_leader = false;
  heartbeat_interval = 2;
  heartbeat_deadline = 0;
  quorum_deadline = 0;
  quorum_responses = [];
  append_limits = default_codec_limits;
  pre_votes = [];
  votes = [];
  progress = [];
  next_proposal_id = 0;
  pending_proposals = [];
  pending_proposal_order = [];
  proposal_at_index = [];
  incoming_snapshot = none;
  outgoing_snapshots = [];
  snapshot_action_done = false;
  pending_ready = empty_ready;
  has_pending = false;
  next_token = 0;
  terminal_err = none;
}

-- Voter 3 asks for a vote of term 2, which member 1 has given to voter 2, and then for one of term 3.
abbrev asks : ℕ → Rpc
asks t =
    request_vote_request
      (record { candidate_id = 3; term = t; last_log_index = 9; last_log_term = 2 })

abbrev asked : RequestVoteRequest
asked = record { candidate_id = 3; term = 3; last_log_index = 9; last_log_term = 2 }

step-Evolves_example : Evolves member (step 0 3 (asks 3) member).0
step-Evolves_example = step-Evolves 0 3 (asks 3) member

tick-Evolves_example : Evolves member (tick 5 16 member).0
tick-Evolves_example = tick-Evolves 5 16 member

member-Sound : Sound member
member-Sound = record { valid = held-IsValid; paired = refl }

-- The vote is asked for and the answer read out.
abbrev answered : ℕ → Core
answered t = (ready (step 0 3 (asks t) member).0).0

Run-Sound_example : Sound (answered 3)
Run-Sound_example =
    Run-Sound member (answered 3) member-Sound
      (then_call (then_call unmoved (stepped 0 3 (asks 3))) read)

answered_term : (answered 2).hard_state.term ≡ 2
unfolding step check_rpc validate_rpc_sender validate_rpc handle_rpc handle_vote_request
    queue_vote_response queue_message ready candidate_log_is_up_to_date contains_voter
    valid_log_position
answered_term = refl

votes_once_example : (answered 2).hard_state.voted_for ≡ 2
votes_once_example =
    votes_once member (answered 2) (then_call (then_call unmoved (stepped 0 3 (asks 2))) read)
      answered_term (omega arith)

abbrev options : CoreOptions
options = record {
  local_id = 1;
  voters = trio;
  hard_state = record { term = 2; voted_for = 2; commit_index = 4 };
  log = held;
  applied_index = 3;
  election_timeout_min = 10;
  election_timeout_max = 20;
  heartbeat_interval = 2;
  max_append_entries = 64;
  max_append_bytes = 4096;
}

abbrev started : Core
started = record member { append_limits = record default_codec_limits { max_encoded_bytes = 4096 } }

new_core-started : new_core 5 options ≡ ok started
unfolding new_core options_ok initial state new_log check_entries checked_next_index
    validate_log_entry is_empty sample_deadline recovered_ok validate_local_id contains_voter voter
    encode_rpc encode_append_entries_request write_uint write_uints write_bytes32 big_endian
    heartbeat_of append_limits_of probe_request last_term resolve_codec_limits
    validate_append_request valid_log_position validate_rpc
new_core-started = refl

new_core-Sound_example : Sound started
new_core-Sound_example = new_core-Sound 5 options started (omega arith) new_core-started

-- Member 1 stands in term 2, with its own vote.
abbrev standing : Core
standing = record member {
  hard_state = record { term = 2; voted_for = 1; commit_index = 4 };
  role = candidate;
  votes = 1 ∷ [];
}

abbrev support : RequestVoteResponse
support = record { responder_id = 2; candidate_id = 1; term = 2; request_term = 2; granted = true }

standing_wins : is_leader (step 0 2 (request_vote_response support) standing).0.role ≡ true
unfolding step valid_distinct_ids handle_rpc validate_rpc_sender contains_voter voter validate_rpc
    handle_vote_response become_leader append_barrier start_leading lead contact_peer each_peer
    issue_append put_progress progress_of queue_entries queue_message contains majority
    checked_next_index last_term append repair graft term check_entries max_log_index
    validate_log_entry new_entry is_empty saturating_tick_add lookup insert add entry encode_rpc
    encode_append_entries_request write_uint write_uints write_bytes32 big_endian
    resolve_codec_limits validate_append_request valid_log_position
standing_wins = refl

elected_by_majority_example : Victory standing (step 0 2 (request_vote_response support) standing).0
elected_by_majority_example =
    elected_by_majority standing (step 0 2 (request_vote_response support) standing).0
      (stepped 0 2 (request_vote_response support)) refl standing_wins

-- Member 1 leads, and voter 2 is known to store entry 5.
abbrev leading : Core
leading = record standing {
  role = leader;
  progress =
      (1, record no_progress { match_index = 5; next_index = 6 })
      ∷ (2, record no_progress { match_index = 5; next_index = 6 })
      ∷ [];
}

advance_leader_commit_example : Commits leading (advance_leader_commit leading).0
advance_leader_commit_example = advance_leader_commit_lem leading

leading-Backed : Backed leading 5
unfolding term majority replicas progress_of lookup
leading-Backed = record { own_term = refl; quorum = omega arith; beyond = omega arith }

abbrev voted_later : Voter → Bool
voted_later v = leb 2 v.id

later_majority : majority trio ≤ count voted_later trio.voters
unfolding majority count
later_majority = omega arith

backing_meets_example :
    (v : Voter) × Memᴰ v trio.voters
    × (leb 5 (progress_of v.id leading).match_index ≡ true)
    × (voted_later v ≡ true)
backing_meets_example = backing_meets leading 5 voted_later leading-Backed later_majority

abbrev voted_before : Voter → Bool
voted_before v = leb v.id 2

earlier_majority : majority trio ≤ count voted_before trio.voters
unfolding majority count
earlier_majority = omega arith

quorums_meet_example :
    (v : Voter) × Memᴰ v trio.voters × (voted_before v ≡ true) × (voted_later v ≡ true)
quorums_meet_example = quorums_meet trio voted_before voted_later earlier_majority later_majority

-- Member 1 with a changed hard state to be made durable.
abbrev batched : Core
batched = record member {
  pending_ready = record empty_ready {
    hard_state = some (record { term = 2; voted_for = 2; commit_index = 4 });
  };
  has_pending = true;
}

ready_freezes_example :
    (r : Ready) × ((ready batched).1 ≡ some r) × (0 < r.token) × Out r (ready batched).0
ready_freezes_example = ready_freezes batched refl refl (omega arith)

handle_vote_request_example : VoteAnswer asked member (handle_vote_request asked member).0
handle_vote_request_example = handle_vote_request_lem asked member
