-- ===== src/Raft/Core/Election.antt =====
-- internal/raft/core.go: pre-votes, votes, the start of a term's leadership, and the leader's clock.
use crane.Base.{
  ℕ, ◌+◌, ◌==◌, ltb, leb, max_u64, Bool, true, false, ◌&&◌, ◌||◌, not, none, some, List, [], ◌∷◌,
  length, if◌then◌else◌, ok, err,
}
use crane.Base.Maps.{lookup, add, contains}
use crane.Raft.Types.{
  Entry, new_entry, entry_no_op, term_overflow, log_overflow, replication_generation_overflow,
}
use crane.Raft.Log.{Log, append, appended, refused, last_term, checked_next_index}
use crane.Raft.Voters.{Voter, majority}
use crane.Raft.Messages.{
  PreVoteRequest, PreVoteResponse, RequestVoteRequest, RequestVoteResponse, pre_vote_request,
  pre_vote_response, request_vote_request, request_vote_response,
}
use crane.Raft.Core.State.{
  Core, Outcome, ◌▷◌, is_leader, is_candidate, is_pre_candidate, pre_candidate, candidate, leader,
  sample_deadline, saturating_tick_add,
}
use crane.Raft.Core.Queue.{
  record_hard_state, queue_entries, queue_message, no_prerequisite, needs_hard_state,
}
use crane.Raft.Core.Roles.{
  adopt_higher_term, cancel_incoming_snapshot, step_down_without_term_change,
}
use crane.Raft.Core.Replication.{no_progress, progress_of, put_progress, each_peer, issue_append}
use crane.Raft.Core.Snapshots.{issue_snapshot_chunk}

unfoldable pub candidate_log_is_up_to_date : Core → ℕ → ℕ → Bool
candidate_log_is_up_to_date c candidate_index candidate_term =
    if not (candidate_term == last_term c.log)
    then ltb (last_term c.log) candidate_term
    else leb c.log.last_index candidate_index

unfoldable pub start_pre_vote : ℕ → ℕ → Core → Outcome
start_pre_vote now offset c =
    if c.hard_state.term == max_u64
    then (c, some term_overflow)
    else elim (sample_deadline c now offset) [
      | err e ↦ (c, some e)
      | ok deadline ↦
          let request : PreVoteRequest = record {
            candidate_id = c.local_id;
            current_term = c.hard_state.term;
            prospective_term = c.hard_state.term + 1;
            last_log_index = c.log.last_index;
            last_log_term = last_term c.log;
          } in
          each_peer (λ id d. (queue_message id (pre_vote_request request) no_prerequisite d, none))
            c.voters.voters
            (record c {
              now = now;
              election_deadline = deadline;
              deadline_exhausted = false;
              role = pre_candidate;
              leader_id = 0;
              recent_leader = false;
              pre_votes = c.local_id ∷ [];
              votes = [];
            })
    ]

-- The decision of `handlePreVoteRequest`.
unfoldable pub grants_pre_vote : Core → PreVoteRequest → Bool
grants_pre_vote c request =
    not (is_leader c.role)
    && not c.recent_leader
    && leb c.hard_state.term request.current_term
    && candidate_log_is_up_to_date c request.last_log_index request.last_log_term

unfoldable pub handle_pre_vote_request : PreVoteRequest → Core → Outcome
unfolding grants_pre_vote
handle_pre_vote_request request c =
    let response : PreVoteResponse = record {
      responder_id = c.local_id;
      candidate_id = request.candidate_id;
      term = c.hard_state.term;
      request_current_term = request.current_term;
      prospective_term = request.prospective_term;
      granted = grants_pre_vote c request;
    } in
    (queue_message request.candidate_id (pre_vote_response response) no_prerequisite c, none)

-- The fields that `startElection` sets, the new term and the vote for itself among them.
unfoldable pub stand : ℕ → ℕ → Core → Core
stand term deadline c = record c {
  hard_state = record (c.hard_state) { term = term; voted_for = c.local_id };
  role = candidate;
  leader_id = 0;
  recent_leader = false;
  election_deadline = deadline;
  deadline_exhausted = false;
  pre_votes = [];
  votes = c.local_id ∷ [];
}

unfoldable pub start_election : ℕ → Core → Outcome
unfolding stand
start_election offset c =
    if c.hard_state.term == max_u64
    then (c, some term_overflow)
    else elim (sample_deadline c c.now offset) [
      | err e ↦ (c, some e)
      | ok deadline ↦
          let term = c.hard_state.term + 1 in
          let request : RequestVoteRequest = record {
            candidate_id = c.local_id;
            term = term;
            last_log_index = c.log.last_index;
            last_log_term = last_term c.log;
          } in
          each_peer
            (λ id d.
              (queue_message id (request_vote_request request) (needs_hard_state true) d, none))
            c.voters.voters (record_hard_state (stand term deadline (cancel_incoming_snapshot c)))
    ]

-- The response grants a pre-vote that this core still waits for.
unfoldable pub pre_vote_counts : Core → PreVoteResponse → Bool
pre_vote_counts c response =
    is_pre_candidate c.role
    && (response.candidate_id == c.local_id)
    && (response.request_current_term == c.hard_state.term)
    && not (c.hard_state.term == max_u64)
    && (response.prospective_term == (c.hard_state.term + 1))
    && leb response.term c.hard_state.term
    && response.granted

unfoldable pub handle_pre_vote_response : ℕ → PreVoteResponse → Core → Outcome
unfolding pre_vote_counts
handle_pre_vote_response offset response c =
    if not (pre_vote_counts c response)
    then (c, none)
    else if contains response.responder_id c.pre_votes
    then (c, none)
    else if ltb (length c.pre_votes + 1) (majority c.voters)
    then (record c { pre_votes = add response.responder_id c.pre_votes }, none)
    else start_election offset c

unfoldable pub queue_vote_response : RequestVoteRequest → Bool → Bool → Core → Core
queue_vote_response request granted hard_state_changed c =
    let response : RequestVoteResponse = record {
      responder_id = c.local_id;
      candidate_id = request.candidate_id;
      term = c.hard_state.term;
      request_term = request.term;
      granted = granted;
    } in
    queue_message request.candidate_id (request_vote_response response)
      (needs_hard_state hard_state_changed) c

-- `handleVoteRequest` once the term is at least the request's.
unfoldable pub cast_vote : RequestVoteRequest → Bool → Core → Core
cast_vote request changed c =
    let unvoted = c.hard_state.voted_for == 0 in
    let granted =
      (unvoted || (c.hard_state.voted_for == request.candidate_id))
      && candidate_log_is_up_to_date c request.last_log_index request.last_log_term in
    if granted && unvoted
    then queue_vote_response request true true (
        record_hard_state
          (record c { hard_state = record (c.hard_state) { voted_for = request.candidate_id } }))
    else queue_vote_response request granted changed c

unfoldable pub handle_vote_request : RequestVoteRequest → Core → Outcome
unfolding cast_vote
handle_vote_request request c =
    if ltb request.term c.hard_state.term
    then (queue_vote_response request false false c, none)
    else if ltb c.hard_state.term request.term
    then (cast_vote request true (adopt_higher_term request.term c), none)
    else (cast_vote request false c, none)

-- What the leader sends a peer when it starts, and at each heartbeat.
unfoldable pub contact_peer : ℕ → Core → Outcome
contact_peer id c = elim (lookup id c.outgoing_snapshots) [
  | some t ↦ issue_snapshot_chunk id c
  | none ↦ issue_append id c
]

-- The fields that `becomeLeader` sets.
unfoldable pub lead : Log → ℕ → ℕ → ℕ → Core → Core
lead log new_index self_next final_voter c = record c {
  log = log;
  votes = add final_voter c.votes;
  role = leader;
  leader_id = c.local_id;
  pre_votes = [];
  recent_leader = false;
  progress =
      (c.local_id, record no_progress { match_index = new_index; next_index = self_next }) ∷ [];
  quorum_responses = [];
  heartbeat_deadline = saturating_tick_add c.now c.heartbeat_interval;
  quorum_deadline = saturating_tick_add c.now c.election_timeout_min;
}

-- The leader with its barrier entry queued, and the first contact with each peer.
unfoldable pub start_leading : Log → Entry → ℕ → ℕ → ℕ → Core → Outcome
unfolding lead
start_leading log e new_index self_next final_voter c =
    each_peer
      (λ id d. contact_peer id (put_progress id (record no_progress { next_index = new_index }) d))
      c.voters.voters (queue_entries (e ∷ []) (lead log new_index self_next final_voter c))

-- The barrier entry at `new_index`.
unfoldable pub append_barrier : ℕ → ℕ → ℕ → Core → Outcome
unfolding start_leading
append_barrier new_index self_next final_voter c =
    elim (new_entry new_index c.hard_state.term entry_no_op []) [
      | err e ↦ (c, some e)
      | ok e ↦ elim (append c.log c.log.last_index (last_term c.log) (e ∷ [])) [
        | refused hint x ↦ (c, some x)
        | appended log ↦ start_leading log e new_index self_next final_voter c
      ]
    ]

unfoldable pub become_leader : ℕ → Core → Outcome
unfolding append_barrier
become_leader final_voter c = elim (checked_next_index c.log.last_index) [
  | none ↦ (c, some log_overflow)
  | some new_index ↦ elim (checked_next_index new_index) [
    | none ↦ (c, some log_overflow)
    | some self_next ↦ append_barrier new_index self_next final_voter c
  ]
]

unfoldable pub handle_vote_response : RequestVoteResponse → Core → Outcome
handle_vote_response response c =
    if not (response.candidate_id == c.local_id)
      || not (is_candidate c.role)
      || not (response.request_term == c.hard_state.term)
    then (c, none)
    else if ltb c.hard_state.term response.term
    then (adopt_higher_term response.term c, none)
    else if not (response.term == c.hard_state.term) || not response.granted
    then (c, none)
    else if contains response.responder_id c.votes
    then (c, none)
    else if ltb (length c.votes + 1) (majority c.voters)
    then (record c { votes = add response.responder_id c.votes }, none)
    else become_leader response.responder_id c

-- Some peer that needs no snapshot has a request generation that cannot advance.
unfoldable pub heartbeat_blocked : Core → List Voter → Bool
heartbeat_blocked c [] = false
heartbeat_blocked c (v ∷ vs) =
    let rest = heartbeat_blocked c vs in
    let p = progress_of v.id c in
    if v.id == c.local_id
    then rest
    else if not p.snapshot_needed && (p.generation == max_u64)
    then true
    else rest

-- The clock moves on, and an expired quorum period starts anew.
unfoldable pub renew_quorum : ℕ → Core → Core
renew_quorum now c =
    if leb c.quorum_deadline now
    then record c {
      now = now;
      quorum_responses = [];
      quorum_deadline = saturating_tick_add now c.election_timeout_min;
    }
    else record c { now = now }

-- The heartbeat, where it is due.
unfoldable pub heartbeat : ℕ → Core → Outcome
heartbeat now c =
    if ltb now c.heartbeat_deadline
    then (c, none)
    else (each_peer contact_peer c.voters.voters c ▷ λ d.
        (record d { heartbeat_deadline = saturating_tick_add now d.heartbeat_interval }, none))

-- `tickLeader` once a quorum is known to answer.
unfoldable pub beat : ℕ → Core → Outcome
unfolding heartbeat_blocked renew_quorum heartbeat
beat now c =
    if leb c.heartbeat_deadline now && heartbeat_blocked c c.voters.voters
    then (c, some replication_generation_overflow)
    else heartbeat now (renew_quorum now c)

unfoldable pub tick_leader : ℕ → ℕ → Core → Outcome
unfolding beat
tick_leader now offset c =
    if leb c.quorum_deadline now && ltb (1 + length c.quorum_responses) (majority c.voters)
    then (step_down_without_term_change now offset (record c { now = now }), none)
    else beat now c
