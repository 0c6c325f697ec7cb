-- ===== src/Raft/Core/Replication.antt =====
-- internal/raft/core.go: sending entries to a peer, advancing the leader's commit index, and the
-- answers to an AppendEntries request.
use crane.Base.{
  ℕ, zero, suc, ◌+◌, ◌-◌, ◌==◌, ltb, leb, max_u64, Bool, true, false, ◌&&◌, ◌||◌, not, none, some,
  List, [], ◌∷◌, ◌++◌, length, if◌then◌else◌, Result, ok, err,
}
use crane.Base.Maps.{lookup, insert, add}
use crane.Raft.Types.{
  Error, Entry, is_empty, log_overflow, rpc_too_large, replication_generation_overflow,
}
use crane.Raft.Log.{
  entry, term, checked_next_index, advance_commit, last_index_of_term, final_index,
}
use crane.Raft.Voters.{Voter, majority}
use crane.Raft.Messages.{AppendEntriesRequest, AppendEntriesResponse, append_entries_request}
use crane.Raft.Codec.Encode.{encode_rpc}
use crane.Raft.Ready.{Progress}
use crane.Raft.Core.State.{Core, Outcome, ◌▷◌, is_leader}
use crane.Raft.Core.Queue.{record_hard_state, queue_message, queue_committed_entries}
use crane.Raft.Core.Roles.{adopt_higher_term}

abbrev pub no_progress : Progress
no_progress = record {
  match_index = 0;
  next_index = 0;
  generation = 0;
  active_generation = 0;
  snapshot_needed = false;
  active_transfer_id = 0;
  active_snapshot_id = 0;
  snapshot_next_offset = 0;
  active_match_index = 0;
}

-- `core.progress[id]`, the zero value where the key is missing.
unfoldable pub progress_of : ℕ → Core → Progress
progress_of id c = elim (lookup id c.progress) [ none ↦ no_progress | some p ↦ p ]

unfoldable pub put_progress : ℕ → Progress → Core → Core
put_progress id p c = record c { progress = insert id p c.progress }

unfoldable pub note_response : ℕ → Core → Core
note_response id c = record c { quorum_responses = add id c.quorum_responses }

-- A loop over the voters that skips this one, up to the first error.
unfoldable pub each_peer : (ℕ → Core → Outcome) → List Voter → Core → Outcome
each_peer send [] c = (c, none)
each_peer send (v ∷ vs) c =
    (if v.id == c.local_id then (c, none) else send v.id c) ▷ each_peer send vs

-- `readyContainsEntry`.
unfoldable pub ready_contains_entry : List Entry → ℕ → Bool
ready_contains_entry [] index = false
ready_contains_entry (e ∷ es) index =
    if e.index == index then true else ready_contains_entry es index

abbrev pub is_too_large : Error → Bool
is_too_large rpc_too_large = true
is_too_large _ = false

-- The loop of `issueAppend` over the `count` indices from `index` on: entries are added while there
-- are fewer than the limit and the request that holds them can be encoded.
unfoldable pub collect_entries :
    Core → ℕ → ℕ → AppendEntriesRequest → Result Error AppendEntriesRequest
collect_entries c zero index request = ok request
collect_entries c (suc count) index request =
    if length request.entries == c.append_limits.max_append_entries
    then ok request
    else elim (entry c.log index) [
      | err e ↦ err e
      | ok e ↦
          let wider = record request { entries = request.entries ++ (e ∷ []) } in
          elim (encode_rpc (append_entries_request wider) c.append_limits) [
            | err x ↦ if is_too_large x then ok request else err x
            | ok payload ↦ collect_entries c count (index + 1) wider
          ]
    ]

-- The end of `issueAppend`: the request is recorded as the peer's live one, and queued.
unfoldable pub send_append : ℕ → Progress → AppendEntriesRequest → Core → Core
send_append peer_id p request c =
    let match_index = final_index request.prev_log_index request.entries in
    let ready = c.pending_ready in
    let through =
      if not (is_empty request.entries) && ready_contains_entry ready.entries match_index
      then match_index
      else 0 in
    let unsaved : Bool = elim (ready.hard_state) [ none ↦ false | some h ↦ true ] in
    queue_message peer_id (append_entries_request request)
      (record { hard_state = unsaved; entries_through = through })
      (put_progress peer_id
        (record p {
          generation = request.generation;
          active_generation = request.generation;
          active_match_index = match_index;
        })
        c)

-- The request at `progress.NextIndex`, which is past the compacted base.
unfoldable pub send_from : ℕ → Progress → Core → Outcome
unfolding collect_entries send_append
send_from peer_id p c = elim (term c.log (p.next_index - 1)) [
  | err e ↦ (c, some e)
  | ok prev_term ↦
      let bare : AppendEntriesRequest = record {
        leader_id = c.local_id;
        term = c.hard_state.term;
        generation = p.generation + 1;
        prev_log_index = p.next_index - 1;
        prev_log_term = prev_term;
        leader_commit = c.log.commit_index;
        entries = [];
      } in
      elim (collect_entries c (c.log.last_index + 1 - p.next_index) p.next_index bare) [
        | err e ↦ (c, some e)
        | ok request ↦ (send_append peer_id p request c, none)
      ]
]

-- `NextIndex` moved between `MatchIndex + 1` and one past the last index.
unfoldable pub clamp_next : ℕ → ℕ → Progress → Progress
clamp_next minimum_next maximum_next p =
    let raised = if ltb p.next_index minimum_next then minimum_next else p.next_index in
    record p { next_index = if ltb maximum_next raised then maximum_next else raised }

unfoldable pub issue_to : ℕ → Progress → Core → Outcome
unfolding send_from clamp_next
issue_to peer_id p c = elim (checked_next_index p.match_index) [
  | none ↦ (c, some log_overflow)
  | some minimum_next ↦ elim (checked_next_index c.log.last_index) [
    | none ↦ (c, some log_overflow)
    | some maximum_next ↦
        let q = clamp_next minimum_next maximum_next p in
        if leb q.next_index c.log.snapshot_index
        then (
          put_progress peer_id (record q { snapshot_needed = true; active_generation = 0 }) c,
          none,
        )
        else send_from peer_id q c
  ]
]

unfoldable pub issue_append : ℕ → Core → Outcome
unfolding issue_to
issue_append peer_id c = elim (lookup peer_id c.progress) [
  | none ↦ (c, none)
  | some p ↦
      if (peer_id == c.local_id) || p.snapshot_needed
      then (c, none)
      else if p.generation == max_u64
      then (c, some replication_generation_overflow)
      else issue_to peer_id p c
]

-- How many voters are known to store `candidate`.
unfoldable pub replicas : Core → ℕ → List Voter → ℕ
replicas c candidate [] = 0
replicas c candidate (v ∷ vs) =
    let rest = replicas c candidate vs in
    if leb candidate (progress_of v.id c).match_index then suc rest else rest

-- What `advanceLeaderCommit` does at the candidate that it has found.
unfoldable pub commit_at : ℕ → Core → Outcome
commit_at candidate c = elim (advance_commit c.log candidate) [
  | err e ↦ (c, some e)
  | ok log ↦ queue_committed_entries c.log.commit_index candidate (
      record_hard_state
        (record c { log = log; hard_state = record (c.hard_state) { commit_index = candidate } }))
]

-- The loop of `advanceLeaderCommit`, from `commit + count` down.
unfoldable pub advance_from : ℕ → Core → Outcome
unfolding commit_at
advance_from zero c = (c, none)
advance_from (suc count) c =
    let candidate = c.log.commit_index + suc count in
    let lower = advance_from count c in
    elim (term c.log candidate) [
      | err e ↦ (c, some e)
      | ok t ↦
          if not (t == c.hard_state.term)
          then lower
          else if ltb (replicas c candidate c.voters.voters) (majority c.voters)
          then lower
          else commit_at candidate c
    ]

unfoldable pub advance_leader_commit : Core → Outcome
unfolding advance_from
advance_leader_commit c = advance_from (c.log.last_index - c.log.commit_index) c

-- The peer's new progress is stored, the commit index advanced, and the next request sent where
-- there are more entries; `more` is read before, and the commit leaves the last index.
unfoldable pub commit_and_continue : ℕ → Progress → Bool → Core → Outcome
commit_and_continue id q more c =
    advance_leader_commit (note_response id (put_progress id q c)) ▷ λ d.
    if more then issue_append id d else (d, none)

-- The progress of a peer that stores everything up to `matched`.
unfoldable pub matched_progress : ℕ → ℕ → Progress → Progress
matched_progress matched next_index p = record p {
  active_generation = 0;
  active_match_index = 0;
  match_index = matched;
  next_index = if ltb p.next_index next_index then next_index else p.next_index;
  snapshot_needed = false;
}

-- `handleAppendResponse` where the peer accepted.
unfoldable pub append_accepted : AppendEntriesResponse → Progress → Core → Outcome
unfolding commit_and_continue matched_progress
append_accepted response p c =
    let matched =
      if ltb p.match_index response.match_index then response.match_index else p.match_index in
    elim (checked_next_index matched) [
      | none ↦ (c, some log_overflow)
      | some next_index ↦
          let q = matched_progress matched next_index p in
          let more = leb q.next_index c.log.last_index in
          if more && (q.generation == max_u64)
          then (c, some replication_generation_overflow)
          else commit_and_continue response.responder_id q more c
    ]

-- Where the leader goes on after a rejection: past the last entry of the conflicting term, or at
-- the peer's hint.
unfoldable pub repair_index : AppendEntriesResponse → Core → Result Error ℕ
repair_index response c =
    if response.conflict_term == 0
    then ok response.conflict_index
    else elim (last_index_of_term c.log response.conflict_term) [
      | none ↦ ok response.conflict_index
      | some last ↦ elim (checked_next_index last) [ none ↦ err log_overflow | some next ↦ ok next ]
    ]

-- The end of a rejection: the peer waits for a snapshot, or gets its next request.
unfoldable pub retry_append : ℕ → Progress → Core → Outcome
retry_append id q c =
    let noted = note_response id (put_progress id q c) in
    if q.snapshot_needed
    then (noted, none)
    else if q.generation == max_u64
    then (c, some replication_generation_overflow)
    else issue_append id noted

-- The progress of a peer that goes on from the hint, kept in range.
unfoldable pub lowered_progress : ℕ → ℕ → ℕ → ℕ → Progress → Progress
lowered_progress hinted maximum_next minimum_next snapshot_index p =
    let lowered = if ltb maximum_next hinted then maximum_next else hinted in
    let next_index = if ltb lowered minimum_next then minimum_next else lowered in
    record p {
      active_generation = 0;
      active_match_index = 0;
      next_index = next_index;
      snapshot_needed = leb next_index snapshot_index;
    }

-- `handleAppendResponse` where the peer refused.
unfoldable pub append_refused : AppendEntriesResponse → Progress → Core → Outcome
unfolding repair_index lowered_progress retry_append
append_refused response p c = elim (repair_index response c) [
  | err e ↦ (c, some e)
  | ok hinted ↦ elim (checked_next_index c.log.last_index) [
    | none ↦ (c, some log_overflow)
    | some maximum_next ↦ elim (checked_next_index p.match_index) [
      | none ↦ (c, some log_overflow)
      | some minimum_next ↦
          retry_append response.responder_id
            (lowered_progress hinted maximum_next minimum_next c.log.snapshot_index p) c
    ]
  ]
]

-- The response answers the peer's live request.
unfoldable pub answers_live : AppendEntriesResponse → Progress → Bool
answers_live response p =
    (response.generation == p.active_generation)
    && (not response.success || (response.match_index == p.active_match_index))

-- `handleAppendResponse` for a response to the peer's live request.
unfoldable pub answer_live : AppendEntriesResponse → Progress → Core → Outcome
unfolding append_accepted append_refused
answer_live response p c =
    if ltb c.hard_state.term response.term
    then (
      adopt_higher_term response.term (
          note_response response.responder_id (
            put_progress response.responder_id
              (record p { active_generation = 0; active_match_index = 0 }) c)),
      none,
    )
    else if response.success
    then append_accepted response p c
    else append_refused response p c

-- The response is to this leader's request of its current term.
unfoldable pub addressed_append : AppendEntriesResponse → Core → Bool
addressed_append response c =
    is_leader c.role
    && (response.leader_id == c.local_id)
    && (response.request_term == c.hard_state.term)

unfoldable pub handle_append_response : AppendEntriesResponse → Core → Outcome
unfolding answer_live answers_live addressed_append
handle_append_response response c =
    if not (addressed_append response c)
    then (c, none)
    else elim (lookup response.responder_id c.progress) [
      | none ↦ (c, none)
      | some p ↦ if answers_live response p then answer_live response p c else (c, none)
    ]
