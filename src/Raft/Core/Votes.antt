-- ===== src/Raft/Core/Votes.antt =====
-- The answer to a vote request in internal/raft/core.go.
use crane.Base.{
  ℕ, ◌<◌, ◌≡◌, refl, sym, ap, ◌∙◌, ◌⊎◌, inl, inr, Bool, true, false, ◌==◌, ltb, leb, not,
  if◌then◌else◌, List, [], ◌∷◌, ◌++◌, arith, Bool-cases, Option-cases, ltb→lt, ==→≡,
}
use crane.Base.Maps.{lookup}
use crane.Raft.Types.{Error, HardState, proposal_failed}
use crane.Raft.Log.{Log, last_term}
use crane.Raft.Messages.{RequestVoteRequest, RequestVoteResponse, request_vote_response}
use crane.Raft.Ready.{PeerMessage, DurabilityPrerequisite}
use crane.Raft.Core.State.{Core}
use crane.Raft.Core.Queue.{
  record_hard_state, queue_message, queue_snapshot_action, needs_hard_state, fail_each,
  fail_pending_proposals,
}
use crane.Raft.Core.Roles.{cancel_incoming_snapshot, adopt_higher_term}
use crane.Raft.Core.Election.{
  candidate_log_is_up_to_date, queue_vote_response, cast_vote, handle_vote_request,
}
use crane.Raft.Core.Discipline.Roles.{adopt_higher_term-log}

-- What a granted vote rests on: the term is the request's own, the vote stands in the hard state, the
-- candidate's log is up to date, and the vote was open in that term or this candidate's before.
pub record Vouched (m : RequestVoteRequest) (c : Core) (h : HardState) : Type 0 where
  pub term_adopted : h.term ≡ m.term
  pub vote_stands : h.voted_for ≡ m.candidate_id
  pub log_fresh : candidate_log_is_up_to_date c m.last_log_index m.last_log_term ≡ true
  pub vote_free :
      (c.hard_state.term < m.term)
      ⊎ (c.hard_state.voted_for ≡ 0)
      ⊎ (c.hard_state.voted_for ≡ m.candidate_id)

-- The one message that answers the request, which is sent only once a changed hard state is durable.
pub record VoteAnswer (m : RequestVoteRequest) (c d : Core) : Type 0 where
  pub reply : RequestVoteResponse
  pub requires : DurabilityPrerequisite
  pub sent :
      d.pending_ready.messages
      ≡ c.pending_ready.messages
        ++ (record { to = m.candidate_id; rpc = request_vote_response reply; requires = requires }
            ∷ [])
  pub own_term : reply.term ≡ d.hard_state.term
  pub vouched : (reply.granted ≡ false) ⊎ Vouched m c d.hard_state
  pub guarded : (d.hard_state ≡ c.hard_state) ⊎ (requires.hard_state ≡ true)

fail_each-messages :
    (r : Error) (ids : List ℕ) (c : Core)
    → (fail_each r ids c).pending_ready.messages ≡ c.pending_ready.messages
unfolding fail_each
fail_each-messages r [] c = refl
fail_each-messages r (id ∷ ids) c = elim (Option-cases (lookup id c.pending_proposals)) [
  | inl q ↦ simp (q, fail_each) (fail_each-messages r ids c)
  | inr (e, q) ↦ simp (q, fail_each) (fail_each-messages r ids _)
]

cancel-messages :
    (c : Core) → (cancel_incoming_snapshot c).pending_ready.messages ≡ c.pending_ready.messages
unfolding cancel_incoming_snapshot queue_snapshot_action
cancel-messages c = ground arith

adopt-messages :
    (t : ℕ) (c : Core) → (adopt_higher_term t c).pending_ready.messages ≡ c.pending_ready.messages
unfolding adopt_higher_term record_hard_state fail_pending_proposals
adopt-messages t c =
    cancel-messages (fail_pending_proposals proposal_failed c)
    ∙ fail_each-messages proposal_failed c.pending_proposal_order c

answered :
    (m : RequestVoteRequest) (g b : Bool) (c d : Core)
    → d.pending_ready.messages ≡ c.pending_ready.messages
    → (g ≡ false) ⊎ Vouched m c d.hard_state
    → (d.hard_state ≡ c.hard_state) ⊎ (b ≡ true)
    → VoteAnswer m c (queue_vote_response m g b d)
unfolding queue_vote_response queue_message
answered m g b c d q v h =
    let reply : RequestVoteResponse = record {
      responder_id = d.local_id;
      candidate_id = m.candidate_id;
      term = d.hard_state.term;
      request_term = m.term;
      granted = g;
    } in
    let message : PeerMessage = record {
      to = m.candidate_id;
      rpc = request_vote_response reply;
      requires = needs_hard_state b;
    } in
    record {
      reply = reply;
      requires = needs_hard_state b;
      sent = ap (λ (ms : List PeerMessage). ms ++ (message ∷ [])) q;
      own_term = refl;
      vouched = v;
      guarded = h;
    }

-- The core that casts the vote: in the request's term, with the old log and messages.
record Casting (m : RequestVoteRequest) (b : Bool) (c d : Core) : Type 0 where
  at_term : d.hard_state.term ≡ m.term
  same_log : d.log ≡ c.log
  same_messages : d.pending_ready.messages ≡ c.pending_ready.messages
  free : (c.hard_state.term < m.term) ⊎ (d.hard_state.voted_for ≡ c.hard_state.voted_for)
  noted : (d.hard_state ≡ c.hard_state) ⊎ (b ≡ true)

-- `candidateLogIsUpToDate`, which reads the log alone.
fresh_in : Log → ℕ → ℕ → Bool
fresh_in l i t = if not (t == last_term l) then ltb (last_term l) t else leb l.last_index i

fresh_before :
    (i t : ℕ) (c d : Core)
    → d.log ≡ c.log
    → candidate_log_is_up_to_date d i t ≡ true
    → candidate_log_is_up_to_date c i t ≡ true
unfolding candidate_log_is_up_to_date fresh_in
fresh_before i t c d q h = ap (λ (l : Log). fresh_in l i t) (sym q) ∙ h

Vouched-by :
    (m : RequestVoteRequest) (b : Bool) (c d : Core) (h : HardState)
    → Casting m b c d
    → candidate_log_is_up_to_date d m.last_log_index m.last_log_term ≡ true
    → (d.hard_state.voted_for ≡ 0) ⊎ (d.hard_state.voted_for ≡ m.candidate_id)
    → h.term ≡ d.hard_state.term
    → h.voted_for ≡ m.candidate_id
    → Vouched m c h
Vouched-by m b c d h k good v t w = record {
  term_adopted = t ∙ k.at_term;
  vote_stands = w;
  log_fresh = fresh_before _ _ c d k.same_log good;
  vote_free = (let f = k.free in ground arith);
}

cast_vote-answer :
    (m : RequestVoteRequest) (b : Bool) (c d : Core)
    → Casting m b c d
    → VoteAnswer m c (cast_vote m b d)
unfolding cast_vote record_hard_state
cast_vote-answer m b c d k =
    elim (Bool-cases (candidate_log_is_up_to_date d m.last_log_index m.last_log_term)) [
      | inr stale ↦ elim (Bool-cases (d.hard_state.voted_for == 0)) [
        | inl unvoted ↦
            rw (unvoted, stale) (answered m false b c d k.same_messages (inl refl) k.noted)
        | inr voted ↦ elim (Bool-cases (d.hard_state.voted_for == m.candidate_id)) [
          | inl again ↦
              rw (voted, again, stale) (answered m false b c d k.same_messages (inl refl) k.noted)
          | inr other ↦
              rw (voted, other) (answered m false b c d k.same_messages (inl refl) k.noted)
        ]
      ]
      | inl good ↦ elim (Bool-cases (d.hard_state.voted_for == 0)) [
        | inl unvoted ↦
            let h : HardState = record (d.hard_state) { voted_for = m.candidate_id } in
            let v = Vouched-by m b c d h k good (inl (==→≡ _ _ unvoted)) refl refl in
            rw (unvoted, good)
              (answered m true true c (record_hard_state (record d { hard_state = h }))
                k.same_messages (inr v) (inr refl))
        | inr voted ↦ elim (Bool-cases (d.hard_state.voted_for == m.candidate_id)) [
          | inl again ↦
              let mine = ==→≡ _ _ again in
              let v = Vouched-by m b c d d.hard_state k good (inr mine) refl mine in
              rw (voted, again, good) (answered m true b c d k.same_messages (inr v) k.noted)
          | inr other ↦
              rw (voted, other) (answered m false b c d k.same_messages (inl refl) k.noted)
        ]
      ]
    ]

risen :
    (m : RequestVoteRequest) (c : Core)
    → c.hard_state.term < m.term
    → Casting m true c (adopt_higher_term m.term c)
unfolding adopt_higher_term record_hard_state
risen m c up = record {
  at_term = refl;
  same_log = adopt_higher_term-log m.term c;
  same_messages = adopt-messages m.term c;
  free = inl up;
  noted = inr refl;
}

-- A vote request puts exactly one message into the batch: the response, with the core's term. It grants
-- the vote only where the core is in the request's term then, its vote for this candidate stands in the
-- hard state, the candidate's log is at least as up to date as the core's, and the vote was open in that
-- term or this candidate's before. If the hard state has changed, the response waits for it to be durable.
pub handle_vote_request_lem :
    (m : RequestVoteRequest) (c : Core) → VoteAnswer m c (handle_vote_request m c).0
unfolding handle_vote_request
handle_vote_request_lem m c = elim (Bool-cases (ltb m.term c.hard_state.term)) [
  | inl old ↦ rw old (answered m false false c c refl (inl refl) (inl refl))
  | inr current ↦ elim (Bool-cases (ltb c.hard_state.term m.term)) [
    | inl up ↦
        rw (current, up)
          (cast_vote-answer m true c (adopt_higher_term m.term c) (risen m c (ltb→lt _ _ up)))
    | inr level ↦
        rw (current, level)
          (cast_vote-answer m false c c (record {
            at_term = ground arith;
            same_log = refl;
            same_messages = refl;
            free = inr refl;
            noted = inl refl;
          }))
  ]
]
