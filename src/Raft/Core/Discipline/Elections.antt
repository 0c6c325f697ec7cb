-- ===== src/Raft/Core/Discipline/Elections.antt =====
-- The ballot discipline of the election methods of internal/raft/core.go.
use crane.Base.{
  ℕ, ◌+◌, ◌≡◌, refl, ap, inl, inr, Bool, true, false, ◌==◌, ltb, max_u64, [], ◌∷◌, arith,
  Bool-cases, Option-cases, Result-cases, ltb→lt, ==→≡,
}
use crane.Raft.Types.{Entry, HardState, entry_no_op, new_entry}
use crane.Raft.Log.{Log, checked_next_index, append, appended, last_term}
use crane.Raft.Messages.{RequestVoteRequest, RequestVoteResponse, PreVoteResponse}
use crane.Raft.Core.State.{Core, sample_deadline, saturating_tick_add}
use crane.Raft.Core.Queue.{record_hard_state, queue_entries}
use crane.Raft.Core.Roles.{cancel_incoming_snapshot, adopt_higher_term}
use crane.Raft.Core.Replication.{put_progress, each_peer}
use crane.Raft.Core.Election.{
  start_pre_vote, start_election, stand, handle_pre_vote_response, queue_vote_response, cast_vote,
  candidate_log_is_up_to_date, handle_vote_request, handle_vote_response, contact_peer, lead,
  start_leading, append_barrier, become_leader, renew_quorum, heartbeat, beat, tick_leader,
}
use crane.Raft.Log.Append.{AppendResult-cases}
use crane.Raft.Core.Frame.{
  Steady, Steady-refl, Steady-trans, queue_message-Steady, cancel_incoming_snapshot-Steady,
  contact_peer-Steady, ▷-Steady, each_peer-Steady,
}
use crane.Raft.Core.Ballot.{
  Evolves, Evolves-refl, Evolves-trans, Steady-Evolves, Recast-Evolves, recorded-Evolves,
  appended-Evolves,
}
use crane.Raft.Core.Discipline.Roles.{adopt_higher_term-Evolves, step_down-Evolves}

pub start_pre_vote-Evolves : (now offset : ℕ) (c : Core) → Evolves c (start_pre_vote now offset c).0
unfolding start_pre_vote
start_pre_vote-Evolves now offset c = elim (Bool-cases (c.hard_state.term == max_u64)) [
  | inl spent ↦ rw spent (Evolves-refl c)
  | inr room ↦ elim (Result-cases (sample_deadline c now offset)) [
    | inr (e, q) ↦ rw (q, room, start_pre_vote) (Evolves-refl c)
    | inl (d, q) ↦
        rw (q, room, start_pre_vote)
          (let s = each_peer-Steady _ c.voters.voters _ (λ id d. queue_message-Steady id _ _ d) in
            Evolves-trans (Recast-Evolves (ground arith)) (Steady-Evolves s))
  ]
]

pub start_election-Evolves : (offset : ℕ) (c : Core) → Evolves c (start_election offset c).0
unfolding start_election
start_election-Evolves offset c = elim (Bool-cases (c.hard_state.term == max_u64)) [
  | inl spent ↦ rw spent (Evolves-refl c)
  | inr room ↦ elim (Result-cases (sample_deadline c c.now offset)) [
    | inr (e, q) ↦ rw (q, room, start_election) (Evolves-refl c)
    | inl (d, q) ↦
        rw (q, room, start_election)
          (let k = cancel_incoming_snapshot-Steady c in
            let s = each_peer-Steady _ c.voters.voters _ (λ id d. queue_message-Steady id _ _ d) in
            Evolves-trans
              (recorded-Evolves c (stand (c.hard_state.term + 1) d (cancel_incoming_snapshot c))
                k.same_id k.same_voters k.same_log
                (ap (λ (h : HardState). h.commit_index) k.same_hard_state) (inl (omega arith)))
              (Steady-Evolves s))
  ]
]

pub handle_pre_vote_response-Evolves :
    (offset : ℕ) (m : PreVoteResponse) (c : Core)
    → Evolves c (handle_pre_vote_response offset m c).0
unfolding handle_pre_vote_response
handle_pre_vote_response-Evolves offset m c = ground (arith, start_election-Evolves offset c)

pub queue_vote_response-Steady :
    (m : RequestVoteRequest) (g b : Bool) (c : Core) → Steady c (queue_vote_response m g b c)
unfolding queue_vote_response
queue_vote_response-Steady m g b c = queue_message-Steady _ _ _ c

-- The first vote of a term.
granted-Evolves :
    (m : RequestVoteRequest) (c : Core)
    → c.hard_state.voted_for ≡ 0
    → Evolves c (
        queue_vote_response m true true (
          record_hard_state
            (record c { hard_state = record (c.hard_state) { voted_for = m.candidate_id } })))
granted-Evolves m c unvoted =
    Evolves-trans
      (recorded-Evolves c
        (record c { hard_state = record (c.hard_state) { voted_for = m.candidate_id } }) refl refl
        refl refl (inr (refl, inr unvoted)))
      (Steady-Evolves (queue_vote_response-Steady m true true _))

pub cast_vote-Evolves : (m : RequestVoteRequest) (b : Bool) (c : Core) → Evolves c (cast_vote m b c)
unfolding cast_vote
cast_vote-Evolves m b c = elim (Bool-cases (c.hard_state.voted_for == 0)) [
  | inl unvoted ↦
      elim (Bool-cases (candidate_log_is_up_to_date c m.last_log_index m.last_log_term)) [
        | inl fresh ↦ rw (unvoted, fresh) (granted-Evolves m c (==→≡ _ _ unvoted))
        | inr stale ↦ rw (unvoted, stale) (Steady-Evolves (queue_vote_response-Steady m false b c))
      ]
  | inr voted ↦ ground (
    arith,
    Steady-Evolves (queue_vote_response-Steady m true b c),
    Steady-Evolves (queue_vote_response-Steady m false b c),
  )
]

pub handle_vote_request-Evolves :
    (m : RequestVoteRequest) (c : Core) → Evolves c (handle_vote_request m c).0
unfolding handle_vote_request
handle_vote_request-Evolves m c = elim (Bool-cases (ltb m.term c.hard_state.term)) [
  | inl old ↦ rw old (Steady-Evolves (queue_vote_response-Steady m false false c))
  | inr current ↦ elim (Bool-cases (ltb c.hard_state.term m.term)) [
    | inl up ↦
        rw (current, up)
          (Evolves-trans (adopt_higher_term-Evolves m.term c (ltb→lt _ _ up))
            (cast_vote-Evolves m true (adopt_higher_term m.term c)))
    | inr level ↦ rw (current, level) (cast_vote-Evolves m false c)
  ]
]

pub start_leading-Evolves :
    (l : Log) (e : Entry) (n k id : ℕ) (c : Core)
    → append c.log c.log.last_index (last_term c.log) (e ∷ []) ≡ appended l
    → Evolves c (start_leading l e n k id c).0
unfolding start_leading put_progress queue_entries
start_leading-Evolves l e n k id c h =
    Evolves-trans
      (appended-Evolves c.log.last_index (last_term c.log) (e ∷ []) c _ (λ v. h) refl refl refl
        refl)
      (Steady-Evolves (
        each_peer-Steady _ c.voters.voters (queue_entries (e ∷ []) (lead l n k id c))
          (λ i d. Steady-trans (ground arith) (contact_peer-Steady i _))))

pub append_barrier-Evolves : (n k id : ℕ) (c : Core) → Evolves c (append_barrier n k id c).0
unfolding append_barrier
append_barrier-Evolves n k id c =
    elim (Result-cases (new_entry n c.hard_state.term entry_no_op [])) [
      | inr (x, q) ↦ rw (q, append_barrier) (Evolves-refl c)
      | inl (e, q) ↦
          elim (AppendResult-cases (append c.log c.log.last_index (last_term c.log) (e ∷ []))) [
            | inr (h, x, r) ↦ rw (q, r, append_barrier) (Evolves-refl c)
            | inl (l, r) ↦ rw (q, r, append_barrier) (start_leading-Evolves l e n k id c r)
          ]
    ]

pub become_leader-Evolves : (id : ℕ) (c : Core) → Evolves c (become_leader id c).0
unfolding become_leader
become_leader-Evolves id c = elim (Option-cases (checked_next_index c.log.last_index)) [
  | inl q ↦ rw (q, become_leader) (Evolves-refl c)
  | inr (n, q) ↦ elim (Option-cases (checked_next_index n)) [
    | inl r ↦ rw (q, r, become_leader) (Evolves-refl c)
    | inr (k, r) ↦ rw (q, r, become_leader) (append_barrier-Evolves n k id c)
  ]
]

pub handle_vote_response-Evolves :
    (m : RequestVoteResponse) (c : Core) → Evolves c (handle_vote_response m c).0
unfolding handle_vote_response
handle_vote_response-Evolves m c =
    ground (arith, become_leader-Evolves m.responder_id c, adopt_higher_term-Evolves m.term c)

pub renew_quorum-Steady : (now : ℕ) (c : Core) → Steady c (renew_quorum now c)
unfolding renew_quorum
renew_quorum-Steady now c = ground arith

pub heartbeat_set-Steady :
    (now : ℕ) (d : Core)
    → Steady d (record d { heartbeat_deadline = saturating_tick_add now d.heartbeat_interval })
heartbeat_set-Steady now d = ground arith

pub heartbeat-Steady : (now : ℕ) (c : Core) → Steady c (heartbeat now c).0
unfolding heartbeat
heartbeat-Steady now c = elim (Bool-cases (ltb now c.heartbeat_deadline)) [
  | inl early ↦ rw (early, heartbeat) (Steady-refl c)
  | inr due ↦
      rw (due, heartbeat)
        (▷-Steady c (each_peer contact_peer c.voters.voters c) _
          (each_peer-Steady contact_peer c.voters.voters c contact_peer-Steady)
          (λ d. heartbeat_set-Steady now d))
]

pub beat-Evolves : (now : ℕ) (c : Core) → Evolves c (beat now c).0
unfolding beat
beat-Evolves now c =
    let d : Core = renew_quorum now c in
    ground (
      arith,
      Evolves-refl c,
      Steady-Evolves (Steady-trans (renew_quorum-Steady now c) (heartbeat-Steady now d)),
    )

pub tick_leader-Evolves : (now offset : ℕ) (c : Core) → Evolves c (tick_leader now offset c).0
unfolding tick_leader
tick_leader-Evolves now offset c =
    let d : Core = record c { now = now } in
    ground (
      arith,
      Evolves-trans {c = c} {d = d} (Recast-Evolves (ground arith))
          (step_down-Evolves now offset d),
      beat-Evolves now c,
    )
