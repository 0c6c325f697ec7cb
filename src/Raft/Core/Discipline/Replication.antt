-- ===== src/Raft/Core/Discipline/Replication.antt =====
-- The ballot discipline of the leader's replication in internal/raft/core.go.
use crane.Base.{
  ℕ, zero, suc, ◌+◌, ◌<◌, inl, inr, Bool, true, false, ◌==◌, ltb, leb, ◌&&◌, if◌then◌else◌, max_u64,
  none, arith, Bool-cases, Option-cases, Result-cases, ltb→lt,
}
use crane.Base.Maps.{lookup}
use crane.Raft.Log.{checked_next_index, advance_commit}
use crane.Raft.Messages.{AppendEntriesResponse}
use crane.Raft.Ready.{Progress}
use crane.Raft.Core.State.{Core}
use crane.Raft.Core.Roles.{adopt_higher_term}
use crane.Raft.Core.Replication.{
  put_progress, note_response, issue_append, advance_from, advance_leader_commit, commit_at,
  lowered_progress, commit_and_continue, matched_progress, retry_append, repair_index,
  addressed_append, answers_live, answer_live, append_accepted, append_refused,
  handle_append_response,
}
use crane.Raft.Core.Frame.{
  Steady, Steady-refl, Steady-trans, queue_committed_entries-Steady, issue_append-Steady,
}
use crane.Raft.Core.Ballot.{
  Evolves, Evolves-refl, Evolves-trans, Steady-Evolves, committed-Evolves, ▷-Evolves,
}
use crane.Raft.Core.Discipline.Roles.{adopt_higher_term-Evolves}

pub commit_at-Evolves : (n : ℕ) (c : Core) → Evolves c (commit_at n c).0
unfolding commit_at
commit_at-Evolves n c = elim (Result-cases (advance_commit c.log n)) [
  | inr (e, q) ↦ rw (q, commit_at) (Evolves-refl c)
  | inl (l, q) ↦
      rw (q, commit_at)
        (Evolves-trans (committed-Evolves n l c q)
          (Steady-Evolves (queue_committed_entries-Steady c.log.commit_index n _)))
]

pub advance_from-Evolves : (n : ℕ) (c : Core) → Evolves c (advance_from n c).0
unfolding advance_from
advance_from-Evolves zero c = Evolves-refl c
advance_from-Evolves (suc n) c = ground (
  arith,
  advance_from-Evolves n c,
  commit_at-Evolves (c.log.commit_index + suc n) c,
  Evolves-refl c,
)

pub advance_leader_commit-Evolves : (c : Core) → Evolves c (advance_leader_commit c).0
unfolding advance_leader_commit
advance_leader_commit-Evolves c = advance_from-Evolves _ c

pub note_put-Steady :
    (id : ℕ) (p : Progress) (c : Core) → Steady c (note_response id (put_progress id p c))
unfolding note_response put_progress
note_put-Steady id p c = ground arith

pub commit_and_continue-Evolves :
    (id : ℕ) (q : Progress) (more : Bool) (c : Core) → Evolves c (commit_and_continue id q more c).0
unfolding commit_and_continue
commit_and_continue-Evolves id q more c =
    ▷-Evolves c (advance_leader_commit (note_response id (put_progress id q c))) _
      (Evolves-trans (Steady-Evolves (note_put-Steady id q c)) (advance_leader_commit-Evolves _))
      (λ d. Steady-Evolves (continue-Steady more d))
  where
    continue-Steady :
        (b : Bool) (d : Core) → Steady d (if b then issue_append id d else (d, none)).0
    continue-Steady true d = issue_append-Steady id d
    continue-Steady false d = Steady-refl d

pub append_accepted-Evolves :
    (m : AppendEntriesResponse) (p : Progress) (c : Core) → Evolves c (append_accepted m p c).0
unfolding append_accepted
append_accepted-Evolves m p c =
    let matched : ℕ = if ltb p.match_index m.match_index then m.match_index else p.match_index in
    elim (Option-cases (checked_next_index matched)) [
      | inl q ↦ rw (q, append_accepted) (Evolves-refl c)
      | inr (n, q) ↦
          let r : Progress = matched_progress matched n p in
          let more : Bool = leb r.next_index c.log.last_index in
          elim (Bool-cases (more && (r.generation == max_u64))) [
            | inl spent ↦ rw (q, append_accepted, spent) (Evolves-refl c)
            | inr room ↦
                rw (q, append_accepted, room) (commit_and_continue-Evolves m.responder_id r more c)
          ]
    ]

pub retry_append-Steady : (id : ℕ) (q : Progress) (c : Core) → Steady c (retry_append id q c).0
unfolding retry_append
retry_append-Steady id q c =
    let d : Core = note_response id (put_progress id q c) in
    ground (
      arith,
      Steady-refl c,
      note_put-Steady id q c,
      Steady-trans (note_put-Steady id q c) (issue_append-Steady id d),
    )

pub append_refused-Evolves :
    (m : AppendEntriesResponse) (p : Progress) (c : Core) → Evolves c (append_refused m p c).0
unfolding append_refused
append_refused-Evolves m p c = elim (Result-cases (repair_index m c)) [
  | inr (e, q) ↦ rw (q, append_refused) (Evolves-refl c)
  | inl (h, q) ↦ elim (Option-cases (checked_next_index c.log.last_index)) [
    | inl r ↦ rw (q, r, append_refused) (Evolves-refl c)
    | inr (u, r) ↦ elim (Option-cases (checked_next_index p.match_index)) [
      | inl s ↦ rw (q, r, s, append_refused) (Evolves-refl c)
      | inr (l, s) ↦
          rw (q, r, s, append_refused)
            (Steady-Evolves (
              retry_append-Steady m.responder_id (lowered_progress h u l c.log.snapshot_index p) c))
    ]
  ]
]

pub higher_term-Evolves :
    (t id : ℕ) (p : Progress) (c : Core)
    → c.hard_state.term < t
    → Evolves c (adopt_higher_term t (note_response id (put_progress id p c)))
unfolding note_response put_progress
higher_term-Evolves t id p c h =
    Evolves-trans (Steady-Evolves (note_put-Steady id p c)) (adopt_higher_term-Evolves t _ h)

answer_live-Evolves :
    (m : AppendEntriesResponse) (p : Progress) (c : Core) → Evolves c (answer_live m p c).0
unfolding answer_live
answer_live-Evolves m p c = elim (Bool-cases (ltb c.hard_state.term m.term)) [
  | inl up ↦ rw up (higher_term-Evolves m.term m.responder_id _ c (ltb→lt _ _ up))
  | inr level ↦ elim (Bool-cases m.success) [
    | inl agreed ↦ rw (level, agreed) (append_accepted-Evolves m p c)
    | inr refusal ↦ rw (level, refusal) (append_refused-Evolves m p c)
  ]
]

pub handle_append_response-Evolves :
    (m : AppendEntriesResponse) (c : Core) → Evolves c (handle_append_response m c).0
unfolding handle_append_response
handle_append_response-Evolves m c = elim (Bool-cases (addressed_append m c)) [
  | inr other ↦ rw other (Evolves-refl c)
  | inl ours ↦ elim (Option-cases (lookup m.responder_id c.progress)) [
    | inl q ↦ rw (ours, q, handle_append_response) (Evolves-refl c)
    | inr (p, q) ↦ elim (Bool-cases (answers_live m p)) [
      | inr old ↦ rw (ours, q, handle_append_response, old) (Evolves-refl c)
      | inl live ↦ rw (ours, q, handle_append_response, live) (answer_live-Evolves m p c)
    ]
  ]
]
