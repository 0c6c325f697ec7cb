-- ===== src/Raft/Core/Discipline.antt =====
-- The vote and term discipline of Tick and Step in internal/raft/core.go.
use crane.Base.{
  ℕ, ◌≡◌, refl, inl, inr, Bool, true, false, ◌==◌, ltb, leb, ◌&&◌, ◌||◌, not, if◌then◌else◌, Option,
  none, some, List, Result, ok, err, arith, Bool-cases, Option-cases, Result-cases,
}
use crane.Raft.Messages.{
  Rpc, PreVoteRequest, handshake, handshake_ack, pre_vote_request, pre_vote_response,
  request_vote_request, request_vote_response, append_entries_request, append_entries_response,
  install_snapshot_request, install_snapshot_response, error_response, validate_rpc_sender,
}
use crane.Raft.Core.State.{Core, Outcome, is_leader}
use crane.Raft.Core.Election.{start_pre_vote, tick_leader, handle_pre_vote_request}
use crane.Raft.Core.Step.{tick, step, check_rpc, handle_rpc}
use crane.Raft.Core.Frame.{queue_message-Steady}
use crane.Raft.Core.Ballot.{Evolves, Evolves-refl, Steady-Evolves, Recast-Evolves}
use crane.Raft.Core.Discipline.Elections.{
  start_pre_vote-Evolves, tick_leader-Evolves, handle_pre_vote_response-Evolves,
  handle_vote_request-Evolves, handle_vote_response-Evolves,
}
use crane.Raft.Core.Discipline.Replication.{handle_append_response-Evolves}
use crane.Raft.Core.Discipline.Followers.{
  handle_append_request-Evolves, handle_install_snapshot_request-Evolves,
  handle_install_snapshot_response-Evolves,
}
pub mod Roles
mod Elections
mod Replication
mod Followers

handle_pre_vote_request-Evolves :
    (m : PreVoteRequest) (c : Core) → Evolves c (handle_pre_vote_request m c).0
unfolding handle_pre_vote_request
handle_pre_vote_request-Evolves m c = Steady-Evolves (queue_message-Steady _ _ _ c)

handle_rpc-Evolves : (offset : ℕ) (rpc : Rpc) (c : Core) → Evolves c (handle_rpc offset rpc c).0
unfolding handle_rpc
handle_rpc-Evolves offset (pre_vote_request m) c = handle_pre_vote_request-Evolves m c
handle_rpc-Evolves offset (pre_vote_response m) c = handle_pre_vote_response-Evolves offset m c
handle_rpc-Evolves offset (request_vote_request m) c = handle_vote_request-Evolves m c
handle_rpc-Evolves offset (request_vote_response m) c = handle_vote_response-Evolves m c
handle_rpc-Evolves offset (append_entries_request m) c = handle_append_request-Evolves offset m c
handle_rpc-Evolves offset (install_snapshot_request m) c =
    handle_install_snapshot_request-Evolves offset m c
handle_rpc-Evolves offset (append_entries_response m) c = handle_append_response-Evolves m c
handle_rpc-Evolves offset (install_snapshot_response m) c =
    handle_install_snapshot_response-Evolves m c
handle_rpc-Evolves offset (error_response m) c = Evolves-refl c
handle_rpc-Evolves offset (handshake m) c = Evolves-refl c
handle_rpc-Evolves offset (handshake_ack m) c = Evolves-refl c

-- Step, whatever the RPC and its sender and whether it fails or not, keeps the identity and the voter
-- set of the core, never lowers the term, changes a vote that is cast only together with a higher term,
-- and leaves the hard state alone or puts the new one into the pending batch to be made durable. A sound
-- core stays sound: the commit index never falls, and what was committed reads as before.
pub step-Evolves :
    (offset sender_id : ℕ) (rpc : Rpc) (c : Core) → Evolves c (step offset sender_id rpc c).0
unfolding step
step-Evolves offset sender_id rpc c = elim (Option-cases c.terminal_err) [
  | inr (e, q) ↦ simp (q, step) (Evolves-refl c)
  | inl q ↦ elim (Bool-cases c.has_pending) [
    | inl p ↦ simp (q, p, step) (Evolves-refl c)
    | inr p ↦ elim (Option-cases (validate_rpc_sender rpc sender_id c.voters)) [
      | inr (e, s) ↦ simp (q, p, s, step) (Evolves-refl c)
      | inl s ↦ elim (Option-cases (check_rpc rpc c)) [
        | inr (e, r) ↦ simp (q, p, s, r, step) (Evolves-refl c)
        | inl r ↦ simp (q, p, s, r, step) (handle_rpc-Evolves offset rpc c)
      ]
    ]
  ]
]

-- Tick, in every role and whether it fails or not, keeps the identity and the voter set of the core,
-- never lowers the term, changes a vote that is cast only together with a higher term, and leaves the
-- hard state alone or puts the new one into the pending batch to be made durable. A sound core stays
-- sound: the commit index never falls, and what was committed reads as before.
pub tick-Evolves : (offset now : ℕ) (c : Core) → Evolves c (tick offset now c).0
unfolding tick
tick-Evolves offset now c = elim (Option-cases c.terminal_err) [
  | inr (e, q) ↦ simp (q, tick) (Evolves-refl c)
  | inl q ↦
      let moved : Core = record c { now = now } in
      simp (q, tick)
        (ground (
          arith,
          Evolves-refl c,
          Recast-Evolves {c = c} {d = moved} (ground arith),
          tick_leader-Evolves now offset c,
          start_pre_vote-Evolves now offset c,
        ))
]
