-- ===== src/Raft/Core/Promotion.antt =====
-- Who does not become the leader in internal/raft/core.go: what every handler but that of a vote response
-- makes of a core that does not lead.
pub mod Followers
pub mod Calls
pub mod Majority
use crane.Base.{
  ℕ, ◌≡◌, refl, ap, ◌∙◌, inl, inr, Bool, true, false, ◌==◌, ltb, ◌&&◌, not, none, some, List, arith,
  max_u64, Bool-cases, Option-cases, Result-cases,
}
use crane.Raft.Types.{Entry, EntryKind}
use crane.Raft.Log.{AppendResult, Log, appended, refused, new_log, append, advance_commit, compact}
use crane.Raft.Messages.{
  PreVoteRequest, PreVoteResponse, RequestVoteRequest, AppendEntriesRequest, AppendEntriesResponse,
  InstallSnapshotRequest, InstallSnapshotResponse,
}
use crane.Raft.Ready.{Snapshot, SnapshotMetadata, SnapshotActionResult, DurabilityPrerequisite}
use crane.Raft.Core.State.{Core, Outcome, ◌▷◌, is_leader, sample_deadline}
use crane.Raft.Core.Queue.{record_hard_state, queue_entries, queue_committed_entries}
use crane.Raft.Core.Roles.{adopt_higher_term, handle_leader_contact, follow_term}
use crane.Raft.Core.Election.{
  start_pre_vote, start_election, handle_pre_vote_request, handle_pre_vote_response,
  queue_vote_response, cast_vote, handle_vote_request, stand,
}
use crane.Raft.Core.Frame.{Steady, queue_message-Steady, each_peer-Steady}

abbrev pub Unled : Core → Type 0
Unled c = is_leader c.role ≡ false

pub Steady-Unled : {c d : Core} → Steady c d → Unled c → Unled d
Steady-Unled s f = ap is_leader s.same_role ∙ f

adopt_higher_term-Unled : (t : ℕ) (c : Core) → Unled (adopt_higher_term t c)
unfolding adopt_higher_term record_hard_state
adopt_higher_term-Unled t c = refl

pub handle_leader_contact-Unled :
    (leader_id term offset : ℕ) (c : Core)
    → Unled c
    → Unled (handle_leader_contact leader_id term offset c)
unfolding handle_leader_contact
handle_leader_contact-Unled leader_id term offset c f =
    elim (Bool-cases (ltb term c.hard_state.term)) [
      | inl old ↦ rw old f
      | inr current ↦ rw current refl
    ]

pub start_pre_vote-Unled :
    (now offset : ℕ) (c : Core) → Unled c → Unled (start_pre_vote now offset c).0
unfolding start_pre_vote
start_pre_vote-Unled now offset c f = elim (Bool-cases (c.hard_state.term == max_u64)) [
  | inl spent ↦ rw spent f
  | inr room ↦ elim (Result-cases (sample_deadline c now offset)) [
    | inr (e, q) ↦ rw (q, room, start_pre_vote) f
    | inl (d, q) ↦
        rw (q, room, start_pre_vote)
          (Steady-Unled
            (each_peer-Steady _ c.voters.voters _ (λ id d. queue_message-Steady id _ _ d)) refl)
  ]
]

start_election-Unled : (offset : ℕ) (c : Core) → Unled c → Unled (start_election offset c).0
unfolding start_election record_hard_state
start_election-Unled offset c f = elim (Bool-cases (c.hard_state.term == max_u64)) [
  | inl spent ↦ rw spent f
  | inr room ↦ elim (Result-cases (sample_deadline c c.now offset)) [
    | inr (e, q) ↦ rw (q, room, start_election) f
    | inl (d, q) ↦
        rw (q, room, start_election)
          (Steady-Unled
            (each_peer-Steady _ c.voters.voters _ (λ id d. queue_message-Steady id _ _ d)) refl)
  ]
]

pub handle_pre_vote_request-Unled :
    (m : PreVoteRequest) (c : Core) → Unled c → Unled (handle_pre_vote_request m c).0
unfolding handle_pre_vote_request
handle_pre_vote_request-Unled m c f = Steady-Unled (queue_message-Steady _ _ _ c) f

pub handle_pre_vote_response-Unled :
    (offset : ℕ) (m : PreVoteResponse) (c : Core)
    → Unled c
    → Unled (handle_pre_vote_response offset m c).0
unfolding handle_pre_vote_response
handle_pre_vote_response-Unled offset m c f = ground (arith, start_election-Unled offset c f)

answered-Unled :
    (m : RequestVoteRequest) (g b : Bool) (c : Core) → Unled c → Unled (queue_vote_response m g b c)
unfolding queue_vote_response
answered-Unled m g b c f = Steady-Unled (queue_message-Steady _ _ _ c) f

cast_vote-Unled : (m : RequestVoteRequest) (b : Bool) (c : Core) → Unled c → Unled (cast_vote m b c)
unfolding cast_vote record_hard_state
cast_vote-Unled m b c f =
    let voted : Core =
      record_hard_state
        (record c { hard_state = record (c.hard_state) { voted_for = m.candidate_id } }) in
    ground (
      arith,
      answered-Unled m true true voted f,
      answered-Unled m true b c f,
      answered-Unled m false b c f,
    )

pub handle_vote_request-Unled :
    (m : RequestVoteRequest) (c : Core) → Unled c → Unled (handle_vote_request m c).0
unfolding handle_vote_request
handle_vote_request-Unled m c f = ground (
  arith,
  answered-Unled m false false c f,
  cast_vote-Unled m true (adopt_higher_term m.term c) (adopt_higher_term-Unled m.term c),
  cast_vote-Unled m false c f,
)
