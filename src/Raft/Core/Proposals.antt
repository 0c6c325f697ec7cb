-- ===== src/Raft/Core/Proposals.antt =====
-- internal/raft/core.go: proposals on a leader that has committed in its own term.
use crane.Base.{
  ℕ, ◌+◌, ◌==◌, ltb, max_u64, Bool, true, false, not, none, some, List, [], ◌∷◌, ◌++◌, length,
  if◌then◌else◌, Result, ok, err,
}
use crane.Base.Maps.{insert}
use crane.Raft.Types.{
  Error, Entry, EntryKind, new_entry, ready_outstanding, not_leader, leadership_not_authorized,
  rpc_too_large, proposal_identity_overflow, replication_generation_overflow, log_overflow,
}
use crane.Raft.Log.{Log, term, append, appended, refused, last_term, checked_next_index}
use crane.Raft.Voters.{Voter}
use crane.Raft.Core.State.{Core, is_leader}
use crane.Raft.Core.Queue.{queue_entries}
use crane.Raft.Core.Replication.{no_progress, progress_of, put_progress, each_peer, issue_append}

unfoldable pub has_committed_current_term : Core → Bool
has_committed_current_term c =
    if c.log.commit_index == 0
    then false
    else elim (term c.log c.log.commit_index) [ err e ↦ false | ok t ↦ t == c.hard_state.term ]

-- Some peer's request generation cannot advance.
unfoldable pub generation_spent : Core → List Voter → Bool
generation_spent c [] = false
generation_spent c (v ∷ vs) =
    let rest = generation_spent c vs in
    if v.id == c.local_id
    then rest
    else if (progress_of v.id c).generation == max_u64
    then true
    else rest

-- A proposal's identity and its entry, or the core's error.
pub record Proposal : Type 0 where
  pub id : ℕ
  pub entry : Entry

abbrev pub Proposing : Type 0
Proposing = Core × Result Error Proposal

unfoldable pub fail : Error → Core → Proposing
fail e c = (c, err e)

-- The core that holds the new entry and its waiter, before the entry is sent.
unfoldable pub enter_proposal : Log → Entry → ℕ → Core → Core
enter_proposal log e self_next c =
    let id = c.next_proposal_id + 1 in
    queue_entries (e ∷ []) (
      put_progress c.local_id (record no_progress { match_index = e.index; next_index = self_next })
        (record c {
          log = log;
          next_proposal_id = id;
          pending_proposals = insert id e c.pending_proposals;
          pending_proposal_order = c.pending_proposal_order ++ (id ∷ []);
          proposal_at_index = insert e.index id c.proposal_at_index;
        }))

-- `issueAppend` to each peer, and what the caller gets.
unfoldable pub spread : Entry → Core → Proposing
spread e c =
    let (d, failure) = each_peer issue_append c.voters.voters c in
    elim failure [
      | some x ↦ (d, err x)
      | none ↦ (d, ok (record { id = c.next_proposal_id; entry = e }))
    ]

-- `proposeTracked` past its guards.
unfoldable pub propose_at : EntryKind → List ℕ → ℕ → ℕ → Core → Proposing
unfolding fail enter_proposal spread
propose_at kind command new_index self_next c =
    elim (new_entry new_index c.hard_state.term kind command) [
      | err e ↦ fail e c
      | ok e ↦ elim (append c.log c.log.last_index (last_term c.log) (e ∷ [])) [
        | refused hint x ↦ fail x c
        | appended log ↦ spread e (enter_proposal log e self_next c)
      ]
    ]

unfoldable pub propose_tracked : EntryKind → List ℕ → Core → Core × Result Error Proposal
unfolding generation_spent propose_at
propose_tracked kind command c = elim (c.terminal_err) [
  | some e ↦ fail e c
  | none ↦
      if c.has_pending
      then fail ready_outstanding c
      else if not (is_leader c.role)
      then fail not_leader c
      else if not (has_committed_current_term c)
      then fail leadership_not_authorized c
      else if ltb c.append_limits.max_command_bytes (length command)
      then fail rpc_too_large c
      else if c.next_proposal_id == max_u64
      then fail proposal_identity_overflow c
      else if generation_spent c c.voters.voters
      then fail replication_generation_overflow c
      else elim (checked_next_index c.log.last_index) [
        | none ↦ fail log_overflow c
        | some new_index ↦ elim (checked_next_index new_index) [
          | none ↦ fail log_overflow c
          | some self_next ↦ propose_at kind command new_index self_next c
        ]
      ]
]
