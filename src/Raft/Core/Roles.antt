-- ===== src/Raft/Core/Roles.antt =====
-- internal/raft/core.go: the changes of role and term (adoptHigherTerm, stepDownWithoutTermChange,
-- handleLeaderContact), and the cancelling of a snapshot that was coming in.
use crane.Base.{
  ℕ, ◌-◌, ◌==◌, ltb, max_u64, Bool, true, false, ◌&&◌, ◌||◌, not, none, some, [], if◌then◌else◌, ok,
  err,
}
use crane.Raft.Types.{proposal_failed}
use crane.Raft.Ready.{abort}
use crane.Raft.Core.State.{Core, follower, is_leader, sample_deadline}
use crane.Raft.Core.Queue.{record_hard_state, queue_snapshot_action, fail_pending_proposals}

unfoldable pub cancel_incoming_snapshot : Core → Core
cancel_incoming_snapshot c = elim (c.incoming_snapshot) [
  | none ↦ c
  | some incoming ↦
      queue_snapshot_action (record { kind = abort; request = incoming.request; reset = false })
        (record c { incoming_snapshot = none })
]

-- The fields that `adoptHigherTerm` sets between the two calls and the recording.
unfoldable pub follow_term : ℕ → Core → Core
follow_term term c =
    let exhausted = ltb (max_u64 - c.election_timeout_min) c.now in
    record c {
      hard_state = record (c.hard_state) { term = term; voted_for = 0 };
      role = follower;
      leader_id = 0;
      recent_leader = false;
      pre_votes = [];
      votes = [];
      progress = [];
      outgoing_snapshots = [];
      quorum_responses = [];
      election_deadline = if exhausted then max_u64 else c.election_deadline;
      deadline_exhausted = exhausted || c.deadline_exhausted;
    }

unfoldable pub adopt_higher_term : ℕ → Core → Core
unfolding follow_term
adopt_higher_term term c =
    record_hard_state
      (follow_term term (cancel_incoming_snapshot (fail_pending_proposals proposal_failed c)))

-- A deadline, and whether it is the saturated one that stands for an overflow.
pub record Deadline : Type 0 where
  pub at : ℕ
  pub exhausted : Bool

-- `sampleDeadline` where its one error is absorbed.
unfoldable pub absorbed_deadline : Core → ℕ → ℕ → Deadline
absorbed_deadline c now offset = elim (sample_deadline c now offset) [
  | ok deadline ↦ record { at = deadline; exhausted = false }
  | err e ↦ record { at = max_u64; exhausted = true }
]

-- The fields that `stepDownWithoutTermChange` sets.
unfoldable pub stand_down : Deadline → Core → Core
stand_down d c = record c {
  deadline_exhausted = d.exhausted;
  role = follower;
  leader_id = 0;
  recent_leader = false;
  progress = [];
  outgoing_snapshots = [];
  quorum_responses = [];
  election_deadline = d.at;
}

-- Its error result is always nil.
unfoldable pub step_down_without_term_change : ℕ → ℕ → Core → Core
unfolding stand_down
step_down_without_term_change now offset c =
    fail_pending_proposals proposal_failed (stand_down (absorbed_deadline c now offset) c)

-- The snapshot that is coming in is another leader's, or another term's.
unfoldable pub authority_changed : Core → ℕ → ℕ → Bool
authority_changed c leader_id term = elim (c.incoming_snapshot) [
  | none ↦ false
  | some incoming ↦
      not (incoming.metadata.term == term) || not (incoming.metadata.leader_id == leader_id)
]

-- The fields that `handleLeaderContact` sets at its end.
unfoldable pub follow_leader : ℕ → Deadline → Core → Core
follow_leader leader_id d c = record c {
  role = follower;
  leader_id = leader_id;
  recent_leader = true;
  pre_votes = [];
  votes = [];
  progress = [];
  outgoing_snapshots = [];
  quorum_responses = [];
  election_deadline = d.at;
  deadline_exhausted = d.exhausted;
}

-- The source's error result is always nil: `sampleDeadline` has no error but the one absorbed.
unfoldable pub handle_leader_contact : ℕ → ℕ → ℕ → Core → Core
unfolding follow_leader
handle_leader_contact leader_id term offset c =
    let d = absorbed_deadline c c.now offset in
    let c₁ = if authority_changed c leader_id term then cancel_incoming_snapshot c else c in
    let c₂ =
      if ltb c₁.hard_state.term term
      then adopt_higher_term term c₁
      else if is_leader c₁.role && not (leader_id == c₁.local_id)
      then fail_pending_proposals proposal_failed c₁
      else c₁ in
    if ltb term c.hard_state.term then c else follow_leader leader_id d c₂
