-- ===== src/Raft/Core/State.antt =====
-- internal/raft/core.go: the state of one core, and how its methods chain. A method that returns an
-- error leaves behind what it wrote before, so each yields the core together with its error.
use crane.Base.{
  ℕ, ◌+◌, ◌-◌, ltb, max_u64, Bool, Option, none, some, List, if◌then◌else◌, Result, ok, err,
}
use crane.Raft.Types.{Error, Entry, HardState, deadline_overflow}
use crane.Raft.Log.{Log}
use crane.Raft.Voters.{VoterSet}
use crane.Raft.Messages.{InstallSnapshotRequest}
use crane.Raft.Codec.{CodecLimits}
use crane.Raft.Ready.{Ready, Progress, Snapshot, SnapshotTransferMetadata}

pub data Role : Type 0 where
  follower pre_candidate candidate leader : Role

pub record IncomingSnapshot : Type 0 where
  pub metadata : SnapshotTransferMetadata
  pub next_offset : ℕ
  pub request : InstallSnapshotRequest

pub record OutgoingSnapshot : Type 0 where
  pub term : ℕ
  pub peer_id : ℕ
  pub transfer_id : ℕ
  pub snapshot : Snapshot
  pub state : List ℕ
  pub next_offset : ℕ
  pub chunk_limit : ℕ
  pub active_end : ℕ

-- The random source is not a field: a method that draws from it takes the draw as its argument.
pub record Core : Type 0 where
  pub local_id : ℕ
  pub voters : VoterSet
  pub hard_state : HardState
  pub log : Log
  pub role : Role
  pub leader_id : ℕ
  pub now : ℕ
  pub election_deadline : ℕ
  pub deadline_exhausted : Bool
  pub election_timeout_min : ℕ
  pub election_timeout_max : ℕ
  pub recent_leader : Bool
  pub heartbeat_interval : ℕ
  pub heartbeat_deadline : ℕ
  pub quorum_deadline : ℕ
  pub quorum_responses : List ℕ
  pub append_limits : CodecLimits
  pub pre_votes : List ℕ
  pub votes : List ℕ
  pub progress : List (ℕ × Progress)
  pub next_proposal_id : ℕ
  pub pending_proposals : List (ℕ × Entry)
  pub pending_proposal_order : List ℕ
  pub proposal_at_index : List (ℕ × ℕ)
  pub incoming_snapshot : Option IncomingSnapshot
  pub outgoing_snapshots : List (ℕ × OutgoingSnapshot)
  pub snapshot_action_done : Bool
  pub pending_ready : Ready
  pub has_pending : Bool
  pub next_token : ℕ
  pub terminal_err : Option Error

abbrev pub Outcome : Type 0
Outcome = Core × Option Error

-- The next statement runs where the one before returned no error.
infixl 5 ◌▷◌
abbrev pub ◌▷◌ : Outcome → (Core → Outcome) → Outcome
(c, none) ▷ k = k c
(c, some e) ▷ k = (c, some e)

abbrev pub is_leader : Role → Bool
is_leader leader = Bool.true
is_leader _ = Bool.false

abbrev pub is_candidate : Role → Bool
is_candidate candidate = Bool.true
is_candidate _ = Bool.false

abbrev pub is_pre_candidate : Role → Bool
is_pre_candidate pre_candidate = Bool.true
is_pre_candidate _ = Bool.false

unfoldable pub saturating_tick_add : ℕ → ℕ → ℕ
saturating_tick_add now interval = if ltb (max_u64 - interval) now then max_u64 else now + interval

-- `offset` is what `random.Uint64n` draws below `electionTimeoutMax - electionTimeoutMin`.
unfoldable pub sample_deadline : Core → ℕ → ℕ → Result Error ℕ
sample_deadline c now offset =
    let timeout = c.election_timeout_min + offset in
    if ltb (max_u64 - timeout) now then err deadline_overflow else ok (now + timeout)
