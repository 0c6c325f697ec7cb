-- ===== src/Raft/Messages.antt =====
-- internal/raft/messages.go: the RPCs between voters, and the binding of a payload to its sender.
-- A fixed-size byte array (an identifier, a checksum, a fingerprint) is the number that its bytes
-- spell, so that the zero array is 0.
use crane.Base.{ℕ, ◌==◌, Bool, true, ◌&&◌, not, Option, none, some, List, if◌then◌else◌}
use crane.Raft.Types.{Error, Entry, not_voter, invalid_rpc, voter_fingerprint}
use crane.Raft.Voters.{VoterSet, contains_voter}

pub record Handshake : Type 0 where
  pub sender_id : ℕ
  pub voter_fingerprint : ℕ
  pub application_fingerprint : ℕ

pub record HandshakeAck : Type 0 where
  pub responder_id : ℕ
  pub voter_fingerprint : ℕ
  pub application_fingerprint : ℕ

pub record PreVoteRequest : Type 0 where
  pub candidate_id : ℕ
  pub current_term : ℕ
  pub prospective_term : ℕ
  pub last_log_index : ℕ
  pub last_log_term : ℕ

pub record PreVoteResponse : Type 0 where
  pub responder_id : ℕ
  pub candidate_id : ℕ
  pub term : ℕ
  pub request_current_term : ℕ
  pub prospective_term : ℕ
  pub granted : Bool

pub record RequestVoteRequest : Type 0 where
  pub candidate_id : ℕ
  pub term : ℕ
  pub last_log_index : ℕ
  pub last_log_term : ℕ

pub record RequestVoteResponse : Type 0 where
  pub responder_id : ℕ
  pub candidate_id : ℕ
  pub term : ℕ
  pub request_term : ℕ
  pub granted : Bool

pub record AppendEntriesRequest : Type 0 where
  pub leader_id : ℕ
  pub term : ℕ
  pub generation : ℕ
  pub prev_log_index : ℕ
  pub prev_log_term : ℕ
  pub leader_commit : ℕ
  pub entries : List Entry

pub record AppendEntriesResponse : Type 0 where
  pub responder_id : ℕ
  pub leader_id : ℕ
  pub term : ℕ
  pub request_term : ℕ
  pub generation : ℕ
  pub success : Bool
  pub match_index : ℕ
  pub conflict_term : ℕ
  pub conflict_index : ℕ

pub record InstallSnapshotRequest : Type 0 where
  pub leader_id : ℕ
  pub term : ℕ
  pub transfer_id : ℕ
  pub snapshot_id : ℕ
  pub last_included_index : ℕ
  pub last_included_term : ℕ
  pub state_machine_schema_version : ℕ
  pub total_length : ℕ
  pub checksum : ℕ
  pub offset : ℕ
  pub chunk : List ℕ
  pub is_done : Bool

pub record InstallSnapshotResponse : Type 0 where
  pub responder_id : ℕ
  pub leader_id : ℕ
  pub term : ℕ
  pub request_term : ℕ
  pub transfer_id : ℕ
  pub snapshot_id : ℕ
  pub next_offset : ℕ
  pub success : Bool
  pub is_done : Bool

pub record ErrorResponse : Type 0 where
  pub code : ℕ
  pub responder_id : ℕ
  pub term : ℕ

pub data Rpc : Type 0 where
  handshake : Handshake → Rpc
  handshake_ack : HandshakeAck → Rpc
  pre_vote_request : PreVoteRequest → Rpc
  pre_vote_response : PreVoteResponse → Rpc
  request_vote_request : RequestVoteRequest → Rpc
  request_vote_response : RequestVoteResponse → Rpc
  append_entries_request : AppendEntriesRequest → Rpc
  append_entries_response : AppendEntriesResponse → Rpc
  install_snapshot_request : InstallSnapshotRequest → Rpc
  install_snapshot_response : InstallSnapshotResponse → Rpc
  error_response : ErrorResponse → Rpc

-- `actorID` and `correlatedID`, which is 0 where a message has none.
pub record Actors : Type 0 where
  pub actor_id : ℕ
  pub correlated_id : ℕ

abbrev pub actors : Rpc → Actors
actors (handshake m) = record { actor_id = m.sender_id; correlated_id = 0 }
actors (handshake_ack m) = record { actor_id = m.responder_id; correlated_id = 0 }
actors (pre_vote_request m) = record { actor_id = m.candidate_id; correlated_id = 0 }
actors (pre_vote_response m) = record { actor_id = m.responder_id; correlated_id = m.candidate_id }
actors (request_vote_request m) = record { actor_id = m.candidate_id; correlated_id = 0 }
actors (request_vote_response m) = record {
  actor_id = m.responder_id;
  correlated_id = m.candidate_id;
}
actors (append_entries_request m) = record { actor_id = m.leader_id; correlated_id = 0 }
actors (append_entries_response m) = record {
  actor_id = m.responder_id;
  correlated_id = m.leader_id;
}
actors (install_snapshot_request m) = record { actor_id = m.leader_id; correlated_id = 0 }
actors (install_snapshot_response m) = record {
  actor_id = m.responder_id;
  correlated_id = m.leader_id;
}
actors (error_response m) = record { actor_id = m.responder_id; correlated_id = 0 }

-- Handshakes must carry this voter set's fingerprint.
fingerprint_matches : Rpc → VoterSet → Bool
fingerprint_matches (handshake m) s = m.voter_fingerprint == s.fingerprint
fingerprint_matches (handshake_ack m) s = m.voter_fingerprint == s.fingerprint
fingerprint_matches _ s = true

unfoldable pub validate_rpc_sender : Rpc → ℕ → VoterSet → Option Error
unfolding fingerprint_matches
validate_rpc_sender rpc sender_id voters =
    let a = actors rpc in
    if not (contains_voter voters sender_id)
    then some not_voter
    else if not (fingerprint_matches rpc voters)
    then some voter_fingerprint
    else if not (a.actor_id == sender_id)
    then some invalid_rpc
    else if not (a.correlated_id == 0) && not (contains_voter voters a.correlated_id)
    then some not_voter
    else none
