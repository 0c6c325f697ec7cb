-- ===== src/Raft/Codec/Ranges.antt =====
-- The ranges of the fixed-width fields of the RPCs in internal/raft/messages.go, which Go's types give.
use crane.Base.{ℕ, ◌^◌, ◌<◌, [], ◌∷◌, All}
use crane.Base.Bytes.{IsByte}
use crane.Raft.Types.{Entry}
use crane.Raft.Messages.{
  Rpc, handshake, handshake_ack, pre_vote_request, pre_vote_response, request_vote_request,
  request_vote_response, append_entries_request, append_entries_response, install_snapshot_request,
  install_snapshot_response, error_response,
}
use crane.Raft.Codec.Wire.{kind_code}

-- A number of `width` bytes.
abbrev pub IsUint : ℕ → ℕ → Type 0
IsUint width v = v < 256 ^ width

abbrev pub EntryInRange : Entry → Type 0
EntryInRange e =
    All (IsUint 8) (e.index ∷ e.term ∷ []) × IsUint 1 (kind_code e.kind) × All IsByte e.command

abbrev pub InRange : Rpc → Type 0
InRange (handshake m) =
    IsUint 2 m.sender_id × IsUint 32 m.voter_fingerprint × IsUint 32 m.application_fingerprint
InRange (handshake_ack m) =
    IsUint 2 m.responder_id × IsUint 32 m.voter_fingerprint × IsUint 32 m.application_fingerprint
InRange (pre_vote_request m) =
    IsUint 2 m.candidate_id
    × All (IsUint 8) (m.current_term ∷ m.prospective_term ∷ m.last_log_index ∷ m.last_log_term ∷ [])
InRange (pre_vote_response m) =
    All (IsUint 2) (m.responder_id ∷ m.candidate_id ∷ [])
    × All (IsUint 8) (m.term ∷ m.request_current_term ∷ m.prospective_term ∷ [])
InRange (request_vote_request m) =
    IsUint 2 m.candidate_id × All (IsUint 8) (m.term ∷ m.last_log_index ∷ m.last_log_term ∷ [])
InRange (request_vote_response m) =
    All (IsUint 2) (m.responder_id ∷ m.candidate_id ∷ [])
    × All (IsUint 8) (m.term ∷ m.request_term ∷ [])
InRange (append_entries_request m) =
    IsUint 2 m.leader_id
    × All (IsUint 8)
        (m.term ∷ m.generation ∷ m.prev_log_index ∷ m.prev_log_term ∷ m.leader_commit ∷ [])
    × All EntryInRange m.entries
InRange (append_entries_response m) =
    All (IsUint 2) (m.responder_id ∷ m.leader_id ∷ [])
    × All (IsUint 8) (m.term ∷ m.request_term ∷ m.generation ∷ [])
    × All (IsUint 8) (m.match_index ∷ m.conflict_term ∷ m.conflict_index ∷ [])
InRange (install_snapshot_request m) =
    IsUint 2 m.leader_id
    × IsUint 8 m.term
    × IsUint 16 m.transfer_id
    × IsUint 16 m.snapshot_id
    × All (IsUint 8) (m.last_included_index ∷ m.last_included_term ∷ [])
    × IsUint 4 m.state_machine_schema_version
    × IsUint 8 m.total_length
    × IsUint 32 m.checksum
    × IsUint 8 m.offset
    × All IsByte m.chunk
InRange (install_snapshot_response m) =
    All (IsUint 2) (m.responder_id ∷ m.leader_id ∷ [])
    × All (IsUint 8) (m.term ∷ m.request_term ∷ [])
    × IsUint 16 m.transfer_id
    × IsUint 16 m.snapshot_id
    × IsUint 8 m.next_offset
InRange (error_response m) = IsUint 2 m.code × IsUint 2 m.responder_id × IsUint 8 m.term
