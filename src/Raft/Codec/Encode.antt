-- ===== src/Raft/Codec/Encode.antt =====
-- internal/raft/codec.go: EncodeRPC, a writer per message.
use crane.Base.{ℕ, none, some, List, [], ◌∷◌, length, Result, ok, err, ◌>>=◌}
use crane.Raft.Types.{Error, Entry}
use crane.Raft.Messages.{
  Handshake, HandshakeAck, PreVoteRequest, PreVoteResponse, RequestVoteRequest, RequestVoteResponse,
  AppendEntriesRequest, AppendEntriesResponse, InstallSnapshotRequest, InstallSnapshotResponse,
  ErrorResponse, Rpc, handshake, handshake_ack, pre_vote_request, pre_vote_response,
  request_vote_request, request_vote_response, append_entries_request, append_entries_response,
  install_snapshot_request, install_snapshot_response, error_response,
}
use crane.Raft.Codec.{CodecLimits, resolve_codec_limits, validate_rpc}
use crane.Raft.Codec.Wire.{
  Encoder, Writer, ◌then◌, write_uint, write_boolean, write_bytes32, write_uints, kind_code,
  message_type, schema_version,
}

unfoldable pub encode_handshake : Handshake → Writer
encode_handshake m =
    write_uint 2 m.sender_id
    then write_uint 32 m.voter_fingerprint
    then write_uint 32 m.application_fingerprint

unfoldable pub encode_handshake_ack : HandshakeAck → Writer
encode_handshake_ack m =
    write_uint 2 m.responder_id
    then write_uint 32 m.voter_fingerprint
    then write_uint 32 m.application_fingerprint

unfoldable pub encode_pre_vote_request : PreVoteRequest → Writer
encode_pre_vote_request m =
    write_uint 2 m.candidate_id
    then write_uints 8
        (m.current_term ∷ m.prospective_term ∷ m.last_log_index ∷ m.last_log_term ∷ [])

unfoldable pub encode_pre_vote_response : PreVoteResponse → Writer
encode_pre_vote_response m =
    write_uints 2 (m.responder_id ∷ m.candidate_id ∷ [])
    then write_uints 8 (m.term ∷ m.request_current_term ∷ m.prospective_term ∷ [])
    then write_boolean m.granted

unfoldable pub encode_request_vote_request : RequestVoteRequest → Writer
encode_request_vote_request m =
    write_uint 2 m.candidate_id
    then write_uints 8 (m.term ∷ m.last_log_index ∷ m.last_log_term ∷ [])

unfoldable pub encode_request_vote_response : RequestVoteResponse → Writer
encode_request_vote_response m =
    write_uints 2 (m.responder_id ∷ m.candidate_id ∷ [])
    then write_uints 8 (m.term ∷ m.request_term ∷ [])
    then write_boolean m.granted

-- The body of the loop of `encodeAppendEntriesRequest`.
unfoldable pub encode_entry : Entry → Writer
encode_entry e =
    write_uints 8 (e.index ∷ e.term ∷ [])
    then write_uint 1 (kind_code e.kind)
    then write_bytes32 e.command

unfoldable pub encode_entries : List Entry → Writer
unfolding encode_entry
encode_entries [] = ok
encode_entries (e ∷ es) = encode_entry e then encode_entries es

unfoldable pub encode_append_entries_request : AppendEntriesRequest → Writer
unfolding encode_entries
encode_append_entries_request m =
    write_uint 2 m.leader_id
    then write_uints 8
        (m.term ∷ m.generation ∷ m.prev_log_index ∷ m.prev_log_term ∷ m.leader_commit ∷ [])
    then write_uint 2 (length m.entries)
    then encode_entries m.entries

unfoldable pub encode_append_entries_response : AppendEntriesResponse → Writer
encode_append_entries_response m =
    write_uints 2 (m.responder_id ∷ m.leader_id ∷ [])
    then write_uints 8 (m.term ∷ m.request_term ∷ m.generation ∷ [])
    then write_boolean m.success
    then write_uints 8 (m.match_index ∷ m.conflict_term ∷ m.conflict_index ∷ [])

unfoldable pub encode_install_snapshot_request : InstallSnapshotRequest → Writer
encode_install_snapshot_request m =
    write_uint 2 m.leader_id
    then write_uint 8 m.term
    then write_uint 16 m.transfer_id
    then write_uint 16 m.snapshot_id
    then write_uints 8 (m.last_included_index ∷ m.last_included_term ∷ [])
    then write_uint 4 m.state_machine_schema_version
    then write_uint 8 m.total_length
    then write_uint 32 m.checksum
    then write_uint 8 m.offset
    then write_bytes32 m.chunk
    then write_boolean m.is_done

unfoldable pub encode_install_snapshot_response : InstallSnapshotResponse → Writer
encode_install_snapshot_response m =
    write_uints 2 (m.responder_id ∷ m.leader_id ∷ [])
    then write_uints 8 (m.term ∷ m.request_term ∷ [])
    then write_uint 16 m.transfer_id
    then write_uint 16 m.snapshot_id
    then write_uint 8 m.next_offset
    then write_boolean m.success
    then write_boolean m.is_done

unfoldable pub encode_error_response : ErrorResponse → Writer
encode_error_response m =
    write_uint 2 m.code then write_uint 2 m.responder_id then write_uint 8 m.term

-- The switch of `EncodeRPC`.
unfoldable pub encode_message : Rpc → Writer
encode_message (handshake m) = encode_handshake m
encode_message (handshake_ack m) = encode_handshake_ack m
encode_message (pre_vote_request m) = encode_pre_vote_request m
encode_message (pre_vote_response m) = encode_pre_vote_response m
encode_message (request_vote_request m) = encode_request_vote_request m
encode_message (request_vote_response m) = encode_request_vote_response m
encode_message (append_entries_request m) = encode_append_entries_request m
encode_message (append_entries_response m) = encode_append_entries_response m
encode_message (install_snapshot_request m) = encode_install_snapshot_request m
encode_message (install_snapshot_response m) = encode_install_snapshot_response m
encode_message (error_response m) = encode_error_response m

-- `EncodeRPC` under resolved limits: the message type and the payload.
unfoldable pub encode_resolved : Rpc → CodecLimits → Result Error (ℕ × List ℕ)
unfolding encode_message
encode_resolved rpc resolved = elim (validate_rpc rpc resolved) [
  | some e ↦ err e
  | none ↦
      (write_uint 2 (schema_version (message_type rpc)) then encode_message rpc)
        (record { payload = []; maximum = resolved.max_encoded_bytes })
      >>= λ (e : Encoder). ok (message_type rpc, e.payload)
]

unfoldable pub encode_rpc : Rpc → CodecLimits → Result Error (ℕ × List ℕ)
unfolding encode_resolved
encode_rpc rpc limits = resolve_codec_limits limits >>= encode_resolved rpc
