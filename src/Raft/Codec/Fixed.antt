-- ===== src/Raft/Codec/Fixed.antt =====
-- internal/raft/codec.go: the decoders of the RPCs of fixed size.
use crane.Base.{ok, ◌>>=◌}
use crane.Raft.Messages.{
  Rpc, handshake, handshake_ack, pre_vote_request, pre_vote_response, request_vote_request,
  request_vote_response, append_entries_response, install_snapshot_response, error_response,
}
use crane.Raft.Codec.Wire.{Reader, read_uint, read_boolean, read_uints, field}

unfoldable pub decode_handshake : Reader Rpc
decode_handshake d = do
  (id, d) ← read_uint 2 d
  (voters, d) ← read_uint 32 d
  (application, d) ← read_uint 32 d
  ok (
    handshake (record {
      sender_id = id;
      voter_fingerprint = voters;
      application_fingerprint = application;
    }),
    d,
  )

unfoldable pub decode_handshake_ack : Reader Rpc
decode_handshake_ack d = do
  (id, d) ← read_uint 2 d
  (voters, d) ← read_uint 32 d
  (application, d) ← read_uint 32 d
  ok (
    handshake_ack (record {
      responder_id = id;
      voter_fingerprint = voters;
      application_fingerprint = application;
    }),
    d,
  )

unfoldable pub decode_pre_vote_request : Reader Rpc
decode_pre_vote_request d = do
  (id, d) ← read_uint 2 d
  (fields, d) ← read_uints 8 4 d
  ok (
    pre_vote_request (record {
      candidate_id = id;
      current_term = field fields 0;
      prospective_term = field fields 1;
      last_log_index = field fields 2;
      last_log_term = field fields 3;
    }),
    d,
  )

unfoldable pub decode_pre_vote_response : Reader Rpc
decode_pre_vote_response d = do
  (ids, d) ← read_uints 2 2 d
  (fields, d) ← read_uints 8 3 d
  (granted, d) ← read_boolean d
  ok (
    pre_vote_response (record {
      responder_id = field ids 0;
      candidate_id = field ids 1;
      term = field fields 0;
      request_current_term = field fields 1;
      prospective_term = field fields 2;
      granted = granted;
    }),
    d,
  )

unfoldable pub decode_request_vote_request : Reader Rpc
decode_request_vote_request d = do
  (id, d) ← read_uint 2 d
  (fields, d) ← read_uints 8 3 d
  ok (
    request_vote_request (record {
      candidate_id = id;
      term = field fields 0;
      last_log_index = field fields 1;
      last_log_term = field fields 2;
    }),
    d,
  )

unfoldable pub decode_request_vote_response : Reader Rpc
decode_request_vote_response d = do
  (ids, d) ← read_uints 2 2 d
  (fields, d) ← read_uints 8 2 d
  (granted, d) ← read_boolean d
  ok (
    request_vote_response (record {
      responder_id = field ids 0;
      candidate_id = field ids 1;
      term = field fields 0;
      request_term = field fields 1;
      granted = granted;
    }),
    d,
  )

unfoldable pub decode_append_entries_response : Reader Rpc
decode_append_entries_response d = do
  (ids, d) ← read_uints 2 2 d
  (fields, d) ← read_uints 8 3 d
  (success, d) ← read_boolean d
  (hints, d) ← read_uints 8 3 d
  ok (
    append_entries_response (record {
      responder_id = field ids 0;
      leader_id = field ids 1;
      term = field fields 0;
      request_term = field fields 1;
      generation = field fields 2;
      success = success;
      match_index = field hints 0;
      conflict_term = field hints 1;
      conflict_index = field hints 2;
    }),
    d,
  )

unfoldable pub decode_install_snapshot_response : Reader Rpc
decode_install_snapshot_response d = do
  (ids, d) ← read_uints 2 2 d
  (fields, d) ← read_uints 8 2 d
  (transfer_id, d) ← read_uint 16 d
  (snapshot_id, d) ← read_uint 16 d
  (next_offset, d) ← read_uint 8 d
  (success, d) ← read_boolean d
  (is_done, d) ← read_boolean d
  ok (
    install_snapshot_response (record {
      responder_id = field ids 0;
      leader_id = field ids 1;
      term = field fields 0;
      request_term = field fields 1;
      transfer_id = transfer_id;
      snapshot_id = snapshot_id;
      next_offset = next_offset;
      success = success;
      is_done = is_done;
    }),
    d,
  )

unfoldable pub decode_error_response : Reader Rpc
decode_error_response d = do
  (code, d) ← read_uint 2 d
  (responder_id, d) ← read_uint 2 d
  (term, d) ← read_uint 8 d
  ok (error_response (record { code = code; responder_id = responder_id; term = term }), d)
