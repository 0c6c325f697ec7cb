-- ===== src/Raft/Codec/Decode.antt =====
-- internal/raft/codec.go: DecodeRPC, with the decoders of the RPCs that carry entries or a chunk.
use crane.Base.{
  ℕ, zero, suc, ◌+◌, ◌*◌, ◌==◌, ltb, max_u64, ◌&&◌, ◌||◌, not, Option, none, some, List, [], ◌∷◌,
  length, if◌then◌else◌, Result, ok, err, ◌>>=◌,
}
use crane.Raft.Types.{
  Error, Entry, rpc_too_large, malformed_rpc, invalid_rpc, unknown_rpc, unsupported_schema,
  is_empty,
}
use crane.Raft.Messages.{
  AppendEntriesRequest, InstallSnapshotRequest, Rpc, append_entries_request,
  install_snapshot_request,
}
use crane.Raft.Codec.{
  CodecLimits, resolve_codec_limits, validate_rpc, validate_append_request,
  validate_snapshot_request, is_known_kind, is_no_op,
}
use crane.Raft.Codec.Fixed.{
  decode_handshake, decode_handshake_ack, decode_pre_vote_request, decode_pre_vote_response,
  decode_request_vote_request, decode_request_vote_response, decode_append_entries_response,
  decode_install_snapshot_response, decode_error_response,
}
use crane.Raft.Codec.Wire.{
  Reader, read_uint, read_boolean, read_bytes32, read_uints, field, kind_of, schema_version,
}

-- `decodeBorrowedEntry`.
unfoldable pub decode_entry : ℕ → Reader Entry
decode_entry maximum d = do
  (index, d) ← read_uint 8 d
  (term, d) ← read_uint 8 d
  (kind, d) ← read_uint 1 d
  (command, d) ← read_bytes32 maximum d
  ok (record { index = index; term = term; kind = kind_of kind; command = command }, d)

-- The loop that makes the entries.
unfoldable pub decode_entries : ℕ → ℕ → Reader (List Entry)
unfolding decode_entry
decode_entries maximum zero d = ok ([], d)
decode_entries maximum (suc count) d = do
  (e, d) ← decode_entry maximum d
  (es, d) ← decode_entries maximum count d
  ok (e ∷ es, d)

-- The tests of one entry in the loop that scans, after `expectedIndex++`.
unfoldable pub check_scanned : ℕ → ℕ → ℕ → Entry → Option Error
unfolding is_known_kind is_no_op is_empty
check_scanned message_term expected previous_term e =
    if not (e.index == expected)
      || (e.term == 0)
      || ltb e.term previous_term
      || ltb message_term e.term
      || not (is_known_kind e.kind)
    then some invalid_rpc
    else if is_no_op e.kind && not (is_empty e.command)
    then some invalid_rpc
    else none

-- The loop that scans the entries before room is made for them; it yields what follows them.
unfoldable pub scan_entries : ℕ → ℕ → ℕ → ℕ → ℕ → List ℕ → Result Error (List ℕ)
unfolding decode_entry check_scanned
scan_entries maximum message_term expected previous_term zero d = ok d
scan_entries maximum message_term expected previous_term (suc count) d = do
  (e, d) ← decode_entry maximum d
  if expected == max_u64
      then err invalid_rpc
      else elim (check_scanned message_term (expected + 1) previous_term e) [
        | some x ↦ err x
        | none ↦ scan_entries maximum message_term (expected + 1) e.term count d
      ]

-- `decodeAppendEntriesRequest` from the scan on, at the entries.
unfoldable pub decode_counted : AppendEntriesRequest → CodecLimits → ℕ → Reader Rpc
unfolding scan_entries decode_entries
decode_counted m limits count d = do
  left ← scan_entries limits.max_command_bytes m.term m.prev_log_index m.prev_log_term count d
  if not (is_empty left) then err malformed_rpc else do
    (entries, d) ← decode_entries limits.max_command_bytes count d
    ok (append_entries_request (record m { entries = entries }), d)

unfoldable pub decode_append_entries_request : CodecLimits → Reader Rpc
unfolding decode_counted
decode_append_entries_request limits d = do
  (leader_id, d) ← read_uint 2 d
  (fields, d) ← read_uints 8 5 d
  (count, d) ← read_uint 2 d
  let m : AppendEntriesRequest = record {
    leader_id = leader_id;
    term = field fields 0;
    generation = field fields 1;
    prev_log_index = field fields 2;
    prev_log_term = field fields 3;
    leader_commit = field fields 4;
    entries = [];
  }
  if ltb limits.max_append_entries count
      then err rpc_too_large
      else (if ltb (length d) (count * 21)
          then err malformed_rpc
          else elim (validate_append_request m limits) [
            | some e ↦ err e
            | none ↦ decode_counted m limits count d
          ])

-- `decodeInstallSnapshotRequest` once every field is read.
unfoldable pub accept_snapshot_request : InstallSnapshotRequest → CodecLimits → Reader Rpc
accept_snapshot_request m limits d =
    if not (is_empty d) then err malformed_rpc else elim (validate_snapshot_request m limits) [
      | some e ↦ err e
      | none ↦ ok (install_snapshot_request m, d)
    ]

unfoldable pub decode_install_snapshot_request : CodecLimits → Reader Rpc
unfolding accept_snapshot_request
decode_install_snapshot_request limits d = do
  (leader_id, d) ← read_uint 2 d
  (term, d) ← read_uint 8 d
  (transfer_id, d) ← read_uint 16 d
  (snapshot_id, d) ← read_uint 16 d
  (base, d) ← read_uints 8 2 d
  (version, d) ← read_uint 4 d
  (total_length, d) ← read_uint 8 d
  if ltb limits.max_snapshot_bytes total_length then err rpc_too_large else do
    (checksum, d) ← read_uint 32 d
    (offset, d) ← read_uint 8 d
    (chunk, d) ← read_bytes32 limits.max_snapshot_chunk_bytes d
    (is_done, d) ← read_boolean d
    accept_snapshot_request
        (record {
          leader_id = leader_id;
          term = term;
          transfer_id = transfer_id;
          snapshot_id = snapshot_id;
          last_included_index = field base 0;
          last_included_term = field base 1;
          state_machine_schema_version = version;
          total_length = total_length;
          checksum = checksum;
          offset = offset;
          chunk = chunk;
          is_done = is_done;
        })
        limits d

-- The switch of `DecodeRPC`.
unfoldable pub decode_message : ℕ → CodecLimits → Reader Rpc
decode_message t limits d =
    if t == 100
    then decode_handshake d
    else if t == 101
    then decode_handshake_ack d
    else if t == 102
    then decode_pre_vote_request d
    else if t == 103
    then decode_pre_vote_response d
    else if t == 104
    then decode_request_vote_request d
    else if t == 105
    then decode_request_vote_response d
    else if t == 106
    then decode_append_entries_request limits d
    else if t == 107
    then decode_append_entries_response d
    else if t == 108
    then decode_install_snapshot_request limits d
    else if t == 109
    then decode_install_snapshot_response d
    else if t == 110
    then decode_error_response d
    else err unknown_rpc

-- The end of `DecodeRPC`: nothing is left, and the message is valid.
unfoldable pub accept_rpc : CodecLimits → Rpc → List ℕ → Result Error Rpc
accept_rpc limits rpc d =
    if not (is_empty d)
    then err malformed_rpc
    else elim (validate_rpc rpc limits) [ some e ↦ err e | none ↦ ok rpc ]

-- `DecodeRPC` past the schema version.
unfoldable pub decode_versioned : ℕ → CodecLimits → List ℕ → Result Error Rpc
unfolding decode_message accept_rpc
decode_versioned t limits d = decode_message t limits d >>= λ p. accept_rpc limits p.0 p.1

-- `DecodeRPC` under resolved limits.
unfoldable pub decode_resolved : ℕ → List ℕ → CodecLimits → Result Error Rpc
unfolding decode_versioned
decode_resolved t payload resolved =
    if ltb resolved.max_encoded_bytes (length payload) then err rpc_too_large else do
      (version, d) ← read_uint 2 payload
      if not (version == schema_version t)
          then err unsupported_schema
          else decode_versioned t resolved d

unfoldable pub decode_rpc : ℕ → List ℕ → CodecLimits → Result Error Rpc
unfolding decode_resolved
decode_rpc t payload limits = resolve_codec_limits limits >>= decode_resolved t payload
