-- ===== src/Raft/Codec.antt =====
-- internal/raft/codec.go: the limits of the codec, and the validation that every RPC passes before it
-- is encoded or handled.
pub mod Wire
pub mod Encode
pub mod Fixed
pub mod Decode
pub mod Layout
pub mod Reads
pub mod Ranges
pub mod Encoded
pub mod Scan
pub mod Plain
pub mod RoundTrip
pub mod Sizes
use crane.Base.{
  ℕ, ◌+◌, ◌-◌, ◌==◌, ltb, same, max_u64, Bool, true, false, ◌&&◌, ◌||◌, not, Option, none, some,
  List, [], ◌∷◌, length, if◌then◌else◌, Result, ok, err,
}
use crane.Raft.Types.{
  Error, Entry, EntryKind, entry_command, entry_no_op, entry_unknown, is_empty, invalid_rpc,
  rpc_too_large,
}
use crane.Raft.Messages.{
  AppendEntriesRequest, AppendEntriesResponse, InstallSnapshotRequest, InstallSnapshotResponse, Rpc,
  handshake, handshake_ack, pre_vote_request, pre_vote_response, request_vote_request,
  request_vote_response, append_entries_request, append_entries_response, install_snapshot_request,
  install_snapshot_response, error_response,
}

pub record CodecLimits : Type 0 where
  pub max_append_entries : ℕ
  pub max_command_bytes : ℕ
  pub max_snapshot_chunk_bytes : ℕ
  pub max_snapshot_bytes : ℕ
  pub max_encoded_bytes : ℕ

-- `config.MaxRaftCommandBytes` and its like, and `MaxRPCPayloadBytes`: 8 MiB less the 55 bytes of a
-- frame's header and the 32 of its code.
abbrev pub max_raft_command_bytes : ℕ
max_raft_command_bytes = 1048576

abbrev pub max_raft_snapshot_chunk_bytes : ℕ
max_raft_snapshot_chunk_bytes = 262144

abbrev pub max_raft_snapshot_bytes : ℕ
max_raft_snapshot_bytes = 1073741824

abbrev pub max_rpc_payload_bytes : ℕ
max_rpc_payload_bytes = 8388521

abbrev pub default_codec_limits : CodecLimits
default_codec_limits = record {
  max_append_entries = 64;
  max_command_bytes = max_raft_command_bytes;
  max_snapshot_chunk_bytes = max_raft_snapshot_chunk_bytes;
  max_snapshot_bytes = max_raft_snapshot_bytes;
  max_encoded_bytes = max_rpc_payload_bytes;
}

-- A limit of zero stands for the default.
unfoldable pub or_default : ℕ → ℕ → ℕ
or_default limit default = if limit == 0 then default else limit

-- The last two tests of the source, against the ranges of uint32 and int, follow from these four.
unfoldable pub resolve_codec_limits : CodecLimits → Result Error CodecLimits
unfolding or_default
resolve_codec_limits limits =
    let r : CodecLimits = record {
      max_append_entries =
          or_default limits.max_append_entries default_codec_limits.max_append_entries;
      max_command_bytes = or_default limits.max_command_bytes max_raft_command_bytes;
      max_snapshot_chunk_bytes =
          or_default limits.max_snapshot_chunk_bytes max_raft_snapshot_chunk_bytes;
      max_snapshot_bytes = or_default limits.max_snapshot_bytes max_raft_snapshot_bytes;
      max_encoded_bytes = or_default limits.max_encoded_bytes max_rpc_payload_bytes;
    } in
    if ltb max_raft_command_bytes r.max_command_bytes
      || ltb max_raft_snapshot_chunk_bytes r.max_snapshot_chunk_bytes
      || ltb max_raft_snapshot_bytes r.max_snapshot_bytes
      || ltb max_rpc_payload_bytes r.max_encoded_bytes
    then err rpc_too_large
    else ok r

unfoldable pub valid_distinct_ids : ℕ → ℕ → Bool
valid_distinct_ids left right = not (left == 0) && not (right == 0) && not (left == right)

unfoldable pub valid_log_position : ℕ → ℕ → Bool
valid_log_position index term = same (index == 0) (term == 0)

unfoldable pub is_next_term : ℕ → ℕ → Bool
is_next_term current prospective = not (current == max_u64) && (prospective == (current + 1))

unfoldable pub is_known_kind : EntryKind → Bool
is_known_kind entry_command = true
is_known_kind entry_no_op = true
is_known_kind (entry_unknown n) = false

unfoldable pub is_no_op : EntryKind → Bool
is_no_op entry_no_op = true
is_no_op _ = false

-- The tests of one entry in the loop of `validateAppendRequest`, after `expected++`.
unfoldable pub check_append_entry : CodecLimits → ℕ → ℕ → ℕ → Entry → Option Error
unfolding is_known_kind is_no_op is_empty
check_append_entry limits message_term expected previous_term e =
    if not (e.index == expected)
      || (e.term == 0)
      || ltb e.term previous_term
      || ltb message_term e.term
      || not (is_known_kind e.kind)
    then some invalid_rpc
    else if ltb limits.max_command_bytes (length e.command)
    then some rpc_too_large
    else if is_no_op e.kind && not (is_empty e.command)
    then some invalid_rpc
    else none

unfoldable pub check_append_entries : CodecLimits → ℕ → ℕ → ℕ → List Entry → Option Error
unfolding check_append_entry
check_append_entries limits message_term expected previous_term [] = none
check_append_entries limits message_term expected previous_term (e ∷ es) =
    let rest = check_append_entries limits message_term (expected + 1) e.term es in
    if expected == max_u64
    then some invalid_rpc
    else elim (check_append_entry limits message_term (expected + 1) previous_term e) [
      | some x ↦ some x
      | none ↦ rest
    ]

unfoldable pub validate_append_request : AppendEntriesRequest → CodecLimits → Option Error
unfolding check_append_entries
validate_append_request m limits =
    if (m.leader_id == 0)
      || (m.term == 0)
      || (m.generation == 0)
      || not (valid_log_position m.prev_log_index m.prev_log_term)
      || ltb m.term m.prev_log_term
    then some invalid_rpc
    else if ltb limits.max_append_entries (length m.entries)
    then some rpc_too_large
    else check_append_entries limits m.term m.prev_log_index m.prev_log_term m.entries

unfoldable pub validate_append_response : AppendEntriesResponse → Option Error
validate_append_response m =
    if not (valid_distinct_ids m.responder_id m.leader_id)
      || (m.request_term == 0)
      || ltb m.term m.request_term
      || (m.generation == 0)
    then some invalid_rpc
    else if m.success
    then (if ltb m.request_term m.term
        then some invalid_rpc
        else if not (m.conflict_term == 0) || not (m.conflict_index == 0)
        then some invalid_rpc
        else none)
    else if not (m.match_index == 0) || (m.conflict_index == 0)
    then some invalid_rpc
    else none

unfoldable pub validate_snapshot_request : InstallSnapshotRequest → CodecLimits → Option Error
validate_snapshot_request m limits =
    if (m.leader_id == 0)
      || (m.term == 0)
      || (m.transfer_id == 0)
      || (m.snapshot_id == 0)
      || (m.checksum == 0)
    then some invalid_rpc
    else if (m.last_included_index == 0)
        || (m.last_included_term == 0)
        || ltb m.term m.last_included_term
        || (m.state_machine_schema_version == 0)
    then some invalid_rpc
    else if ltb limits.max_snapshot_bytes m.total_length
    then some rpc_too_large
    else if ltb limits.max_snapshot_chunk_bytes (length m.chunk)
    then some rpc_too_large
    else if ltb m.total_length m.offset || ltb (m.total_length - m.offset) (length m.chunk)
    then some invalid_rpc
    else if not (same m.is_done ((m.offset + length m.chunk) == m.total_length))
    then some invalid_rpc
    else if not (m.total_length == 0) && (length m.chunk == 0)
    then some invalid_rpc
    else none

unfoldable pub validate_snapshot_response : InstallSnapshotResponse → CodecLimits → Option Error
validate_snapshot_response m limits =
    if not (valid_distinct_ids m.responder_id m.leader_id)
      || (m.request_term == 0)
      || ltb m.term m.request_term
      || (m.transfer_id == 0)
      || (m.snapshot_id == 0)
    then some invalid_rpc
    else if ltb limits.max_snapshot_bytes m.next_offset
    then some rpc_too_large
    else if m.is_done && not m.success
    then some invalid_rpc
    else none

reject : Bool → Option Error
reject bad = if bad then some invalid_rpc else none

unfoldable pub validate_rpc : Rpc → CodecLimits → Option Error
unfolding reject
validate_rpc (handshake m) limits =
    reject ((m.sender_id == 0) || (m.voter_fingerprint == 0) || (m.application_fingerprint == 0))
validate_rpc (handshake_ack m) limits =
    reject ((m.responder_id == 0) || (m.voter_fingerprint == 0) || (m.application_fingerprint == 0))
validate_rpc (pre_vote_request m) limits = reject (
    (m.candidate_id == 0)
    || not (is_next_term m.current_term m.prospective_term)
    || not (valid_log_position m.last_log_index m.last_log_term)
    || ltb m.current_term m.last_log_term)
validate_rpc (pre_vote_response m) limits = reject (
    not (valid_distinct_ids m.responder_id m.candidate_id)
    || not (is_next_term m.request_current_term m.prospective_term)
    || (ltb m.prospective_term m.term && m.granted))
validate_rpc (request_vote_request m) limits = reject (
    (m.candidate_id == 0)
    || (m.term == 0)
    || not (valid_log_position m.last_log_index m.last_log_term)
    || ltb m.term m.last_log_term)
validate_rpc (request_vote_response m) limits = reject (
    not (valid_distinct_ids m.responder_id m.candidate_id)
    || (m.request_term == 0)
    || ltb m.term m.request_term
    || (ltb m.request_term m.term && m.granted))
validate_rpc (append_entries_request m) limits = validate_append_request m limits
validate_rpc (append_entries_response m) limits = validate_append_response m
validate_rpc (install_snapshot_request m) limits = validate_snapshot_request m limits
validate_rpc (install_snapshot_response m) limits = validate_snapshot_response m limits
validate_rpc (error_response m) limits =
    reject ((m.responder_id == 0) || ltb m.code 1 || ltb 6 m.code)
