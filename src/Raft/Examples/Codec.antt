-- ===== src/Raft/Examples/Codec.antt =====
-- An AppendEntries request of internal/raft, and the theorems on its codec applied to it.
use crane.Base.{ℕ, ◌≡◌, ◌≤◌, refl, List, [], ◌∷◌, length, All, ok, arith}
use crane.Base.Bytes.{IsByte, big_endian}
use crane.Raft.Types.{entry_command, entry_no_op}
use crane.Raft.Messages.{AppendEntriesRequest, Rpc, append_entries_request}
use crane.Raft.Codec.{
  default_codec_limits, resolve_codec_limits, validate_rpc, validate_append_request,
  valid_log_position,
}
use crane.Raft.Codec.Wire.{write_uint, write_uints, write_bytes32}
use crane.Raft.Codec.Encode.{encode_rpc, encode_append_entries_request}
use crane.Raft.Codec.Decode.{decode_rpc}
use crane.Raft.Codec.Ranges.{InRange}
use crane.Raft.Codec.RoundTrip.{decode_rpc-encode_rpc}
use crane.Raft.Codec.Sizes.{encode_rpc_bounds}

-- A no-op and a command of two bytes, after entry 4 of term 2.
abbrev two_entries : AppendEntriesRequest
two_entries = record {
  leader_id = 258;
  term = 3;
  generation = 1;
  prev_log_index = 4;
  prev_log_term = 2;
  leader_commit = 4;
  entries =
      record { index = 5; term = 3; kind = entry_no_op; command = [] }
      ∷ record { index = 6; term = 3; kind = entry_command; command = 7 ∷ 255 ∷ [] }
      ∷ [];
}

abbrev append_two : Rpc
append_two = append_entries_request two_entries

abbrev payload_two : List ℕ
payload_two =
    0 ∷ 1 ∷ 1 ∷ 2 ∷ 0 ∷ 0 ∷ 0 ∷ 0 ∷ 0 ∷ 0 ∷ 0 ∷ 3 ∷ 0 ∷ 0 ∷ 0 ∷ 0 ∷ 0 ∷ 0 ∷ 0 ∷ 1 ∷ 0 ∷ 0 ∷ 0 ∷ 0
    ∷ 0 ∷ 0 ∷ 0 ∷ 4 ∷ 0 ∷ 0 ∷ 0 ∷ 0 ∷ 0 ∷ 0 ∷ 0 ∷ 2 ∷ 0 ∷ 0 ∷ 0 ∷ 0 ∷ 0 ∷ 0 ∷ 0 ∷ 4 ∷ 0 ∷ 2 ∷ 0 ∷ 0
    ∷ 0 ∷ 0 ∷ 0 ∷ 0 ∷ 0 ∷ 5 ∷ 0 ∷ 0 ∷ 0 ∷ 0 ∷ 0 ∷ 0 ∷ 0 ∷ 3 ∷ 2 ∷ 0 ∷ 0 ∷ 0 ∷ 0 ∷ 0 ∷ 0 ∷ 0 ∷ 0 ∷ 0
    ∷ 0 ∷ 0 ∷ 6 ∷ 0 ∷ 0 ∷ 0 ∷ 0 ∷ 0 ∷ 0 ∷ 0 ∷ 3 ∷ 1 ∷ 0 ∷ 0 ∷ 0 ∷ 2 ∷ 7 ∷ 255 ∷ []

append_two_encodes : encode_rpc append_two default_codec_limits ≡ ok (106, payload_two)
unfolding encode_rpc resolve_codec_limits validate_rpc validate_append_request valid_log_position
    write_uint big_endian encode_append_entries_request write_uints write_bytes32
append_two_encodes = refl

append_two-InRange : InRange append_two
append_two-InRange = omega arith

decode_rpc-encode_rpc_example : decode_rpc 106 payload_two default_codec_limits ≡ ok append_two
decode_rpc-encode_rpc_example =
    decode_rpc-encode_rpc append_two default_codec_limits 106 payload_two append_two-InRange
      (omega arith) append_two_encodes

encode_rpc_bounds_example : (length payload_two ≤ 8388521) × All IsByte payload_two
encode_rpc_bounds_example =
    encode_rpc_bounds append_two default_codec_limits 106 payload_two append_two-InRange
      append_two_encodes
