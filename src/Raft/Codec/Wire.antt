-- ===== src/Raft/Codec/Wire.antt =====
-- internal/raft/codec.go: the payload encoder and decoder, and the registry of message types
-- (internal/wire/types.go). A decoder is the bytes that are left, `payload[offset:]`.
use crane.Base.{
  ℕ, zero, suc, ◌-◌, ◌==◌, ltb, Bool, true, false, List, [], ◌∷◌, ◌++◌, length, take, drop,
  if◌then◌else◌, Result, ok, err, ◌>>=◌,
}
use crane.Base.Bytes.{big_endian, spelled}
use crane.Raft.Types.{
  Error, EntryKind, entry_command, entry_no_op, entry_unknown, rpc_too_large, malformed_rpc,
}
use crane.Raft.Messages.{
  Rpc, handshake, handshake_ack, pre_vote_request, pre_vote_response, request_vote_request,
  request_vote_response, append_entries_request, append_entries_response, install_snapshot_request,
  install_snapshot_response, error_response,
}

-- `payloadEncoder`. Its payload never exceeds its maximum, so that the source's unsigned difference
-- does not wrap.
pub record Encoder : Type 0 where
  pub payload : List ℕ
  pub maximum : ℕ

abbrev pub Writer : Type 0
Writer = Encoder → Result Error Encoder

-- One write after the other, the first error returned at once.
infixr 6 ◌then◌
abbrev pub ◌then◌ : Writer → Writer → Writer
f then g = λ e. f e >>= g

-- `payloadEncoder.add`.
unfoldable pub write : List ℕ → Writer
write value e =
    if ltb (e.maximum - length e.payload) (length value)
    then err rpc_too_large
    else ok (record e { payload = e.payload ++ value })

unfoldable pub write_uint : ℕ → ℕ → Writer
unfolding write
write_uint width v = write (big_endian width v)

abbrev pub bit : Bool → ℕ
bit true = 1
bit false = 0

unfoldable pub write_boolean : Bool → Writer
unfolding write_uint
write_boolean b = write_uint 1 (bit b)

abbrev pub max_u32 : ℕ
max_u32 = 4294967295

unfoldable pub write_bytes32 : List ℕ → Writer
unfolding write_uint write
write_bytes32 value e =
    if ltb max_u32 (length value)
    then err rpc_too_large
    else (write_uint 4 (length value) then write value) e

-- `encodeUint16s` and `encodeUint64s`, by the width.
unfoldable pub write_uints : ℕ → List ℕ → Writer
unfolding write_uint
write_uints width [] = ok
write_uints width (v ∷ vs) = write_uint width v then write_uints width vs

abbrev pub Reader : Type 0 → Type 0
Reader A = List ℕ → Result Error (A × List ℕ)

-- `payloadDecoder.take`.
unfoldable pub read : ℕ → Reader (List ℕ)
read count d = if ltb (length d) count then err malformed_rpc else ok (take count d, drop count d)

unfoldable pub read_uint : ℕ → Reader ℕ
unfolding read
read_uint width d = do (value, rest) ← read width d; ok (spelled 0 value, rest)

unfoldable pub read_boolean : Reader Bool
unfolding read_uint
read_boolean d = do
  (value, rest) ← read_uint 1 d
  if ltb 1 value then err malformed_rpc else ok (value == 1, rest)

-- `bytes32Borrowed`.
unfoldable pub read_bytes32 : ℕ → Reader (List ℕ)
unfolding read_uint read
read_bytes32 maximum d = do
  (count, rest) ← read_uint 4 d
  if ltb maximum count
      then err rpc_too_large
      else (if ltb (length rest) count
          then err malformed_rpc
          else if count == 0
          then ok ([], rest)
          else read count rest)

-- `decodeUint16s` and `decodeUint64s`.
unfoldable pub read_uints : ℕ → ℕ → Reader (List ℕ)
unfolding read_uint
read_uints width zero d = ok ([], d)
read_uints width (suc count) d = do
  (v, rest) ← read_uint width d
  (vs, more) ← read_uints width count rest
  ok (v ∷ vs, more)

-- `fields[i]`, with `i` below the number of the fields that were read.
abbrev pub field : List ℕ → ℕ → ℕ
field [] i = 0
field (v ∷ vs) zero = v
field (v ∷ vs) (suc i) = field vs i

-- An entry's kind as a uint8.
abbrev pub kind_code : EntryKind → ℕ
kind_code entry_command = 1
kind_code entry_no_op = 2
kind_code (entry_unknown n) = n

abbrev pub kind_of : ℕ → EntryKind
kind_of n = if n == 1 then entry_command else if n == 2 then entry_no_op else entry_unknown n

-- `RPC.MessageType`, as registered.
abbrev pub message_type : Rpc → ℕ
message_type (handshake m) = 100
message_type (handshake_ack m) = 101
message_type (pre_vote_request m) = 102
message_type (pre_vote_response m) = 103
message_type (request_vote_request m) = 104
message_type (request_vote_response m) = 105
message_type (append_entries_request m) = 106
message_type (append_entries_response m) = 107
message_type (install_snapshot_request m) = 108
message_type (install_snapshot_response m) = 109
message_type (error_response m) = 110

-- `schemaVersionForMessage`: HandshakeSchemaVersion for the two handshakes, RPCSchemaVersion else.
abbrev pub schema_version : ℕ → ℕ
schema_version t = if t == 100 then 2 else if t == 101 then 2 else 1
