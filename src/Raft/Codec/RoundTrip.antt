-- ===== src/Raft/Codec/RoundTrip.antt =====
-- DecodeRPC's switch on the layouts that EncodeRPC writes (internal/raft/codec.go).
use crane.Base.{
  ℕ, ◌*◌, ◌^◌, ◌≤◌, ◌<◌, ◌≡◌, refl, sym, List, [], ◌∷◌, ◌++◌, length, none, All, arith, ok,
  le→not_ltb, ==_refl,
}
use mathlib.Core.List.{append-nil}
use crane.Base.Bytes.{big_endian}
use crane.Raft.Types.{Entry, is_empty}
use crane.Raft.Messages.{
  AppendEntriesRequest, InstallSnapshotRequest, Rpc, handshake, handshake_ack, pre_vote_request,
  pre_vote_response, request_vote_request, request_vote_response, append_entries_request,
  append_entries_response, install_snapshot_request, install_snapshot_response, error_response,
}
use crane.Raft.Codec.{
  CodecLimits, validate_rpc, validate_append_request, validate_snapshot_request,
  check_append_entries,
}
use crane.Raft.Codec.Wire.{message_type, schema_version}
use crane.Raft.Codec.Encode.{encode_rpc}
use crane.Raft.Codec.Decode.{
  decode_counted, decode_append_entries_request, accept_snapshot_request,
  decode_install_snapshot_request, decode_message, accept_rpc, decode_versioned, decode_resolved,
  decode_rpc,
}
use crane.Raft.Codec.Layout.{entries_size, entries_layout, layout}
use crane.Raft.Codec.Reads.{
  Finishes, read_uint-Reads, read_boolean-Reads, read_uints-Reads, read_bytes32-Reads,
  bind-Finishes, guard-Finishes, Reads-Finishes,
}
use crane.Raft.Codec.Ranges.{EntryInRange, InRange}
use crane.Raft.Codec.Scan.{decode_entries-Reads, checked-Sized, scan_entries_lem}
use crane.Raft.Codec.Plain.{
  handshake-Finishes, handshake_ack-Finishes, pre_vote_request-Finishes, pre_vote_response-Finishes,
  request_vote_request-Finishes, request_vote_response-Finishes, append_entries_response-Finishes,
  install_snapshot_response-Finishes, error_response-Finishes,
}
use crane.Raft.Codec.Encoded.{resolve_codec_limits_lem, encode_rpc-Encoded, length-entries_layout}

entries_size_low : (es : List Entry) → length es * 21 ≤ entries_size es
unfolding entries_size
entries_size_low [] = omega arith
entries_size_low (e ∷ es) = omega (arith, entries_size_low es)

-- With no entries, the validation of an AppendEntries request tests the fields alone.
validate_empty :
    (m : AppendEntriesRequest) (limits : CodecLimits)
    → validate_append_request m limits ≡ none
    → (validate_append_request (record m { entries = [] }) limits ≡ none)
      × (length m.entries ≤ limits.max_append_entries)
      × (check_append_entries limits m.term m.prev_log_index m.prev_log_term m.entries ≡ none)
unfolding validate_append_request check_append_entries
validate_empty m limits h = ground arith

decode_counted_lem :
    (m : AppendEntriesRequest) (limits : CodecLimits)
    → limits.max_command_bytes < 256 ^ 4
    → All EntryInRange m.entries
    → check_append_entries limits m.term m.prev_log_index m.prev_log_term m.entries ≡ none
    → decode_counted
        (record m { entries = [] })
        limits
        (length m.entries)
        (entries_layout m.entries)
      ≡ ok (append_entries_request m, [])
unfolding decode_counted is_empty
decode_counted_lem m limits b r h =
    let scanned =
      rw (append-nil (entries_layout m.entries)) at
        (scan_entries_lem limits m.term m.prev_log_index m.prev_log_term m.entries [] b r h) in
    let sized = checked-Sized limits m.term m.prev_log_index m.prev_log_term m.entries h in
    let made = (Reads-Finishes (decode_entries-Reads limits m.entries b r sized)).takes_all in
    simp (scanned, made) refl

append_entries_request-Finishes :
    (m : AppendEntriesRequest) (limits : CodecLimits)
    → limits.max_command_bytes < 256 ^ 4
    → limits.max_append_entries < 256 ^ 2
    → InRange (append_entries_request m)
    → validate_append_request m limits ≡ none
    → Finishes
        (decode_append_entries_request limits)
        (layout (append_entries_request m))
        (append_entries_request m)
unfolding decode_append_entries_request layout
append_entries_request-Finishes m limits b w (a, c, r) v =
    let (empty, few, good) = validate_empty m limits v in
    bind-Finishes _ (read_uint-Reads 2 _ a) (
      bind-Finishes _ (read_uints-Reads 8 _ c) (
        bind-Finishes _ (read_uint-Reads 2 (length m.entries) (omega (arith, few))) (record {
          takes_all =
              simp
                (
                  le→not_ltb _ _ few,
                  le→not_ltb (length (entries_layout m.entries)) (length m.entries * 21)
                      (omega (arith, length-entries_layout m.entries, entries_size_low m.entries)),
                  empty,
                  decode_counted_lem m limits b r good,
                )
                refl;
        })))

accept_snapshot_request-Finishes :
    (m : InstallSnapshotRequest) (limits : CodecLimits)
    → validate_snapshot_request m limits ≡ none
    → accept_snapshot_request m limits [] ≡ ok (install_snapshot_request m, [])
unfolding accept_snapshot_request is_empty
accept_snapshot_request-Finishes m limits v = rw v refl

validate_snapshot_sizes :
    (m : InstallSnapshotRequest) (limits : CodecLimits)
    → validate_snapshot_request m limits ≡ none
    → (m.total_length ≤ limits.max_snapshot_bytes)
      × (length m.chunk ≤ limits.max_snapshot_chunk_bytes)
unfolding validate_snapshot_request
validate_snapshot_sizes m limits h = ground arith

install_snapshot_request-Finishes :
    (m : InstallSnapshotRequest) (limits : CodecLimits)
    → limits.max_snapshot_chunk_bytes < 256 ^ 4
    → InRange (install_snapshot_request m)
    → validate_snapshot_request m limits ≡ none
    → Finishes
        (decode_install_snapshot_request limits)
        (layout (install_snapshot_request m))
        (install_snapshot_request m)
unfolding decode_install_snapshot_request layout big_endian
install_snapshot_request-Finishes m limits w (a, b, c, d, e, f, g, h, i, _) v =
    let (total, chunk) = validate_snapshot_sizes m limits v in
    bind-Finishes _ (read_uint-Reads 2 _ a) (
      bind-Finishes _ (read_uint-Reads 8 _ b) (
        bind-Finishes _ (read_uint-Reads 16 _ c) (
          bind-Finishes _ (read_uint-Reads 16 _ d) (
            bind-Finishes _ (read_uints-Reads 8 _ e) (
              bind-Finishes _ (read_uint-Reads 4 _ f) (
                bind-Finishes _ (read_uint-Reads 8 _ g) (
                  guard-Finishes _ (le→not_ltb _ _ total) (
                    bind-Finishes _ (read_uint-Reads 32 _ h) (
                      bind-Finishes _ (read_uint-Reads 8 _ i) (
                        bind-Finishes _ (read_bytes32-Reads _ m.chunk chunk (omega (arith, chunk)))
                          (bind-Finishes _ (read_boolean-Reads m.is_done) (record {
                            takes_all = accept_snapshot_request-Finishes m limits v;
                          }))))))))))))

decode_message-Finishes :
    (rpc : Rpc) (limits : CodecLimits)
    → limits.max_command_bytes < 256 ^ 4
    → limits.max_snapshot_chunk_bytes < 256 ^ 4
    → limits.max_append_entries < 256 ^ 2
    → InRange rpc
    → validate_rpc rpc limits ≡ none
    → Finishes (decode_message (message_type rpc) limits) (layout rpc) rpc
unfolding decode_message validate_rpc
decode_message-Finishes (handshake m) limits c s n r v = handshake-Finishes m r
decode_message-Finishes (handshake_ack m) limits c s n r v = handshake_ack-Finishes m r
decode_message-Finishes (pre_vote_request m) limits c s n r v = pre_vote_request-Finishes m r
decode_message-Finishes (pre_vote_response m) limits c s n r v = pre_vote_response-Finishes m r
decode_message-Finishes (request_vote_request m) limits c s n r v =
    request_vote_request-Finishes m r
decode_message-Finishes (request_vote_response m) limits c s n r v =
    request_vote_response-Finishes m r
decode_message-Finishes (append_entries_request m) limits c s n r v =
    append_entries_request-Finishes m limits c n r v
decode_message-Finishes (append_entries_response m) limits c s n r v =
    append_entries_response-Finishes m r
decode_message-Finishes (install_snapshot_request m) limits c s n r v =
    install_snapshot_request-Finishes m limits s r v
decode_message-Finishes (install_snapshot_response m) limits c s n r v =
    install_snapshot_response-Finishes m r
decode_message-Finishes (error_response m) limits c s n r v = error_response-Finishes m r

decode_versioned_lem :
    (rpc : Rpc) (limits : CodecLimits)
    → validate_rpc rpc limits ≡ none
    → Finishes (decode_message (message_type rpc) limits) (layout rpc) rpc
    → decode_versioned (message_type rpc) limits (layout rpc) ≡ ok rpc
unfolding decode_versioned accept_rpc is_empty
decode_versioned_lem rpc limits v f = rw (decode_versioned, f.takes_all) (rw v refl)

schema_version_low : (t : ℕ) → schema_version t < 65536
schema_version_low t = ground arith

decode_resolved_lem :
    (rpc : Rpc) (limits : CodecLimits) (t : ℕ) (bytes : List ℕ)
    → bytes ≡ big_endian 2 (schema_version t) ++ layout rpc
    → length bytes ≤ limits.max_encoded_bytes
    → decode_versioned t limits (layout rpc) ≡ ok rpc
    → decode_resolved t bytes limits ≡ ok rpc
unfolding decode_resolved
decode_resolved_lem rpc limits t bytes l f d =
    let version =
      rw (sym l) at
        ((read_uint-Reads 2 (schema_version t) (schema_version_low t)).takes (layout rpc)) in
    rw (decode_resolved, le→not_ltb _ _ f) (rw version (rw (==_refl (schema_version t)) d))

-- Where every field is in the range of its Go type and the number of entries that the limits allow is
-- in the range of a uint16, DecodeRPC under the same limits returns the very message that EncodeRPC
-- made a payload of.
pub decode_rpc-encode_rpc :
    (rpc : Rpc) (limits : CodecLimits) (t : ℕ) (bytes : List ℕ)
    → InRange rpc
    → limits.max_append_entries < 65536
    → encode_rpc rpc limits ≡ ok (t, bytes)
    → decode_rpc t bytes limits ≡ ok rpc
unfolding decode_rpc
decode_rpc-encode_rpc rpc limits t bytes r n h =
    let e = encode_rpc-Encoded rpc limits t bytes h in
    let (c, s, _, w) = resolve_codec_limits_lem limits e.resolved e.resolves in
    let f =
      decode_message-Finishes rpc e.resolved (omega (arith, c)) (omega (arith, s)) (w n) r
        e.valid in
    rw e.resolves (
      decode_resolved_lem rpc e.resolved t bytes e.laid_out e.fits
        (rw (sym e.typed) at (decode_versioned_lem rpc e.resolved e.valid f)))
