-- ===== src/Raft/Codec/Plain.antt =====
-- The decoders of the RPCs of fixed size on the layouts that the encoder writes
-- (internal/raft/codec.go).
use crane.Raft.Messages.{
  Handshake, HandshakeAck, PreVoteRequest, PreVoteResponse, RequestVoteRequest, RequestVoteResponse,
  AppendEntriesResponse, InstallSnapshotResponse, ErrorResponse, handshake, handshake_ack,
  pre_vote_request, pre_vote_response, request_vote_request, request_vote_response,
  append_entries_response, install_snapshot_response, error_response,
}
use crane.Raft.Codec.Fixed.{
  decode_handshake, decode_handshake_ack, decode_pre_vote_request, decode_pre_vote_response,
  decode_request_vote_request, decode_request_vote_response, decode_append_entries_response,
  decode_install_snapshot_response, decode_error_response,
}
use crane.Raft.Codec.Layout.{layout}
use crane.Raft.Codec.Reads.{
  Finishes, bind-Reads, end-Reads, read_uint-Reads, read_boolean-Reads, read_uints-Reads,
  Reads-Finishes,
}
use crane.Raft.Codec.Ranges.{InRange}

pub handshake-Finishes :
    (m : Handshake)
    → InRange (handshake m)
    → Finishes decode_handshake (layout (handshake m)) (handshake m)
unfolding decode_handshake layout
handshake-Finishes m (a, b, c) = Reads-Finishes (
    bind-Reads _ (read_uint-Reads 2 _ a)
      (bind-Reads _ (read_uint-Reads 32 _ b) (end-Reads _ (read_uint-Reads 32 _ c))))

pub handshake_ack-Finishes :
    (m : HandshakeAck)
    → InRange (handshake_ack m)
    → Finishes decode_handshake_ack (layout (handshake_ack m)) (handshake_ack m)
unfolding decode_handshake_ack layout
handshake_ack-Finishes m (a, b, c) = Reads-Finishes (
    bind-Reads _ (read_uint-Reads 2 _ a)
      (bind-Reads _ (read_uint-Reads 32 _ b) (end-Reads _ (read_uint-Reads 32 _ c))))

pub pre_vote_request-Finishes :
    (m : PreVoteRequest)
    → InRange (pre_vote_request m)
    → Finishes decode_pre_vote_request (layout (pre_vote_request m)) (pre_vote_request m)
unfolding decode_pre_vote_request layout
pre_vote_request-Finishes m (a, b) =
    Reads-Finishes (bind-Reads _ (read_uint-Reads 2 _ a) (end-Reads _ (read_uints-Reads 8 _ b)))

pub pre_vote_response-Finishes :
    (m : PreVoteResponse)
    → InRange (pre_vote_response m)
    → Finishes decode_pre_vote_response (layout (pre_vote_response m)) (pre_vote_response m)
unfolding decode_pre_vote_response layout
pre_vote_response-Finishes m (a, b) = Reads-Finishes (
    bind-Reads _ (read_uints-Reads 2 _ a)
      (bind-Reads _ (read_uints-Reads 8 _ b) (end-Reads _ (read_boolean-Reads m.granted))))

pub request_vote_request-Finishes :
    (m : RequestVoteRequest)
    → InRange (request_vote_request m)
    → Finishes decode_request_vote_request
        (layout (request_vote_request m))
        (request_vote_request m)
unfolding decode_request_vote_request layout
request_vote_request-Finishes m (a, b) =
    Reads-Finishes (bind-Reads _ (read_uint-Reads 2 _ a) (end-Reads _ (read_uints-Reads 8 _ b)))

pub request_vote_response-Finishes :
    (m : RequestVoteResponse)
    → InRange (request_vote_response m)
    → Finishes decode_request_vote_response
        (layout (request_vote_response m))
        (request_vote_response m)
unfolding decode_request_vote_response layout
request_vote_response-Finishes m (a, b) = Reads-Finishes (
    bind-Reads _ (read_uints-Reads 2 _ a)
      (bind-Reads _ (read_uints-Reads 8 _ b) (end-Reads _ (read_boolean-Reads m.granted))))

pub append_entries_response-Finishes :
    (m : AppendEntriesResponse)
    → InRange (append_entries_response m)
    → Finishes decode_append_entries_response
        (layout (append_entries_response m))
        (append_entries_response m)
unfolding decode_append_entries_response layout
append_entries_response-Finishes m (a, b, c) = Reads-Finishes (
    bind-Reads _ (read_uints-Reads 2 _ a) (
      bind-Reads _ (read_uints-Reads 8 _ b)
        (bind-Reads _ (read_boolean-Reads m.success) (end-Reads _ (read_uints-Reads 8 _ c)))))

pub install_snapshot_response-Finishes :
    (m : InstallSnapshotResponse)
    → InRange (install_snapshot_response m)
    → Finishes decode_install_snapshot_response
        (layout (install_snapshot_response m))
        (install_snapshot_response m)
unfolding decode_install_snapshot_response layout
install_snapshot_response-Finishes m (a, b, c, d, e) = Reads-Finishes (
    bind-Reads _ (read_uints-Reads 2 _ a) (
      bind-Reads _ (read_uints-Reads 8 _ b) (
        bind-Reads _ (read_uint-Reads 16 _ c) (
          bind-Reads _ (read_uint-Reads 16 _ d) (
            bind-Reads _ (read_uint-Reads 8 _ e) (
              bind-Reads _ (read_boolean-Reads m.success)
                (end-Reads _ (read_boolean-Reads m.is_done))))))))

pub error_response-Finishes :
    (m : ErrorResponse)
    → InRange (error_response m)
    → Finishes decode_error_response (layout (error_response m)) (error_response m)
unfolding decode_error_response layout
error_response-Finishes m (a, b, c) = Reads-Finishes (
    bind-Reads _ (read_uint-Reads 2 _ a)
      (bind-Reads _ (read_uint-Reads 2 _ b) (end-Reads _ (read_uint-Reads 8 _ c))))
