-- ===== src/Raft/Codec/Sizes.antt =====
-- The sizes and the bytes of the payloads that EncodeRPC returns (internal/raft/codec.go).
use crane.Base.{ℕ, ◌≤◌, ◌≡◌, sym, List, [], ◌∷◌, ◌++◌, length, All, All-append, arith, ok}
use crane.Base.Bytes.{IsByte, big_endian, big_endian-IsByte}
use crane.Raft.Types.{Entry}
use crane.Raft.Messages.{
  Rpc, handshake, handshake_ack, pre_vote_request, pre_vote_response, request_vote_request,
  request_vote_response, append_entries_request, append_entries_response, install_snapshot_request,
  install_snapshot_response, error_response,
}
use crane.Raft.Codec.{CodecLimits}
use crane.Raft.Codec.Wire.{schema_version}
use crane.Raft.Codec.Encode.{encode_rpc}
use crane.Raft.Codec.Layout.{uints, bytes32, entry_layout, entries_layout, layout}
use crane.Raft.Codec.Ranges.{EntryInRange, InRange}
use crane.Raft.Codec.Encoded.{resolve_codec_limits_lem, encode_rpc-Encoded}

-- A list of bytes.
record Bytes (xs : List ℕ) : Type 0 where
  every : All IsByte xs

append-Bytes : {xs ys : List ℕ} → Bytes xs → Bytes ys → Bytes (xs ++ ys)
append-Bytes {xs} {ys} a b = record { every = All-append IsByte xs ys a.every b.every }

big_endian-Bytes : (width v : ℕ) → Bytes (big_endian width v)
big_endian-Bytes width v = record { every = big_endian-IsByte width v }

uints-Bytes : (width : ℕ) (vs : List ℕ) → Bytes (uints width vs)
unfolding uints
uints-Bytes width [] = record { every = tt }
uints-Bytes width (v ∷ vs) = append-Bytes (big_endian-Bytes width v) (uints-Bytes width vs)

bytes32-Bytes : (xs : List ℕ) → All IsByte xs → Bytes (bytes32 xs)
unfolding bytes32
bytes32-Bytes xs h = append-Bytes (big_endian-Bytes 4 (length xs)) (record { every = h })

entries_layout-Bytes : (es : List Entry) → All EntryInRange es → Bytes (entries_layout es)
unfolding entries_layout entry_layout
entries_layout-Bytes [] h = record { every = tt }
entries_layout-Bytes (e ∷ es) ((_, _, c), h) =
    append-Bytes
      (append-Bytes (uints-Bytes 8 _)
        (append-Bytes (big_endian-Bytes 1 _) (bytes32-Bytes e.command c)))
      (entries_layout-Bytes es h)

ruleset byte_rules =
    (append-Bytes, big_endian-Bytes, uints-Bytes, bytes32-Bytes, entries_layout-Bytes)

layout-Bytes : (rpc : Rpc) → InRange rpc → Bytes (layout rpc)
unfolding layout
layout-Bytes (handshake m) h = search byte_rules
layout-Bytes (handshake_ack m) h = search byte_rules
layout-Bytes (pre_vote_request m) h = search byte_rules
layout-Bytes (pre_vote_response m) h = search byte_rules
layout-Bytes (request_vote_request m) h = search byte_rules
layout-Bytes (request_vote_response m) h = search byte_rules
layout-Bytes (append_entries_request m) (_, _, h) = search byte_rules
layout-Bytes (append_entries_response m) h = search byte_rules depth 10
layout-Bytes (install_snapshot_request m) (_, _, _, _, _, _, _, _, _, h) =
    search byte_rules depth 14
layout-Bytes (install_snapshot_response m) h = search byte_rules depth 14
layout-Bytes (error_response m) h = search byte_rules

-- A payload that EncodeRPC returns has at most 8 MiB less a frame's 87 bytes, and each of its elements is
-- a byte, where the fields are in the ranges of their Go types.
pub encode_rpc_bounds :
    (rpc : Rpc) (limits : CodecLimits) (t : ℕ) (bytes : List ℕ)
    → InRange rpc
    → encode_rpc rpc limits ≡ ok (t, bytes)
    → (length bytes ≤ 8388521) × All IsByte bytes
encode_rpc_bounds rpc limits t bytes r h =
    let e = encode_rpc-Encoded rpc limits t bytes h in
    let (_, _, cap, _) = resolve_codec_limits_lem limits e.resolved e.resolves in
    let b = append-Bytes (big_endian-Bytes 2 (schema_version t)) (layout-Bytes rpc r) in
    (omega (arith, cap, e.fits), rw (sym e.laid_out) at b.every)
