-- ===== src/Raft/Codec/Encoded.antt =====
-- What EncodeRPC (internal/raft/codec.go) returns, in terms of the layouts.
use crane.Base.{
  ℕ, ◌≤◌, ◌<◌, ◌≡◌, refl, sym, subst, ap, ◌∙◌, inl, inr, ltb, List, [], ◌∷◌, ◌++◌, length, none,
  length-append, arith, Bool-cases, Option-cases, Result-cases, if◌then◌else◌, Result, ok, err,
  ◌>>=◌, not_ltb→le, ok_pair, not_ltb→le, ok_pair,
}
use crane.Base.Bytes.{big_endian, length-big_endian}
use crane.Raft.Types.{Error, Entry, rpc_too_large}
use crane.Raft.Messages.{Rpc}
use crane.Raft.Codec.{CodecLimits, resolve_codec_limits, validate_rpc, or_default}
use crane.Raft.Codec.Wire.{◌then◌, max_u32, message_type, schema_version}
use crane.Raft.Codec.Encode.{encode_rpc, encode_resolved}
use crane.Raft.Codec.Layout.{
  entries_size, uints, bytes32, entry_layout, entries_layout, layout, encode_message_lem,
}

-- An encoded entry takes 21 bytes and its command.
pub length-entries_layout : (es : List Entry) → length (entries_layout es) ≡ entries_size es
unfolding entries_layout entry_layout bytes32 uints entries_size
length-entries_layout [] = refl
length-entries_layout (e ∷ es) =
    simp (length-append, length-big_endian, length-entries_layout es) (omega arith)

-- What EncodeRPC has resolved, tested and written when it returns a payload.
pub record Encoded (rpc : Rpc) (limits : CodecLimits) (t : ℕ) (bytes : List ℕ) : Type 0 where
  pub resolved : CodecLimits
  pub resolves : resolve_codec_limits limits ≡ ok resolved
  pub valid : validate_rpc rpc resolved ≡ none
  pub typed : t ≡ message_type rpc
  pub laid_out : bytes ≡ big_endian 2 (schema_version t) ++ layout rpc
  pub fits : length bytes ≤ resolved.max_encoded_bytes

pub resolve_codec_limits_lem :
    (limits resolved : CodecLimits)
    → resolve_codec_limits limits ≡ ok resolved
    → (resolved.max_command_bytes ≤ 1048576)
      × (resolved.max_snapshot_chunk_bytes ≤ 262144)
      × (resolved.max_encoded_bytes ≤ 8388521)
      × (limits.max_append_entries < 65536 → resolved.max_append_entries < 65536)
unfolding resolve_codec_limits or_default
resolve_codec_limits_lem limits resolved h = ground arith

Encoded-at :
    (rpc : Rpc) (limits resolved : CodecLimits) (t : ℕ) (bytes xs : List ℕ)
    → resolve_codec_limits limits ≡ ok resolved
    → validate_rpc rpc resolved ≡ none
    → xs ≡ big_endian 2 (schema_version (message_type rpc)) ++ layout rpc
    → length xs ≤ resolved.max_encoded_bytes
    → message_type rpc ≡ t
    → xs ≡ bytes
    → Encoded rpc limits t bytes
Encoded-at rpc limits resolved t bytes xs q v l f m b = record {
  resolved = resolved;
  resolves = q;
  valid = v;
  typed = sym m;
  laid_out = rw (sym b, sym m) l;
  fits = subst (λ (ys : List ℕ). length ys ≤ resolved.max_encoded_bytes) b f;
}

-- EncodeRPC past its validation: the layout behind the schema version, where it fits.
pub encode_resolved_lem :
    (rpc : Rpc) (resolved : CodecLimits)
    → resolved.max_encoded_bytes ≤ max_u32
    → validate_rpc rpc resolved ≡ none
    → encode_resolved rpc resolved ≡ (
        if ltb resolved.max_encoded_bytes
          (length (big_endian 2 (schema_version (message_type rpc)) ++ layout rpc))
        then err rpc_too_large
        else ok (message_type rpc, big_endian 2 (schema_version (message_type rpc)) ++ layout rpc))
unfolding encode_resolved
encode_resolved_lem rpc resolved cap v =
    let version = schema_version (message_type rpc) in
    let xs = big_endian 2 version ++ layout rpc in
    let e = encode_message_lem version rpc resolved.max_encoded_bytes cap in
    elim (Bool-cases (ltb resolved.max_encoded_bytes (length xs))) [
      | inl over ↦ rw (encode_resolved, v) (rw (e, over) refl)
      | inr within ↦ rw (encode_resolved, v) (rw (e, within) refl)
    ]

pub encode_rpc_lem :
    (rpc : Rpc) (limits resolved : CodecLimits)
    → resolve_codec_limits limits ≡ ok resolved
    → encode_rpc rpc limits ≡ encode_resolved rpc resolved
unfolding encode_rpc
encode_rpc_lem rpc limits resolved q =
    ap (λ (r : Result Error CodecLimits). r >>= encode_resolved rpc) q

pub encode_rpc-Encoded :
    (rpc : Rpc) (limits : CodecLimits) (t : ℕ) (bytes : List ℕ)
    → encode_rpc rpc limits ≡ ok (t, bytes)
    → Encoded rpc limits t bytes
encode_rpc-Encoded rpc limits t bytes h =
    let xs = big_endian 2 (schema_version (message_type rpc)) ++ layout rpc in
    elim (Result-cases (resolve_codec_limits limits)) [
      | inr (x, q) ↦ absurd (unfold encode_rpc encode_resolved in ground arith)
      | inl (resolved, q) ↦ elim (Option-cases (validate_rpc rpc resolved)) [
        | inr (x, v) ↦ absurd (unfold encode_rpc encode_resolved in ground arith)
        | inl v ↦
            let (_, _, cap, _) = resolve_codec_limits_lem limits resolved q in
            let e =
              encode_rpc_lem rpc limits resolved q
              ∙ encode_resolved_lem rpc resolved (omega (arith, cap)) v in
            elim (Bool-cases (ltb resolved.max_encoded_bytes (length xs))) [
              | inl over ↦ absurd (ground arith)
              | inr within ↦
                  let (m, b) = ok_pair (encode_rpc rpc limits) (rw within at e) h in
                  Encoded-at rpc limits resolved t bytes xs q v refl (not_ltb→le _ _ within) m b
            ]
      ]
    ]
