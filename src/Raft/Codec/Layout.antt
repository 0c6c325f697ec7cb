-- ===== src/Raft/Codec/Layout.antt =====
-- The layout of the payloads of internal/raft/codec.go, as one list of bytes per message, and that the
-- encoder writes it.
use crane.Base.{
  ℕ, ◌+◌, ◌≤◌, ◌<◌, ◌≡◌, refl, sym, ◌∙◌, inl, inr, Bool, ltb, List, [], ◌∷◌, ◌++◌, length,
  length-append, arith, Bool-cases, ltb→lt, Result-cases, if◌then◌else◌, ok, err,
}
use mathlib.Core.List.{append_assoc, append-nil}
use crane.Base.Bytes.{big_endian, length-big_endian}
use crane.Raft.Types.{Error, Entry, rpc_too_large}
use crane.Raft.Messages.{
  Rpc, handshake, handshake_ack, pre_vote_request, pre_vote_response, request_vote_request,
  request_vote_response, append_entries_request, append_entries_response, install_snapshot_request,
  install_snapshot_response, error_response,
}
use crane.Raft.Codec.Wire.{
  Encoder, Writer, ◌then◌, write, write_uint, write_boolean, write_bytes32, write_uints, bit,
  kind_code, max_u32,
}
use crane.Raft.Codec.Encode.{
  encode_handshake, encode_handshake_ack, encode_pre_vote_request, encode_pre_vote_response,
  encode_request_vote_request, encode_request_vote_response, encode_entry, encode_entries,
  encode_append_entries_request, encode_append_entries_response, encode_install_snapshot_request,
  encode_install_snapshot_response, encode_error_response, encode_message,
}

unfoldable pub uints : ℕ → List ℕ → List ℕ
uints width [] = []
uints width (v ∷ vs) = big_endian width v ++ uints width vs

unfoldable pub bytes32 : List ℕ → List ℕ
bytes32 value = big_endian 4 (length value) ++ value

unfoldable pub entry_layout : Entry → List ℕ
entry_layout e =
    uints 8 (e.index ∷ e.term ∷ []) ++ (big_endian 1 (kind_code e.kind) ++ bytes32 e.command)

unfoldable pub entries_layout : List Entry → List ℕ
entries_layout [] = []
entries_layout (e ∷ es) = entry_layout e ++ entries_layout es

unfoldable pub layout : Rpc → List ℕ
layout (handshake m) =
    big_endian 2 m.sender_id
    ++ (big_endian 32 m.voter_fingerprint ++ big_endian 32 m.application_fingerprint)
layout (handshake_ack m) =
    big_endian 2 m.responder_id
    ++ (big_endian 32 m.voter_fingerprint ++ big_endian 32 m.application_fingerprint)
layout (pre_vote_request m) =
    big_endian 2 m.candidate_id
    ++ uints 8 (m.current_term ∷ m.prospective_term ∷ m.last_log_index ∷ m.last_log_term ∷ [])
layout (pre_vote_response m) =
    uints 2 (m.responder_id ∷ m.candidate_id ∷ [])
    ++ (uints 8 (m.term ∷ m.request_current_term ∷ m.prospective_term ∷ [])
        ++ big_endian 1 (bit m.granted))
layout (request_vote_request m) =
    big_endian 2 m.candidate_id ++ uints 8 (m.term ∷ m.last_log_index ∷ m.last_log_term ∷ [])
layout (request_vote_response m) =
    uints 2 (m.responder_id ∷ m.candidate_id ∷ [])
    ++ (uints 8 (m.term ∷ m.request_term ∷ []) ++ big_endian 1 (bit m.granted))
layout (append_entries_request m) =
    big_endian 2 m.leader_id
    ++ (uints 8 (m.term ∷ m.generation ∷ m.prev_log_index ∷ m.prev_log_term ∷ m.leader_commit ∷ [])
        ++ (big_endian 2 (length m.entries) ++ entries_layout m.entries))
layout (append_entries_response m) =
    uints 2 (m.responder_id ∷ m.leader_id ∷ [])
    ++ (uints 8 (m.term ∷ m.request_term ∷ m.generation ∷ [])
        ++ (big_endian 1 (bit m.success)
            ++ uints 8 (m.match_index ∷ m.conflict_term ∷ m.conflict_index ∷ [])))
layout (install_snapshot_request m) =
    big_endian 2 m.leader_id
    ++ (big_endian 8 m.term
        ++ (big_endian 16 m.transfer_id
            ++ (big_endian 16 m.snapshot_id
                ++ (uints 8 (m.last_included_index ∷ m.last_included_term ∷ [])
                    ++ (big_endian 4 m.state_machine_schema_version
                        ++ (big_endian 8 m.total_length
                            ++ (big_endian 32 m.checksum
                                ++ (big_endian 8 m.offset
                                    ++ (bytes32 m.chunk ++ big_endian 1 (bit m.is_done))))))))))
layout (install_snapshot_response m) =
    uints 2 (m.responder_id ∷ m.leader_id ∷ [])
    ++ (uints 8 (m.term ∷ m.request_term ∷ [])
        ++ (big_endian 16 m.transfer_id
            ++ (big_endian 16 m.snapshot_id
                ++ (big_endian 8 m.next_offset
                    ++ (big_endian 1 (bit m.success) ++ big_endian 1 (bit m.is_done))))))
layout (error_response m) =
    big_endian 2 m.code ++ (big_endian 2 m.responder_id ++ big_endian 8 m.term)

-- An encoder within its maximum, which is in the range of a length.
pub record Fits (e : Encoder) : Type 0 where
  pub within : length e.payload ≤ e.maximum
  pub bounded : e.maximum ≤ max_u32

record Writes (w : Writer) (xs : List ℕ) : Type 0 where
  written : (e : Encoder) → Fits e → w e ≡ write xs e

write-nil : Writes ok []
unfolding write
write-nil = record { written = λ e f. let q = append-nil e.payload in ground arith }

write-Writes : (xs : List ℕ) → Writes (write xs) xs
write-Writes xs = record { written = λ e f. refl }

write-Fits : (xs : List ℕ) (e d : Encoder) → Fits e → write xs e ≡ ok d → Fits d
unfolding write
write-Fits xs e d f h = let q = length-append e.payload xs in ground arith

write-append :
    (xs ys : List ℕ) (e d : Encoder) → Fits e → write xs e ≡ ok d → write ys d ≡ write (xs ++ ys) e
unfolding write
write-append xs ys e d f h =
    let q = length-append e.payload xs in
    let r = length-append xs ys in let s = append_assoc e.payload xs ys in ground arith

write_append-err :
    (xs ys : List ℕ) (e : Encoder) (x : Error) → write xs e ≡ err x → write (xs ++ ys) e ≡ err x
unfolding write
write_append-err xs ys e x h = let q = length-append xs ys in ground arith

then-Writes :
    {f g : Writer} {xs ys : List ℕ} → Writes f xs → Writes g ys → Writes (f then g) (xs ++ ys)
then-Writes {f} {g} {xs} {ys} a b = record {
  written = λ e fits. elim (Result-cases (write xs e)) [
    | inl (d, q) ↦
        rw (a.written e fits, q)
          (b.written d (write-Fits xs e d fits q) ∙ write-append xs ys e d fits q)
    | inr (x, q) ↦ rw (a.written e fits, q) (sym (write_append-err xs ys e x q))
  ];
}

write_uint-Writes : (width v : ℕ) → Writes (write_uint width v) (big_endian width v)
unfolding write_uint
write_uint-Writes width v = write-Writes _

write_boolean-Writes : (b : Bool) → Writes (write_boolean b) (big_endian 1 (bit b))
unfolding write_boolean
write_boolean-Writes b = write_uint-Writes 1 (bit b)

write_uints-Writes : (width : ℕ) (vs : List ℕ) → Writes (write_uints width vs) (uints width vs)
unfolding write_uints uints
write_uints-Writes width [] = write-nil
write_uints-Writes width (v ∷ vs) =
    then-Writes (write_uint-Writes width v) (write_uints-Writes width vs)

-- A value too long for its length is too long for the encoder.
write_long :
    (xs : List ℕ) (e : Encoder)
    → Fits e
    → max_u32 < length xs
    → err rpc_too_large ≡ write (bytes32 xs) e
unfolding write bytes32
write_long xs e f h =
    let q = length-append (big_endian 4 (length xs)) xs in
    let r = length-big_endian 4 (length xs) in ground arith

write_bytes32-Writes : (xs : List ℕ) → Writes (write_bytes32 xs) (bytes32 xs)
unfolding write_bytes32 bytes32
write_bytes32-Writes xs =
    let both = then-Writes (write_uint-Writes 4 (length xs)) (write-Writes xs) in
    record {
      written = λ e f. elim (Bool-cases (ltb max_u32 (length xs))) [
        | inl long ↦ rw long (write_long xs e f (ltb→lt _ _ long))
        | inr short ↦ rw short (both.written e f)
      ];
    }

encode_entry-Writes : (e : Entry) → Writes (encode_entry e) (entry_layout e)
unfolding encode_entry entry_layout
encode_entry-Writes e =
    then-Writes (write_uints-Writes 8 _)
      (then-Writes (write_uint-Writes 1 _) (write_bytes32-Writes e.command))

encode_entries-Writes : (es : List Entry) → Writes (encode_entries es) (entries_layout es)
unfolding encode_entries entries_layout
encode_entries-Writes [] = write-nil
encode_entries-Writes (e ∷ es) = then-Writes (encode_entry-Writes e) (encode_entries-Writes es)

encode_message-Writes : (rpc : Rpc) → Writes (encode_message rpc) (layout rpc)
unfolding encode_message layout encode_handshake encode_handshake_ack encode_pre_vote_request
    encode_pre_vote_response encode_request_vote_request encode_request_vote_response
    encode_append_entries_request encode_append_entries_response encode_install_snapshot_request
    encode_install_snapshot_response encode_error_response
encode_message-Writes (handshake m) =
    then-Writes (write_uint-Writes 2 _)
      (then-Writes (write_uint-Writes 32 _) (write_uint-Writes 32 _))
encode_message-Writes (handshake_ack m) =
    then-Writes (write_uint-Writes 2 _)
      (then-Writes (write_uint-Writes 32 _) (write_uint-Writes 32 _))
encode_message-Writes (pre_vote_request m) =
    then-Writes (write_uint-Writes 2 _) (write_uints-Writes 8 _)
encode_message-Writes (pre_vote_response m) =
    then-Writes (write_uints-Writes 2 _)
      (then-Writes (write_uints-Writes 8 _) (write_boolean-Writes m.granted))
encode_message-Writes (request_vote_request m) =
    then-Writes (write_uint-Writes 2 _) (write_uints-Writes 8 _)
encode_message-Writes (request_vote_response m) =
    then-Writes (write_uints-Writes 2 _)
      (then-Writes (write_uints-Writes 8 _) (write_boolean-Writes m.granted))
encode_message-Writes (append_entries_request m) = then-Writes (write_uint-Writes 2 _) (
    then-Writes (write_uints-Writes 8 _)
      (then-Writes (write_uint-Writes 2 _) (encode_entries-Writes m.entries)))
encode_message-Writes (append_entries_response m) = then-Writes (write_uints-Writes 2 _) (
    then-Writes (write_uints-Writes 8 _)
      (then-Writes (write_boolean-Writes m.success) (write_uints-Writes 8 _)))
encode_message-Writes (install_snapshot_request m) = then-Writes (write_uint-Writes 2 _) (
    then-Writes (write_uint-Writes 8 _) (
      then-Writes (write_uint-Writes 16 _) (
        then-Writes (write_uint-Writes 16 _) (
          then-Writes (write_uints-Writes 8 _) (
            then-Writes (write_uint-Writes 4 _) (
              then-Writes (write_uint-Writes 8 _) (
                then-Writes (write_uint-Writes 32 _) (
                  then-Writes (write_uint-Writes 8 _) (
                    then-Writes (write_bytes32-Writes m.chunk)
                      (write_boolean-Writes m.is_done))))))))))
encode_message-Writes (install_snapshot_response m) = then-Writes (write_uints-Writes 2 _) (
    then-Writes (write_uints-Writes 8 _) (
      then-Writes (write_uint-Writes 16 _) (
        then-Writes (write_uint-Writes 16 _) (
          then-Writes (write_uint-Writes 8 _)
            (then-Writes (write_boolean-Writes m.success) (write_boolean-Writes m.is_done))))))
encode_message-Writes (error_response m) =
    then-Writes (write_uint-Writes 2 _)
      (then-Writes (write_uint-Writes 2 _) (write_uint-Writes 8 _))

-- Where the encoder has room, EncodeRPC's payload is the schema version and the layout of the message;
-- where it has none, it is the one error of the encoder.
pub encode_message_lem :
    (version : ℕ) (rpc : Rpc) (maximum : ℕ)
    → maximum ≤ max_u32
    → (write_uint 2 version then encode_message rpc) (record { payload = []; maximum = maximum })
      ≡ (if ltb maximum (length (big_endian 2 version ++ layout rpc))
          then err rpc_too_large
          else ok (record { payload = big_endian 2 version ++ layout rpc; maximum = maximum }))
unfolding write
encode_message_lem version rpc maximum h =
    let xs = big_endian 2 version ++ layout rpc in
    (then-Writes (write_uint-Writes 2 version) (encode_message-Writes rpc)).written
      (record { payload = []; maximum = maximum }) (record { within = omega arith; bounded = h })
    ∙ ground arith

-- The length of the entries' layout: two 8-byte numbers, the kind, and the command behind its 4-byte
-- length.
unfoldable pub entries_size : List Entry → ℕ
entries_size [] = 0
entries_size (e ∷ es) = 21 + length e.command + entries_size es
