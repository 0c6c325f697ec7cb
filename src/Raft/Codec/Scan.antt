-- ===== src/Raft/Codec/Scan.antt =====
-- The decoder's passes over the entries of an AppendEntries request, on what the encoder writes
-- (internal/raft/codec.go).
use crane.Base.{
  ℕ, ◌+◌, ◌^◌, ◌≤◌, ◌<◌, ◌≡◌, refl, sym, ap, ◌∙◌, true, false, ◌==◌, List, [], ◌∷◌, ◌++◌, length,
  none, max_u64, All, arith, ok,
}
use mathlib.Core.List.{append_assoc}
use crane.Base.Bytes.{big_endian}
use crane.Raft.Types.{Entry, EntryKind, entry_command, entry_no_op, entry_unknown}
use crane.Raft.Codec.{CodecLimits, check_append_entry, check_append_entries, is_known_kind}
use crane.Raft.Codec.Wire.{kind_code, kind_of}
use crane.Raft.Codec.Decode.{decode_entry, decode_entries, check_scanned, scan_entries}
use crane.Raft.Codec.Layout.{uints, bytes32, entry_layout, entries_layout}
use crane.Raft.Codec.Reads.{
  Reads, bind-Reads, ok-Reads, end-Reads, Reads-as, read_uint-Reads, read_bytes32-Reads,
}
use crane.Raft.Codec.Ranges.{EntryInRange}

kind_of-kind_code : (k : EntryKind) → is_known_kind k ≡ true → kind_of (kind_code k) ≡ k
unfolding is_known_kind
kind_of-kind_code entry_command h = refl
kind_of-kind_code entry_no_op h = refl
kind_of-kind_code (entry_unknown n) h = absurd (ground arith)

-- What the decoder needs of an entry: a known kind, and a command within the limit.
pub record Sized (limits : CodecLimits) (e : Entry) : Type 0 where
  pub known : is_known_kind e.kind ≡ true
  pub short : length e.command ≤ limits.max_command_bytes

decode_entry-Reads :
    (limits : CodecLimits) (e : Entry)
    → limits.max_command_bytes < 256 ^ 4
    → EntryInRange e
    → Sized limits e
    → Reads (decode_entry limits.max_command_bytes) (entry_layout e) e
unfolding decode_entry entry_layout uints
decode_entry-Reads limits e b ((hi, (ht, _)), hk, _) s =
    let code = big_endian 1 (kind_code e.kind) in
    let command = bytes32 e.command in
    let flat =
      append_assoc (big_endian 8 e.index) (big_endian 8 e.term ++ []) (code ++ command)
      ∙ ap (λ (xs : List ℕ). big_endian 8 e.index ++ xs)
          (append_assoc (big_endian 8 e.term) [] (code ++ command)) in
    Reads-as (sym flat)
      (ap (λ (k : EntryKind). record e { kind = k }) (kind_of-kind_code e.kind s.known))
      (bind-Reads _ (read_uint-Reads 8 e.index hi) (
        bind-Reads _ (read_uint-Reads 8 e.term ht) (
          bind-Reads _ (read_uint-Reads 1 (kind_code e.kind) hk) (
            end-Reads _ (
              read_bytes32-Reads limits.max_command_bytes e.command s.short
                (omega (arith, s.short)))))))

pub decode_entries-Reads :
    (limits : CodecLimits) (es : List Entry)
    → limits.max_command_bytes < 256 ^ 4
    → All EntryInRange es
    → All (Sized limits) es
    → Reads (decode_entries limits.max_command_bytes (length es)) (entries_layout es) es
unfolding decode_entries entries_layout
decode_entries-Reads limits [] b r s = ok-Reads []
decode_entries-Reads limits (e ∷ es) b (r, rs) (s, ss) =
    bind-Reads _ (decode_entry-Reads limits e b r s)
      (end-Reads _ (decode_entries-Reads limits es b rs ss))

-- An entry that passes the encoder's tests passes the scan's, and fits.
checked-scanned :
    (limits : CodecLimits) (t x p : ℕ) (e : Entry)
    → check_append_entry limits t x p e ≡ none
    → (check_scanned t x p e ≡ none) × Sized limits e
unfolding check_append_entry check_scanned
checked-scanned limits t x p e h = ground arith

checked_head :
    (limits : CodecLimits) (t x p : ℕ) (e : Entry) (es : List Entry)
    → check_append_entries limits t x p (e ∷ es) ≡ none
    → ((x == max_u64) ≡ false)
      × (check_append_entry limits t (x + 1) p e ≡ none)
      × (check_append_entries limits t (x + 1) e.term es ≡ none)
unfolding check_append_entries
checked_head limits t x p e es h = ground arith

pub checked-Sized :
    (limits : CodecLimits) (t x p : ℕ) (es : List Entry)
    → check_append_entries limits t x p es ≡ none
    → All (Sized limits) es
checked-Sized limits t x p [] h = tt
checked-Sized limits t x p (e ∷ es) h =
    let (a, b, c) = checked_head limits t x p e es h in
    ((checked-scanned limits t (x + 1) p e b).1, checked-Sized limits t (x + 1) e.term es c)

pub scan_entries_lem :
    (limits : CodecLimits) (t x p : ℕ) (es : List Entry) (rest : List ℕ)
    → limits.max_command_bytes < 256 ^ 4
    → All EntryInRange es
    → check_append_entries limits t x p es ≡ none
    → scan_entries limits.max_command_bytes t x p (length es) (entries_layout es ++ rest) ≡ ok rest
unfolding scan_entries entries_layout
scan_entries_lem limits t x p [] rest b r h = refl
scan_entries_lem limits t x p (e ∷ es) rest b (r, rs) h =
    let (full, head, tail) = checked_head limits t x p e es h in
    let (fine, sized) = checked-scanned limits t (x + 1) p e head in
    rw
      (
        append_assoc (entry_layout e) (entries_layout es) rest,
        (decode_entry-Reads limits e b r sized).takes (entries_layout es ++ rest),
        full,
        fine,
      )
      (scan_entries_lem limits t (x + 1) e.term es rest b rs tail)
