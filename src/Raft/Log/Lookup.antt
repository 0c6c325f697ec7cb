-- ===== src/Raft/Log/Lookup.antt =====
-- Reads of a valid log by index (internal/raft/log.go: Term, Entry, retainedOffset).
use crane.Base.{
  ℕ, suc, ◌+◌, ◌-◌, ◌≤◌, ◌<◌, ◌≡◌, inl, inr, some, ◌==◌, ltb, length, get_elem?, arith, Result, ok,
  err, Bool-cases, get_elem?_lt,
}
use crane.Raft.Types.{Entry, Error, log_compacted, log_unavailable}
use crane.Raft.Log.{Log, retained_offset, at, term, entry}
use crane.Raft.Log.Valid.{IsValid, Contiguous-get_elem?}

-- A retained index lies at its distance from the base.
pub retained_offset_lem :
    (l : Log) (o : ℕ)
    → IsValid l
    → o < length l.entries
    → retained_offset l (l.snapshot_index + suc o) ≡ ok o
unfolding retained_offset
retained_offset_lem l o v h = ground (arith, v.last_exact)

pub entry_retained :
    (l : Log) (o : ℕ) {e : Entry}
    → IsValid l
    → get_elem? l.entries o ≡ some e
    → o < length l.entries
    → entry l (l.snapshot_index + suc o) ≡ ok e
unfolding entry at
entry_retained l o v g h = ground (arith, retained_offset_lem l o v h)

pub term_retained :
    (l : Log) (o : ℕ) {e : Entry}
    → IsValid l
    → get_elem? l.entries o ≡ some e
    → o < length l.entries
    → term l (l.snapshot_index + suc o) ≡ ok e.term
unfolding term at
term_retained l o v g h = ground (arith, retained_offset_lem l o v h)

-- The index before the base, at the base, retained at an offset, or past the last.
pub data Place (l : Log) (i : ℕ) : Type 0 where
  below : i < l.snapshot_index → Place l i
  base : i ≡ l.snapshot_index → Place l i
  retained : (o : ℕ) → i ≡ l.snapshot_index + suc o → o < length l.entries → Place l i
  above : l.last_index < i → Place l i

pub place : (l : Log) (i : ℕ) → IsValid l → Place l i
place l i v = elim (Bool-cases (ltb i l.snapshot_index)) [
  | inl b ↦ below (ground arith)
  | inr b ↦ elim (Bool-cases (i == l.snapshot_index)) [
    | inl e ↦ base (ground arith)
    | inr e ↦ elim (Bool-cases (ltb l.last_index i)) [
      | inl a ↦ above (ground arith)
      | inr a ↦ retained (i - l.snapshot_index - 1) (ground arith) (ground (arith, v.last_exact))
    ]
  ]
]

-- What `Term` may answer at an index of a valid log.
pub data TermAnswer (l : Log) (i : ℕ) : Result Error ℕ → Type 0 where
  compacted : i < l.snapshot_index → TermAnswer l i (err log_compacted)
  at_base : i ≡ l.snapshot_index → TermAnswer l i (ok l.snapshot_term)
  at_entry :
      (e : Entry) → i ≤ l.last_index → e.index ≡ i → entry l i ≡ ok e → TermAnswer l i (ok e.term)
  unavailable : l.last_index < i → TermAnswer l i (err log_unavailable)

pub term_below : (l : Log) (i : ℕ) → i < l.snapshot_index → term l i ≡ err log_compacted
unfolding term
term_below l i h = ground arith

pub term_base : (l : Log) (i : ℕ) → i ≡ l.snapshot_index → term l i ≡ ok l.snapshot_term
unfolding term
term_base l i h = ground arith

pub entry_below : (l : Log) (i : ℕ) → i ≤ l.snapshot_index → entry l i ≡ err log_compacted
unfolding entry
entry_below l i h = ground arith

pub entry_above : (l : Log) (i : ℕ) → IsValid l → l.last_index < i → entry l i ≡ err log_unavailable
unfolding entry retained_offset
entry_above l i v h = ground (arith, v.last_exact)

pub term_above : (l : Log) (i : ℕ) → IsValid l → l.last_index < i → term l i ≡ err log_unavailable
unfolding term retained_offset
term_above l i v h = ground (arith, v.last_exact)

term_answer_at :
    (l : Log) (o : ℕ) (i : ℕ)
    → IsValid l
    → i ≡ l.snapshot_index + suc o
    → o < length l.entries
    → TermAnswer l i (term l i)
term_answer_at l o i v p h =
    let (e, g) = get_elem?_lt l.entries o h in
    let c = Contiguous-get_elem? l.snapshot_index l.entries o e v.contiguous g in
    rw (p, term_retained l o v g h)
      (at_entry e (omega (arith, v.last_exact)) (c.0) (entry_retained l o v g h))

-- `Term` answers every index of a valid log: with the base's term at the base, with the term of the
-- entry stored there between the base and the last index, with ErrLogCompacted below the base and
-- with ErrLogUnavailable above the last index. No other error is possible.
pub term_total : (l : Log) (i : ℕ) → IsValid l → TermAnswer l i (term l i)
term_total l i v = elim (place l i v) [
  | below h ↦ rw (term_below l i h) (compacted h)
  | base h ↦ rw (term_base l i h) (at_base h)
  | retained o p h ↦ term_answer_at l o i v p h
  | above h ↦ rw (term_above l i v h) (unavailable h)
]
