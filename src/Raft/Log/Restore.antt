-- ===== src/Raft/Log/Restore.antt =====
-- RestoreSnapshot (internal/raft/log.go): a base that a leader sent, and what stays above it.
use crane.Base.{
  ℕ, suc, ◌+◌, ◌≤◌, ◌<◌, ◌≡◌, refl, ◌⊎◌, inl, inr, same, some, [], ◌==◌, max_u64, length, get_elem?,
  arith, ok, Bool-cases, ==→≡, get_elem?_lt, length-drop,
}
use crane.Raft.Types.{Entry}
use crane.Raft.Log.Lookup.{below, base, retained, above, place, term_retained, retained_offset_lem}
use crane.Raft.Log.Valid.{IsValid, Contiguous-drop, Contiguous-get_elem?}
use crane.Raft.Log.{Log, term, entry, retained_offset, restore_snapshot, max_log_index}
use crane.Raft.Log.Compaction.{marked, rebased, marked-rebased_entry}

-- The three ways for RestoreSnapshot to succeed.
data Restored (l : Log) (i t : ℕ) (l' : Log) : Type 0 where
  stale : i ≤ l.snapshot_index → l' ≡ l → Restored l i t l'
  suffix :
      (o : ℕ) (e : Entry)
      → i ≡ l.snapshot_index + suc o
      → get_elem? l.entries o ≡ some e
      → o < length l.entries
      → e.term ≡ t
      → l'
        ≡ marked (rebased l o t) (max_log_index l.commit_index i) (max_log_index l.applied_index i)
      → Restored l i t l'
  fresh :
      l.snapshot_index < i
      → (t ≡ 0 → ⊥)
      → l.commit_index ≤ i
      → l' ≡ record {
        snapshot_index = i;
        snapshot_term = t;
        commit_index = i;
        applied_index = i;
        last_index = i;
        entries = [];
      }
      → Restored l i t l'

Restored-past :
    (l l' : Log) (i t : ℕ)
    → IsValid l
    → l.last_index < i
    → restore_snapshot l i t ≡ ok l'
    → Restored l i t l'
unfolding restore_snapshot max_log_index
Restored-past l l' i t v h r =
    fresh (omega (arith, v.last_exact)) (ground (arith, v.last_exact))
      (omega (arith, v.committed_stored))
      (ground (arith, v.committed_stored, v.applied_committed, v.last_exact))

Restored-within :
    (l l' : Log) (i t o : ℕ) (e : Entry)
    → IsValid l
    → i ≡ l.snapshot_index + suc o
    → o < length l.entries
    → get_elem? l.entries o ≡ some e
    → restore_snapshot l i t ≡ ok l'
    → Restored l i t l'
unfolding restore_snapshot max_log_index
Restored-within l l' i t o e v q h g r =
    let k : term l i ≡ ok e.term = rw q (term_retained l o v g h) in
    let f : retained_offset l i ≡ ok o = rw q (retained_offset_lem l o v h) in
    elim (Bool-cases (e.term == t)) [
      | inl same ↦ suffix o e q g h (==→≡ _ _ same) (ground arith)
      | inr differs ↦
          fresh (omega arith) (ground arith) (ground arith) (ground (arith, v.applied_committed))
    ]

restore_inv :
    (l l' : Log) (i t : ℕ) → IsValid l → restore_snapshot l i t ≡ ok l' → Restored l i t l'
unfolding restore_snapshot
restore_inv l l' i t v h = elim (place l i v) [
  | below q ↦ stale (omega arith) (ground arith)
  | base q ↦ stale (omega arith) (ground arith)
  | above q ↦ Restored-past l l' i t v q h
  | retained o q r ↦
      let (e, g) = get_elem?_lt l.entries o r in Restored-within l l' i t o e v q r g h
]

fresh-IsValid :
    (i t : ℕ)
    → (i ≡ 0 → ⊥)
    → (t ≡ 0 → ⊥)
    → i ≤ max_u64
    → IsValid (record {
      snapshot_index = i;
      snapshot_term = t;
      commit_index = i;
      applied_index = i;
      last_index = i;
      entries = [];
    })
fresh-IsValid i t p q f = ground arith

marked-IsValid :
    (l : Log) (o t : ℕ)
    → IsValid l
    → o < length l.entries
    → (t ≡ 0 → ⊥)
    → let i = l.snapshot_index + suc o in
      IsValid
        (marked (rebased l o t) (max_log_index l.commit_index i) (max_log_index l.applied_index i))
unfolding max_log_index
marked-IsValid l o t v h z = record {
  base_paired = ground arith;
  base_applied = ground arith;
  applied_committed = ground (arith, v.applied_committed);
  committed_stored = ground (arith, v.committed_stored, v.last_exact);
  last_exact = omega (arith, v.last_exact, length-drop (o + 1) l.entries);
  last_fits = v.last_fits;
  contiguous =
      let s : l.snapshot_index + (o + 1) ≡ l.snapshot_index + suc o = omega arith in
      rw s at (Contiguous-drop l.snapshot_index (o + 1) l.entries (omega arith) v.contiguous);
}

-- The commit and applied indices after a restore: moved up to the snapshot's index or left.
abbrev pub Raised : ℕ → ℕ → ℕ → Type 0
Raised old i new = (old ≤ new) × (i ≤ new) × ((new ≡ old) ⊎ (new ≡ i))

max_log_index-Raised : (a i : ℕ) → Raised a i (max_log_index a i)
unfolding max_log_index
max_log_index-Raised a i = ground arith

-- A successful RestoreSnapshot of a valid log at a uint64 index leaves a valid log, whose base is
-- neither below that index nor below the old base, and whose commit and applied indices are the old ones
-- or that index, and below neither.
pub restore_snapshot-IsValid :
    (l l' : Log) (i t : ℕ)
    → IsValid l
    → i ≤ max_u64
    → restore_snapshot l i t ≡ ok l'
    → IsValid l'
      × (i ≤ l'.snapshot_index)
      × (l.snapshot_index ≤ l'.snapshot_index)
      × Raised l.commit_index i l'.commit_index
      × Raised l.applied_index i l'.applied_index
restore_snapshot-IsValid l l' i t v f h = elim (restore_inv l l' i t v h) [
  | stale q e ↦ rw e (
    v,
    q,
    omega arith,
    (omega arith, omega (arith, v.base_applied, v.applied_committed), inl refl),
    (omega arith, omega (arith, v.base_applied), inl refl),
  )
  | fresh q z p e ↦ rw e (
    fresh-IsValid i t (omega arith) z f,
    omega arith,
    omega arith,
    (p, omega arith, inr refl),
    (omega (arith, v.applied_committed), omega arith, inr refl),
  )
  | suffix o e q g r s p ↦
      let z = (Contiguous-get_elem? l.snapshot_index l.entries o e v.contiguous g).1.term_pos in
      rw (p, q)
        (
          marked-IsValid l o t v r (rw s at z),
          omega arith,
          omega arith,
          max_log_index-Raised _ _,
          max_log_index-Raised _ _,
        )
]

-- A successful RestoreSnapshot of a valid log at `i` loses no committed entry above `i`: Entry
-- answers there as before.
pub restore_snapshot_keeps_committed :
    (l l' : Log) (i t j : ℕ)
    → IsValid l
    → restore_snapshot l i t ≡ ok l'
    → i < j
    → j ≤ l.commit_index
    → entry l' j ≡ entry l j
restore_snapshot_keeps_committed l l' i t j v h b c = elim (restore_inv l l' i t v h) [
  | stale q e ↦ rw e refl
  | fresh q z p e ↦ absurd (omega arith)
  | suffix o e q g r s p ↦
      let z = (Contiguous-get_elem? l.snapshot_index l.entries o e v.contiguous g).1.term_pos in
      let w = marked-IsValid l o t v r (rw s at z) in
      rw (p, q) (marked-rebased_entry l o t _ _ j v w r (omega arith))
]
