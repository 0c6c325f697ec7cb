-- ===== src/Raft/Log/Compaction.antt =====
-- Compact (internal/raft/log.go): a newer base, and what stays above it.
use crane.Base.{
  ℕ, suc, ◌+◌, ◌≤◌, ◌<◌, ◌≡◌, refl, sym, ap, ◌∙◌, some, length, get_elem?, drop, arith, ok,
  get_elem?_lt, get_elem?_bound, length-drop, get_elem?-drop,
}
use crane.Raft.Types.{Entry}
use crane.Raft.Log.Lookup.{
  below, base, retained, above, place, term_base, term_retained, entry_retained, entry_above,
  retained_offset_lem,
}
use crane.Raft.Log.Valid.{IsValid, Contiguous-drop, Contiguous-get_elem?}
use crane.Raft.Log.{Log, term, entry, retained_offset, compact}

-- The log with its base moved up to a retained entry.
abbrev pub rebased : Log → ℕ → ℕ → Log
rebased l o t = record l {
  entries = drop (o + 1) l.entries;
  snapshot_index = l.snapshot_index + suc o;
  snapshot_term = t;
}

-- A log with other commit and applied indices.
abbrev pub marked : Log → ℕ → ℕ → Log
marked l c a = record l { commit_index = c; applied_index = a }

-- Above its base the rebased log answers as the old one does.
pub marked-rebased_entry :
    (l : Log) (o t c a j : ℕ)
    → IsValid l
    → IsValid (marked (rebased l o t) c a)
    → o < length l.entries
    → l.snapshot_index + suc o < j
    → entry (marked (rebased l o t) c a) j ≡ entry l j
marked-rebased_entry l o t c a j v w h b = elim (place (marked (rebased l o t) c a) j w) [
  | below q ↦ absurd (omega arith)
  | base q ↦ absurd (omega arith)
  | above q ↦ entry_above (marked (rebased l o t) c a) j w q ∙ sym (entry_above l j v q)
  | retained k q r ↦
      let (e, g) = get_elem?_lt (drop (o + 1) l.entries) k r in
      let g' : get_elem? l.entries (o + 1 + k) ≡ some e =
        sym (get_elem?-drop (o + 1) l.entries k) ∙ g in
      let p : j ≡ l.snapshot_index + suc (o + 1 + k) = omega arith in
      let upper : entry (marked (rebased l o t) c a) j ≡ ok e =
        rw q (entry_retained (marked (rebased l o t) c a) k w g r) in
      let lower : entry l j ≡ ok e =
        rw p (entry_retained l (o + 1 + k) v g' (get_elem?_bound _ _ g')) in
      upper ∙ sym lower
]

pub rebased-IsValid :
    (l : Log) (o t : ℕ)
    → IsValid l
    → o < length l.entries
    → l.snapshot_index + suc o ≤ l.applied_index
    → (t ≡ 0 → ⊥)
    → IsValid (rebased l o t)
rebased-IsValid l o t v h a z = record {
  base_paired = ground arith;
  base_applied = a;
  applied_committed = v.applied_committed;
  committed_stored = v.committed_stored;
  last_exact = omega (arith, v.last_exact, length-drop (o + 1) l.entries);
  last_fits = v.last_fits;
  contiguous =
      let s : l.snapshot_index + (o + 1) ≡ l.snapshot_index + suc o = omega arith in
      rw s at (Contiguous-drop l.snapshot_index (o + 1) l.entries (omega arith) v.contiguous);
}

-- The two ways for Compact to succeed.
data Compacted (l : Log) (i t : ℕ) (l' : Log) : Type 0 where
  unmoved : i ≡ l.snapshot_index → t ≡ l.snapshot_term → l' ≡ l → Compacted l i t l'
  moved :
      (o : ℕ) (e : Entry)
      → i ≡ l.snapshot_index + suc o
      → get_elem? l.entries o ≡ some e
      → o < length l.entries
      → e.term ≡ t
      → i ≤ l.applied_index
      → l' ≡ rebased l o t
      → Compacted l i t l'

compact_inv : (l l' : Log) (i t : ℕ) → IsValid l → compact l i t ≡ ok l' → Compacted l i t l'
unfolding compact
compact_inv l l' i t v h = elim (place l i v) [
  | below q ↦ absurd (ground arith)
  | base q ↦ unmoved q (ground arith) (ground arith)
  | above q ↦ absurd (ground arith)
  | retained o q r ↦
      let (e, g) = get_elem?_lt l.entries o r in
      let k : term l i ≡ ok e.term = rw q (term_retained l o v g r) in
      let f : retained_offset l i ≡ ok o = rw q (retained_offset_lem l o v r) in
      moved o e q g r (ground arith) (ground arith) (ground arith)
]

-- A successful Compact of a valid log at `i` and `t` was asked for an index at most the applied one
-- whose term is `t`. It leaves a valid log with that base and with the same commit, applied and last
-- index, which answers Entry above `i` as before.
pub compact_lem :
    (l l' : Log) (i t j : ℕ)
    → IsValid l
    → compact l i t ≡ ok l'
    → i < j
    → IsValid l'
      × (l'.snapshot_index ≡ i)
      × (l'.snapshot_term ≡ t)
      × (term l i ≡ ok t)
      × (i ≤ l.applied_index)
      × (l'.commit_index ≡ l.commit_index)
      × (l'.applied_index ≡ l.applied_index)
      × (l'.last_index ≡ l.last_index)
      × (entry l' j ≡ entry l j)
compact_lem l l' i t j v h b = elim (compact_inv l l' i t v h) [
  | unmoved q s e ↦ rw (e) (
    v,
    sym q,
    sym s,
    term_base l i q ∙ ap ok (sym s),
    omega (arith, v.base_applied),
    refl,
    refl,
    refl,
    refl,
  )
  | moved o e q g r s a p ↦
      let z = (Contiguous-get_elem? l.snapshot_index l.entries o e v.contiguous g).1.term_pos in
      let w = rebased-IsValid l o t v r (omega (arith, q)) (rw s at z) in
      let k : term l i ≡ ok t = rw q (term_retained l o v g r ∙ ap ok s) in
      rw (p) (
        w,
        sym q,
        refl,
        k,
        a,
        refl,
        refl,
        refl,
        marked-rebased_entry l o t l.commit_index l.applied_index j v w r (omega arith),
      )
]
