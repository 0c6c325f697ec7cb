-- ===== src/Raft/Log/Safety.antt =====
-- What Append (internal/raft/log.go) promises to replication: the batch is stored, the committed
-- prefix stays, and the log stays valid.
use crane.Base.{
  ℕ, suc, ◌⊎◌, inl, inr, ◌+◌, ◌≤◌, ◌<◌, ◌≡◌, sym, ap, ◌∙◌, same, some, List, length, get_elem?,
  arith, ok, get_elem?_lt, get_elem?_bound,
}
use crane.Raft.Types.{Entry}
use crane.Raft.Log.{Log, appended, term, entry, append}
use crane.Raft.Log.Valid.{IsValid, Contiguous-get_elem?}
use crane.Raft.Log.Lookup.{
  below, base, retained, above, place, term_base, term_below, term_retained, entry_retained,
  entry_below,
}
use crane.Raft.Log.Append.{append-Accepted}
use crane.Raft.Log.Splice.{
  SameBase, took, had, Spliced-of, Spliced-SameBase, Spliced-IsValid, Spliced-stored, Spliced-kept,
}

-- A successful Append leaves a log, valid before, valid: contiguous, canonical, with its last index
-- exact and its commit index stored.
pub append-IsValid :
    (l l' : Log) (p t : ℕ) (es : List Entry)
    → IsValid l
    → append l p t es ≡ appended l'
    → IsValid l'
append-IsValid l l' p t es v h =
    let a = append-Accepted l p t es v h in
    Spliced-IsValid v (rw a.position at a.batch) (omega (arith, a.position, a.batch_fits))
      (Spliced-of a.repaired)

entry_kept :
    (l l' : Log) (o : ℕ)
    → IsValid l
    → IsValid l'
    → SameBase l l'
    → o < length l.entries
    → l.snapshot_index + suc o ≤ l.commit_index
    → get_elem? l'.entries o ≡ get_elem? l.entries o
    → (entry l' (l.snapshot_index + suc o) ≡ entry l (l.snapshot_index + suc o))
      × (term l' (l.snapshot_index + suc o) ≡ term l (l.snapshot_index + suc o))
entry_kept l l' o v w b h c g =
    let (e, at_o) = get_elem?_lt l.entries o h in
    let h' : o < length l'.entries =
      omega (arith, b.same_index, b.same_commit, w.last_exact, w.committed_stored) in
    let k : l'.snapshot_index + suc o ≡ l.snapshot_index + suc o = omega (arith, b.same_index) in
    let e' = rw k at (entry_retained l' o w (g ∙ at_o) h') in
    let t' = rw k at (term_retained l' o w (g ∙ at_o) h') in
    (e' ∙ sym (entry_retained l o v at_o h), t' ∙ sym (term_retained l o v at_o h))

-- A successful Append changes nothing at or below the commit index of a valid log: Entry and Term
-- answer there as before, errors included, and the base, the commit index and the applied index
-- stay.
pub append_keeps_committed :
    (l l' : Log) (p t i : ℕ) (es : List Entry)
    → IsValid l
    → append l p t es ≡ appended l'
    → i ≤ l.commit_index
    → (entry l' i ≡ entry l i) × (term l' i ≡ term l i) × SameBase l l'
append_keeps_committed l l' p t i es v h c =
    let a = append-Accepted l p t es v h in
    let s = Spliced-of a.repaired in
    let b = Spliced-SameBase s in
    let w = append-IsValid l l' p t es v h in
    elim (place l i v) [
      | below q ↦ (
        entry_below l' i (omega (arith, b.same_index)) ∙ sym (entry_below l i (omega arith)),
        term_below l' i (omega (arith, b.same_index)) ∙ sym (term_below l i (omega arith)),
        b,
      )
      | base q ↦ (
        entry_below l' i (omega (arith, b.same_index)) ∙ sym (entry_below l i (omega arith)),
        term_base l' i (omega (arith, b.same_index)) ∙ ap ok b.same_term ∙ sym (term_base l i q),
        b,
      )
      | retained o q r ↦
          let k =
            entry_kept l l' o v w b r (omega (arith, q)) (Spliced-kept o s (omega (arith, q))) in
          rw q (k.0, k.1, b)
      | above q ↦ absurd (omega (arith, v.committed_stored))
    ]

-- After a successful Append to a valid log, each entry of the batch is at its own index, and these follow
-- the previous index: Entry answers that very entry there, or the entry that it answered before,
-- kept because its term is the batch entry's term.
pub append_stores :
    (l l' : Log) (p t k : ℕ) (es : List Entry) (e : Entry)
    → IsValid l
    → append l p t es ≡ appended l'
    → get_elem? es k ≡ some e
    → (e.index ≡ p + suc k)
      × ((entry l' e.index ≡ ok e)
          ⊎ ((entry l' e.index ≡ entry l e.index) × (term l e.index ≡ ok e.term)))
append_stores l l' p t k es e v h g =
    let a = append-Accepted l p t es v h in
    let s = Spliced-of a.repaired in
    let b = Spliced-SameBase s in
    let w = append-IsValid l l' p t es v h in
    let (m, at_k, stored) = Spliced-stored k e s g in
    let o : ℕ = a.offset + k in
    let x : e.index ≡ p + suc k = (Contiguous-get_elem? p es k e a.batch g).0 in
    let y : e.index ≡ l'.snapshot_index + suc o = omega (arith, x, a.position, b.same_index) in
    let z : e.index ≡ l.snapshot_index + suc o = omega (arith, x, a.position) in
    let now : entry l' e.index ≡ ok m =
      rw y (entry_retained l' o w at_k (get_elem?_bound _ _ at_k)) in
    (
      x,
      elim stored [
        | took same ↦ inl (now ∙ ap ok same)
        | had old same ↦
            let in_old = get_elem?_bound l.entries o old in
            let before : entry l e.index ≡ ok m = rw z (entry_retained l o v old in_old) in
            let before_term : term l e.index ≡ ok m.term = rw z (term_retained l o v old in_old) in
            inr (now ∙ sym before, before_term ∙ ap ok same)
      ],
    )
