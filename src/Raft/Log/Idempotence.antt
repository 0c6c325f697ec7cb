-- ===== src/Raft/Log/Idempotence.antt =====
-- A repeated AppendEntries batch (internal/raft/log.go: Append) changes nothing.
use crane.Base.{
  ℕ, zero, suc, ◌+◌, ◌≤◌, ◌<◌, ◌≡◌, refl, sym, ap, ◌∙◌, some, List, [], ◌∷◌, max_u64, length,
  get_elem?, arith, ok, get_elem?_lt, get_elem?_bound,
}
use crane.Raft.Types.{Entry, is_empty}
use crane.Raft.Log.Lookup.{term_base, term_retained, retained_offset_lem}
use crane.Raft.Log.Valid.{Contiguous, IsValid, Contiguous-check_entries}
use crane.Raft.Log.{Log, appended, term, at, repair, append, graft}
use crane.Raft.Log.Repair.{Agrees}
use crane.Raft.Log.Append.{append-Accepted}
use crane.Raft.Log.Safety.{append-IsValid}
use crane.Raft.Log.Splice.{
  Spliced, whole, cut, Spliced-of, Spliced-stored, Holds-term, Spliced-SameBase, grafted_prefix,
}

Agrees-of :
    (xs : List Entry) (o : ℕ) (es : List Entry)
    → ((k : ℕ) (e : Entry)
        → get_elem? es k ≡ some e
        → (m : Entry) × (get_elem? xs (o + k) ≡ some m) × (m.term ≡ e.term))
    → Agrees xs o es
Agrees-of xs o [] f = tt
Agrees-of xs o (x ∷ es) f =
    let z : o + 0 ≡ o = omega arith in
    (
      rw z at (f 0 x refl),
      Agrees-of xs (suc o) es
          (λ k e g. let s : o + suc k ≡ suc o + k = omega arith in rw s at (f (suc k) e g)),
    )

-- A batch that the log holds already is accepted without a write.
repair_agreed :
    (l : Log) (o : ℕ) (es : List Entry)
    → IsValid l
    → Contiguous (l.snapshot_index + o) es
    → Agrees l.entries o es
    → repair l es ≡ appended l
unfolding repair at
repair_agreed l o [] v c a = refl
repair_agreed l o (e ∷ es) v c ((m, g, t), a) =
    let h : o < length l.entries = get_elem?_bound l.entries o g in
    let p : e.index ≡ l.snapshot_index + suc o = omega (arith, c.0) in
    let s : suc (l.snapshot_index + o) ≡ l.snapshot_index + suc o = omega arith in
    let rest = repair_agreed l (suc o) es v (rw s at (c.2)) a in
    rw p (ground (arith, v.last_exact, retained_offset_lem l o v h, rest))

append_agreed :
    (l : Log) (o p t : ℕ) (es : List Entry)
    → IsValid l
    → p ≡ l.snapshot_index + o
    → term l p ≡ ok t
    → Contiguous p es
    → p + length es ≤ max_u64
    → Agrees l.entries o es
    → append l p t es ≡ appended l
unfolding append is_empty
append_agreed l o p t [] v q h c f a = ground arith
append_agreed l o p t (e ∷ es) v q h c f a =
    ground
      (arith, Contiguous-check_entries p (e ∷ es) c f, repair_agreed l o (e ∷ es) v (rw q at c) a)

-- Up to the position at which the batch goes in, the log is the old one.
Spliced-before :
    {l l' : Log} {o : ℕ} {es : List Entry} (i : ℕ)
    → Spliced l o es l'
    → i < o
    → get_elem? l'.entries i ≡ get_elem? l.entries i
unfolding graft
Spliced-before i (whole a q) h = rw q
Spliced-before {l} {l'} {o} {es} i (cut pre b bs s a g c q) h =
    rw q (grafted_prefix l.entries (o + length pre) b bs g i (omega arith))

previous_kept :
    (l l' : Log) (p t : ℕ) (es : List Entry) (o : ℕ)
    → IsValid l
    → IsValid l'
    → p ≡ l.snapshot_index + o
    → o ≤ length l.entries
    → term l p ≡ ok t
    → Spliced l o es l'
    → term l' p ≡ ok t
previous_kept l l' p t es zero v w q r h s =
    let b = Spliced-SameBase s in
    term_base l' p (omega (arith, b.same_index))
    ∙ ap ok b.same_term
    ∙ sym (term_base l p (omega arith))
    ∙ h
previous_kept l l' p t es (suc o) v w q r h s =
    let b = Spliced-SameBase s in
    let (e, g) = get_elem?_lt l.entries o r in
    let g' = Spliced-before o s (omega arith) ∙ g in
    let k : p ≡ l'.snapshot_index + suc o = omega (arith, b.same_index) in
    rw k (term_retained l' o w g' (get_elem?_bound l'.entries o g'))
    ∙ sym (term_retained l o v g r)
    ∙ rw q at h

-- Append is idempotent: the log that a successful call on a valid log leaves accepts the same call
-- again, and is left as it is.
pub append_idempotent :
    (l l' : Log) (p t : ℕ) (es : List Entry)
    → IsValid l
    → append l p t es ≡ appended l'
    → append l' p t es ≡ appended l'
append_idempotent l l' p t es v h =
    let a = append-Accepted l p t es v h in
    let s = Spliced-of a.repaired in
    let b = Spliced-SameBase s in
    let w = append-IsValid l l' p t es v h in
    append_agreed l' a.offset p t es w (omega (arith, a.position, b.same_index))
      (previous_kept l l' p t es a.offset v w a.position a.stored a.previous s) a.batch a.batch_fits
      (Agrees-of l'.entries a.offset es
        (λ k e g. let (m, at_k, stored) = Spliced-stored k e s g in (m, at_k, Holds-term stored)))
