-- ===== src/Raft/Log/Append.antt =====
-- Append (internal/raft/log.go): what a successful call leaves in the log.
use crane.Base.{
  ◌⊎◌, refl, ℕ, suc, ◌+◌, ◌≤◌, ◌≡◌, ap, ◌∙◌, inl, inr, List, [], ◌∷◌, ◌==◌, if◌then◌else◌, max_u64,
  length, arith, ok, err, Bool-cases, Result-cases, ==→≡,
}
use crane.Raft.Types.{Entry, Error, is_empty, log_unavailable, log_compacted}
use crane.Raft.Log.{
  ConflictHint, Log, AppendResult, appended, refused, no_hint, term, repair, append, check_entries,
  position_refused, term_refused,
}
use crane.Raft.Log.Valid.{Contiguous, IsValid, check_entries-Contiguous}
use crane.Raft.Log.Lookup.{below, base, retained, above, place, term_above}
use crane.Raft.Log.Repair.{Repaired, repair-Repaired}

pub AppendResult-cases :
    (r : AppendResult)
    → ((l : Log) × (r ≡ appended l)) ⊎ ((h : ConflictHint) × (e : Error) × (r ≡ refused h e))
AppendResult-cases (appended l) = inl (l, refl)
AppendResult-cases (refused h e) = inr (h, e, refl)

position_refused-ne : (l : Log) (e : Error) {l' : Log} → position_refused l e ≡ appended l' → ⊥
unfolding position_refused
position_refused-ne l log_unavailable h = ground arith
position_refused-ne l log_compacted h = ground arith
position_refused-ne l _ h = ground arith

term_refused-ne : (l : Log) (p t : ℕ) {l' : Log} → term_refused l p t ≡ appended l' → ⊥
unfolding term_refused
term_refused-ne l p t h = ground arith

-- A successful call: the previous position holds the previous term, and the batch went in there.
pub record Accepted (l : Log) (p t : ℕ) (es : List Entry) (l' : Log) : Type 0 where
  pub offset : ℕ
  pub position : p ≡ l.snapshot_index + offset
  pub stored : offset ≤ length l.entries
  pub previous : term l p ≡ ok t
  pub batch : Contiguous p es
  pub batch_fits : p + length es ≤ max_u64
  pub repaired : Repaired l offset es (appended l')

offset_of :
    (l : Log) (p t : ℕ)
    → IsValid l
    → term l p ≡ ok t
    → (o : ℕ) × (p ≡ l.snapshot_index + o) × (o ≤ length l.entries)
unfolding term
offset_of l p t v h = elim (place l p v) [
  | below b ↦ absurd (ground arith)
  | base b ↦ (0, omega arith, omega arith)
  | retained o q r ↦ (suc o, q, r)
  | above a ↦ absurd (ground (arith, term_above l p v a))
]

-- Past the test of the previous term.
batch_stage : Log → ℕ → List Entry → AppendResult
batch_stage l p entries =
    if is_empty entries
    then appended l
    else elim (check_entries p entries) [ err e ↦ refused no_hint e | ok last ↦ repair l entries ]

batch_stage_inv :
    (l : Log) (p : ℕ) (es : List Entry) {l' : Log}
    → p ≤ max_u64
    → batch_stage l p es ≡ appended l'
    → Contiguous p es × (p + length es ≤ max_u64) × (repair l es ≡ appended l')
unfolding batch_stage is_empty repair
batch_stage_inv l p [] h e = (tt, omega arith, e)
batch_stage_inv l p (x ∷ es) h e = elim (Result-cases (check_entries p (x ∷ es))) [
  | inr (bad, q) ↦ absurd (ground arith)
  | inl (last, q) ↦
      let c = check_entries-Contiguous p (x ∷ es) h q in
      (c.0, omega (arith, c.1, c.2), ground arith)
]

append_stages :
    (l : Log) (p t : ℕ) (es : List Entry) {l' : Log}
    → append l p t es ≡ appended l'
    → (term l p ≡ ok t) × (batch_stage l p es ≡ appended l')
unfolding append batch_stage
append_stages l p t es {l'} h = elim (Result-cases (term l p)) [
  | inr (e, q) ↦ absurd (position_refused-ne l e {l' = l'} (rw (q, append) at h))
  | inl (local, q) ↦ elim (Bool-cases (local == t)) [
    | inr differs ↦ absurd (term_refused-ne l p local {l' = l'} (rw (q, append, differs) at h))
    | inl agrees ↦ (q ∙ ap ok (==→≡ local t agrees), rw (q, append, agrees) at h)
  ]
]

pub append-Accepted :
    (l : Log) (p t : ℕ) (es : List Entry) {l' : Log}
    → IsValid l
    → append l p t es ≡ appended l'
    → Accepted l p t es l'
append-Accepted l p t es {l'} v h =
    let (q, b) = append_stages l p t es h in
    let (o, e, r) = offset_of l p t v q in
    let (c, f, w) = batch_stage_inv l p es (omega (arith, v.last_exact, v.last_fits)) b in
    record {
      offset = o;
      position = e;
      stored = r;
      previous = q;
      batch = c;
      batch_fits = f;
      repaired = rw w at (repair-Repaired l o es v r (rw e at c));
    }
