-- ===== src/Raft/Log/Valid.antt =====
-- What holds of a Raft log between two calls (internal/raft/log.go), and contiguous runs of entries.
use crane.Base.{
  ℕ, zero, suc, ◌+◌, ◌≤◌, ◌≡◌, inl, inr, true, same, some, List, [], ◌∷◌, ◌++◌, ◌==◌, max_u64,
  length, get_elem?, take, drop, arith, ok, Bool-cases, Option-cases,
}
use crane.Raft.Types.{
  Entry, IsCanonical, validate_log_entry, validate_log_entry-IsCanonical,
  IsCanonical-validate_log_entry,
}
use crane.Raft.Log.{Log, checked_next_index, check_entries, final_index}

-- Canonical entries at the positions that follow `base`.
abbrev pub Contiguous : ℕ → List Entry → Type 0
Contiguous base [] = Unit {0}
Contiguous base (e ∷ es) = (e.index ≡ suc base) × IsCanonical e × Contiguous (suc base) es

pub record IsValid (l : Log) : Type 0 where
  pub base_paired : same (l.snapshot_index == 0) (l.snapshot_term == 0) ≡ true
  pub base_applied : l.snapshot_index ≤ l.applied_index
  pub applied_committed : l.applied_index ≤ l.commit_index
  pub committed_stored : l.commit_index ≤ l.last_index
  pub last_exact : l.last_index ≡ l.snapshot_index + length l.entries
  pub last_fits : l.last_index ≤ max_u64
  pub contiguous : Contiguous l.snapshot_index l.entries

pub check_entries-Contiguous :
    (next : ℕ) (es : List Entry) {last : ℕ}
    → next ≤ max_u64
    → check_entries next es ≡ ok last
    → Contiguous next es × (last ≡ next + length es) × (last ≤ max_u64)
unfolding check_entries checked_next_index
check_entries-Contiguous next [] h e = (tt, ground arith, ground arith)
check_entries-Contiguous next (x ∷ es) {last} h e = elim (Bool-cases (next == max_u64)) [
  | inl full ↦ absurd (ground arith)
  | inr room ↦ elim (Bool-cases (x.index == (next + 1))) [
    | inr gap ↦ absurd (ground arith)
    | inl here ↦ elim (Option-cases (validate_log_entry x)) [
      | inr (bad, b) ↦ absurd (ground arith)
      | inl good ↦
          let s : next + 1 ≡ suc next = omega arith in
          let rest =
            check_entries-Contiguous (suc next) es {last = last} (ground arith)
              (rw (← s) (ground arith)) in
          (
            (ground arith, validate_log_entry-IsCanonical x good, rest.0),
            omega (arith, rest.1),
            rest.2,
          )
    ]
  ]
]

pub Contiguous-check_entries :
    (next : ℕ) (es : List Entry)
    → Contiguous next es
    → next + length es ≤ max_u64
    → check_entries next es ≡ ok (next + length es)
unfolding check_entries checked_next_index
Contiguous-check_entries next [] c h = ground arith
Contiguous-check_entries next (x ∷ es) c h =
    let s : next + 1 ≡ suc next = omega arith in
    ground (
      arith,
      s,
      c.0,
      IsCanonical-validate_log_entry x c.1,
      Contiguous-check_entries (suc next) es c.2 (omega arith),
    )

pub Contiguous-append :
    (base : ℕ) (xs ys : List Entry)
    → Contiguous base xs
    → Contiguous (base + length xs) ys
    → Contiguous base (xs ++ ys)
Contiguous-append base [] ys c d = let e : base + 0 ≡ base = omega arith in rw e at d
Contiguous-append base (x ∷ xs) ys c d =
    let e : base + suc (length xs) ≡ suc base + length xs = omega arith in
    (c.0, c.1, Contiguous-append (suc base) xs ys c.2 (rw e at d))

pub Contiguous-take :
    (base n : ℕ) (es : List Entry) → Contiguous base es → Contiguous base (take n es)
Contiguous-take base zero es c = tt
Contiguous-take base (suc n) [] c = tt
Contiguous-take base (suc n) (e ∷ es) c = (c.0, c.1, Contiguous-take (suc base) n es c.2)

pub Contiguous-drop :
    (base n : ℕ) (es : List Entry)
    → n ≤ length es
    → Contiguous base es
    → Contiguous (base + n) (drop n es)
Contiguous-drop base zero es h c = let e : base ≡ base + 0 = omega arith in rw e at c
Contiguous-drop base (suc n) [] h c = elim h [ ]
Contiguous-drop base (suc n) (e ∷ es) h c =
    let s : suc base + n ≡ base + suc n = omega arith in
    rw s at (Contiguous-drop (suc base) n es (omega arith) c.2)

pub Contiguous-get_elem? :
    (base : ℕ) (es : List Entry) (i : ℕ) (e : Entry)
    → Contiguous base es
    → get_elem? es i ≡ some e
    → (e.index ≡ base + suc i) × IsCanonical e
Contiguous-get_elem? base [] i e c h = absurd (ground arith)
Contiguous-get_elem? base (x ∷ es) zero e c h =
    let same : x ≡ e = ground arith in rw (← same) (omega (arith, c.0), c.1)
Contiguous-get_elem? base (x ∷ es) (suc i) e c h =
    let rest = Contiguous-get_elem? (suc base) es i e c.2 h in (omega (arith, rest.0), rest.1)

pub final_index_lem :
    (base : ℕ) (es : List Entry) → Contiguous base es → final_index base es ≡ base + length es
unfolding final_index
final_index_lem base [] c = omega arith
final_index_lem base (e ∷ es) c = rw c.0 (omega (arith, final_index_lem (suc base) es c.2))
