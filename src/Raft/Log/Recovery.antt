-- ===== src/Raft/Log/Recovery.antt =====
-- NewLog, State, AdvanceCommit and AdvanceApplied (internal/raft/log.go).
use crane.Base.{
  ℕ, ◌≤◌, ◌<◌, ◌≡◌, ◌⊎◌, inl, inr, List, ltb, max_u64, arith, ok, err, Bool-cases, Result-cases,
}
use crane.Raft.Types.{Entry, log_unavailable, log_invariant, log_regression}
use crane.Raft.Log.Valid.{IsValid, check_entries-Contiguous, Contiguous-check_entries}
use crane.Raft.Log.{Log, new_log, state, check_entries, advance_commit, advance_applied}

-- NewLog builds valid logs only, and from exactly the indices and entries that it is given.
pub new_log-IsValid :
    (si st ci ai : ℕ) (es : List Entry) (l : Log)
    → si ≤ max_u64
    → new_log si st ci ai es ≡ ok l
    → IsValid l
      × (state l ≡ record {
        snapshot_index = si;
        snapshot_term = st;
        commit_index = ci;
        applied_index = ai;
        entries = es;
      })
unfolding new_log state
new_log-IsValid si st ci ai es l f h = elim (Result-cases (check_entries si es)) [
  | inr (e, q) ↦ absurd (ground arith)
  | inl (last, q) ↦ let c = check_entries-Contiguous si es f q in ground (arith, c.0, c.1, c.2)
]

-- A copy of a valid log through State and NewLog succeeds, and is the log: recovery and trial
-- appends start from the same log.
pub new_log-state :
    (l : Log)
    → IsValid l
    → let s = state l in
      new_log s.snapshot_index s.snapshot_term s.commit_index s.applied_index s.entries ≡ ok l
unfolding new_log state
new_log-state l v =
    let c =
      Contiguous-check_entries l.snapshot_index l.entries v.contiguous
        (omega (arith, v.last_exact, v.last_fits)) in
    ground (
      arith, c, v.base_paired, v.base_applied, v.applied_committed, v.committed_stored,
      v.last_exact,
    )

-- AdvanceCommit on a valid log moves the commit index to the one asked for, forward and within the
-- log, keeping the log valid and all else as it was; it refuses an index behind the commit index
-- with ErrLogRegression, and one past the last index with ErrLogUnavailable. Nothing else happens.
pub advance_commit_total :
    (l : Log) (i : ℕ)
    → IsValid l
    → ((l.commit_index ≤ i)
        × (i ≤ l.last_index)
        × (advance_commit l i ≡ ok (record l { commit_index = i }))
        × IsValid (record l { commit_index = i }))
      ⊎ ((i < l.commit_index) × (advance_commit l i ≡ err log_regression))
      ⊎ ((l.last_index < i) × (advance_commit l i ≡ err log_unavailable))
unfolding advance_commit
advance_commit_total l i v = elim (Bool-cases (ltb i l.commit_index)) [
  | inl back ↦ inr (inl (ground arith, ground arith))
  | inr on ↦ elim (Bool-cases (ltb l.last_index i)) [
    | inl past ↦ inr (inr (ground arith, ground arith))
    | inr within ↦
        inl (ground arith, ground arith, ground arith, ground (arith, v.contiguous, v.base_paired))
  ]
]

-- AdvanceApplied on a valid log moves the applied index to the one asked for, forward and at most
-- to the commit index, keeping the log valid and all else as it was; it refuses an index behind the
-- applied index with ErrLogRegression, and one past the commit index with ErrLogInvariant.
pub advance_applied_total :
    (l : Log) (i : ℕ)
    → IsValid l
    → ((l.applied_index ≤ i)
        × (i ≤ l.commit_index)
        × (advance_applied l i ≡ ok (record l { applied_index = i }))
        × IsValid (record l { applied_index = i }))
      ⊎ ((i < l.applied_index) × (advance_applied l i ≡ err log_regression))
      ⊎ ((l.commit_index < i) × (advance_applied l i ≡ err log_invariant))
unfolding advance_applied
advance_applied_total l i v = elim (Bool-cases (ltb i l.applied_index)) [
  | inl back ↦ inr (inl (ground arith, ground arith))
  | inr on ↦ elim (Bool-cases (ltb l.commit_index i)) [
    | inl past ↦ inr (inr (ground arith, ground arith))
    | inr within ↦
        inl (ground arith, ground arith, ground arith, ground (arith, v.contiguous, v.base_paired))
  ]
]
