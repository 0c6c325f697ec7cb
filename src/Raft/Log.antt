-- ===== src/Raft/Log.antt =====
-- internal/raft/log.go: one compacted base and a contiguous retained suffix. A method that changes
-- the log returns the new one; where it returns an error the source has changed nothing.
pub mod Valid
pub mod Lookup
pub mod Repair
pub mod Append
pub mod Splice
pub mod Safety
pub mod Idempotence
pub mod Recovery
pub mod Compaction
pub mod Restore
use crane.Base.{
  ℕ, zero, suc, ◌+◌, ◌-◌, Bool, true, false, ◌&&◌, ◌||◌, not, same, Option, none, some, List, [],
  ◌∷◌, ◌++◌, ◌==◌, ltb, leb, if◌then◌else◌, max_u64, length, get_elem?, take, drop, Result, ok, err,
  ◌>>=◌,
}
use crane.Raft.Types.{
  Entry, Error, validate_log_entry, is_empty, log_compacted, log_unavailable, log_gap, log_mismatch,
  committed_conflict, log_regression, log_overflow, log_invariant, out_of_range,
}

pub record ConflictHint : Type 0 where
  pub term : ℕ
  pub index : ℕ

pub record LogState : Type 0 where
  pub snapshot_index : ℕ
  pub snapshot_term : ℕ
  pub commit_index : ℕ
  pub applied_index : ℕ
  pub entries : List Entry

pub record Log : Type 0 where
  pub snapshot_index : ℕ
  pub snapshot_term : ℕ
  pub commit_index : ℕ
  pub applied_index : ℕ
  pub last_index : ℕ
  pub entries : List Entry

abbrev pub no_hint : ConflictHint
no_hint = record { term = 0; index = 0 }

unfoldable pub checked_next_index : ℕ → Option ℕ
checked_next_index index = if index == max_u64 then none else some (index + 1)

unfoldable pub max_log_index : ℕ → ℕ → ℕ
max_log_index a b = if ltb b a then a else b

-- The loop that `NewLog` and `Append` make over a batch: each entry follows the one before it.
-- Yields the index of the last.
unfoldable pub check_entries : ℕ → List Entry → Result Error ℕ
check_entries next [] = ok next
check_entries next (e ∷ es) = elim (checked_next_index next) [
  | none ↦ err log_overflow
  | some n ↦ elim (e.index == n) [
    | false ↦ err log_gap
    | true ↦ elim (validate_log_entry e) [ some x ↦ err x | none ↦ check_entries n es ]
  ]
]

unfoldable pub new_log : ℕ → ℕ → ℕ → ℕ → List Entry → Result Error Log
new_log snapshot_index snapshot_term commit_index applied_index entries =
    if not (same (snapshot_index == 0) (snapshot_term == 0))
    then err log_invariant
    else if ltb applied_index snapshot_index
    then err log_invariant
    else if ltb commit_index applied_index
    then err log_invariant
    else elim (check_entries snapshot_index entries) [
      | err e ↦ err e
      | ok last ↦
          if ltb last commit_index
          then err log_invariant
          else ok (record {
            snapshot_index = snapshot_index;
            snapshot_term = snapshot_term;
            commit_index = commit_index;
            applied_index = applied_index;
            last_index = last;
            entries = entries;
          })
    ]

unfoldable pub state : Log → LogState
state l = record {
  snapshot_index = l.snapshot_index;
  snapshot_term = l.snapshot_term;
  commit_index = l.commit_index;
  applied_index = l.applied_index;
  entries = l.entries;
}

final_term : ℕ → List Entry → ℕ
final_term base [] = base
final_term base (e ∷ es) = final_term e.term es

-- `LastTerm`.
unfoldable pub last_term : Log → ℕ
unfolding final_term
last_term l = final_term l.snapshot_term l.entries

unfoldable pub retained_offset : Log → ℕ → Result Error ℕ
retained_offset l index =
    if leb index l.snapshot_index
    then err log_compacted
    else if ltb l.last_index index
    then err log_unavailable
    else if leb (length l.entries) (index - l.snapshot_index - 1)
    then err log_invariant
    else ok (index - l.snapshot_index - 1)

-- `entries[offset]`.
unfoldable pub at : List Entry → ℕ → Result Error Entry
at es offset = elim (get_elem? es offset) [ none ↦ err out_of_range | some e ↦ ok e ]

unfoldable pub term : Log → ℕ → Result Error ℕ
unfolding retained_offset at
term l index =
    if ltb index l.snapshot_index
    then err log_compacted
    else if index == l.snapshot_index
    then ok l.snapshot_term
    else do offset ← retained_offset l index; e ← at l.entries offset; ok e.term

unfoldable pub entry : Log → ℕ → Result Error Entry
unfolding retained_offset at
entry l index =
    if leb index l.snapshot_index
    then err log_compacted
    else do offset ← retained_offset l index; at l.entries offset

-- The loop of `LastIndexOfTerm`, over the first `count` entries from the end.
scan_back : List Entry → ℕ → ℕ → Option ℕ
scan_back es t zero = none
scan_back es t (suc count) =
    let rest = scan_back es t count in
    elim (get_elem? es count) [ none ↦ none | some e ↦ if e.term == t then some e.index else rest ]

unfoldable pub last_index_of_term : Log → ℕ → Option ℕ
unfolding scan_back
last_index_of_term l t = elim (scan_back l.entries t (length l.entries)) [
  | some index ↦ some index
  | none ↦
      if not (l.snapshot_index == 0) && (l.snapshot_term == t) then some l.snapshot_index else none
]

-- The loop of `firstIndexOfTerm`: the offset at which the run of `t` that reaches `offset` starts.
run_start : List Entry → ℕ → ℕ → ℕ
run_start es t zero = zero
run_start es t (suc offset) =
    let rest = run_start es t offset in
    elim (get_elem? es offset) [
      | none ↦ suc offset
      | some e ↦ if e.term == t then rest else suc offset
    ]

unfoldable pub first_index_of_term : Log → ℕ → ℕ → Result Error ℕ
unfolding retained_offset at run_start
first_index_of_term l index t = if index == l.snapshot_index then ok l.snapshot_index else do
  offset ← retained_offset l index
  let first = run_start l.entries t offset
  if (first == 0) && (l.snapshot_term == t)
      then ok l.snapshot_index
      else (at l.entries first >>= λ e. ok e.index)

pub data AppendResult : Type 0 where
  appended : Log → AppendResult
  refused : ConflictHint → Error → AppendResult

-- `owned[len(owned)-1].Index`.
unfoldable pub final_index : ℕ → List Entry → ℕ
final_index base [] = base
final_index base (e ∷ es) = final_index e.index es

-- The log whose entries from `offset` on are replaced by `es`.
unfoldable pub graft : Log → ℕ → Entry → List Entry → Log
unfolding final_index
graft l offset e es = record l {
  entries = take offset l.entries ++ (e ∷ es);
  last_index = final_index e.index es;
}

-- `Append`'s second loop, over `owned[i:]`: entries that agree are kept, and the first that is new
-- or that differs is written with all that follow.
unfoldable pub repair : Log → List Entry → AppendResult
unfolding graft retained_offset at
repair l [] = appended l
repair l (e ∷ es) =
    let rest = repair l es in
    if ltb l.last_index e.index
    then appended
        (record l { entries = l.entries ++ (e ∷ es); last_index = final_index e.index es })
    else elim (retained_offset l e.index) [
      | err x ↦ refused no_hint x
      | ok offset ↦ elim (at l.entries offset) [
        | err x ↦ refused no_hint x
        | ok mine ↦
            if mine.term == e.term
            then rest
            else if leb e.index l.commit_index
            then refused no_hint committed_conflict
            else appended (graft l offset e es)
      ]
    ]

-- The answer where the previous position has no term.
position_refused : Log → Error → AppendResult
unfolding checked_next_index
position_refused l log_unavailable = elim (checked_next_index l.last_index) [
  | none ↦ refused no_hint log_overflow
  | some next ↦ refused (record { term = 0; index = next }) log_unavailable
]
position_refused l log_compacted =
    refused (record { term = l.snapshot_term; index = l.snapshot_index }) log_compacted
position_refused l e = refused no_hint e

-- The answer where the previous position has another term.
term_refused : Log → ℕ → ℕ → AppendResult
unfolding first_index_of_term
term_refused l prev_index local_term = elim (first_index_of_term l prev_index local_term) [
  | err e ↦ refused no_hint e
  | ok first ↦ refused (record { term = local_term; index = first }) log_mismatch
]

unfoldable pub append : Log → ℕ → ℕ → List Entry → AppendResult
unfolding term check_entries repair position_refused term_refused
append l prev_index prev_term entries = elim (term l prev_index) [
  | err e ↦ position_refused l e
  | ok local_term ↦
      if not (local_term == prev_term)
      then term_refused l prev_index local_term
      else if is_empty entries
      then appended l
      else elim (check_entries prev_index entries) [
        | err e ↦ refused no_hint e
        | ok last ↦ repair l entries
      ]
]

unfoldable pub advance_commit : Log → ℕ → Result Error Log
advance_commit l index =
    if ltb index l.commit_index
    then err log_regression
    else if ltb l.last_index index
    then err log_unavailable
    else ok (record l { commit_index = index })

unfoldable pub advance_applied : Log → ℕ → Result Error Log
advance_applied l index =
    if ltb index l.applied_index
    then err log_regression
    else if ltb l.commit_index index
    then err log_invariant
    else ok (record l { applied_index = index })

unfoldable pub compact : Log → ℕ → ℕ → Result Error Log
unfolding term retained_offset
compact l index t =
    if ltb index l.snapshot_index
    then err log_compacted
    else if index == l.snapshot_index
    then (if t == l.snapshot_term then ok l else err log_mismatch)
    else if ltb l.last_index index
    then err log_unavailable
    else if ltb l.applied_index index
    then err log_invariant
    else do
      local_term ← term l index
      if not (local_term == t)
          then err log_mismatch
          else (retained_offset l index >>= λ offset. ok (record l {
            entries = drop (offset + 1) l.entries;
            snapshot_index = index;
            snapshot_term = t;
          }))

-- What `RestoreSnapshot` keeps: whether the suffix matches, the entries kept, and the last index.
pub record Retained : Type 0 where
  pub matching_suffix : Bool
  pub entries : List Entry
  pub last : ℕ

retained_suffix : Log → ℕ → ℕ → Result Error Retained
unfolding term retained_offset
retained_suffix l index t =
    if ltb l.last_index index
    then ok (record { matching_suffix = false; entries = []; last = index })
    else do
      local_term ← term l index
      if local_term == t
          then (retained_offset l index >>= λ offset. ok (record {
            matching_suffix = true;
            entries = drop (offset + 1) l.entries;
            last = l.last_index;
          }))
          else if leb index l.commit_index
          then err committed_conflict
          else ok (record { matching_suffix = false; entries = []; last = index })

-- The final guard of `RestoreSnapshot`, and the state that it writes.
install_base : Log → ℕ → ℕ → Retained → Result Error Log
unfolding max_log_index
install_base l index t kept =
    let new_commit = max_log_index l.commit_index index in
    let new_applied = max_log_index l.applied_index index in
    if ltb new_applied index || ltb new_commit new_applied || ltb kept.last new_commit
    then (if not kept.matching_suffix && ltb index l.commit_index
        then err committed_conflict
        else err log_invariant)
    else ok (record {
      snapshot_index = index;
      snapshot_term = t;
      applied_index = new_applied;
      commit_index = new_commit;
      last_index = kept.last;
      entries = kept.entries;
    })

unfoldable pub restore_snapshot : Log → ℕ → ℕ → Result Error Log
unfolding retained_suffix install_base
restore_snapshot l index t =
    if ltb index l.snapshot_index
    then ok l
    else if index == l.snapshot_index
    then (if t == l.snapshot_term then ok l else err log_mismatch)
    else if t == 0
    then err log_invariant
    else do kept ← retained_suffix l index t; install_base l index t kept
