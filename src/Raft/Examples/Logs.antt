-- ===== src/Raft/Examples/Logs.antt =====
-- A log of internal/raft/log.go based at index 2 of term 1, with entries 3 to 5 of which 3 and 4 are
-- committed, and the theorems on Log applied to it.
use crane.Base.{ℕ, ◌≡◌, ◌≤◌, refl, ◌⊎◌, List, [], ◌∷◌, ok, arith}
use crane.Raft.Types.{
  Entry, entry_command, entry_no_op, validate_log_entry, same_entry, bytes_equal, is_empty,
}
use crane.Raft.Log.{
  Log, state, new_log, append, appended, repair, entry, term, compact, restore_snapshot,
  check_entries, checked_next_index, max_log_index, graft,
}
use crane.Raft.Log.Valid.{IsValid}
use crane.Raft.Log.Lookup.{TermAnswer, term_total}
use crane.Raft.Log.Splice.{SameBase}
use crane.Raft.Log.Safety.{append-IsValid, append_keeps_committed, append_stores}
use crane.Raft.Log.Idempotence.{append_idempotent}
use crane.Raft.Log.Recovery.{new_log-IsValid, new_log-state}
use crane.Raft.Log.Compaction.{compact_lem}
use crane.Raft.Log.Restore.{Raised, restore_snapshot-IsValid, restore_snapshot_keeps_committed}

abbrev pub no_op : ℕ → ℕ → Entry
no_op i t = record { index = i; term = t; kind = entry_no_op; command = [] }

abbrev pub command : ℕ → ℕ → ℕ → Entry
command i t b = record { index = i; term = t; kind = entry_command; command = b ∷ [] }

abbrev three : List Entry
three = no_op 3 2 ∷ command 4 2 7 ∷ command 5 2 9 ∷ []

abbrev pub held : Log
held = record {
  snapshot_index = 2;
  snapshot_term = 1;
  commit_index = 4;
  applied_index = 3;
  last_index = 5;
  entries = three;
}

-- A request of term 3 that replaces entry 5.
abbrev batch : List Entry
batch = command 4 2 7 ∷ no_op 5 3 ∷ command 6 3 8 ∷ []

abbrev after : Log
after = record held {
  last_index = 6;
  entries = no_op 3 2 ∷ command 4 2 7 ∷ no_op 5 3 ∷ command 6 3 8 ∷ [];
}

held_loads : new_log 2 1 4 3 three ≡ ok held
unfolding new_log check_entries checked_next_index validate_log_entry is_empty
held_loads = refl

pub held-IsValid : IsValid held
held-IsValid = (new_log-IsValid 2 1 4 3 three held (omega arith) held_loads).0

append-held : append held 3 2 batch ≡ appended after
unfolding append repair graft term same_entry bytes_equal check_entries checked_next_index
    max_log_index validate_log_entry is_empty
append-held = refl

append-IsValid_example : IsValid after
append-IsValid_example = append-IsValid held after 3 2 batch held-IsValid append-held

append_keeps_committed_example :
    (entry after 4 ≡ entry held 4) × (term after 4 ≡ term held 4) × SameBase held after
append_keeps_committed_example =
    append_keeps_committed held after 3 2 4 batch held-IsValid append-held (omega arith)

append_stores_example :
    ((no_op 5 3).index ≡ 5)
    × ((entry after 5 ≡ ok (no_op 5 3)) ⊎ ((entry after 5 ≡ entry held 5) × (term held 5 ≡ ok 3)))
append_stores_example =
    append_stores held after 3 2 1 batch (no_op 5 3) held-IsValid append-held refl

append_idempotent_example : append after 3 2 batch ≡ appended after
append_idempotent_example = append_idempotent held after 3 2 batch held-IsValid append-held

new_log-IsValid_example :
    IsValid held
    × (state held ≡ record {
      snapshot_index = 2;
      snapshot_term = 1;
      commit_index = 4;
      applied_index = 3;
      entries = three;
    })
new_log-IsValid_example = new_log-IsValid 2 1 4 3 three held (omega arith) held_loads

new_log-state_example :
    let s = state held in
    new_log s.snapshot_index s.snapshot_term s.commit_index s.applied_index s.entries ≡ ok held
new_log-state_example = new_log-state held held-IsValid

term_total_example : TermAnswer held 4 (term held 4)
term_total_example = term_total held 4 held-IsValid

abbrev compacted : Log
compacted = record held {
  snapshot_index = 3;
  snapshot_term = 2;
  entries = command 4 2 7 ∷ command 5 2 9 ∷ [];
}

compact-held : compact held 3 2 ≡ ok compacted
unfolding compact
compact-held = refl

compact_example :
    IsValid compacted
    × (compacted.snapshot_index ≡ 3)
    × (compacted.snapshot_term ≡ 2)
    × (term held 3 ≡ ok 2)
    × (3 ≤ 3)
    × (compacted.commit_index ≡ 4)
    × (compacted.applied_index ≡ 3)
    × (compacted.last_index ≡ 5)
    × (entry compacted 5 ≡ entry held 5)
compact_example = compact_lem held compacted 3 2 5 held-IsValid compact-held (omega arith)

abbrev restored : Log
restored = record compacted { applied_index = 3 }

restore_held : restore_snapshot held 3 2 ≡ ok restored
unfolding restore_snapshot max_log_index
restore_held = refl

restore_snapshot-IsValid_example :
    IsValid restored × (3 ≤ 3) × (2 ≤ 3) × Raised 4 3 4 × Raised 3 3 3
restore_snapshot-IsValid_example =
    restore_snapshot-IsValid held restored 3 2 held-IsValid (omega arith) restore_held

restore_snapshot_keeps_committed_example : entry restored 4 ≡ entry held 4
restore_snapshot_keeps_committed_example =
    restore_snapshot_keeps_committed held restored 3 2 4 held-IsValid restore_held (omega arith)
      (omega arith)
