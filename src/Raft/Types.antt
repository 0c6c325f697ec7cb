-- ===== src/Raft/Types.antt =====
-- internal/raft/types.go and errors.go: log entries, durable state, and the error classes.
use crane.Base.{
  ℕ, ◌≡◌, refl, Bool, true, false, ◌&&◌, ◌||◌, Option, none, some, List, [], ◌∷◌, arith, ◌==◌,
  if◌then◌else◌, Result, ok, err,
}

-- The classes that `errors.Is` tells apart. `out_of_range` is Go's panic on an index past the end
-- of a slice.
pub data Error : Type 0 where
  invalid_voter_set not_voter : Error
  invalid_storage_identity invalid_storage_state storage_identity_mismatch : Error
  store_closed storage_corrupt storage_locked : Error
  invalid_entry malformed_rpc unsupported_schema rpc_too_large invalid_rpc unknown_rpc : Error
  voter_fingerprint application_fingerprint : Error
  log_compacted log_unavailable log_gap log_mismatch committed_conflict : Error
  log_regression log_overflow log_invariant : Error
  invalid_core_state ready_outstanding advance_token ready_token_exhausted : Error
  deadline_overflow tick_regression term_overflow replication_generation_overflow : Error
  not_leader leadership_not_authorized proposal_failed proposal_identity_overflow : Error
  unsupported_core_rpc not_running stopped overloaded : Error
  leadership_resync_required invalid_leadership_capacity leadership_sequence_overflow : Error
  snapshot_unavailable invalid_snapshot snapshot_rejected transfer_id_exhausted : Error
  transport_invariant transport_stopped transport_protocol request_id_exhausted : Error
  out_of_range : Error

-- A uint8 in the source, which a peer may set to anything.
pub data EntryKind : Type 0 where
  entry_command entry_no_op : EntryKind
  entry_unknown : ℕ → EntryKind

-- `command` holds the opaque bytes.
pub record Entry : Type 0 where
  pub index : ℕ
  pub term : ℕ
  pub kind : EntryKind
  pub command : List ℕ

pub record HardState : Type 0 where
  pub term : ℕ
  pub voted_for : ℕ
  pub commit_index : ℕ

unfoldable pub is_empty {ℓ} : {A : Type ℓ} → List A → Bool
is_empty [] = true
is_empty (x ∷ xs) = false

-- The two kinds that an entry may have, and a no-op's empty command.
pub check_kind : EntryKind → List ℕ → Option Error
unfolding is_empty
check_kind entry_command bytes = none
check_kind entry_no_op bytes = if is_empty bytes then none else some invalid_entry
check_kind (entry_unknown n) bytes = some invalid_entry

-- `validateLogEntry`: none where the entry is canonical.
unfoldable pub validate_log_entry : Entry → Option Error
unfolding check_kind
validate_log_entry e =
    if e.index == 0 || e.term == 0 then some invalid_entry else check_kind e.kind e.command

-- `NewEntry`.
unfoldable pub new_entry : ℕ → ℕ → EntryKind → List ℕ → Result Error Entry
unfolding check_kind
new_entry index term kind bytes =
    if index == 0 || term == 0 then err invalid_entry else elim (check_kind kind bytes) [
      | some e ↦ err e
      | none ↦ ok (record { index = index; term = term; kind = kind; command = bytes })
    ]

unfoldable pub bytes_equal : List ℕ → List ℕ → Bool
bytes_equal [] [] = true
bytes_equal [] (y ∷ ys) = false
bytes_equal (x ∷ xs) [] = false
bytes_equal (x ∷ xs) (y ∷ ys) = (x == y) && bytes_equal xs ys

same_kind : EntryKind → EntryKind → Bool
same_kind entry_command entry_command = true
same_kind entry_no_op entry_no_op = true
same_kind (entry_unknown m) (entry_unknown n) = m == n
same_kind _ _ = false

-- `sameEntry`.
unfoldable pub same_entry : Entry → Entry → Bool
unfolding same_kind bytes_equal
same_entry a b =
    (a.index == b.index)
    && (a.term == b.term)
    && same_kind a.kind b.kind
    && bytes_equal a.command b.command

-- A canonical entry: what `validateLogEntry` and `NewEntry` accept.
pub record IsCanonical (e : Entry) : Type 0 where
  pub index_pos : e.index ≡ 0 → ⊥
  pub term_pos : e.term ≡ 0 → ⊥
  pub kind_known : check_kind e.kind e.command ≡ none

pub validate_log_entry-IsCanonical : (e : Entry) → validate_log_entry e ≡ none → IsCanonical e
unfolding validate_log_entry
validate_log_entry-IsCanonical e h = record {
  index_pos = ground arith;
  term_pos = ground arith;
  kind_known = ground arith;
}

pub IsCanonical-validate_log_entry : (e : Entry) → IsCanonical e → validate_log_entry e ≡ none
unfolding validate_log_entry
IsCanonical-validate_log_entry e c = ground (arith, c.index_pos, c.term_pos, c.kind_known)

bytes_equal-≡ : (xs ys : List ℕ) → bytes_equal xs ys ≡ true → xs ≡ ys
unfolding bytes_equal
bytes_equal-≡ [] [] h = refl
bytes_equal-≡ [] (y ∷ ys) h = cc
bytes_equal-≡ (x ∷ xs) [] h = cc
bytes_equal-≡ (x ∷ xs) (y ∷ ys) h = ground (arith, bytes_equal-≡ xs ys)

bytes_equal_refl : (xs : List ℕ) → bytes_equal xs xs ≡ true
unfolding bytes_equal
bytes_equal_refl [] = refl
bytes_equal_refl (x ∷ xs) = ground (arith, bytes_equal_refl xs)

same_kind-≡ : (k j : EntryKind) → same_kind k j ≡ true → k ≡ j
unfolding same_kind
same_kind-≡ k j h = ground arith

-- `same_entry` decides equality of entries.
pub same_entry-≡ : (a b : Entry) → same_entry a b ≡ true → a ≡ b
unfolding same_entry
same_entry-≡ a b h = ground (arith, same_kind-≡ a.kind b.kind, bytes_equal-≡ a.command b.command)
