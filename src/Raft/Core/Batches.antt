-- ===== src/Raft/Core/Batches.antt =====
-- The life of a batch in internal/raft/core.go: Ready hands it out, and Advance takes its token. In between
-- only CompleteSnapshotAction is served, for the batch's own action.
use crane.Base.{
  ℕ, ◌+◌, ◌<◌, ◌∙◌, ◌≡◌, refl, inl, inr, ◌≢◌, true, false, ◌==◌, ◌||◌, not, none, some, List, ok,
  err, arith, max_u64, Bool-cases,
}
use crane.Raft.Types.{EntryKind, ready_outstanding, advance_token}
use crane.Raft.Messages.{Rpc, InstallSnapshotResponse}
use crane.Raft.Ready.{Ready, Snapshot, SnapshotMetadata, SnapshotActionResult}
use crane.Raft.Core.State.{Core}
use crane.Raft.Core.Proposals.{propose_tracked, fail}
use crane.Raft.Core.Snapshots.{compact_snapshot, start_snapshot_transfer}
use crane.Raft.Core.Install.{complete_snapshot_action}
use crane.Raft.Core.Completion.{complete_snapshot_action-Completes}
use crane.Raft.Core.Step.{tick, step, ready, advance}

-- Every entry point but Ready and the batch's own two calls refuses, with nothing done.
pub record Frozen (c : Core) : Type 0 where
  pub no_tick : (offset now : ℕ) → tick offset now c ≡ (c, some ready_outstanding)
  pub no_step :
      (offset sender_id : ℕ) (rpc : Rpc) → step offset sender_id rpc c ≡ (c, some ready_outstanding)
  pub no_proposal :
      (kind : EntryKind) (command : List ℕ)
      → propose_tracked kind command c ≡ (c, err ready_outstanding)
  pub no_compaction : (m : SnapshotMetadata) → compact_snapshot m c ≡ (c, some ready_outstanding)
  pub no_transfer :
      (peer_id transfer_id chunk_limit : ℕ) (snapshot : Snapshot)
      → start_snapshot_transfer peer_id snapshot transfer_id chunk_limit c
        ≡ (c, some ready_outstanding)
  pub no_other_advance :
      (token : ℕ) → token ≢ c.pending_ready.token → advance token c ≡ (c, some advance_token)
  pub no_other_completion :
      (token : ℕ) (result : SnapshotActionResult)
      → token ≢ c.pending_ready.token
      → complete_snapshot_action token result c ≡ (c, err advance_token)

stray_token :
    (token : ℕ) (c : Core)
    → token ≢ c.pending_ready.token
    → (not c.has_pending || (token == 0) || not (token == c.pending_ready.token)) ≡ true
stray_token token c other = ground arith

frozen : (c : Core) → c.terminal_err ≡ none → c.has_pending ≡ true → Frozen c
unfolding tick step propose_tracked fail compact_snapshot start_snapshot_transfer advance
    complete_snapshot_action
frozen c t p = record {
  no_tick = λ offset now. simp (t, p, tick) refl;
  no_step = λ offset sender_id rpc. simp (t, p, step) refl;
  no_proposal = λ kind command. simp (t, p, propose_tracked, fail) refl;
  no_compaction = λ m. simp (t, p, compact_snapshot) refl;
  no_transfer = λ peer_id transfer_id limit s. simp (t, p, start_snapshot_transfer) refl;
  no_other_advance = λ token other. simp (t, stray_token token c other, advance) refl;
  no_other_completion = λ token result other.
      let stray = stray_token token c other in simp (t, stray, complete_snapshot_action) refl;
}

-- The batch `r` is out: every entry point but its own completion is closed, and stays closed after a
-- completion, which leaves the batch as it is and, once it has answered, is closed as well.
pub record Out (r : Ready) (c : Core) : Type 0 where
  pub read_again : ready c ≡ (c, some r)
  pub closed : Frozen c
  pub still_closed :
      (token : ℕ) (result : SnapshotActionResult)
      → Frozen (complete_snapshot_action token result c).0
  pub same_batch :
      (token : ℕ) (result : SnapshotActionResult)
      → (complete_snapshot_action token result c).0.pending_ready ≡ r
  pub answered_once :
      (token : ℕ) (result : SnapshotActionResult) (m : InstallSnapshotResponse)
      → (complete_snapshot_action token result c).1 ≡ ok m
      → (other : ℕ) (again : SnapshotActionResult)
      → complete_snapshot_action other again (complete_snapshot_action token result c).0
        ≡ ((complete_snapshot_action token result c).0, err advance_token)

completed :
    (token : ℕ) (result : SnapshotActionResult) (c : Core)
    → c.terminal_err ≡ none
    → c.snapshot_action_done ≡ true
    → complete_snapshot_action token result c ≡ (c, err advance_token)
unfolding complete_snapshot_action
completed token result c t d =
    let taken : (not c.has_pending
          || (token == 0)
          || not (token == c.pending_ready.token)
          || c.snapshot_action_done)
        ≡ true =
      ground arith in
    simp (t, taken, complete_snapshot_action) refl

-- What Ready leaves and returns.
abbrev Handed : Core → Type 0
Handed c = (r : Ready) × ((ready c).1 ≡ some r) × (0 < r.token) × Out r (ready c).0

reads_again :
    (c : Core)
    → c.has_pending ≡ true
    → 0 < c.pending_ready.token
    → ready c ≡ (c, some c.pending_ready)
unfolding ready
reads_again c p z =
    let stamped : (c.pending_ready.token == 0) ≡ false = ground arith in
    simp (p, stamped, ready) refl

handed :
    (c d : Core)
    → ready c ≡ (d, some d.pending_ready)
    → d.terminal_err ≡ none
    → d.has_pending ≡ true
    → 0 < d.pending_ready.token
    → Handed c
handed c d q t p z = simp (q) (
  d.pending_ready,
  refl,
  z,
  record {
    read_again = reads_again d p z;
    closed = frozen d t p;
    still_closed = λ token result.
        let k = complete_snapshot_action-Completes token result d in
        frozen (complete_snapshot_action token result d).0 (k.same_error ∙ t) (k.same_pending ∙ p);
    same_batch = λ token result. (complete_snapshot_action-Completes token result d).same_ready;
    answered_once = λ token result m h other again.
        let k = complete_snapshot_action-Completes token result d in
        completed other again (complete_snapshot_action token result d).0 (k.same_error ∙ t)
          (k.done m h);
  },
)

-- Where a core has a batch and is not stopped, and the tokens are not used up, Ready hands out the batch,
-- with a token that is not 0, and again the same batch when called again. Then Tick, Step, a proposal, a
-- compaction and a new transfer fail with ErrReadyOutstanding, and Advance and CompleteSnapshotAction
-- with any other token with ErrAdvanceToken, all with the core as it is. CompleteSnapshotAction, whatever
-- it is given, leaves the batch in place and all those calls closed; once it has answered, it fails
-- with ErrAdvanceToken and changes nothing.
pub ready_freezes :
    (c : Core)
    → c.terminal_err ≡ none
    → c.has_pending ≡ true
    → c.next_token < max_u64
    → (r : Ready) × ((ready c).1 ≡ some r) × (0 < r.token) × Out r (ready c).0
unfolding ready
ready_freezes c t p n = elim (Bool-cases (c.pending_ready.token == 0)) [
  | inr z ↦ handed c c (reads_again c p (ground arith)) t p (ground arith)
  | inl z ↦
      let room : (c.next_token == max_u64) ≡ false = ground arith in
      let d : Core = record c {
        next_token = c.next_token + 1;
        pending_ready = record (c.pending_ready) { token = c.next_token + 1 };
      } in
      handed c d (simp (p, z, room, ready) refl) t p (omega arith)
]
