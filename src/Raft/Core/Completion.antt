-- ===== src/Raft/Core/Completion.antt =====
-- CompleteSnapshotAction of internal/raft/core.go between Ready and Advance: what it leaves of the batch.
use crane.Base.{
  ◌==◌, ◌||◌, not, ℕ, ◌≡◌, refl, inl, inr, true, Option, none, List, [], ◌∷◌, ok, err, arith,
  Bool-cases, Option-cases, Result-cases,
}
use crane.Raft.Types.{Error}
use crane.Raft.Log.{new_log}
use crane.Raft.Messages.{InstallSnapshotRequest, InstallSnapshotResponse}
use crane.Raft.Ready.{SnapshotAction, SnapshotActionKind, SnapshotActionResult, stage, abort}
use crane.Raft.Core.State.{Core, IncomingSnapshot}
use crane.Raft.Core.Install.{
  Answer, installed_matches, same_transfer, snapshot_transfer_metadata_for, finish_action,
  install_state, complete_stage, complete_live, complete_kind, complete_only,
  complete_snapshot_action,
}

-- The batch stays the pending one, and an action that is answered is done.
pub record Completes (c : Core) (a : Answer) : Type 0 where
  pub same_ready : a.0.pending_ready ≡ c.pending_ready
  pub same_pending : a.0.has_pending ≡ c.has_pending
  pub same_error : a.0.terminal_err ≡ c.terminal_err
  pub done : (m : InstallSnapshotResponse) → a.1 ≡ ok m → a.0.snapshot_action_done ≡ true

failed : {e : Error} (c : Core) → Completes c (c, err e)
failed c = record {
  same_ready = refl;
  same_pending = refl;
  same_error = refl;
  done = λ m h. absurd (cc);
}

finished :
    (i : Option IncomingSnapshot) (m : InstallSnapshotResponse) (c : Core)
    → Completes c (finish_action i c, ok m)
unfolding finish_action
finished i m c = record {
  same_ready = refl;
  same_pending = refl;
  same_error = refl;
  done = λ m h. refl;
}

install_state-Completes :
    (m : InstallSnapshotRequest) (r : SnapshotActionResult) (c : Core)
    → Completes c (install_state m r c)
unfolding install_state finish_action
install_state-Completes m r c = elim (Bool-cases (installed_matches c m r.state)) [
  | inr foreign ↦ rw (foreign, install_state) (failed c)
  | inl ours ↦
      let s = r.state in
      let built =
        new_log s.snapshot_base.last_included_index s.snapshot_base.last_included_term
          s.hard_state.commit_index s.applied_index s.entries in
      elim (Result-cases built) [
        | inr (x, q) ↦ rw (ours, q, install_state) (failed c)
        | inl (l, q) ↦
            rw (ours, q, install_state)
              (record {
                same_ready = refl;
                same_pending = refl;
                same_error = refl;
                done = λ m h. refl;
              })
      ]
]

complete_stage-Completes :
    (m : InstallSnapshotRequest) (r : SnapshotActionResult) (i : IncomingSnapshot) (c : Core)
    → Completes c (complete_stage m r i c)
unfolding complete_stage finish_action
complete_stage-Completes m r i c = ground (arith, install_state-Completes m r c)

complete_live-Completes :
    (m : InstallSnapshotRequest) (r : SnapshotActionResult) (c : Core)
    → Completes c (complete_live m r c)
unfolding complete_live
complete_live-Completes m r c = elim (Option-cases c.incoming_snapshot) [
  | inl q ↦ simp (q, complete_live) (failed c)
  | inr (i, q) ↦ elim (Bool-cases (same_transfer i.metadata (snapshot_transfer_metadata_for m))) [
    | inr other ↦ simp (q, other, complete_live) (failed c)
    | inl ours ↦ elim (Bool-cases r.rejected) [
      | inl spurned ↦ simp (q, ours, spurned, complete_live) (finished none _ c)
      | inr taken ↦ simp (q, ours, taken, complete_live) (complete_stage-Completes m r i c)
    ]
  ]
]

complete_kind-Completes :
    (k : SnapshotActionKind) (m : InstallSnapshotRequest) (r : SnapshotActionResult) (c : Core)
    → Completes c (complete_kind k m r c)
unfolding complete_kind
complete_kind-Completes abort m r c = finished none _ c
complete_kind-Completes stage m r c = complete_live-Completes m r c

complete_only-Completes :
    (actions : List SnapshotAction) (r : SnapshotActionResult) (c : Core)
    → Completes c (complete_only actions r c)
unfolding complete_only
complete_only-Completes [] r c = failed c
complete_only-Completes (a ∷ b ∷ more) r c = failed c
complete_only-Completes (a ∷ []) r c = complete_kind-Completes a.kind a.request r c

pub complete_snapshot_action-Completes :
    (token : ℕ) (r : SnapshotActionResult) (c : Core)
    → Completes c (complete_snapshot_action token r c)
unfolding complete_snapshot_action
complete_snapshot_action-Completes token r c = elim (Option-cases c.terminal_err) [
  | inr (e, q) ↦ simp (q, complete_snapshot_action) (failed c)
  | inl q ↦
      let stray =
        not c.has_pending
        || (token == 0)
        || not (token == c.pending_ready.token)
        || c.snapshot_action_done in
      elim (Bool-cases stray) [
        | inl refused ↦ simp (q, refused, complete_snapshot_action) (failed c)
        | inr live ↦
            simp (q, live, complete_snapshot_action)
              (complete_only-Completes c.pending_ready.snapshot_actions r c)
      ]
]
