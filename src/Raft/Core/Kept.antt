-- ===== src/Raft/Core/Kept.antt =====
-- The methods of internal/raft/core.go that neither tick nor receive: they keep the term and the vote, and
-- leave a sound core sound.
use crane.Base.{
  ℕ, suc, ◌≤◌, ◌≡◌, refl, sym, ap, subst, ◌∙◌, inl, inr, true, ◌==◌, ◌&&◌, ◌||◌, not, Option, none,
  List, [], ◌∷◌, ok, arith, Bool-cases, Option-cases, Result-cases, max_u64,
}
use crane.Base.Maps.{lookup}
use crane.Raft.Types.{Entry, EntryKind, HardState, new_entry}
use crane.Raft.Log.{
  Log, append, appended, last_term, checked_next_index, compact, new_log, final_index, LogState,
  state,
}
use crane.Raft.Log.Append.{AppendResult-cases}
use crane.Raft.Log.Valid.{IsValid}
use crane.Raft.Log.Safety.{append-IsValid, append_keeps_committed}
use crane.Raft.Log.Compaction.{compact_lem}
use crane.Raft.Log.Recovery.{advance_applied_total, new_log-IsValid}
use crane.Raft.Messages.{InstallSnapshotRequest}
use crane.Raft.Ready.{
  Snapshot, SnapshotAction, SnapshotActionKind, SnapshotMetadata, SnapshotActionResult,
  RecoveredState, Progress, abort, stage,
}
use crane.Raft.Core.State.{Core, IncomingSnapshot, is_leader}
use crane.Raft.Core.Queue.{queue_entries}
use crane.Raft.Core.Replication.{put_progress, issue_append}
use crane.Raft.Core.Proposals.{fail, enter_proposal, spread, propose_at, propose_tracked}
use crane.Raft.Core.Snapshots.{
  compact_snapshot, start_snapshot_transfer, put_outgoing, open_transfer,
}
use crane.Raft.Core.Install.{
  installed_matches, same_transfer, snapshot_transfer_metadata_for, finish_action, install_state,
  complete_stage, complete_live, complete_kind, complete_only, complete_snapshot_action,
}
use crane.Raft.Core.Step.{ready, apply_committed, has_action, advance}
use crane.Raft.Core.Frame.{
  Steady, Steady-refl, Steady-trans, issue_append-Steady, issue_snapshot_chunk-Steady,
  each_peer-Steady,
}
use crane.Raft.Core.Ballot.{Sound, Steady-Evolves}

pub record Kept (c d : Core) : Type 0 where
  pub same_term : d.hard_state.term ≡ c.hard_state.term
  pub same_vote : d.hard_state.voted_for ≡ c.hard_state.voted_for
  pub sound : Sound c → Sound d

Steady-Kept : {c d : Core} → Steady c d → Kept c d
Steady-Kept s = record {
  same_term = ap (λ (h : HardState). h.term) s.same_hard_state;
  same_vote = ap (λ (h : HardState). h.voted_for) s.same_hard_state;
  sound = λ x. ((Steady-Evolves s).growth x).sound;
}

Kept-refl : (c : Core) → Kept c c
Kept-refl c = Steady-Kept (Steady-refl c)

Kept-trans : {c d e : Core} → Kept c d → Kept d e → Kept c e
Kept-trans k l = record {
  same_term = l.same_term ∙ k.same_term;
  same_vote = l.same_vote ∙ k.same_vote;
  sound = λ x. l.sound (k.sound x);
}

-- The log is a valid one with the hard state's commit index, and the term and the vote stay.
relogged-Kept :
    (c d : Core)
    → d.hard_state ≡ c.hard_state
    → (IsValid c.log → IsValid d.log × (d.log.commit_index ≡ c.log.commit_index))
    → Kept c d
relogged-Kept c d h v = record {
  same_term = ap (λ (k : HardState). k.term) h;
  same_vote = ap (λ (k : HardState). k.voted_for) h;
  sound = λ x.
      let w = v x.valid in
      record {
        valid = w.0;
        paired = ap (λ (k : HardState). k.commit_index) h ∙ x.paired ∙ sym w.1;
      };
}

same_log-Kept : (c d : Core) → d.hard_state ≡ c.hard_state → d.log ≡ c.log → Kept c d
same_log-Kept c d h q =
    relogged-Kept c d h (λ v. (subst IsValid (sym q) v, ap (λ (l : Log). l.commit_index) q))

spread-Kept : (e : Entry) (c : Core) → Kept c (spread e c).0
unfolding spread
spread-Kept e c =
    ground
      (arith, Steady-Kept (each_peer-Steady issue_append c.voters.voters c issue_append-Steady))

enter_proposal-Kept :
    (l : Log) (e : Entry) (n p t : ℕ) (c : Core)
    → append c.log p t (e ∷ []) ≡ appended l
    → Kept c (enter_proposal l e n c)
unfolding enter_proposal queue_entries put_progress
enter_proposal-Kept l e n p t c h = relogged-Kept c _ refl (λ v. (
  append-IsValid c.log l p t (e ∷ []) v h,
  (append_keeps_committed c.log l p t 0 (e ∷ []) v h (omega arith)).2.same_commit,
))

propose_at-Kept :
    (kind : EntryKind) (command : List ℕ) (n k : ℕ) (c : Core)
    → Kept c (propose_at kind command n k c).0
unfolding propose_at fail
propose_at-Kept kind command n k c =
    elim (Result-cases (new_entry n c.hard_state.term kind command)) [
      | inr (x, q) ↦ rw (q, propose_at) (Kept-refl c)
      | inl (e, q) ↦
          elim (AppendResult-cases (append c.log c.log.last_index (last_term c.log) (e ∷ []))) [
            | inr (hint, x, r) ↦ rw (q, r, propose_at) (Kept-refl c)
            | inl (l, r) ↦
                rw (q, r, propose_at)
                  (Kept-trans (enter_proposal-Kept l e k _ _ c r)
                    (spread-Kept e (enter_proposal l e k c)))
          ]
    ]

pub propose_tracked-Kept :
    (kind : EntryKind) (command : List ℕ) (c : Core) → Kept c (propose_tracked kind command c).0
unfolding propose_tracked fail
propose_tracked-Kept kind command c = elim (Option-cases c.terminal_err) [
  | inr (x, q) ↦ simp (q, propose_tracked, fail) (Kept-refl c)
  | inl q ↦ elim (Option-cases (checked_next_index c.log.last_index)) [
    | inl r ↦ simp (q, r, propose_tracked, fail) (ground arith)
    | inr (n, r) ↦ elim (Option-cases (checked_next_index n)) [
      | inl t ↦ simp (q, r, t, propose_tracked, fail) (ground arith)
      | inr (k, t) ↦
          simp (q, r, t, propose_tracked, fail) (ground (arith, propose_at-Kept kind command n k c))
    ]
  ]
]

pub ready-Kept : (c : Core) → Kept c (ready c).0
unfolding ready
ready-Kept c = same_log-Kept c _ (ground arith) (ground arith)

apply_committed-IsValid :
    (es : List Entry) (l k : Log)
    → IsValid l
    → apply_committed es l ≡ ok k
    → IsValid k × (k.commit_index ≡ l.commit_index)
unfolding apply_committed
apply_committed-IsValid [] l k v h =
    let q : l ≡ k = cc in (subst IsValid q v, ap (λ (j : Log). j.commit_index) (sym q))
apply_committed-IsValid (e ∷ es) l k v h =
    let n : ℕ = final_index e.index es in
    elim (advance_applied_total l n v) [
      | inl (a, b, f, w) ↦
          let q : record l { applied_index = n } ≡ k = cc in
          (subst IsValid q w, ap (λ (j : Log). j.commit_index) (sym q))
      | inr (inl (a, f)) ↦ absurd (cc)
      | inr (inr (a, f)) ↦ absurd (cc)
    ]

pub advance-Kept : (token : ℕ) (c : Core) → Kept c (advance token c).0
unfolding advance
advance-Kept token c = elim (Option-cases c.terminal_err) [
  | inr (x, q) ↦ simp (q, advance) (Kept-refl c)
  | inl q ↦
      elim (Bool-cases
        (not c.has_pending || (token == 0) || not (token == c.pending_ready.token))) [
          | inl stray ↦ simp (q, stray, advance) (Kept-refl c)
          | inr live ↦
              elim (Bool-cases (has_action c.pending_ready && not c.snapshot_action_done)) [
                | inl early ↦ simp (q, live, early, advance) (Kept-refl c)
                | inr done ↦
                    elim (Result-cases (apply_committed c.pending_ready.committed_entries c.log)) [
                      | inr (x, r) ↦ simp (q, live, done, r, advance) (Kept-refl c)
                      | inl (l, r) ↦
                          simp (q, live, done, r, advance)
                            (relogged-Kept c _ refl (λ v. apply_committed-IsValid _ c.log l v r))
                    ]
              ]
        ]
]

compacted-IsValid :
    (m : SnapshotMetadata) (l k : Log)
    → compact l m.last_included_index m.last_included_term ≡ ok k
    → IsValid l
    → IsValid k × (k.commit_index ≡ l.commit_index)
compacted-IsValid m l k h v =
    let i = m.last_included_index in
    let w = compact_lem l k i m.last_included_term (suc i) v h (omega arith) in (w.0, w.5)

pub compact_snapshot-Kept : (m : SnapshotMetadata) (c : Core) → Kept c (compact_snapshot m c).0
unfolding compact_snapshot
compact_snapshot-Kept m c = elim (Option-cases c.terminal_err) [
  | inr (x, q) ↦ simp (q, compact_snapshot) (Kept-refl c)
  | inl q ↦ elim (Bool-cases c.has_pending) [
    | inl p ↦ simp (q, p, compact_snapshot) (Kept-refl c)
    | inr p ↦ elim (Result-cases (compact c.log m.last_included_index m.last_included_term)) [
      | inr (x, r) ↦ simp (q, p, r, compact_snapshot) (Kept-refl c)
      | inl (l, r) ↦
          let kept : IsValid c.log → IsValid l × (l.commit_index ≡ c.log.commit_index) =
            compacted-IsValid m c.log l r in
          elim (Bool-cases (is_leader c.role)) [
            | inl leading ↦ simp (q, p, r, leading, compact_snapshot) (relogged-Kept c _ refl kept)
            | inr following ↦
                simp (q, p, r, following, compact_snapshot) (relogged-Kept c _ refl kept)
          ]
    ]
  ]
]

open_transfer-Steady :
    (id : ℕ) (p : Progress) (s : Snapshot) (t l : ℕ) (c : Core)
    → Steady c (open_transfer id p s t l c)
unfolding open_transfer put_progress put_outgoing
open_transfer-Steady id p s t l c = ground arith

pub start_snapshot_transfer-Kept :
    (id : ℕ) (s : Snapshot) (t l : ℕ) (c : Core) → Kept c (start_snapshot_transfer id s t l c).0
unfolding start_snapshot_transfer
start_snapshot_transfer-Kept id s t l c = elim (Option-cases c.terminal_err) [
  | inr (x, q) ↦ simp (q, start_snapshot_transfer) (Kept-refl c)
  | inl q ↦ elim (Option-cases (lookup id c.progress)) [
    | inl r ↦ simp (q, r, start_snapshot_transfer) (ground arith)
    | inr (p, r) ↦ elim (Option-cases (lookup id c.outgoing_snapshots)) [
      | inr (x, u) ↦ simp (q, r, u, start_snapshot_transfer) (ground arith)
      | inl u ↦
          let d = open_transfer id p s t l c in
          let k =
            Steady-trans (open_transfer-Steady id p s t l c) (issue_snapshot_chunk-Steady id d) in
          simp (q, r, u, start_snapshot_transfer) (ground (arith, Steady-Kept k))
    ]
  ]
]

finish_action-Kept : (i : Option IncomingSnapshot) (c : Core) → Kept c (finish_action i c)
unfolding finish_action
finish_action-Kept i c = same_log-Kept c _ refl refl

installed_ballot :
    (c : Core) (m : InstallSnapshotRequest) (s : RecoveredState)
    → installed_matches c m s ≡ true
    → (s.hard_state.term ≡ c.hard_state.term) × (s.hard_state.voted_for ≡ c.hard_state.voted_for)
unfolding installed_matches
installed_ballot c m s h = ground arith

-- The base that storage reports is in the range of a uint64.
abbrev pub IsReported : SnapshotActionResult → Type 0
IsReported r = r.state.snapshot_base.last_included_index ≤ max_u64

install_state-Kept :
    (m : InstallSnapshotRequest) (r : SnapshotActionResult) (c : Core)
    → IsReported r
    → Kept c (install_state m r c).0
unfolding install_state finish_action state
install_state-Kept m r c f = elim (Bool-cases (installed_matches c m r.state)) [
  | inr other ↦ rw other (Kept-refl c)
  | inl ours ↦
      let b = r.state.snapshot_base in
      elim (Result-cases (
        new_log b.last_included_index b.last_included_term r.state.hard_state.commit_index
          r.state.applied_index r.state.entries)) [
            | inr (x, q) ↦ rw (ours, q, install_state) (Kept-refl c)
            | inl (l, q) ↦
                rw (ours, q, install_state)
                  (let t = installed_ballot c m r.state ours in
                    let v = new_log-IsValid _ _ _ _ _ l f q in
                    record {
                      same_term = t.0;
                      same_vote = t.1;
                      sound = λ x. record {
                        valid = v.0;
                        paired = sym (ap (λ (y : LogState). y.commit_index) v.1);
                      };
                    })
          ]
]

complete_stage-Kept :
    (m : InstallSnapshotRequest) (r : SnapshotActionResult) (i : IncomingSnapshot) (c : Core)
    → IsReported r
    → Kept c (complete_stage m r i c).0
unfolding complete_stage finish_action
complete_stage-Kept m r i c f = ground (arith, install_state-Kept m r c f, Kept-refl c)

complete_live-Kept :
    (m : InstallSnapshotRequest) (r : SnapshotActionResult) (c : Core)
    → IsReported r
    → Kept c (complete_live m r c).0
unfolding complete_live
complete_live-Kept m r c f = elim (Option-cases c.incoming_snapshot) [
  | inl q ↦ simp (q, complete_live) (Kept-refl c)
  | inr (i, q) ↦ elim (Bool-cases (same_transfer i.metadata (snapshot_transfer_metadata_for m))) [
    | inr other ↦ simp (q, other, complete_live) (Kept-refl c)
    | inl ours ↦ elim (Bool-cases r.rejected) [
      | inl spurned ↦ simp (q, ours, spurned, complete_live) (finish_action-Kept none c)
      | inr taken ↦ simp (q, ours, taken, complete_live) (complete_stage-Kept m r i c f)
    ]
  ]
]

complete_kind-Kept :
    (k : SnapshotActionKind) (m : InstallSnapshotRequest) (r : SnapshotActionResult) (c : Core)
    → IsReported r
    → Kept c (complete_kind k m r c).0
unfolding complete_kind
complete_kind-Kept abort m r c f = finish_action-Kept none c
complete_kind-Kept stage m r c f = complete_live-Kept m r c f

complete_only-Kept :
    (actions : List SnapshotAction) (r : SnapshotActionResult) (c : Core)
    → IsReported r
    → Kept c (complete_only actions r c).0
unfolding complete_only
complete_only-Kept [] r c f = Kept-refl c
complete_only-Kept (a ∷ b ∷ more) r c f = Kept-refl c
complete_only-Kept (a ∷ []) r c f = complete_kind-Kept a.kind a.request r c f

pub complete_snapshot_action-Kept :
    (token : ℕ) (r : SnapshotActionResult) (c : Core)
    → IsReported r
    → Kept c (complete_snapshot_action token r c).0
unfolding complete_snapshot_action
complete_snapshot_action-Kept token r c f =
    ground (arith, complete_only-Kept c.pending_ready.snapshot_actions r c f, Kept-refl c)
