-- ===== src/Raft/Core/Runs.antt =====
-- Runs of one core of internal/raft/core.go: any sequence of calls of its state-changing methods, whatever they
-- are given and whatever they return.
use crane.Base.{
  ℕ, ◌≤◌, ◌<◌, ◌≡◌, refl, sym, ap, subst, ◌∙◌, inl, inr, true, List, ok, arith, Bool-cases,
  Result-cases, max_u64,
}
use crane.Raft.Types.{EntryKind}
use crane.Raft.Log.{Log, LogState, state, new_log}
use crane.Raft.Log.Recovery.{new_log-IsValid}
use crane.Raft.Messages.{Rpc}
use crane.Raft.Ready.{Snapshot, SnapshotMetadata, SnapshotActionResult}
use crane.Raft.Core.State.{Core, sample_deadline}
use crane.Raft.Core.Proposals.{propose_tracked}
use crane.Raft.Core.Snapshots.{compact_snapshot, start_snapshot_transfer}
use crane.Raft.Core.Install.{complete_snapshot_action}
use crane.Raft.Core.Step.{
  CoreOptions, new_core, initial, options_ok, recovered_ok, tick, step, ready, advance,
}
use crane.Raft.Core.Ballot.{Ballot, Ballot-trans, Sound, Evolves}
use crane.Raft.Core.Kept.{
  IsReported, Kept, propose_tracked-Kept, ready-Kept, advance-Kept, compact_snapshot-Kept,
  start_snapshot_transfer-Kept, complete_snapshot_action-Kept,
}
use crane.Raft.Core.Discipline.{step-Evolves, tick-Evolves}

-- One call: `c` before it, the other core after it. What storage reports back is in the range of a uint64.
pub data Call (c : Core) : Core → Type 0 where
  ticked : (offset now : ℕ) → Call c (tick offset now c).0
  stepped : (offset sender_id : ℕ) (rpc : Rpc) → Call c (step offset sender_id rpc c).0
  proposed : (kind : EntryKind) (command : List ℕ) → Call c (propose_tracked kind command c).0
  read : Call c (ready c).0
  advanced : (token : ℕ) → Call c (advance token c).0
  compacted : (metadata : SnapshotMetadata) → Call c (compact_snapshot metadata c).0
  transferred :
      (peer_id transfer_id chunk_limit : ℕ) (snapshot : Snapshot)
      → Call c (start_snapshot_transfer peer_id snapshot transfer_id chunk_limit c).0
  completed :
      (token : ℕ) (result : SnapshotActionResult)
      → IsReported result
      → Call c (complete_snapshot_action token result c).0

pub data Run (c : Core) : Core → Type 0 where
  unmoved : Run c c
  then_call : {d e : Core} → Run c d → Call d e → Run c e

-- What every call keeps of a core.
record Lasting (c d : Core) : Type 0 where
  ballot : Ballot c.hard_state d.hard_state
  sound : Sound c → Sound d

Kept-Lasting : {c d : Core} → Kept c d → Lasting c d
Kept-Lasting k = record { ballot = inr (k.same_term, inl k.same_vote); sound = k.sound }

Evolves-Lasting : {c d : Core} → Evolves c d → Lasting c d
Evolves-Lasting e = record { ballot = e.ballot; sound = λ s. (e.growth s).sound }

call-Lasting : (c d : Core) → Call c d → Lasting c d
call-Lasting c _ (ticked offset now) = Evolves-Lasting (tick-Evolves offset now c)
call-Lasting c _ (stepped offset sender_id rpc) =
    Evolves-Lasting (step-Evolves offset sender_id rpc c)
call-Lasting c _ (proposed kind command) = Kept-Lasting (propose_tracked-Kept kind command c)
call-Lasting c _ read = Kept-Lasting (ready-Kept c)
call-Lasting c _ (advanced token) = Kept-Lasting (advance-Kept token c)
call-Lasting c _ (compacted m) = Kept-Lasting (compact_snapshot-Kept m c)
call-Lasting c _ (transferred p t l s) = Kept-Lasting (start_snapshot_transfer-Kept p s t l c)
call-Lasting c _ (completed token r f) = Kept-Lasting (complete_snapshot_action-Kept token r c f)

Run-Lasting : (c d : Core) → Run c d → Lasting c d
Run-Lasting c _ unmoved = record { ballot = inr (refl, inl refl); sound = λ s. s }
Run-Lasting c e (then_call {d} r k) =
    let before = Run-Lasting c d r in
    let last = call-Lasting d e k in
    record {
      ballot = Ballot-trans c.hard_state d.hard_state e.hard_state before.ballot last.ballot;
      sound = λ s. last.sound (before.sound s);
    }

recovered_commit :
    (o : CoreOptions) → options_ok o ≡ true → o.log.commit_index ≡ o.hard_state.commit_index
unfolding options_ok recovered_ok state
recovered_commit o h = ground arith

initial-Sound :
    (o : CoreOptions) (l : Log)
    → options_ok o ≡ true
    → o.log.snapshot_index ≤ max_u64
    → new_log o.log.snapshot_index o.log.snapshot_term o.log.commit_index o.log.applied_index
        o.log.entries
      ≡ ok l
    → Sound (initial o l)
unfolding initial state
initial-Sound o l g f h =
    let v = new_log-IsValid _ _ _ _ _ l f h in
    record {
      valid = v.0;
      paired = sym (recovered_commit o g) ∙ sym (ap (λ (y : LogState). y.commit_index) v.1);
    }

-- NewCore builds sound cores only, whatever it recovers, from a log whose base is in the range of a
-- uint64: the log is valid, and the hard state holds its commit index.
pub new_core-Sound :
    (offset : ℕ) (o : CoreOptions) (c : Core)
    → o.log.snapshot_index ≤ max_u64
    → new_core offset o ≡ ok c
    → Sound c
unfolding new_core state
new_core-Sound offset o c f h = elim (Bool-cases (options_ok o)) [
  | inr unfit ↦ absurd (ground arith)
  | inl fit ↦
      let copy =
        new_log o.log.snapshot_index o.log.snapshot_term o.log.commit_index o.log.applied_index
          o.log.entries in
      elim (Result-cases copy) [
        | inr (e, q) ↦ absurd (ground arith)
        | inl (l, q) ↦ elim (Result-cases (sample_deadline (initial o l) 0 offset)) [
          | inr (e, r) ↦ absurd (ground arith)
          | inl (d, r) ↦
              let s = initial-Sound o l fit f q in
              let moved : Core = record (initial o l) { election_deadline = d } in
              let built : new_core offset o ≡ ok moved = simp (fit, q, r, new_core) refl in
              let whole : moved ≡ c = cc in
              subst Sound whole (record { valid = s.valid; paired = s.paired })
        ]
      ]
]

-- Over any run of the calls of `Call` a core stays sound: its log is valid, and its hard state
-- holds the log's commit index.
pub Run-Sound : (c d : Core) → Sound c → Run c d → Sound d
Run-Sound c d s r = (Run-Lasting c d r).sound s

-- Over any run of the calls of `Call` the term never falls.
pub term_never_falls : (c d : Core) → Run c d → c.hard_state.term ≤ d.hard_state.term
term_never_falls c d r = let b = (Run-Lasting c d r).ballot in ground arith

-- Over any run of the calls of `Call` that ends in the term it started in, a vote that was cast
-- at the start is the vote at the end: a core votes for at most one candidate in a term.
pub votes_once :
    (c d : Core)
    → Run c d
    → d.hard_state.term ≡ c.hard_state.term
    → 0 < c.hard_state.voted_for
    → d.hard_state.voted_for ≡ c.hard_state.voted_for
votes_once c d r same_term voted = let b = (Run-Lasting c d r).ballot in ground arith
