-- ===== src/Raft/Core/Leadership.antt =====
-- Who leads and what a leader commits, in internal/raft/core.go.
use crane.Base.{
  ℕ, zero, suc, ◌+◌, ◌-◌, ◌≤◌, ◌<◌, ◌≡◌, refl, sym, ap, ◌∙◌, inl, inr, Bool, true, ◌==◌, ltb, leb,
  List, [], ◌∷◌, ok, arith, Bool-cases, Result-cases, ==→≡,
}
use crane.Raft.Log.{term, advance_commit}
use mathlib.Core.List.{Memᴰ}
use crane.Raft.Voters.{Voter, majority, count, quorums_meet}
use crane.Raft.Core.State.{Core}
use crane.Raft.Core.Queue.{record_hard_state}
use crane.Raft.Core.Replication.{
  advance_from, advance_leader_commit, commit_at, replicas, progress_of,
}
use crane.Raft.Core.Frame.{queue_committed_entries-Steady}

-- The commit index `n` is backed by a majority, and its entry is of the leader's own term.
pub record Backed (c : Core) (n : ℕ) : Type 0 where
  pub own_term : term c.log n ≡ ok c.hard_state.term
  pub quorum : majority c.voters ≤ replicas c n c.voters.voters
  pub beyond : c.log.commit_index < n

-- Where the commit index stands, and why.
pub data Commits (c d : Core) : Type 0 where
  unmoved : d.hard_state ≡ c.hard_state → d.log ≡ c.log → Commits c d
  commits :
      (n : ℕ)
      → Backed c n
      → d.hard_state ≡ record (c.hard_state) { commit_index = n }
      → advance_commit c.log n ≡ ok d.log
      → Commits c d

commit_at-Commits : (n : ℕ) (c : Core) → Backed c n → Commits c (commit_at n c).0
unfolding commit_at record_hard_state
commit_at-Commits n c b = elim (Result-cases (advance_commit c.log n)) [
  | inr (e, q) ↦ rw (q, commit_at) (unmoved refl refl)
  | inl (l, q) ↦
      let moved : Core =
        record_hard_state
          (record c { log = l; hard_state = record (c.hard_state) { commit_index = n } }) in
      let s = queue_committed_entries-Steady c.log.commit_index n moved in
      rw (q, commit_at) (commits n b s.same_hard_state (q ∙ ap ok (sym s.same_log)))
]

advance_from-Commits : (n : ℕ) (c : Core) → Commits c (advance_from n c).0
unfolding advance_from
advance_from-Commits zero c = unmoved refl refl
advance_from-Commits (suc n) c =
    let i : ℕ = c.log.commit_index + suc n in
    elim (Result-cases (term c.log i)) [
      | inr (e, q) ↦ rw (q, advance_from) (unmoved refl refl)
      | inl (t, q) ↦ elim (Bool-cases (t == c.hard_state.term)) [
        | inr foreign ↦ rw (q, foreign, advance_from) (advance_from-Commits n c)
        | inl own ↦ elim (Bool-cases (ltb (replicas c i c.voters.voters) (majority c.voters))) [
          | inl few ↦ rw (q, own, few, advance_from) (advance_from-Commits n c)
          | inr enough ↦
              rw (q, own, enough, advance_from)
                (commit_at-Commits i c (record {
                  own_term = q ∙ ap ok (==→≡ _ _ own);
                  quorum = ground arith;
                  beyond = omega arith;
                }))
        ]
      ]
    ]

-- `advanceLeaderCommit` leaves the hard state and the log as they are, or commits exactly up to an index
-- above the commit index whose entry is of the leader's current term and which a majority of the
-- voters are known to store; the log and the hard state then move to it together.
pub advance_leader_commit_lem : (c : Core) → Commits c (advance_leader_commit c).0
unfolding advance_leader_commit
advance_leader_commit_lem c = advance_from-Commits (c.log.last_index - c.log.commit_index) c

replicas-count :
    (c : Core) (n : ℕ) (vs : List Voter)
    → replicas c n vs ≡ count (λ v. leb n (progress_of v.id c).match_index) vs
unfolding replicas count
replicas-count c n [] = refl
replicas-count c n (v ∷ vs) = rw (replicas-count c n vs) refl

-- Where the leader has a majority behind an index, any majority of the voters has a member that is known
-- to store the log up to that index: among them are the voters of a later leader.
pub backing_meets :
    (c : Core) (n : ℕ) (q : Voter → Bool)
    → Backed c n
    → majority c.voters ≤ count q c.voters.voters
    → (v : Voter) × Memᴰ v c.voters.voters
      × (leb n (progress_of v.id c).match_index ≡ true)
      × (q v ≡ true)
backing_meets c n q b h =
    quorums_meet c.voters (λ v. leb n (progress_of v.id c).match_index) q
      (rw⁻¹ (replicas-count c n c.voters.voters) b.quorum) h
