-- ===== src/Raft/Core/Ballot.antt =====
-- What a core of internal/raft/core.go may become when it handles an event: the relation between its
-- vote, term, hard state and log before and after.
use crane.Base.{
  ℕ, ◌≤◌, ◌<◌, ◌≡◌, refl, sym, ap, subst, ◌∙◌, ◌⊎◌, inl, inr, none, some, List, ok, arith,
}
use crane.Raft.Types.{Entry, HardState}
use crane.Raft.Log.Valid.{IsValid}
use crane.Raft.Log.Safety.{append-IsValid, append_keeps_committed}
use crane.Raft.Log.Recovery.{advance_commit_total}
use crane.Raft.Log.{Log, entry, term, advance_commit, append, appended}
use crane.Raft.Core.State.{Core, Outcome, ◌▷◌}
use crane.Raft.Core.Queue.{record_hard_state}
use crane.Raft.Core.Frame.{Steady, Steady-refl}

-- The term rises, or stays with the vote where one was cast.
abbrev pub Ballot : HardState → HardState → Type 0
Ballot h k =
    (h.term < k.term) ⊎ ((k.term ≡ h.term) × ((k.voted_for ≡ h.voted_for) ⊎ (h.voted_for ≡ 0)))

-- The log is valid, and the hard state has the log's commit index.
pub record Sound (c : Core) : Type 0 where
  pub valid : IsValid c.log
  pub paired : c.hard_state.commit_index ≡ c.log.commit_index

-- The core stays sound; the commit index never falls, and what was committed reads as before.
pub record Growth (c d : Core) : Type 0 where
  pub sound : Sound d
  pub commit_grows : c.log.commit_index ≤ d.log.commit_index
  pub committed_entry : (i : ℕ) → i ≤ c.log.commit_index → entry d.log i ≡ entry c.log i
  pub committed_term : (i : ℕ) → i ≤ c.log.commit_index → term d.log i ≡ term c.log i

pub record Evolves (c d : Core) : Type 0 where
  pub same_id : d.local_id ≡ c.local_id
  pub same_voters : d.voters ≡ c.voters
  pub ballot : Ballot c.hard_state d.hard_state
  pub durable :
      ((d.hard_state ≡ c.hard_state) × (d.pending_ready.hard_state ≡ c.pending_ready.hard_state))
      ⊎ (d.pending_ready.hard_state ≡ some d.hard_state)
  pub growth : Sound c → Growth c d

-- The same log, and the same commit index in the hard state.
pub same_log-Growth :
    {c d : Core}
    → d.log ≡ c.log
    → d.hard_state.commit_index ≡ c.hard_state.commit_index
    → Sound c
    → Growth c d
same_log-Growth {c} {d} same_log same_commit s = record {
  sound = record {
    valid = subst IsValid (sym same_log) s.valid;
    paired = same_commit ∙ s.paired ∙ ap (λ (l : Log). l.commit_index) (sym same_log);
  };
  commit_grows =
      subst (λ (l : Log). c.log.commit_index ≤ l.commit_index) (sym same_log) (omega arith);
  committed_entry = λ i h. ap (λ (l : Log). entry l i) same_log;
  committed_term = λ i h. ap (λ (l : Log). term l i) same_log;
}

pub Steady-Evolves : {c d : Core} → Steady c d → Evolves c d
Steady-Evolves s = record {
  same_id = s.same_id;
  same_voters = s.same_voters;
  ballot = inr (
    ap (λ (h : HardState). h.term) s.same_hard_state,
    inl (ap (λ (h : HardState). h.voted_for) s.same_hard_state),
  );
  durable = inl (s.same_hard_state, s.same_queued);
  growth = same_log-Growth s.same_log (ap (λ (h : HardState). h.commit_index) s.same_hard_state);
}

pub Evolves-refl : (c : Core) → Evolves c c
Evolves-refl c = Steady-Evolves (Steady-refl c)

pub Ballot-trans : (h k j : HardState) → Ballot h k → Ballot k j → Ballot h j
Ballot-trans h k j a b = ground arith

Growth-trans : {c d e : Core} → Growth c d → Growth d e → Growth c e
Growth-trans g h = record {
  sound = h.sound;
  commit_grows = omega (arith, g.commit_grows, h.commit_grows);
  committed_entry =
      λ i b. h.committed_entry i (omega (arith, g.commit_grows)) ∙ g.committed_entry i b;
  committed_term = λ i b. h.committed_term i (omega (arith, g.commit_grows)) ∙ g.committed_term i b;
}

pub Evolves-trans : {c d e : Core} → Evolves c d → Evolves d e → Evolves c e
Evolves-trans {c} {d} {e} s t = record {
  same_id = t.same_id ∙ s.same_id;
  same_voters = t.same_voters ∙ s.same_voters;
  ballot = Ballot-trans c.hard_state d.hard_state e.hard_state s.ballot t.ballot;
  durable = durable_trans s.durable t.durable;
  growth = λ x. Growth-trans (s.growth x) (t.growth ((s.growth x).sound));
}
  where
    durable_trans :
        ((d.hard_state ≡ c.hard_state) × (d.pending_ready.hard_state ≡ c.pending_ready.hard_state))
          ⊎ (d.pending_ready.hard_state ≡ some d.hard_state)
        → ((e.hard_state ≡ d.hard_state)
            × (e.pending_ready.hard_state ≡ d.pending_ready.hard_state))
          ⊎ (e.pending_ready.hard_state ≡ some e.hard_state)
        → ((e.hard_state ≡ c.hard_state)
            × (e.pending_ready.hard_state ≡ c.pending_ready.hard_state))
          ⊎ (e.pending_ready.hard_state ≡ some e.hard_state)
    durable_trans (inl a) (inl b) = inl (b.0 ∙ a.0, b.1 ∙ a.1)
    durable_trans (inr a) (inl b) = inr (b.1 ∙ a ∙ ap some (sym b.0))
    durable_trans _ (inr b) = inr b

-- A change of role and of other fields that are neither the hard state's nor the log.
pub record Recast (c d : Core) : Type 0 where
  pub same_id : d.local_id ≡ c.local_id
  pub same_voters : d.voters ≡ c.voters
  pub same_hard_state : d.hard_state ≡ c.hard_state
  pub same_log : d.log ≡ c.log
  pub same_queued : d.pending_ready.hard_state ≡ c.pending_ready.hard_state

pub Recast-Evolves : {c d : Core} → Recast c d → Evolves c d
Recast-Evolves s = record {
  same_id = s.same_id;
  same_voters = s.same_voters;
  ballot = inr (
    ap (λ (h : HardState). h.term) s.same_hard_state,
    inl (ap (λ (h : HardState). h.voted_for) s.same_hard_state),
  );
  durable = inl (s.same_hard_state, s.same_queued);
  growth = same_log-Growth s.same_log (ap (λ (h : HardState). h.commit_index) s.same_hard_state);
}

-- The hard state is set to another one with the same commit index, and recorded.
pub recorded-Evolves :
    (c d : Core)
    → d.local_id ≡ c.local_id
    → d.voters ≡ c.voters
    → d.log ≡ c.log
    → d.hard_state.commit_index ≡ c.hard_state.commit_index
    → Ballot c.hard_state d.hard_state
    → Evolves c (record_hard_state d)
unfolding record_hard_state
recorded-Evolves c d i v l k b = record {
  same_id = i;
  same_voters = v;
  ballot = b;
  durable = inr refl;
  growth = same_log-Growth l k;
}

-- A log whose commit index was advanced to `n`.
record Committed (l k : Log) (n : ℕ) : Type 0 where
  valid : IsValid k
  forward : l.commit_index ≤ n
  moved : record l { commit_index = n } ≡ k

Committed-of : (n : ℕ) (l k : Log) → IsValid l → advance_commit l n ≡ ok k → Committed l k n
Committed-of n l k v h = elim (advance_commit_total l n v) [
  | inl (a, b, e, w) ↦
      let q : record l { commit_index = n } ≡ k = cc in
      record { valid = subst IsValid q w; forward = a; moved = q }
  | inr (inl (a, e)) ↦ absurd (cc)
  | inr (inr (a, e)) ↦ absurd (cc)
]

entry_moved : (l : Log) (n i : ℕ) → entry (record l { commit_index = n }) i ≡ entry l i
unfolding entry
entry_moved l n i = refl

term_moved : (l : Log) (n i : ℕ) → term (record l { commit_index = n }) i ≡ term l i
unfolding term
term_moved l n i = refl

-- The log's commit index is advanced, and recorded.
pub committed-Evolves :
    (n : ℕ) (l : Log) (c : Core)
    → advance_commit c.log n ≡ ok l
    → Evolves c (
        record_hard_state
          (record c { log = l; hard_state = record (c.hard_state) { commit_index = n } }))
unfolding record_hard_state
committed-Evolves n l c h = record {
  same_id = refl;
  same_voters = refl;
  ballot = inr (refl, inl refl);
  durable = inr refl;
  growth = λ s.
      let m = Committed-of n c.log l s.valid h in
      let at_n = ap (λ (k : Log). k.commit_index) m.moved in
      record {
        sound = record { valid = m.valid; paired = at_n };
        commit_grows = omega (arith, m.forward, at_n);
        committed_entry = λ i b. ap (λ (k : Log). entry k i) (sym m.moved) ∙ entry_moved c.log n i;
        committed_term = λ i b. ap (λ (k : Log). term k i) (sym m.moved) ∙ term_moved c.log n i;
      };
}

-- The log, where it was valid, is what a successful append to it leaves.
pub appended-Evolves :
    (p t : ℕ) (es : List Entry) (c d : Core)
    → (IsValid c.log → append c.log p t es ≡ appended d.log)
    → d.local_id ≡ c.local_id
    → d.voters ≡ c.voters
    → d.hard_state ≡ c.hard_state
    → d.pending_ready.hard_state ≡ c.pending_ready.hard_state
    → Evolves c d
appended-Evolves p t es c d h i v s q = record {
  same_id = i;
  same_voters = v;
  ballot = inr (ap (λ (h : HardState). h.term) s, inl (ap (λ (h : HardState). h.voted_for) s));
  durable = inl (s, q);
  growth = λ x.
      let k = append_keeps_committed c.log d.log p t 0 es x.valid (h x.valid) (omega arith) in
      record {
        sound = record {
          valid = append-IsValid c.log d.log p t es x.valid (h x.valid);
          paired = ap (λ (h : HardState). h.commit_index) s ∙ x.paired ∙ sym k.2.same_commit;
        };
        commit_grows = omega (arith, k.2.same_commit);
        committed_entry =
            λ j b. (append_keeps_committed c.log d.log p t j es x.valid (h x.valid) b).0;
        committed_term =
            λ j b. (append_keeps_committed c.log d.log p t j es x.valid (h x.valid) b).1;
      };
}

pub ▷-Evolves :
    (c : Core) (o : Outcome) (k : Core → Outcome)
    → Evolves c o.0
    → ((d : Core) → Evolves d (k d).0)
    → Evolves c (o ▷ k).0
▷-Evolves c (d, none) k s t = Evolves-trans s (t d)
▷-Evolves c (d, some e) k s t = s
