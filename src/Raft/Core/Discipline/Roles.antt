-- ===== src/Raft/Core/Discipline/Roles.antt =====
-- The ballot discipline of the changes of role and term in internal/raft/core.go.
use crane.Base.{
  ℕ, ◌<◌, ◌≡◌, refl, ap, ◌∙◌, inl, inr, Bool, true, false, ◌==◌, ltb, ◌&&◌, not, if◌then◌else◌,
  arith, Bool-cases, ltb→lt,
}
use crane.Raft.Types.{HardState, proposal_failed}
use crane.Raft.Log.{term}
use crane.Raft.Core.State.{Core, is_leader}
use crane.Raft.Core.Queue.{record_hard_state, fail_pending_proposals}
use crane.Raft.Core.Roles.{
  cancel_incoming_snapshot, adopt_higher_term, step_down_without_term_change, absorbed_deadline,
  handle_leader_contact, follow_leader, authority_changed, Deadline, stand_down,
}
use crane.Raft.Core.Frame.{
  Steady, Steady-refl, Steady-trans, cancel_incoming_snapshot-Steady, fail_pending_proposals-Steady,
}
use crane.Raft.Core.Ballot.{
  Evolves, Evolves-refl, Evolves-trans, Steady-Evolves, Recast, Recast-Evolves, recorded-Evolves,
}

pub adopt_higher_term-Evolves :
    (t : ℕ) (c : Core) → c.hard_state.term < t → Evolves c (adopt_higher_term t c)
unfolding adopt_higher_term
adopt_higher_term-Evolves t c h =
    let f = fail_pending_proposals-Steady proposal_failed c in
    let s =
      Steady-trans f (cancel_incoming_snapshot-Steady (fail_pending_proposals proposal_failed c)) in
    recorded-Evolves c _ s.same_id s.same_voters s.same_log
      (ap (λ (h : HardState). h.commit_index) s.same_hard_state) (inl h)

pub stand_down-Recast : (d : Deadline) (c : Core) → Recast c (stand_down d c)
unfolding stand_down
stand_down-Recast d c = ground arith

pub step_down-Evolves :
    (now offset : ℕ) (c : Core) → Evolves c (step_down_without_term_change now offset c)
unfolding step_down_without_term_change
step_down-Evolves now offset c =
    let d = absorbed_deadline c now offset in
    Evolves-trans {d = stand_down d c} (Recast-Evolves (stand_down-Recast d c))
      (Steady-Evolves (fail_pending_proposals-Steady proposal_failed (stand_down d c)))

follow_leader-Recast : (id : ℕ) (d : Deadline) (c : Core) → Recast c (follow_leader id d c)
unfolding follow_leader
follow_leader-Recast id d c = ground arith

cancel_if-Steady : (b : Bool) (c : Core) → Steady c (if b then cancel_incoming_snapshot c else c)
cancel_if-Steady true c = cancel_incoming_snapshot-Steady c
cancel_if-Steady false c = Steady-refl c

-- `handleLeaderContact` between the snapshot and the fields.
contact_middle : ℕ → ℕ → Core → Core
contact_middle leader_id term c =
    if ltb c.hard_state.term term
    then adopt_higher_term term c
    else if is_leader c.role && not (leader_id == c.local_id)
    then fail_pending_proposals proposal_failed c
    else c

contact_middle-Evolves :
    (leader_id term : ℕ) (c : Core) → Evolves c (contact_middle leader_id term c)
unfolding contact_middle
contact_middle-Evolves leader_id term c = elim (Bool-cases (ltb c.hard_state.term term)) [
  | inl up ↦ rw up (adopt_higher_term-Evolves term c (ltb→lt _ _ up))
  | inr level ↦ elim (Bool-cases (is_leader c.role && not (leader_id == c.local_id))) [
    | inl rival ↦
        rw (level, rival) (Steady-Evolves (fail_pending_proposals-Steady proposal_failed c))
    | inr own ↦ rw (level, own) (Evolves-refl c)
  ]
]

pub handle_leader_contact-Evolves :
    (leader_id term offset : ℕ) (c : Core)
    → Evolves c (handle_leader_contact leader_id term offset c)
unfolding handle_leader_contact contact_middle
handle_leader_contact-Evolves leader_id term offset c =
    elim (Bool-cases (ltb term c.hard_state.term)) [
      | inl old ↦ rw old (Evolves-refl c)
      | inr current ↦
          let b = authority_changed c leader_id term in
          let c₁ : Core = if b then cancel_incoming_snapshot c else c in
          let c₂ : Core = contact_middle leader_id term c₁ in
          rw current (
            Evolves-trans {d = c₁} (Steady-Evolves (cancel_if-Steady b c)) (
              Evolves-trans {d = c₂} (contact_middle-Evolves leader_id term c₁)
                (Recast-Evolves (follow_leader-Recast leader_id _ c₂))))
    ]

pub adopt_higher_term-log : (t : ℕ) (c : Core) → (adopt_higher_term t c).log ≡ c.log
unfolding adopt_higher_term record_hard_state
adopt_higher_term-log t c =
    (cancel_incoming_snapshot-Steady (fail_pending_proposals proposal_failed c)).same_log
    ∙ (fail_pending_proposals-Steady proposal_failed c).same_log

contact_middle-log : (leader_id term : ℕ) (c : Core) → (contact_middle leader_id term c).log ≡ c.log
unfolding contact_middle
contact_middle-log leader_id term c = ground (
  arith,
  adopt_higher_term-log term c,
  (fail_pending_proposals-Steady proposal_failed c).same_log,
)

pub handle_leader_contact-log :
    (leader_id term offset : ℕ) (c : Core)
    → (handle_leader_contact leader_id term offset c).log ≡ c.log
unfolding handle_leader_contact contact_middle follow_leader
handle_leader_contact-log leader_id term offset c = elim (Bool-cases (ltb term c.hard_state.term)) [
  | inl old ↦ rw old refl
  | inr current ↦
      let b = authority_changed c leader_id term in
      let c₁ : Core = if b then cancel_incoming_snapshot c else c in
      rw current (contact_middle-log leader_id term c₁ ∙ (cancel_if-Steady b c).same_log)
]
