-- ===== src/Swim/Suspicion/Refutation.antt =====
-- ApplyUpdate of internal/swim/suspicion.go at a suspicion of the node itself.
use crane.Base.{
  ℕ, ◌+◌, ◌≤◌, ◌<◌, ◌≡◌, ◌≢◌, refl, sym, ap, subst, ◌∙◌, ◌==◌, max_u64, true, false, Option, none,
  some, arith, ==_refl,
}
use crane.Base.Maps.{lookup, remove, lookup-remove}
use crane.Swim.Types.{Member, Update, alive}
use crane.Swim.Table.{Table, merge, is_mergeable, admitted}
use crane.Swim.Table.Valid.{IsValid, Named, Slot, visible-Named}
use crane.Swim.Table.Shown.{merge_shows}
use crane.Swim.Dissemination.{is_valid_update}
use crane.Swim.Suspicion.{Engine, suspects_self, applied_transition, refute, apply_update}

-- The next generation of a record, alive.
abbrev pub refutation : Member → Member
refutation current = record current { incarnation = current.incarnation + 1; status = alive }

refutation_mergeable :
    (n : ℕ) (current : Member)
    → Named n current
    → is_mergeable (record { member = refutation current; reporter_id = n }) ≡ true
refutation_mergeable n current w =
    let z = w.nonzero in
    let y : current.node_id ≢ 0 = λ e. w.nonzero (sym w.named ∙ e) in ground arith

admitted-refutation :
    (current : Member) → admitted (refutation current) (some current) ≡ some (refutation current)
admitted-refutation current = ground arith

-- The engine after a refutation, whatever it disseminates.
refute-table :
    (current : Member) (e : Engine)
    → current.incarnation < max_u64
    → (merge (record { member = refutation current; reporter_id = e.self_id }) e.table).changed
      ≡ true
    → ((refute current e).0.persist_incarnation ≡ some (current.incarnation + 1))
      × ((refute current e).1.table
          ≡ (merge (record { member = refutation current; reporter_id = e.self_id }) e.table).table)
      × ((refute current e).1.suspicions ≡ remove current.node_id e.suspicions)
unfolding refute applied_transition
refute-table current e low changed =
    let room : (current.incarnation == max_u64) ≡ false = ground arith in
    rw (refute, room) (rw changed (refl, refl, refl))

apply_update-refute :
    (update : Update) (current : Member) (now : ℕ) (e : Engine)
    → is_valid_update update ≡ true
    → lookup update.member.node_id e.table.members ≡ some current
    → suspects_self e update current ≡ true
    → apply_update update now e ≡ refute current e
unfolding apply_update
apply_update-refute update current now e good q self = rw (apply_update, good) (rw q (rw self refl))

-- When a valid report suspects this very node in its current generation, while the node believes itself
-- alive or suspect and its incarnation is not the last one, ApplyUpdate asks for the next incarnation to
-- be made durable, shows the node alive in it at the same address, and holds no suspicion of it.
pub apply_update_refutes :
    (update : Update) (current : Member) (now : ℕ) (e : Engine)
    → IsValid e.table
    → is_valid_update update ≡ true
    → update.member.node_id ≡ e.self_id
    → update.member.status ≡ 1
    → update.member.incarnation ≡ current.incarnation
    → lookup e.self_id e.table.members ≡ some current
    → current.status ≤ 1
    → current.incarnation < 18446744073709551615
    → ((apply_update update now e).0.persist_incarnation ≡ some (current.incarnation + 1))
      × (lookup e.self_id (apply_update update now e).1.table.members ≡ some (refutation current))
      × (lookup e.self_id (apply_update update now e).1.suspicions ≡ none)
apply_update_refutes update current now e v good self status generation q low room =
    let n = e.self_id in
    let slot = subst (λ (o : Option Member). Slot n o (lookup n e.table.floors)) q (v.slot n) in
    let w = visible-Named n current (lookup n e.table.floors) slot in
    let named = w.named in
    let suspected : suspects_self e update current ≡ true = ground arith in
    let visible : lookup update.member.node_id e.table.members ≡ some current = rw self q in
    let step = apply_update-refute update current now e good visible suspected in
    let r =
      merge_shows n (record { member = refutation current; reporter_id = n }) current
        (refutation current) e.table v q named named (refutation_mergeable n current w)
        (admitted-refutation current) in
    let (persisted, table, suspicions) = refute-table current e room r.raised in
    let forgotten =
      ap (λ (k : ℕ). lookup n (remove k e.suspicions)) named
      ∙ lookup-remove n n e.suspicions
      ∙ simp (==_refl n) refl in
    rw step (
      persisted,
      ap (λ (t : Table). lookup n t.members) table ∙ r.shown,
      ap (lookup n) suspicions ∙ forgotten,
    )
