-- ===== src/Swim/Table/Expiry.antt =====
-- ExpireTerminal of internal/swim/table.go: what it takes away, and that the table stays valid.
use crane.Base.{
  ℕ, ◌≤◌, ◌≡◌, refl, sym, ap, subst, ◌∙◌, ◌⊎◌, inl, inr, ◌==◌, true, false, Option, none, some,
  arith, Bool-cases, Option-cases, ==_refl,
}
use crane.Base.Maps.{lookup, remove, lookup-remove}
use crane.Swim.Types.{Member, is_terminal}
use crane.Swim.Table.{Table, retain_incarnation_floor, expire_terminal, same_member}
use crane.Swim.Table.Valid.{Slot, IsValid, floor_after, visible-Named}
use crane.Swim.Table.Rows.{retain-floors, retain_other}
use crane.Swim.Table.Kept.{Slot-at, changed-IsValid}

-- The floor of a record whose generation has ended is the record.
pub ended_floor :
    (n : ℕ) (m : Member) (retained : Option Member)
    → Slot n (some m) retained
    → 2 ≤ m.status
    → retained ≡ some m
ended_floor n m none (_, low) h = absurd (omega (arith, low))
ended_floor n m (some f) (_, _, _, inl (_, low)) h = absurd (omega (arith, low))
ended_floor n m (some f) (_, _, _, inr same) h = ap some same

own_floor : (m : Member) → floor_after m (some m) ≡ some m
own_floor m = ground arith

-- What ExpireTerminal leaves when it takes a record away.
pub expired : Member → Table → Table
expired m t = record (retain_incarnation_floor m t) { members = remove m.node_id t.members }

pub expired_own :
    (m : Member) (t : Table)
    → IsValid t
    → lookup m.node_id t.members ≡ some m
    → 2 ≤ m.status
    → (lookup m.node_id (expired m t).members ≡ none)
      × (lookup m.node_id (expired m t).floors ≡ some m)
unfolding expired
expired_own m t v e h =
    let n = m.node_id in
    let f = ended_floor n m (lookup n t.floors) (Slot-at n (sym e) refl (v.slot n)) h in
    (
      lookup-remove n n t.members ∙ simp (==_refl n) refl,
      retain-floors m t ∙ ap (floor_after m) f ∙ own_floor m,
    )

pub expired_other :
    (m : Member) (t : Table) (k : ℕ)
    → (m.node_id == k) ≡ false
    → (lookup k (expired m t).members ≡ lookup k t.members)
      × (lookup k (expired m t).floors ≡ lookup k t.floors)
unfolding expired
expired_other m t k e = (lookup-remove m.node_id k t.members ∙ simp e refl, retain_other m t k e)

expired-IsValid :
    (m : Member) (t : Table)
    → IsValid t
    → lookup m.node_id t.members ≡ some m
    → 2 ≤ m.status
    → IsValid (expired m t)
expired-IsValid m t v e h =
    let n = m.node_id in
    let (p, q) = expired_own m t v e h in
    let w = visible-Named n m (lookup n t.floors) (Slot-at n (sym e) refl (v.slot n)) in
    changed-IsValid n (expired m t) t v (Slot-at n p q (w, h)) (expired_other m t)

pub record Expires (m : Member) (t : Table) : Type 0 where
  pub current : Member
  pub found : lookup current.node_id t.members ≡ some current
  pub ended : 2 ≤ current.status
  pub leaves : (expire_terminal m t).1 ≡ expired current t

same_fields :
    (a b : Member) → same_member a b ≡ true → (a.node_id ≡ b.node_id) × (a.status ≡ b.status)
same_fields a b h = ground arith

pub expire-cases : (m : Member) (t : Table) → ((expire_terminal m t).1 ≡ t) ⊎ Expires m t
unfolding expire_terminal expired
expire-cases m t = elim (Bool-cases (is_terminal m.status)) [
  | inr live ↦ inl (rw (expire_terminal, live) refl)
  | inl ended ↦ elim (Option-cases (lookup m.node_id t.members)) [
    | inl q ↦ inl (rw (expire_terminal, ended) (rw q refl))
    | inr (current, q) ↦ elim (Bool-cases (same_member current m)) [
      | inr other ↦ inl (rw (expire_terminal, ended) (rw q (rw other refl)))
      | inl same ↦
          let (n, s) = same_fields current m same in
          inr (record {
            current = current;
            found = subst (λ (i : ℕ). lookup i t.members ≡ some current) (sym n) q;
            ended = ground arith;
            leaves = rw (expire_terminal, ended) (rw q (rw (same, n) refl));
          })
    ]
  ]
]

pub expire_terminal-IsValid : (m : Member) (t : Table) → IsValid t → IsValid (expire_terminal m t).1
expire_terminal-IsValid m t v = elim (expire-cases m t) [
  | inl e ↦ rw e v
  | inr x ↦ rw x.leaves (expired-IsValid x.current t v x.found x.ended)
]
