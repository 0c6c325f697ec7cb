-- ===== src/Swim/Table/Rows.antt =====
-- What the operations of internal/swim/table.go write, row by row.
use crane.Base.{
  ℕ, ◌≡◌, refl, sym, ap, ◌∙◌, ◌⊎◌, inl, inr, ◌==◌, true, false, Option, none, some, List, arith,
  Bool-cases, Option-cases, ==_refl,
}
use crane.Base.Maps.{lookup, insert, lookup-insert}
use crane.Swim.Types.{Member, Update}
use crane.Swim.Table.{
  Table, reference_of, admitted, raised_floor, retain_incarnation_floor, refused, is_mergeable,
  merge,
}
use crane.Swim.Table.Valid.{floor_after, or_kept}

pub retain-members : (m : Member) (t : Table) → (retain_incarnation_floor m t).members ≡ t.members
unfolding retain_incarnation_floor
retain-members m t = ground arith

retain_none :
    (m : Member) (t : Table)
    → raised_floor m (lookup m.node_id t.floors) ≡ none
    → retain_incarnation_floor m t ≡ t
unfolding retain_incarnation_floor
retain_none m t q = rw (retain_incarnation_floor, q) refl

retain_some :
    (m f : Member) (t : Table)
    → raised_floor m (lookup m.node_id t.floors) ≡ some f
    → retain_incarnation_floor m t ≡ record t { floors = insert m.node_id f t.floors }
unfolding retain_incarnation_floor
retain_some m f t q = rw (retain_incarnation_floor, q) refl

pub retain-floors :
    (m : Member) (t : Table)
    → lookup m.node_id (retain_incarnation_floor m t).floors
      ≡ floor_after m (lookup m.node_id t.floors)
retain-floors m t =
    let held = lookup m.node_id t.floors in
    elim (Option-cases (raised_floor m held)) [
      | inl q ↦
          ap (λ (s : Table). lookup m.node_id s.floors) (retain_none m t q)
          ∙ sym (ap (λ (o : Option Member). or_kept o held) q)
      | inr (f, q) ↦
          ap (λ (s : Table). lookup m.node_id s.floors) (retain_some m f t q)
          ∙ lookup-insert m.node_id m.node_id f t.floors
          ∙ simp (==_refl m.node_id) refl
          ∙ sym (ap (λ (o : Option Member). or_kept o held) q)
    ]

pub retain_other :
    (m : Member) (t : Table) (n : ℕ)
    → (m.node_id == n) ≡ false
    → lookup n (retain_incarnation_floor m t).floors ≡ lookup n t.floors
retain_other m t n h = elim (Option-cases (raised_floor m (lookup m.node_id t.floors))) [
  | inl q ↦ ap (λ (s : Table). lookup n s.floors) (retain_none m t q)
  | inr (f, q) ↦
      ap (λ (s : Table). lookup n s.floors) (retain_some m f t q)
      ∙ lookup-insert m.node_id n f t.floors
      ∙ simp h refl
]

-- What Merge leaves when it admits a record.
pub landed : Member → Table → Table
landed m t = retain_incarnation_floor m (record t { members = insert m.node_id m t.members })

pub record Lands (u : Update) (t : Table) : Type 0 where
  pub m : Member
  pub mergeable : is_mergeable u ≡ true
  pub admits :
      admitted u.member
        (reference_of (lookup u.member.node_id t.members) (lookup u.member.node_id t.floors))
      ≡ some m
  pub lands : (merge u t).table ≡ landed m t
  pub changes : (merge u t).changed ≡ true
  pub announces : (merge u t).event.current ≡ m

pub record Refuses (u : Update) (t : Table) : Type 0 where
  pub refuses : merge u t ≡ refused t
  pub because :
      (is_mergeable u ≡ false)
      ⊎ (admitted u.member
            (reference_of (lookup u.member.node_id t.members) (lookup u.member.node_id t.floors))
          ≡ none)

pub merge-cases : (u : Update) (t : Table) → Refuses u t ⊎ Lands u t
unfolding merge landed
merge-cases u t = elim (Bool-cases (is_mergeable u)) [
  | inr bad ↦ inl (record { refuses = simp bad refl; because = inl bad })
  | inl good ↦
      elim (Option-cases (
        admitted u.member
          (reference_of (lookup u.member.node_id t.members) (lookup u.member.node_id t.floors)))) [
            | inl q ↦ inl (record { refuses = simp (good, q) refl; because = inr q })
            | inr (m, q) ↦ inr (record {
              m = m;
              mergeable = good;
              admits = q;
              lands = simp (good, q) refl;
              changes = simp (good, q) refl;
              announces = simp (good, q) refl;
            })
          ]
]

pub landed_own :
    (m : Member) (t : Table)
    → (lookup m.node_id (landed m t).members ≡ some m)
      × (lookup m.node_id (landed m t).floors ≡ floor_after m (lookup m.node_id t.floors))
unfolding landed
landed_own m t =
    let after : Table = record t { members = insert m.node_id m t.members } in
    (
      ap (λ (rows : List (ℕ × Member)). lookup m.node_id rows) (retain-members m after)
          ∙ lookup-insert m.node_id m.node_id m t.members
          ∙ (simp (==_refl m.node_id) refl),
      retain-floors m after,
    )

pub landed_other :
    (m : Member) (t : Table) (n : ℕ)
    → (m.node_id == n) ≡ false
    → (lookup n (landed m t).members ≡ lookup n t.members)
      × (lookup n (landed m t).floors ≡ lookup n t.floors)
unfolding landed
landed_other m t n h =
    let after : Table = record t { members = insert m.node_id m t.members } in
    (
      ap (λ (rows : List (ℕ × Member)). lookup n rows) (retain-members m after)
          ∙ lookup-insert m.node_id n m t.members
          ∙ (simp h refl),
      retain_other m after n h,
    )
