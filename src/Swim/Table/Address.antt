-- ===== src/Swim/Table/Address.antt =====
-- The address of a member within one generation (Merge of internal/swim/table.go).
use crane.Base.{
  ℕ, ◌≤◌, ◌<◌, ◌⊎◌, ◌≡◌, refl, sym, ap, subst, ◌∙◌, inl, inr, ◌==◌, Option, some, arith, Bool-cases,
  ==→≡,
}
use crane.Base.Maps.{lookup}
use crane.Swim.Types.{Member, Update}
use crane.Swim.Table.{Table, revised, merge}
use crane.Swim.Table.Valid.{
  IsValid, Slot, admitted-Slot, admitted_lem, visible_reference, visible-Named,
}
use crane.Swim.Table.Rows.{landed, merge-cases, landed_other}
use crane.Swim.Table.Kept.{mergeable-Named, merge-IsValid}
use crane.Swim.Table.Ranks.{landed_at, known, known_visible, told, greater, merge-known}

abbrev SameAddress : Member → Member → Type 0
SameAddress a b = (b.host ≡ a.host) × (b.base_port ≡ a.base_port)

revised_address :
    (incoming a : Member)
    → (revised incoming a).incarnation ≡ a.incarnation
    → SameAddress a (revised incoming a)
revised_address incoming a h = elim (Bool-cases (incoming.incarnation == a.incarnation)) [
  | inl same ↦ rw same (refl, refl)
  | inr other ↦ absurd (ground arith)
]

greater_left : (a b : ℕ) → a ≤ greater a b
greater_left a b = ground arith

some_eq : {A : Type 0} (o : Option A) {a b : A} → o ≡ some a → o ≡ some b → a ≡ b
some_eq o p q = cc

same_generation_address :
    (u : Update) (t : Table) (n : ℕ) (a b : Member)
    → IsValid t
    → lookup n t.members ≡ some a
    → lookup n (merge u t).table.members ≡ some b
    → b.incarnation ≡ a.incarnation
    → (b.host ≡ a.host) × (b.base_port ≡ a.base_port)
same_generation_address u t n a b v p q i = elim (merge-cases u t) [
  | inl r ↦
      let e = some_eq (lookup n t.members) p (rw r.refuses at q) in
      (ap (λ (x : Member). x.host) (sym e), ap (λ (x : Member). x.base_port) (sym e))
  | inr l ↦
      let id = u.member.node_id in
      let retained = lookup id t.floors in
      let (w, s) =
        admitted-Slot id u.member l.m (lookup id t.members) retained (mergeable-Named u l.mergeable)
          (v.slot id) l.admits in
      let after : lookup n (landed l.m t).members ≡ some b = rw l.lands at q in
      elim (Bool-cases (id == n)) [
        | inl same ↦
            let here = ==→≡ id n same in
            let visible : lookup id t.members ≡ some a =
              subst (λ (k : ℕ). lookup k t.members ≡ some a) (sym here) p in
            let slot = subst (λ (x : Option Member). Slot id x retained) visible (v.slot id) in
            let (e, o) =
              admitted_lem u.member l.m a
                (rw (visible, visible_reference id a retained slot) at l.admits) in
            let (m, f) = landed_at n l.m t (w.named ∙ here) in
            let c = some_eq (lookup n (landed l.m t).members) m after in
            subst (SameAddress a) (sym e ∙ c)
              (revised_address u.member a (ap (λ (x : Member). x.incarnation) (sym e ∙ c) ∙ i))
        | inr other ↦
            let (m, f) = landed_other l.m t n (rw w.named other) in
            let c = some_eq (lookup n t.members) p (sym m ∙ after) in
            (ap (λ (x : Member). x.host) (sym c), ap (λ (x : Member). x.base_port) (sym c))
      ]
]

-- What Merge shows is never behind what was shown.
incarnation_grows :
    (u : Update) (t : Table) (n : ℕ) (a b : Member)
    → IsValid t
    → lookup n t.members ≡ some a
    → lookup n (merge u t).table.members ≡ some b
    → a.incarnation ≤ b.incarnation
incarnation_grows u t n a b v p q =
    let after = (merge u t).table in
    let slot = subst (λ (x : Option Member). Slot n x (lookup n t.floors)) p (v.slot n) in
    let slot' =
      subst (λ (x : Option Member). Slot n x (lookup n after.floors)) q
        ((merge-IsValid u t v).slot n) in
    omega (
      arith,
      known_visible n a t p refl slot,
      known_visible n b after q refl slot',
      merge-known n u t v,
      greater_left (known n t) (told n u),
      (visible-Named n b (lookup n after.floors) slot').ranked,
    )

-- Where a node is visible in a valid table before a Merge and after it, Merge either leaves its host and its
-- base port as they are or raises its incarnation: no update of the same or of a lower incarnation
-- changes an address.
pub merge_keeps_address :
    (u : Update) (t : Table) (n : ℕ) (a b : Member)
    → IsValid t
    → lookup n t.members ≡ some a
    → lookup n (merge u t).table.members ≡ some b
    → ((b.host ≡ a.host) × (b.base_port ≡ a.base_port)) ⊎ (a.incarnation < b.incarnation)
merge_keeps_address u t n a b v p q =
    let grows = incarnation_grows u t n a b v p q in
    elim (Bool-cases (b.incarnation == a.incarnation)) [
      | inl same ↦ inl (same_generation_address u t n a b v p q (==→≡ _ _ same))
      | inr other ↦ inr (ground arith)
    ]
