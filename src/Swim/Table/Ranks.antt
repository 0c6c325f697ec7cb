-- ===== src/Swim/Table/Ranks.antt =====
-- The merges of internal/swim/table.go as a join: what a table knows of a node is one number, and every
-- operation raises it to the greatest of itself and what it is given.
use crane.Base.{
  ℕ, ◌+◌, ◌*◌, ◌≤◌, ◌<◌, ◌≡◌, refl, sym, ap, subst, ◌∙◌, inl, inr, ltb, ◌==◌, true, false, ◌&&◌,
  Option, none, some, if◌then◌else◌, arith, Bool-cases, ==_refl, ==→≡,
}
use crane.Base.Maps.{lookup}
use crane.Swim.Types.{Member, Update}
use crane.Swim.Table.{Table, reference_of, admitted, Merged, is_mergeable, merge}
use crane.Swim.Table.Valid.{
  Named, Slot, IsValid, floor_after, admitted-Slot, visible-Named, visible_reference,
}
use crane.Swim.Table.Rows.{landed, Refuses, merge-cases, landed_own, landed_other}
use crane.Swim.Table.Kept.{mergeable-Named}

-- A record's place in the order of compareMemberVersion, from 1 on; 0 where there is no record.
abbrev pub rank : Option Member → ℕ
rank none = 0
rank (some m) = 1 + 4 * m.incarnation + m.status

-- What a table knows of a node.
abbrev pub known : ℕ → Table → ℕ
known n t = rank (reference_of (lookup n t.members) (lookup n t.floors))

-- What an update tells of a node.
abbrev pub told : ℕ → Update → ℕ
told n u = if is_mergeable u && (u.member.node_id == n) then rank (some u.member) else 0

abbrev pub greater : ℕ → ℕ → ℕ
greater a b = if ltb a b then b else a

pub reference-Named :
    (n : ℕ) (visible retained : Option Member) (r : Member)
    → Slot n visible retained
    → reference_of visible retained ≡ some r
    → Named n r
reference-Named n none none r s q = absurd (ground arith)
reference-Named n none (some f) r (w, _) q = let e : f ≡ r = ground arith in subst (Named n) e w
reference-Named n (some v) retained r s q =
    let e : some v ≡ some r = sym (visible_reference n v retained s) ∙ q in
    subst (Named n) (ground arith) (visible-Named n v retained s)

admitted-rank :
    (incoming m r : Member)
    → incoming.status ≤ 3
    → r.status ≤ 3
    → admitted incoming (some r) ≡ some m
    → (rank (some m) ≡ rank (some incoming)) × (rank (some r) < rank (some incoming))
admitted-rank incoming m r h k q = ground arith

refused_rank :
    (incoming r : Member)
    → incoming.status ≤ 3
    → r.status ≤ 3
    → admitted incoming (some r) ≡ none
    → rank (some incoming) ≤ rank (some r)
refused_rank incoming r h k q = ground arith

joined :
    (n : ℕ) (incoming m : Member) (reference : Option Member)
    → incoming.status ≤ 3
    → ((r : Member) → reference ≡ some r → Named n r)
    → admitted incoming reference ≡ some m
    → rank (some m) ≡ greater (rank reference) (rank (some incoming))
joined n incoming m none h k q = let e : incoming ≡ m = ground arith in rw (sym e) (ground arith)
joined n incoming m (some r) h k q =
    let (same, less) = admitted-rank incoming m r h (k r refl).ranked q in ground arith

pub admitted_above :
    (n : ℕ) (incoming m : Member) (reference : Option Member)
    → incoming.status ≤ 3
    → ((r : Member) → reference ≡ some r → Named n r)
    → admitted incoming reference ≡ some m
    → rank reference < rank (some incoming)
admitted_above n incoming m none h k q = omega arith
admitted_above n incoming m (some r) h k q = (admitted-rank incoming m r h (k r refl).ranked q).1

unjoined :
    (n : ℕ) (incoming : Member) (reference : Option Member)
    → incoming.status ≤ 3
    → ((r : Member) → reference ≡ some r → Named n r)
    → admitted incoming reference ≡ none
    → rank (some incoming) ≤ rank reference
unjoined n incoming none h k q = absurd (ground arith)
unjoined n incoming (some r) h k q = refused_rank incoming r h (k r refl).ranked q

pub known_at :
    (n : ℕ) (t : Table) {m f : Option Member}
    → lookup n t.members ≡ m
    → lookup n t.floors ≡ f
    → known n t ≡ rank (reference_of m f)
known_at n t p q = rw (p, q) refl

pub greater_low : (a b : ℕ) → b ≤ a → greater a b ≡ a
greater_low a b h = ground arith

pub told_own : (u : Update) → is_mergeable u ≡ true → told u.member.node_id u ≡ rank (some u.member)
told_own u h = rw (h, ==_refl u.member.node_id) refl

told_other : (n : ℕ) (u : Update) → (u.member.node_id == n) ≡ false → told n u ≡ 0
told_other n u h = ground arith

pub landed_at :
    (n : ℕ) (m : Member) (t : Table)
    → m.node_id ≡ n
    → (lookup n (landed m t).members ≡ some m)
      × (lookup n (landed m t).floors ≡ floor_after m (lookup n t.floors))
landed_at n m t e =
    subst
      (λ (k : ℕ).
        (lookup k (landed m t).members ≡ some m)
        × (lookup k (landed m t).floors ≡ floor_after m (lookup k t.floors)))
      e (landed_own m t)

-- A visible record is what is known of its node.
pub known_visible :
    (n : ℕ) (m : Member) (t : Table) {f : Option Member}
    → lookup n t.members ≡ some m
    → lookup n t.floors ≡ f
    → Slot n (some m) f
    → known n t ≡ rank (some m)
known_visible n m t {f} p q s = known_at n t p q ∙ ap rank (visible_reference n m f s)

refused_own :
    (u : Update) (t : Table)
    → IsValid t
    → Refuses u t
    → known u.member.node_id t ≡ greater (known u.member.node_id t) (told u.member.node_id u)
refused_own u t v r =
    let n = u.member.node_id in
    let visible = lookup n t.members in
    let retained = lookup n t.floors in
    sym (
      greater_low (known n t) (told n u) (elim (Bool-cases (is_mergeable u)) [
        | inr bad ↦ rw bad (omega arith)
        | inl good ↦ elim r.because [
          | inl bad ↦ absurd (ground arith)
          | inr none_admitted ↦ rw (told_own u good) (
              unjoined n u.member (reference_of visible retained) (mergeable-Named u good).ranked
                (λ x. reference-Named n visible retained x (v.slot n)) none_admitted)
        ]
      ]))

merge_own :
    (u : Update) (t : Table)
    → IsValid t
    → known u.member.node_id (merge u t).table
      ≡ greater (known u.member.node_id t) (told u.member.node_id u)
merge_own u t v =
    let n = u.member.node_id in
    let visible = lookup n t.members in
    let retained = lookup n t.floors in
    elim (merge-cases u t) [
      | inl r ↦ ap (λ (o : Merged). known n o.table) r.refuses ∙ refused_own u t v r
      | inr l ↦
          let w = mergeable-Named u l.mergeable in
          let (k, s) = admitted-Slot n u.member l.m visible retained w (v.slot n) l.admits in
          let (p, q) = landed_at n l.m t k.named in
          let j =
            joined n u.member l.m (reference_of visible retained) w.ranked
              (λ r. reference-Named n visible retained r (v.slot n)) l.admits in
          ap (known n) l.lands
          ∙ known_visible n l.m (landed l.m t) p q s
          ∙ j
          ∙ ap (greater (known n t)) (sym (told_own u l.mergeable))
    ]

pub known_same :
    (n : ℕ) (s t : Table)
    → lookup n s.members ≡ lookup n t.members
    → lookup n s.floors ≡ lookup n t.floors
    → known n s ≡ known n t
known_same n s t p q = rw (p, q) refl

merge_other :
    (n : ℕ) (u : Update) (t : Table)
    → IsValid t
    → (u.member.node_id == n) ≡ false
    → known n (merge u t).table ≡ known n t
merge_other n u t v h = elim (merge-cases u t) [
  | inl r ↦ ap (λ (o : Merged). known n o.table) r.refuses
  | inr l ↦
      let id = u.member.node_id in
      let w = mergeable-Named u l.mergeable in
      let (k, s) =
        admitted-Slot id u.member l.m (lookup id t.members) (lookup id t.floors) w (v.slot id)
          l.admits in
      let (p, q) = landed_other l.m t n (rw k.named h) in
      ap (known n) l.lands ∙ known_same n (landed l.m t) t p q
]

-- Merge makes what is known of each node the greater of what it was and what the update tells.
pub merge-known :
    (n : ℕ) (u : Update) (t : Table)
    → IsValid t
    → known n (merge u t).table ≡ greater (known n t) (told n u)
merge-known n u t v = elim (Bool-cases (u.member.node_id == n)) [
  | inl same ↦
      subst (λ (k : ℕ). known k (merge u t).table ≡ greater (known k t) (told k u)) (==→≡ _ n same)
        (merge_own u t v)
  | inr other ↦
      merge_other n u t v other
      ∙ sym (greater_low (known n t) 0 (omega arith))
      ∙ ap (greater (known n t)) (sym (told_other n u other))
]
