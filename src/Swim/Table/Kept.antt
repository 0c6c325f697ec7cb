-- ===== src/Swim/Table/Kept.antt =====
-- The operations of internal/swim/table.go keep a table valid.
use crane.Base.{
  ℕ, ◌≤◌, ◌<◌, ◌≡◌, refl, sym, subst, ◌∙◌, ◌⊎◌, inl, inr, ◌==◌, true, false, Option, none, some,
  arith, Bool-cases, Option-cases, ==_refl, ==→≡,
}
use crane.Base.Maps.{lookup, insert, lookup-insert}
use crane.Swim.Types.{Member, Update}
use crane.Swim.Table.{
  Table, outranks, revised, is_mergeable, merge, is_floor, advanced_floor, settle_floor,
  merge_incarnation_floor,
}
use crane.Swim.Table.Valid.{Named, Slot, IsValid, floor_after, admitted-Slot}
use crane.Swim.Table.Rows.{landed, merge-cases, landed_own, landed_other}

pub Slot-at : (n : ℕ) {m o f g : Option Member} → m ≡ o → f ≡ g → Slot n o g → Slot n m f
Slot-at n {o = o} {f = f} p q s =
    subst (λ (x : Option Member). Slot n x f) (sym p) (subst (Slot n o) (sym q) s)

-- A table that differs from a valid one at one node, and is well there, is valid.
pub changed-IsValid :
    (n : ℕ) (s t : Table)
    → IsValid t
    → Slot n (lookup n s.members) (lookup n s.floors)
    → ((k : ℕ)
        → (n == k) ≡ false
        → (lookup k s.members ≡ lookup k t.members) × (lookup k s.floors ≡ lookup k t.floors))
    → IsValid s
changed-IsValid n s t v own others = record {
  slot = λ k. elim (Bool-cases (n == k)) [
    | inl same ↦
        subst (λ (i : ℕ). Slot i (lookup i s.members) (lookup i s.floors)) (==→≡ n k same) own
    | inr other ↦ let (p, q) = others k other in Slot-at k p q (v.slot k)
  ];
}

pub mergeable-Named : (u : Update) → is_mergeable u ≡ true → Named u.member.node_id u.member
mergeable-Named u h = record { named = refl; nonzero = λ e. ground arith; ranked = ground arith }

pub landed-IsValid :
    (n : ℕ) (m : Member) (t : Table)
    → IsValid t
    → m.node_id ≡ n
    → Slot n (some m) (floor_after m (lookup n t.floors))
    → IsValid (landed m t)
landed-IsValid n m t v e s =
    let (p, q) = landed_own m t in
    let own = subst (λ (k : ℕ). Slot k (some m) (floor_after m (lookup k t.floors))) (sym e) s in
    changed-IsValid m.node_id (landed m t) t v (Slot-at m.node_id p q own) (landed_other m t)

pub merge-IsValid : (u : Update) (t : Table) → IsValid t → IsValid (merge u t).table
merge-IsValid u t v = elim (merge-cases u t) [
  | inl r ↦ rw r.refuses v
  | inr l ↦
      let id = u.member.node_id in
      let (w, s) =
        admitted-Slot id u.member l.m (lookup id t.members) (lookup id t.floors)
          (mergeable-Named u l.mergeable) (v.slot id) l.admits in
      rw l.lands (landed-IsValid id l.m t v w.named s)
]

pub revised-terminal :
    (n : ℕ) (m f : Member)
    → Named n m
    → Named n f
    → 2 ≤ m.status
    → Named n (revised m f) × (2 ≤ (revised m f).status)
revised-terminal n m f u w h = elim (Bool-cases (m.incarnation == f.incarnation)) [
  | inl same ↦ rw same (record { named = w.named; nonzero = w.nonzero; ranked = u.ranked }, h)
  | inr other ↦ rw other (u, h)
]

pub retained-Named :
    (n : ℕ) (visible : Option Member) (f : Member) → Slot n visible (some f) → Named n f
retained-Named n none f (w, _) = w
retained-Named n (some m) f (_, w, _, _) = w

-- A floor that advances the retained one is a floor of the same node.
pub advanced-Named :
    (n : ℕ) (floor f : Member) (visible retained : Option Member)
    → Named n floor
    → 2 ≤ floor.status
    → Slot n visible retained
    → advanced_floor floor retained ≡ some f
    → Named n f × (2 ≤ f.status)
advanced-Named n floor f visible none w h s q =
    let e : floor ≡ f = ground arith in subst (λ (x : Member). Named n x × (2 ≤ x.status)) e (w, h)
advanced-Named n floor f visible (some r) w h s q =
    let e : revised floor r ≡ f = ground arith in
    subst (λ (x : Member). Named n x × (2 ≤ x.status)) e
      (revised-terminal n floor r w (retained-Named n visible r s) h)

pub not_above :
    (f current : Member)
    → outranks f current ≡ false
    → (f.incarnation < current.incarnation)
      ⊎ ((f.incarnation ≡ current.incarnation) × (f.status ≤ current.status))
not_above f current h = ground arith

pub advanced_above :
    (floor f r : Member) → advanced_floor floor (some r) ≡ some f → outranks f r ≡ true
advanced_above floor f r q = ground arith

pub below_live :
    (f current : Member)
    → 2 ≤ f.status
    → current.status ≤ 1
    → outranks f current ≡ false
    → f.incarnation < current.incarnation
below_live f current h low o = elim (not_above f current o) [
  | inl less ↦ less
  | inr (same, le) ↦ absurd (omega (arith, le))
]

-- Where it does not outrank what is visible, the new floor stays below it.
pub hidden-Slot :
    (n : ℕ) (floor f current : Member) (retained : Option Member)
    → Named n f
    → 2 ≤ f.status
    → Slot n (some current) retained
    → advanced_floor floor retained ≡ some f
    → outranks f current ≡ false
    → Slot n (some current) (some f)
hidden-Slot n floor f current none w h (u, low) q o =
    (u, w, h, inl (below_live f current h low o, low))
hidden-Slot n floor f current (some r) w h (u, _, _, inl (older, low)) q o =
    (u, w, h, inl (below_live f current h low o, low))
hidden-Slot n floor f current (some r) w h (u, _, _, inr same) q o =
    let above = subst (λ (x : Member). outranks f x ≡ true) same (advanced_above floor f r q) in
    absurd (ground arith)

pub settle_floor-IsValid :
    (floor f : Member) (reporter_id : ℕ) (t : Table)
    → IsValid t
    → Named f.node_id f
    → 2 ≤ f.status
    → advanced_floor floor (lookup f.node_id t.floors) ≡ some f
    → IsValid (settle_floor f reporter_id t).table
unfolding settle_floor
settle_floor-IsValid floor f reporter_id t v w h q =
    let n = f.node_id in
    let hidden : Table = record t { floors = insert n f t.floors } in
    let others : (k : ℕ)
        → (n == k) ≡ false
        → (lookup k t.members ≡ lookup k t.members) × (lookup k hidden.floors ≡ lookup k t.floors) =
      λ k e. (refl, lookup-insert n k f t.floors ∙ simp e refl) in
    let own : lookup n hidden.floors ≡ some f =
      lookup-insert n n f t.floors ∙ simp (==_refl n) refl in
    elim (Option-cases (lookup n t.members)) [
      | inl e ↦
          let s = changed-IsValid n hidden t v (Slot-at n e own (w, h)) others in
          rw (settle_floor, e) s
      | inr (current, e) ↦ elim (Bool-cases (outranks f current)) [
        | inl up ↦
            rw (settle_floor, e)
              (rw up (
                merge-IsValid (record { member = revised f current; reporter_id = reporter_id }) t
                  v))
        | inr down ↦
            let slot = subst (λ (x : Option Member). Slot n x (lookup n t.floors)) e (v.slot n) in
            let s =
              changed-IsValid n hidden t v
                (Slot-at n e own
                  (hidden-Slot n floor f current (lookup n t.floors) w h slot q down))
                others in
            rw (settle_floor, e) (rw down s)
      ]
    ]

pub floor-Named :
    (floor : Member) (reporter_id : ℕ)
    → is_floor floor reporter_id ≡ true
    → Named floor.node_id floor × (2 ≤ floor.status)
floor-Named floor reporter_id h =
    (record { named = refl; nonzero = λ e. ground arith; ranked = ground arith }, ground arith)

pub merge_incarnation_floor-IsValid :
    (floor : Member) (reporter_id : ℕ) (t : Table)
    → IsValid t
    → IsValid (merge_incarnation_floor floor reporter_id t).table
unfolding merge_incarnation_floor
merge_incarnation_floor-IsValid floor reporter_id t v =
    let n = floor.node_id in
    elim (Bool-cases (is_floor floor reporter_id)) [
      | inr bad ↦ rw (merge_incarnation_floor, bad) v
      | inl good ↦ elim (Option-cases (advanced_floor floor (lookup n t.floors))) [
        | inl q ↦ rw (merge_incarnation_floor, good) (rw q v)
        | inr (f, q) ↦
            let (w, h) = floor-Named floor reporter_id good in
            let (u, k) =
              advanced-Named n floor f (lookup n t.members) (lookup n t.floors) w h (v.slot n) q in
            let s =
              settle_floor-IsValid floor f reporter_id t v
                (subst (λ (i : ℕ). Named i f) (sym u.named) u) k
                (subst (λ (i : ℕ). advanced_floor floor (lookup i t.floors) ≡ some f) (sym u.named)
                  q) in
            rw (merge_incarnation_floor, good) (rw q s)
      ]
    ]
