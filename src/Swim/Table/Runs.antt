-- ===== src/Swim/Table/Runs.antt =====
-- Sequences of calls on a membership table (internal/swim/table.go), and what remains known after them.
use crane.Base.{
  ℕ, ◌≤◌, ◌<◌, ◌≡◌, refl, sym, ap, subst, ◌∙◌, ◌⊎◌, inl, inr, Option, some, List, [], ◌∷◌, arith,
  Bool-cases,
}
use mathlib.Core.List.{Perm, Permᴰ}
use mathlib.Core.Logic.{∥∥₁_elim}
use native.Mathlib.Nat.{ℕ_set}
use crane.Base.Maps.{lookup}
use crane.Swim.Types.{Member, Update}
use crane.Swim.Table.{
  Table, new_table, refused, is_mergeable, merge, merge_incarnation_floor, expire_terminal,
  reference_of,
}
use crane.Swim.Table.Valid.{IsValid, Slot, visible-Named}
use crane.Swim.Table.Rows.{merge-cases}
use crane.Swim.Table.Kept.{merge-IsValid, merge_incarnation_floor-IsValid, mergeable-Named}
use crane.Swim.Table.Expiry.{expire_terminal-IsValid}
use crane.Swim.Table.Ranks.{
  rank, known, known_visible, told, greater, merge-known, admitted_above, reference-Named,
  greater_low, told_own,
}
use crane.Swim.Table.Joins.{told_floor, merge_incarnation_floor-known, expire_terminal-known}

-- A call that may change the table.
pub data Change : Type 0 where
  updated : Update → Change
  floored : Member → ℕ → Change
  expired : Member → Change

abbrev pub apply : Change → Table → Table
apply (updated u) t = (merge u t).table
apply (floored floor reporter_id) t = (merge_incarnation_floor floor reporter_id t).table
apply (expired m) t = (expire_terminal m t).1

abbrev pub run : List Change → Table → Table
run [] t = t
run (c ∷ cs) t = run cs (apply c t)

-- What a call tells of a node; an expiry tells nothing.
abbrev pub tells : ℕ → Change → ℕ
tells n (updated u) = told n u
tells n (floored floor reporter_id) = told_floor n floor reporter_id
tells n (expired m) = 0

abbrev pub tells_all : ℕ → List Change → ℕ
tells_all n [] = 0
tells_all n (c ∷ cs) = greater (tells n c) (tells_all n cs)

pub new_table-IsValid : IsValid new_table
unfolding lookup
new_table-IsValid = record { slot = λ n. tt }

apply-IsValid : (c : Change) (t : Table) → IsValid t → IsValid (apply c t)
apply-IsValid (updated u) t v = merge-IsValid u t v
apply-IsValid (floored floor reporter_id) t v =
    merge_incarnation_floor-IsValid floor reporter_id t v
apply-IsValid (expired m) t v = expire_terminal-IsValid m t v

-- Over any sequence of merges, floors and expiries a valid table stays valid: each row holds a record of
-- its own node, each floor a generation that has ended, and beside a visible record the floor is that
-- record or of an earlier generation.
pub run-IsValid : (cs : List Change) (t : Table) → IsValid t → IsValid (run cs t)
run-IsValid [] t v = v
run-IsValid (c ∷ cs) t v = run-IsValid cs (apply c t) (apply-IsValid c t v)

apply-known :
    (n : ℕ) (c : Change) (t : Table)
    → IsValid t
    → known n (apply c t) ≡ greater (known n t) (tells n c)
apply-known n (updated u) t v = merge-known n u t v
apply-known n (floored floor reporter_id) t v =
    merge_incarnation_floor-known n floor reporter_id t v
apply-known n (expired m) t v =
    expire_terminal-known n m t v ∙ sym (greater_low (known n t) 0 (omega arith))

greater_right : (a b : ℕ) → b ≤ greater a b
greater_right a b = ground arith

greater_assoc : (a b c : ℕ) → greater (greater a b) c ≡ greater a (greater b c)
greater_assoc a b c = ground arith

greater_swap : (a b c : ℕ) → greater a (greater b c) ≡ greater b (greater a c)
greater_swap a b c = ground arith

-- The table implements a join: after any sequence of calls, what a valid table knows of a node is the
-- greatest of what it knew and of what the calls told it, in the order of compareMemberVersion.
pub run-known :
    (n : ℕ) (cs : List Change) (t : Table)
    → IsValid t
    → known n (run cs t) ≡ greater (known n t) (tells_all n cs)
run-known n [] t v = sym (greater_low (known n t) 0 (omega arith))
run-known n (c ∷ cs) t v =
    run-known n cs (apply c t) (apply-IsValid c t v)
    ∙ ap (λ (a : ℕ). greater a (tells_all n cs)) (apply-known n c t v)
    ∙ greater_assoc (known n t) (tells n c) (tells_all n cs)

tells_all-Permᴰ : (n : ℕ) {cs ds : List Change} → Permᴰ cs ds → tells_all n cs ≡ tells_all n ds
tells_all-Permᴰ n Permᴰ.nil = refl
tells_all-Permᴰ n (Permᴰ.cons e p) = rw (e, tells_all-Permᴰ n p) refl
tells_all-Permᴰ n (Permᴰ.swap {l = l} e f) = rw (e, f) (greater_swap _ _ (tells_all n l))
tells_all-Permᴰ n (Permᴰ.trans p q) = tells_all-Permᴰ n p ∙ tells_all-Permᴰ n q

heard_alike :
    (cs ds : List Change)
    → Perm cs ds
    → (n : ℕ) → known n (run cs new_table) ≡ known n (run ds new_table)
heard_alike cs ds p n =
    run-known n cs new_table new_table-IsValid
    ∙ ap (greater (known n new_table)) (∥∥₁_elim p (ℕ_set _ _) (λ d. tells_all-Permᴰ n d))
    ∙ sym (run-known n ds new_table new_table-IsValid)

-- What a valid table knows of a node that it shows is the record that it shows, whose status is at most 3.
shown_rank :
    (n : ℕ) (m : Member) (t : Table)
    → IsValid t
    → lookup n t.members ≡ some m
    → (known n t ≡ rank (some m)) × (m.status ≤ 3)
shown_rank n m t v e =
    let slot = subst (λ (x : Option Member). Slot n x (lookup n t.floors)) e (v.slot n) in
    (known_visible n m t e refl slot, (visible-Named n m (lookup n t.floors) slot).ranked)

-- Two tables start empty and go through the same calls in any two orders. Where both then show a node,
-- they show it with the same incarnation and the same status.
pub runs_agree :
    (cs ds : List Change) (n : ℕ) (a b : Member)
    → Perm cs ds
    → lookup n (run cs new_table).members ≡ some a
    → lookup n (run ds new_table).members ≡ some b
    → (a.incarnation ≡ b.incarnation) × (a.status ≡ b.status)
runs_agree cs ds n a b p e f =
    let alike = heard_alike cs ds p n in
    let (k, s) = shown_rank n a (run cs new_table) (run-IsValid cs new_table new_table-IsValid) e in
    let (l, t) = shown_rank n b (run ds new_table) (run-IsValid ds new_table new_table-IsValid) f in
    (omega (arith, alike, k, s, l, t), omega (arith, alike, k, s, l, t))

-- An update that is not above what is known is refused, and leaves the table as it is.
stale-refused :
    (u : Update) (t : Table)
    → IsValid t
    → told u.member.node_id u ≤ known u.member.node_id t
    → merge u t ≡ refused t
stale-refused u t v h = elim (merge-cases u t) [
  | inl r ↦ r.refuses
  | inr l ↦
      let n = u.member.node_id in
      let visible = lookup n t.members in
      let retained = lookup n t.floors in
      let above =
        admitted_above n u.member l.m (reference_of visible retained)
          (mergeable-Named u l.mergeable).ranked
          (λ r. reference-Named n visible retained r (v.slot n)) l.admits in
      absurd (omega (arith, above, told_own u l.mergeable, h))
]

known_grows : (n : ℕ) (cs : List Change) (t : Table) → IsValid t → known n t ≤ known n (run cs t)
known_grows n cs t v = let h = run-known n cs t v in ground arith

-- Once an update was merged or refused by a valid table, that table refuses it for good: after any
-- sequence of later calls, expiries of its node among them, Merge changes nothing.
pub merged_once :
    (u : Update) (cs : List Change) (t : Table)
    → IsValid t
    → merge u (run cs (merge u t).table) ≡ refused (run cs (merge u t).table)
merged_once u cs t v =
    let n = u.member.node_id in
    let after = (merge u t).table in
    let w = merge-IsValid u t v in
    let heard = merge-known n u t v in
    let grown = known_grows n cs after w in
    stale-refused u (run cs after) (run-IsValid cs after w)
      (omega (arith, grown, greater_right (known n t) (told n u), heard))

told_low :
    (u : Update) (m : Member)
    → m.status ≤ 3
    → (u.member.incarnation < m.incarnation)
      ⊎ ((u.member.incarnation ≡ m.incarnation) × (u.member.status ≤ m.status))
    → told u.member.node_id u ≤ rank (some m)
told_low u m h o = elim (Bool-cases (is_mergeable u)) [
  | inr bad ↦ rw bad (omega arith)
  | inl good ↦
      let k = (mergeable-Named u good).ranked in
      rw (told_own u good)
        (elim o [ inl less ↦ omega (arith, less, k) | inr (same, le) ↦ omega (arith, same, le) ])
]

-- A generation that was taken away does not come back: after ExpireTerminal on a visible record of a
-- valid table and any sequence of later calls, an update of its node that is of an earlier incarnation,
-- or of the same incarnation and no more severe, is refused and changes nothing.
pub no_resurrection :
    (m : Member) (u : Update) (cs : List Change) (t : Table)
    → IsValid t
    → lookup m.node_id t.members ≡ some m
    → u.member.node_id ≡ m.node_id
    → (u.member.incarnation < m.incarnation)
      ⊎ ((u.member.incarnation ≡ m.incarnation) × (u.member.status ≤ m.status))
    → merge u (run cs (expire_terminal m t).1) ≡ refused (run cs (expire_terminal m t).1)
no_resurrection m u cs t v e n o =
    let id = m.node_id in
    let after = (expire_terminal m t).1 in
    let w = expire_terminal-IsValid m t v in
    let slot = subst (λ (x : Option Member). Slot id x (lookup id t.floors)) e (v.slot id) in
    let seen = known_visible id m t e refl slot in
    let kept = expire_terminal-known id m t v in
    let grown = known_grows id cs after w in
    let low = told_low u m (visible-Named id m (lookup id t.floors) slot).ranked o in
    stale-refused u (run cs after) (run-IsValid cs after w) (
      subst (λ (k : ℕ). told u.member.node_id u ≤ known k (run cs after)) (sym n)
        (omega (arith, low, seen, kept, grown)))
