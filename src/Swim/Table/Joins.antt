-- ===== src/Swim/Table/Joins.antt =====
-- MergeIncarnationFloor and ExpireTerminal of internal/swim/table.go, in terms of what is known of a node.
use crane.Base.{
  ℕ, ◌≤◌, ◌≡◌, ◌≢◌, refl, sym, ap, subst, ◌∙◌, inl, inr, ◌==◌, true, false, ◌&&◌, Option, none,
  some, if◌then◌else◌, arith, Bool-cases, Option-cases, ==_refl, ==→≡,
}
use crane.Base.Maps.{lookup, insert, lookup-insert}
use crane.Swim.Types.{Member}
use crane.Swim.Table.{
  Table, outranks, revised, reference_of, Merged, is_mergeable, is_floor, advanced_floor,
  settle_floor, merge_incarnation_floor, expire_terminal,
}
use crane.Swim.Table.Valid.{Named, Slot, IsValid, visible-Named, visible_reference}
use crane.Swim.Table.Kept.{Slot-at, retained-Named}
use crane.Swim.Table.Ranks.{
  rank, known, told, greater, greater_low, known_at, known_visible, known_same, merge-known,
}
use crane.Swim.Table.Kept.{floor-Named, advanced-Named, hidden-Slot, revised-terminal}
use crane.Swim.Table.Expiry.{expired, expired_own, expired_other, expire-cases}

-- What a floor tells of a node.
abbrev pub told_floor : ℕ → Member → ℕ → ℕ
told_floor n floor reporter_id =
    if is_floor floor reporter_id && (floor.node_id == n) then rank (some floor) else 0

advanced_rank :
    (floor f : Member) (retained : Option Member)
    → advanced_floor floor retained ≡ some f
    → rank (some f) ≡ rank (some floor)
advanced_rank floor f none q = ground arith
advanced_rank floor f (some r) q = ground arith

-- A floor that does not advance the retained one tells nothing new.
stale_floor :
    (n : ℕ) (floor : Member) (visible retained : Option Member)
    → floor.status ≤ 3
    → Slot n visible retained
    → advanced_floor floor retained ≡ none
    → rank (some floor) ≤ rank (reference_of visible retained)
stale_floor n floor visible none h s q = absurd (ground arith)
stale_floor n floor none (some r) h (w, _) q = let k = w.ranked in ground arith
stale_floor n floor (some v) (some r) h (u, w, _, inl (older, low)) q =
    let k = w.ranked in ground arith
stale_floor n floor (some v) (some r) h (u, w, _, inr same) q =
    let k = w.ranked in
    let i = ap (λ (x : Member). x.incarnation) same in
    let j = ap (λ (x : Member). x.status) same in ground arith

advanced_hidden :
    (floor f : Member) (retained : Option Member)
    → (2 ≤ floor.status) × (floor.status ≤ 3)
    → ((r : Member) → retained ≡ some r → r.status ≤ 3)
    → advanced_floor floor retained ≡ some f
    → rank retained ≤ rank (some f)
advanced_hidden floor f none h k q = omega arith
advanced_hidden floor f (some r) h k q = let l = k r refl in ground arith

abbrev told_by : ℕ → Member → ℕ
told_by n f = if f.node_id == n then rank (some f) else 0

hidden : Member → Table → Table
hidden f t = record t { floors = insert f.node_id f t.floors }

-- A floor that is written beside what is visible joins what is known.
hidden-known :
    (k : ℕ) (f : Member) (t : Table)
    → rank (reference_of (lookup f.node_id t.members) (some f))
      ≡ greater (known f.node_id t) (rank (some f))
    → known k (hidden f t) ≡ greater (known k t) (told_by k f)
unfolding hidden
hidden-known k f t h =
    let n = f.node_id in
    elim (Bool-cases (n == k)) [
      | inl same ↦
          let own : lookup n (hidden f t).floors ≡ some f =
            lookup-insert n n f t.floors ∙ simp (==_refl n) refl in
          let e : known n (hidden f t) ≡ greater (known n t) (told_by n f) =
            known_at n (hidden f t) refl own ∙ h ∙ ap (greater (known n t)) (rw (==_refl n) refl) in
          subst (λ (i : ℕ). known i (hidden f t) ≡ greater (known i t) (told_by i f))
            (==→≡ n k same) e
      | inr other ↦
          known_same k (hidden f t) t refl (lookup-insert n k f t.floors ∙ simp other refl)
          ∙ sym (greater_low (known k t) 0 (omega arith))
          ∙ ap (greater (known k t)) (rw other refl)
    ]

reference_hidden : (retained : Option Member) → reference_of none retained ≡ retained
reference_hidden none = refl
reference_hidden (some f) = refl

greater_high : (a b : ℕ) → a ≤ b → greater a b ≡ b
greater_high a b h = ground arith

low_rank :
    (f current : Member)
    → f.status ≤ 3
    → outranks f current ≡ false
    → rank (some f) ≤ rank (some current)
low_rank f current h o = ground arith

rank-revised : (f current : Member) → rank (some (revised f current)) ≡ rank (some f)
rank-revised f current = ground arith

is_mergeable_lem :
    (n : ℕ) (m : Member) (reporter_id : ℕ)
    → Named n m
    → reporter_id ≢ 0
    → is_mergeable (record { member = m; reporter_id = reporter_id }) ≡ true
is_mergeable_lem n m reporter_id w h =
    let z : m.node_id ≢ 0 = λ e. w.nonzero (sym w.named ∙ e) in let k = w.ranked in ground arith

told-revised :
    (k : ℕ) (f current : Member) (reporter_id : ℕ)
    → Named f.node_id f
    → Named f.node_id (revised f current)
    → reporter_id ≢ 0
    → told k (record { member = revised f current; reporter_id = reporter_id }) ≡ told_by k f
told-revised k f current reporter_id w u h =
    rw
      (
        is_mergeable_lem f.node_id (revised f current) reporter_id u h,
        u.named,
        rank-revised f current,
      )
      refl

settle_floor-known :
    (k : ℕ) (floor f : Member) (reporter_id : ℕ) (t : Table)
    → IsValid t
    → (2 ≤ floor.status) × (floor.status ≤ 3)
    → Named f.node_id f
    → 2 ≤ f.status
    → reporter_id ≢ 0
    → advanced_floor floor (lookup f.node_id t.floors) ≡ some f
    → known k (settle_floor f reporter_id t).table ≡ greater (known k t) (told_by k f)
unfolding settle_floor hidden
settle_floor-known k floor f reporter_id t v b w h z q =
    let n = f.node_id in
    let retained = lookup n t.floors in
    elim (Option-cases (lookup n t.members)) [
      | inl e ↦
          let low =
            advanced_hidden floor f retained b
              (λ r p. (retained-Named n none r (Slot-at n (sym e) (sym p) (v.slot n))).ranked) q in
          let before = known_at n t e refl ∙ ap rank (reference_hidden retained) in
          let join =
            ap (λ (o : Option Member). rank (reference_of o (some f))) e
            ∙ sym (greater_high (known n t) (rank (some f)) (rw (sym before) at low)) in
          rw (settle_floor, e) (hidden-known k f t join)
      | inr (current, e) ↦
          let slot = Slot-at n (sym e) refl (v.slot n) in
          elim (Bool-cases (outranks f current)) [
            | inl up ↦
                let (u, _) =
                  revised-terminal n f current w (visible-Named n current retained slot) h in
                rw (settle_floor, e)
                  (rw up (
                    merge-known k (record { member = revised f current; reporter_id = reporter_id })
                      t v
                    ∙ ap (greater (known k t)) (told-revised k f current reporter_id w u z)))
            | inr down ↦
                let after = hidden-Slot n floor f current retained w h slot q down in
                let join =
                  ap (λ (o : Option Member). rank (reference_of o (some f))) e
                  ∙ ap rank (visible_reference n current (some f) after)
                  ∙ sym (known_visible n current t e refl slot)
                  ∙ sym (
                      greater_low (known n t) (rank (some f)) (
                        rw (sym (known_visible n current t e refl slot)) at
                          (low_rank f current w.ranked down))) in
                rw (settle_floor, e) (rw down (hidden-known k f t join))
          ]
    ]

floor_reporter :
    (floor : Member) (reporter_id : ℕ) → is_floor floor reporter_id ≡ true → reporter_id ≢ 0
floor_reporter floor reporter_id h e = ground arith

told_floor_lem :
    (k : ℕ) (floor f : Member) (reporter_id : ℕ)
    → is_floor floor reporter_id ≡ true
    → f.node_id ≡ floor.node_id
    → rank (some f) ≡ rank (some floor)
    → told_by k f ≡ told_floor k floor reporter_id
told_floor_lem k floor f reporter_id h n r = rw (h, n, r) refl

-- MergeIncarnationFloor makes what is known of each node the greater of what it was and what the floor
-- tells.
pub merge_incarnation_floor-known :
    (k : ℕ) (floor : Member) (reporter_id : ℕ) (t : Table)
    → IsValid t
    → known k (merge_incarnation_floor floor reporter_id t).table
      ≡ greater (known k t) (told_floor k floor reporter_id)
unfolding merge_incarnation_floor
merge_incarnation_floor-known k floor reporter_id t v =
    let n = floor.node_id in
    let visible = lookup n t.members in
    let retained = lookup n t.floors in
    elim (Bool-cases (is_floor floor reporter_id)) [
      | inr bad ↦ rw (merge_incarnation_floor, bad) (sym (greater_low (known k t) 0 (omega arith)))
      | inl good ↦
          let (w, h) = floor-Named floor reporter_id good in
          elim (Option-cases (advanced_floor floor retained)) [
            | inl q ↦
                let stale = stale_floor n floor visible retained w.ranked (v.slot n) q in
                rw (merge_incarnation_floor, good)
                  (rw q (elim (Bool-cases (n == k)) [
                    | inl same ↦ sym (
                        greater_low (known k t) _ (
                          rw same (
                            subst (λ (i : ℕ). rank (some floor) ≤ known i t) (==→≡ n k same)
                              stale)))
                    | inr other ↦ sym (greater_low (known k t) _ (rw other (omega arith)))
                  ]))
            | inr (f, q) ↦
                let (u, l) = advanced-Named n floor f visible retained w h (v.slot n) q in
                let e = u.named in
                let join =
                  settle_floor-known k floor f reporter_id t v (h, w.ranked)
                    (subst (λ (i : ℕ). Named i f) (sym e) u) l
                    (floor_reporter floor reporter_id good)
                    (subst (λ (i : ℕ). advanced_floor floor (lookup i t.floors) ≡ some f) (sym e)
                      q) in
                let settled : merge_incarnation_floor floor reporter_id t
                    ≡ settle_floor f reporter_id t =
                  rw (merge_incarnation_floor, good) (rw q refl) in
                ap (λ (o : Merged). known k o.table) settled
                ∙ join
                ∙ ap (greater (known k t))
                    (told_floor_lem k floor f reporter_id good e (advanced_rank floor f retained q))
          ]
    ]

expired-known :
    (k : ℕ) (m : Member) (t : Table)
    → IsValid t
    → lookup m.node_id t.members ≡ some m
    → 2 ≤ m.status
    → known k (expired m t) ≡ known k t
expired-known k m t v e h =
    let n = m.node_id in
    elim (Bool-cases (n == k)) [
      | inl same ↦
          let (p, q) = expired_own m t v e h in
          let slot = Slot-at n (sym e) refl (v.slot n) in
          let own : known n (expired m t) ≡ known n t =
            known_at n (expired m t) p q ∙ sym (known_visible n m t e refl slot) in
          subst (λ (i : ℕ). known i (expired m t) ≡ known i t) (==→≡ n k same) own
      | inr other ↦ let (p, q) = expired_other m t k other in known_same k (expired m t) t p q
    ]

-- ExpireTerminal takes away nothing of what is known.
pub expire_terminal-known :
    (k : ℕ) (m : Member) (t : Table) → IsValid t → known k (expire_terminal m t).1 ≡ known k t
expire_terminal-known k m t v = elim (expire-cases m t) [
  | inl e ↦ ap (known k) e
  | inr x ↦ ap (known k) x.leaves ∙ expired-known k x.current t v x.found x.ended
]
