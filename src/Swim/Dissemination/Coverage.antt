-- ===== src/Swim/Dissemination/Coverage.antt =====
-- Enqueue of internal/swim/dissemination.go loses no update silently.
use crane.Base.{
  ℕ, ◌≤◌, ◌<◌, ◌≡◌, refl, ap, ◌∙◌, ◌⊎◌, inl, inr, ltb, leb, ◌==◌, true, ◌&&◌, ◌||◌, not, none, some,
  List, length, arith, Bool-cases, Option-cases, ==_refl,
}
use crane.Base.Maps.{lookup, insert, lookup-insert}
use crane.Swim.Types.{Member, Update}
use crane.Swim.Dissemination.{
  Item, Disseminator, is_valid_update, merge_pending_update, require_digest, is_present, admit,
  enqueue, retransmit_budget,
}

-- One record is of an earlier generation than another, or of the same one and no more severe.
abbrev pub Superseded : Member → Member → Type 0
Superseded m by =
    (m.incarnation < by.incarnation) ⊎ ((m.incarnation ≡ by.incarnation) × (m.status ≤ by.status))

-- A pending item of the node carries what the record says, or more.
pub record Carried (m : Member) (d : Disseminator) : Type 0 where
  pub item : Item
  pub pending : lookup m.node_id d.items ≡ some item
  pub carries : Superseded m item.update.member

already_pending :
    (current update : Update)
    → merge_pending_update current update ≡ none
    → Superseded update.member current.member
already_pending current update q =
    elim (Bool-cases (ltb update.member.incarnation current.member.incarnation)) [
      | inl less ↦ inl (ground arith)
      | inr on ↦ inr (ground arith)
    ]

merged_carries :
    (current update merged : Update)
    → merge_pending_update current update ≡ some merged
    → Superseded update.member merged.member
merged_carries current update merged q = inr (ground arith)

admit_covers :
    (update merged : Update) (alive_members : ℕ) (d : Disseminator)
    → Superseded update.member merged.member
    → ((admit update.member.node_id merged alive_members d).digest_required ≡ true)
      ⊎ Carried update.member (admit update.member.node_id merged alive_members d)
unfolding admit require_digest
admit_covers update merged alive_members d s =
    let id = update.member.node_id in
    elim (Bool-cases
      ((d.max_items == 0) || (retransmit_budget d.retransmit_multiplier alive_members == 0))) [
        | inl off ↦ inl (rw (admit, off) refl)
        | inr on ↦
            elim (Bool-cases
              (not (is_present (lookup id d.items)) && leb d.max_items (length d.items))) [
                | inl full ↦ inl (rw (admit, on) (rw full refl))
                | inr room ↦
                    let item : Item = record {
                      update = merged;
                      sequence = d.next_sequence;
                      transmissions = 0;
                      in_flight = 0;
                    } in
                    let e : (admit id merged alive_members d).items ≡ insert id item d.items =
                      rw (admit, on) (rw room refl) in
                    inr (record {
                      item = item;
                      pending =
                          ap (λ (items : List (ℕ × Item)). lookup id items) e
                          ∙ lookup-insert id id item d.items
                          ∙ simp (==_refl id) refl;
                      carries = s;
                    })
              ]
      ]

-- After Enqueue of a valid update, either an item of its node is pending that carries the update or what
-- supersedes it, or the queue asks for a digest, which repairs what it could not hold.
pub enqueue_covers :
    (update : Update) (alive_members : ℕ) (d : Disseminator)
    → is_valid_update update ≡ true
    → ((enqueue update alive_members d).digest_required ≡ true)
      ⊎ Carried update.member (enqueue update alive_members d)
unfolding enqueue
enqueue_covers update alive_members d good =
    let id = update.member.node_id in
    elim (Option-cases (lookup id d.items)) [
      | inl new ↦
          rw (enqueue, good)
            (rw new (admit_covers update update alive_members d (inr (refl, omega arith))))
      | inr (current, old) ↦ elim (Option-cases (merge_pending_update current.update update)) [
        | inl q ↦
            rw (enqueue, good)
              (rw old (
                rw q (
                  inr (record {
                    item = current;
                    pending = old;
                    carries = already_pending current.update update q;
                  }))))
        | inr (merged, q) ↦
            rw (enqueue, good)
              (rw old (
                rw q (
                  admit_covers update merged alive_members d
                    (merged_carries current.update update merged q))))
      ]
    ]
