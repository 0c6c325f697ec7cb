-- ===== src/Swim/Table/Shown.antt =====
-- Merge of internal/swim/table.go at an update that supersedes the record that the table shows.
use crane.Base.{ℕ, ◌≡◌, ap, subst, ◌∙◌, inl, inr, ◌==◌, true, false, Option, some, arith}
use crane.Base.Maps.{lookup}
use crane.Swim.Types.{Member, Update}
use crane.Swim.Table.{Table, Merged, merge, is_mergeable, admitted, reference_of}
use crane.Swim.Table.Valid.{IsValid, Slot, visible_reference}
use crane.Swim.Table.Rows.{merge-cases, landed_other}
use crane.Swim.Table.Ranks.{landed_at}

-- The table shows `next` of its node, announces it, and shows of all others what it showed.
pub record Superseded (n : ℕ) (next : Member) (t : Table) (after : Merged) : Type 0 where
  pub raised : after.changed ≡ true
  pub shown : lookup n after.table.members ≡ some next
  pub announced : after.event.current ≡ next
  pub others : (k : ℕ) → (n == k) ≡ false → lookup k after.table.members ≡ lookup k t.members

pub merge_shows :
    (n : ℕ) (u : Update) (current next : Member) (t : Table)
    → IsValid t
    → lookup n t.members ≡ some current
    → u.member.node_id ≡ n
    → next.node_id ≡ n
    → is_mergeable u ≡ true
    → admitted u.member (some current) ≡ some next
    → Superseded n next t (merge u t)
merge_shows n u current next t v q named next_named good admits =
    let slot = subst (λ (o : Option Member). Slot n o (lookup n t.floors)) q (v.slot n) in
    let found : reference_of (lookup n t.members) (lookup n t.floors) ≡ some current =
      rw q (visible_reference n current (lookup n t.floors) slot) in
    let reference : reference_of (lookup u.member.node_id t.members)
          (lookup u.member.node_id t.floors)
        ≡ some current =
      rw named found in
    let superseded = ap (admitted u.member) reference ∙ admits in
    elim (merge-cases u t) [
      | inl r ↦ elim r.because [
        | inl bad ↦ absurd (ground arith)
        | inr none_admitted ↦ absurd (ground arith)
      ]
      | inr l ↦
          let same : l.m ≡ next = ground (arith, l.admits) in
          let m_named : l.m.node_id ≡ n = ap (λ (m : Member). m.node_id) same ∙ next_named in
          let (p, f) = landed_at n l.m t m_named in
          record {
            raised = l.changes;
            shown = ap (λ (s : Table). lookup n s.members) l.lands ∙ p ∙ ap some same;
            announced = l.announces ∙ same;
            others = λ k other.
                ap (λ (s : Table). lookup k s.members) l.lands
                ∙ (landed_other l.m t k (rw m_named other)).0;
          }
    ]
