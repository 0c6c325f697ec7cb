-- ===== src/Swim/Dissemination/Selection.antt =====
-- What Peek of internal/swim/dissemination.go selects.
use crane.Base.{
  ℕ, ◌≤◌, ◌≡◌, refl, sym, ap, subst, ◌⊎◌, inl, inr, ltb, ◌==◌, false, ◌||◌, List, [], ◌∷◌, ◌++◌,
  length, arith, Bool-cases, Result-cases, Result, ok, err, not_ltb→le, ok_eq, ok_or_err,
}
use crane.Swim.Types.{Update}
use crane.Swim.Dissemination.{
  Item, Disseminator, Batch, retransmit_budget, candidates, prioritized, remaining, select,
  tokens_of, empty_batch, peek,
}

module _ {E : Type 0} (encode : List Update → Result E (List ℕ)) where
  -- Nothing is selected, or what the encoder fits into the bytes.
  abbrev pub FitsInto : ℕ → List Update → Type 0
  FitsInto max_bytes updates =
      (updates ≡ []) ⊎ ((bytes : List ℕ) × (encode updates ≡ ok bytes) × (length bytes ≤ max_bytes))

  select-FitsInto :
      (max_bytes : ℕ) (selected : List Update) (items : List Item) (updates : List Update)
      → FitsInto max_bytes selected
      → select encode max_bytes selected items ≡ ok updates
      → FitsInto max_bytes updates
  select-FitsInto max_bytes selected [] updates f q = subst (FitsInto max_bytes) (ground arith) f
  select-FitsInto max_bytes selected (item ∷ items) updates f q =
      let trial = selected ++ (item.update ∷ []) in
      elim (Result-cases (encode trial)) [
        | inr (e, x) ↦ absurd (ground arith)
        | inl (bytes, x) ↦ elim (Bool-cases (ltb max_bytes (length bytes))) [
          | inl over ↦ subst (FitsInto max_bytes) (ground arith) f
          | inr fits ↦
              select-FitsInto max_bytes trial items updates
                (inr (bytes, x, not_ltb→le max_bytes (length bytes) fits)) (ground arith)
        ]
      ]

  -- A batch that Peek returns has no updates, or the encoder makes at most the bytes that were allowed of
  -- them.
  pub peek_fits :
      (max_bytes alive_members : ℕ) (d : Disseminator) (batch : Batch)
      → (peek encode max_bytes alive_members d).0 ≡ ok batch
      → (batch.updates ≡ [])
        ⊎ ((bytes : List ℕ) × (encode batch.updates ≡ ok bytes) × (length bytes ≤ max_bytes))
  unfolding peek
  peek_fits max_bytes alive_members d batch q =
      let budget = retransmit_budget d.retransmit_multiplier alive_members in
      let found = prioritized (candidates budget d.items) in
      let outcome = (peek encode max_bytes alive_members d).0 in
      elim (Bool-cases (length d.items == 0)) [
        | inl empty ↦
            let e : outcome ≡ ok (empty_batch 0) = rw (peek, empty) refl in
            inl (ap (λ (b : Batch). b.updates) (sym (ok_eq outcome e q)))
        | inr queued ↦ elim (Bool-cases ((max_bytes == 0) || (length found == 0))) [
          | inl idle ↦
              let e : outcome ≡ ok (empty_batch budget) = rw (peek, queued) (rw idle refl) in
              inl (ap (λ (b : Batch). b.updates) (sym (ok_eq outcome e q)))
          | inr on ↦ elim (Result-cases (select encode max_bytes [] found)) [
            | inr (e, x) ↦
                let failed : outcome ≡ err e = rw (peek, queued) (rw on (rw x refl)) in
                absurd (ok_or_err outcome q failed)
            | inl (updates, x) ↦
                let made : Batch = record {
                  updates = updates;
                  tokens = tokens_of (remaining budget d.items) updates;
                  budget = budget;
                  reserved = false;
                } in
                let e : outcome ≡ ok made = rw (peek, queued) (rw on (rw x refl)) in
                subst (FitsInto max_bytes) (ap (λ (b : Batch). b.updates) (ok_eq outcome e q))
                  (select-FitsInto max_bytes [] found updates (inl refl) x)
          ]
        ]
      ]
