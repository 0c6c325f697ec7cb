-- ===== src/Swim/Dissemination/Bounds.antt =====
-- The queue of internal/swim/dissemination.go never holds more than its maximum.
use crane.Base.{
  ℕ, ◌+◌, ◌-◌, ◌≤◌, ◌≡◌, refl, subst, ◌∙◌, inl, inr, ltb, leb, ◌==◌, false, ◌&&◌, ◌||◌, not, some,
  List, [], ◌∷◌, length, arith, Bool-cases, Option-cases, Result,
}
use crane.Base.Maps.{lookup, insert, remove, length-insert, length-remove}
use crane.Swim.Types.{Update}
use crane.Swim.Dissemination.{
  Item, Disseminator, Token, Batch, is_valid_update, pending_update, require_digest,
  mark_digest_repaired, is_present, admit, enqueue, remaining, retransmit_budget, peek, take_back,
  reserve_tokens, reserve, release_tokens, release, charge, commit_token, commit_tokens, commit,
}

-- A change of a row that is there.
pub length-update :
    (id : ℕ) (item : Item) (items : List (ℕ × Item)) {old : Item}
    → lookup id items ≡ some old
    → length (insert id item items) ≡ length items
length-update id item items q = rw q at (length-insert id item items)

length-remaining :
    (budget : ℕ) (items : List (ℕ × Item)) → length (remaining budget items) ≤ length items
length-remaining budget [] = omega arith
length-remaining budget (row ∷ rows) = let h = length-remaining budget rows in ground arith

length-take_back :
    (done : List ℕ) (items : List (ℕ × Item)) → length (take_back done items) ≡ length items
length-take_back [] items = refl
length-take_back (id ∷ ids) items = elim (Option-cases (lookup id items)) [
  | inl q ↦ rw (length, q) (length-take_back ids items)
  | inr (item, q) ↦
      let next = insert id (record item { in_flight = item.in_flight - 1 }) items in
      rw (length, q) (length-take_back ids next ∙ length-update id _ items q)
]

length-reserve_tokens :
    (budget : ℕ) (done : List ℕ) (tokens : List Token) (items : List (ℕ × Item))
    → length (reserve_tokens budget done tokens items).1 ≡ length items
length-reserve_tokens budget done [] items = refl
length-reserve_tokens budget done (token ∷ tokens) items =
    elim (Option-cases (lookup token.node_id items)) [
      | inl q ↦ rw (length, q) (length-take_back done items)
      | inr (item, q) ↦
          let next = insert token.node_id (record item { in_flight = item.in_flight + 1 }) items in
          let rest =
            length-reserve_tokens budget (token.node_id ∷ done) tokens next
            ∙ length-update token.node_id _ items q in
          elim (Bool-cases (
            not (item.sequence == token.sequence)
            || leb budget (item.transmissions + item.in_flight))) [
              | inl bad ↦ rw (length, q) (rw (length, bad) (length-take_back done items))
              | inr good ↦ rw (length, q) (rw good rest)
            ]
    ]

length-release_tokens :
    (tokens : List Token) (items : List (ℕ × Item))
    → length (release_tokens tokens items) ≡ length items
length-release_tokens [] items = refl
length-release_tokens (token ∷ tokens) items = elim (Option-cases (lookup token.node_id items)) [
  | inl q ↦ rw (length, q) (length-release_tokens tokens items)
  | inr (item, q) ↦
      let next = insert token.node_id (record item { in_flight = item.in_flight - 1 }) items in
      elim (Bool-cases ((item.sequence == token.sequence) && ltb 0 item.in_flight)) [
        | inl held ↦
            rw (length, q)
              (rw (length, held)
                (length-release_tokens tokens next ∙ length-update token.node_id _ items q))
        | inr other ↦ rw (length, q) (rw (length, other) (length-release_tokens tokens items))
      ]
]

length-charge :
    (budget id : ℕ) (item old : Item) (items : List (ℕ × Item))
    → lookup id items ≡ some old
    → length (charge budget id item items) ≤ length items
length-charge budget id item old items q =
    let r = length-remove id items in
    let u = length-update id (record item { transmissions = item.transmissions + 1 }) items q in
    ground arith

length-commit_token :
    (batch : Batch) (token : Token) (items : List (ℕ × Item))
    → length (commit_token batch token items) ≤ length items
length-commit_token batch token items = elim (Option-cases (lookup token.node_id items)) [
  | inl q ↦ rw (length, q) (omega arith)
  | inr (item, q) ↦
      let spent =
        length-charge batch.budget token.node_id (record item { in_flight = item.in_flight - 1 })
          item items q in
      let sent = length-charge batch.budget token.node_id item item items q in
      elim (Bool-cases (not (item.sequence == token.sequence))) [
        | inl other ↦ rw (length, q) (rw (length, other) (omega arith))
        | inr same ↦ elim (Bool-cases batch.reserved) [
          | inr free ↦ rw (length, q) (rw (length, same) (rw free sent))
          | inl reserved ↦ elim (Bool-cases (item.in_flight == 0)) [
            | inl idle ↦
                rw (length, q)
                  (rw (length, same) (rw (length, reserved) (rw (length, idle) (omega arith))))
            | inr busy ↦ rw (length, q) (rw (length, same) (rw (length, reserved) (rw busy spent)))
          ]
        ]
      ]
]

length-commit_tokens :
    (batch : Batch) (tokens : List Token) (items : List (ℕ × Item))
    → length (commit_tokens batch tokens items) ≤ length items
length-commit_tokens batch [] items = omega arith
length-commit_tokens batch (token ∷ tokens) items = omega (
  arith,
  length-commit_token batch token items,
  length-commit_tokens batch tokens (commit_token batch token items),
)

record Within (d : Disseminator) (maximum : ℕ) : Type 0 where
  same_maximum : d.max_items ≡ maximum
  fits : length d.items ≤ maximum

require_digest-Within :
    (d : Disseminator) (maximum : ℕ) → Within d maximum → Within (require_digest d) maximum
unfolding require_digest
require_digest-Within d maximum w = record { same_maximum = w.same_maximum; fits = w.fits }

-- With the node's row there, or with room for one more.
insert_fits :
    (id : ℕ) (item : Item) (items : List (ℕ × Item)) (maximum : ℕ)
    → length items ≤ maximum
    → (not (is_present (lookup id items)) && leb maximum (length items)) ≡ false
    → length (insert id item items) ≤ maximum
insert_fits id item items maximum h r = elim (Option-cases (lookup id items)) [
  | inr (old, q) ↦ omega (arith, h, length-update id item items q)
  | inl q ↦
      let grown = rw q at (length-insert id item items) in let room = rw q at r in ground arith
]

admit-Within :
    (id : ℕ) (update : Update) (alive_members : ℕ) (d : Disseminator) (maximum : ℕ)
    → Within d maximum
    → Within (admit id update alive_members d) maximum
unfolding admit
admit-Within id update alive_members d maximum w =
    elim (Bool-cases
      ((d.max_items == 0) || (retransmit_budget d.retransmit_multiplier alive_members == 0))) [
        | inl off ↦
            rw (admit, off)
              (require_digest-Within (record d { items = remove id d.items }) maximum
                (record {
                  same_maximum = w.same_maximum;
                  fits = omega (arith, w.fits, length-remove id d.items);
                }))
        | inr on ↦
            elim (Bool-cases
              (not (is_present (lookup id d.items)) && leb d.max_items (length d.items))) [
                | inl full ↦ rw (admit, on) (rw full (require_digest-Within d maximum w))
                | inr room ↦
                    rw (admit, on)
                      (rw room (record {
                        same_maximum = w.same_maximum;
                        fits = insert_fits id _ d.items maximum w.fits (
                            subst
                              (λ (n : ℕ).
                                (not (is_present (lookup id d.items)) && leb n (length d.items))
                                ≡ false)
                              w.same_maximum room);
                      }))
              ]
      ]

enqueue-Within :
    (update : Update) (alive_members : ℕ) (d : Disseminator) (maximum : ℕ)
    → Within d maximum
    → Within (enqueue update alive_members d) maximum
unfolding enqueue
enqueue-Within update alive_members d maximum w = elim (Bool-cases (is_valid_update update)) [
  | inr bad ↦ rw (enqueue, bad) w
  | inl good ↦ elim (Option-cases (pending_update (lookup update.member.node_id d.items) update)) [
    | inl q ↦ rw (enqueue, good) (rw q w)
    | inr (merged, q) ↦
        rw (enqueue, good)
          (rw q (admit-Within update.member.node_id merged alive_members d maximum w))
  ]
]

-- A call on the queue that may change it; Take is Peek and then Commit.
pub data Call : Type 0 where
  enqueued : Update → ℕ → Call
  peeked : ℕ → ℕ → Call
  reserved : Batch → Call
  released : Batch → Call
  committed : Batch → Call
  repaired : ℕ → Call

module _ {E : Type 0} (encode : List Update → Result E (List ℕ)) where
  abbrev pub perform : Call → Disseminator → Disseminator
  perform (enqueued update alive_members) d = enqueue update alive_members d
  perform (peeked max_bytes alive_members) d = (peek encode max_bytes alive_members d).1
  perform (reserved batch) d = (reserve batch d).2
  perform (released batch) d = release batch d
  perform (committed batch) d = commit batch d
  perform (repaired generation) d = (mark_digest_repaired generation d).1

  abbrev pub perform_all : List Call → Disseminator → Disseminator
  perform_all [] d = d
  perform_all (c ∷ cs) d = perform_all cs (perform c d)

  perform-Within :
      (c : Call) (d : Disseminator) (maximum : ℕ) → Within d maximum → Within (perform c d) maximum
  unfolding peek reserve release commit mark_digest_repaired
  perform-Within (enqueued update alive_members) d maximum w =
      enqueue-Within update alive_members d maximum w
  perform-Within (peeked max_bytes alive_members) d maximum w =
      let kept =
        length-remaining (retransmit_budget d.retransmit_multiplier alive_members) d.items in
      record { same_maximum = ground (arith, w.same_maximum); fits = ground (arith, w.fits, kept) }
  perform-Within (reserved batch) d maximum w =
      let kept = length-reserve_tokens batch.budget [] batch.tokens d.items in
      record { same_maximum = ground (arith, w.same_maximum); fits = ground (arith, w.fits, kept) }
  perform-Within (released batch) d maximum w =
      let kept = length-release_tokens batch.tokens d.items in
      record { same_maximum = ground (arith, w.same_maximum); fits = ground (arith, w.fits, kept) }
  perform-Within (committed batch) d maximum w =
      let kept = length-commit_tokens batch batch.tokens d.items in
      record { same_maximum = ground (arith, w.same_maximum); fits = ground (arith, w.fits, kept) }
  perform-Within (repaired generation) d maximum w = record {
    same_maximum = ground (arith, w.same_maximum);
    fits = ground (arith, w.fits);
  }

  perform_all-Within :
      (cs : List Call) (d : Disseminator) (maximum : ℕ)
      → Within d maximum
      → Within (perform_all cs d) maximum
  perform_all-Within [] d maximum w = w
  perform_all-Within (c ∷ cs) d maximum w =
      perform_all-Within cs (perform c d) maximum (perform-Within c d maximum w)

  -- Over any sequence of calls the queue holds at most its maximum of updates, whatever the encoder of
  -- batches does.
  pub queue_bounded :
      (cs : List Call) (d : Disseminator)
      → length d.items ≤ d.max_items
      → length (perform_all cs d).items ≤ d.max_items
  queue_bounded cs d h =
      (perform_all-Within cs d d.max_items (record { same_maximum = refl; fits = h })).fits
