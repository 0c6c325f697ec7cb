-- ===== src/Swim/Dissemination/Reservations.antt =====
-- Reserve of internal/swim/dissemination.go: all of a batch or nothing.
use crane.Base.{
  ℕ, suc, ◌+◌, ◌-◌, ◌≡◌, refl, sym, ap, ◌∙◌, inl, inr, leb, ◌==◌, Bool, true, false, ◌||◌, not,
  Option, none, some, List, [], ◌∷◌, if◌then◌else◌, arith, Bool-cases, Option-cases, ==→≡,
}
use crane.Base.Maps.{lookup, insert, lookup-insert}
use crane.Swim.Dissemination.{Item, Disseminator, Token, Batch, take_back, reserve_tokens, reserve}

-- An item with some reservations fewer.
lowered : ℕ → Option Item → Option Item
lowered k none = none
lowered k (some item) = some (record item { in_flight = item.in_flight - k })

times : ℕ → List ℕ → ℕ
times n [] = 0
times n (id ∷ ids) = let rest = times n ids in if id == n then suc rest else rest

lowered_zero : (o : Option Item) → lowered 0 o ≡ o
unfolding lowered
lowered_zero none = refl
lowered_zero (some item) = let e : item.in_flight - 0 ≡ item.in_flight = omega arith in rw e refl

lowered_twice :
    (k : ℕ) (item : Item)
    → lowered k (some (record item { in_flight = item.in_flight - 1 }))
      ≡ lowered (suc k) (some item)
unfolding lowered
lowered_twice k item =
    let e : item.in_flight - 1 - k ≡ item.in_flight - suc k = omega arith in rw e refl

lowered_raised :
    (k : ℕ) (item : Item)
    → lowered (suc k) (some (record item { in_flight = item.in_flight + 1 }))
      ≡ lowered k (some item)
unfolding lowered
lowered_raised k item =
    let e : item.in_flight + 1 - suc k ≡ item.in_flight - k = omega arith in rw e refl

lookup_written :
    (id n : ℕ) (item : Item) (items : List (ℕ × Item))
    → (id == n) ≡ true
    → lookup n (insert id item items) ≡ some item
lookup_written id n item items h = lookup-insert id n item items ∙ simp h refl

lookup_kept :
    (id n : ℕ) (item : Item) (items : List (ℕ × Item))
    → (id == n) ≡ false
    → lookup n (insert id item items) ≡ lookup n items
lookup_kept id n item items h = lookup-insert id n item items ∙ simp h refl

times_here : (n id : ℕ) (ids : List ℕ) → (id == n) ≡ true → times n (id ∷ ids) ≡ suc (times n ids)
unfolding times
times_here n id ids h = rw h refl

times_elsewhere : (n id : ℕ) (ids : List ℕ) → (id == n) ≡ false → times n (id ∷ ids) ≡ times n ids
unfolding times
times_elsewhere n id ids h = rw h refl

-- One reservation more among those taken back, and one fewer in the queue.
lower_one :
    (n id : ℕ) (ids : List ℕ) (item : Item) (items : List (ℕ × Item))
    → lookup id items ≡ some item
    → lowered
        (times n ids)
        (lookup n (insert id (record item { in_flight = item.in_flight - 1 }) items))
      ≡ lowered (times n (id ∷ ids)) (lookup n items)
lower_one n id ids item items q = elim (Bool-cases (id == n)) [
  | inl same ↦
      let e : lookup n items ≡ some item = rw (==→≡ id n same) at q in
      rw (lookup_written id n _ items same, times_here n id ids same, e)
        (lowered_twice (times n ids) item)
  | inr other ↦ rw (lookup_kept id n _ items other, times_elsewhere n id ids other) refl
]

raise_one :
    (n id : ℕ) (ids : List ℕ) (item : Item) (items : List (ℕ × Item))
    → lookup id items ≡ some item
    → lowered
        (times n (id ∷ ids))
        (lookup n (insert id (record item { in_flight = item.in_flight + 1 }) items))
      ≡ lowered (times n ids) (lookup n items)
raise_one n id ids item items q = elim (Bool-cases (id == n)) [
  | inl same ↦
      let e : lookup n items ≡ some item = rw (==→≡ id n same) at q in
      rw (lookup_written id n _ items same, times_here n id ids same, e)
        (lowered_raised (times n ids) item)
  | inr other ↦ rw (lookup_kept id n _ items other, times_elsewhere n id ids other) refl
]

absent_kept :
    (n id : ℕ) (ids : List ℕ) (items : List (ℕ × Item))
    → lookup id items ≡ none
    → lowered (times n ids) (lookup n items) ≡ lowered (times n (id ∷ ids)) (lookup n items)
unfolding lowered
absent_kept n id ids items q = elim (Bool-cases (id == n)) [
  | inl same ↦ let e : lookup n items ≡ none = rw (==→≡ id n same) at q in rw e refl
  | inr other ↦ rw (times_elsewhere n id ids other) refl
]

-- Taking back lowers each item by the times that its node was reserved.
lookup-take_back :
    (n : ℕ) (done : List ℕ) (items : List (ℕ × Item))
    → lookup n (take_back done items) ≡ lowered (times n done) (lookup n items)
lookup-take_back n [] items = unfold times in sym (lowered_zero (lookup n items))
lookup-take_back n (id ∷ ids) items = elim (Option-cases (lookup id items)) [
  | inl q ↦
      let skip : take_back (id ∷ ids) items ≡ take_back ids items = rw (take_back, q) refl in
      ap (lookup n) skip ∙ lookup-take_back n ids items ∙ absent_kept n id ids items q
  | inr (item, q) ↦
      let next = insert id (record item { in_flight = item.in_flight - 1 }) items in
      let step : take_back (id ∷ ids) items ≡ take_back ids next = rw (take_back, q) refl in
      ap (lookup n) step ∙ lookup-take_back n ids next ∙ lower_one n id ids item items q
]

refused_tokens :
    (budget : ℕ) (n : ℕ) (done : List ℕ) (tokens : List Token) (items : List (ℕ × Item))
    → (reserve_tokens budget done tokens items).0 ≡ false
    → lookup n (reserve_tokens budget done tokens items).1 ≡ lowered (times n done) (lookup n items)
refused_tokens budget n done [] items h = absurd (ground arith)
refused_tokens budget n done (token ∷ tokens) items h =
    let id = token.node_id in
    elim (Option-cases (lookup id items)) [
      | inl q ↦
          let stop : reserve_tokens budget done (token ∷ tokens) items
              ≡ (false, take_back done items) =
            rw (reserve_tokens, q) refl in
          ap (λ (o : Bool × List (ℕ × Item)). lookup n o.1) stop ∙ lookup-take_back n done items
      | inr (item, q) ↦
          let next = insert id (record item { in_flight = item.in_flight + 1 }) items in
          elim (Bool-cases (
            not (item.sequence == token.sequence)
            || leb budget (item.transmissions + item.in_flight))) [
              | inl bad ↦
                  let stop : reserve_tokens budget done (token ∷ tokens) items
                      ≡ (false, take_back done items) =
                    rw (reserve_tokens, q) (rw bad refl) in
                  ap (λ (o : Bool × List (ℕ × Item)). lookup n o.1) stop
                  ∙ lookup-take_back n done items
              | inr good ↦
                  let on : reserve_tokens budget done (token ∷ tokens) items
                      ≡ reserve_tokens budget (id ∷ done) tokens next =
                    rw (reserve_tokens, q) (rw good refl) in
                  ap (λ (o : Bool × List (ℕ × Item)). lookup n o.1) on
                  ∙ refused_tokens budget n (id ∷ done) tokens next (rw on at h)
                  ∙ raise_one n id done item items q
            ]
    ]

-- A batch that Reserve refuses leaves the queue as it was: every reservation that was made on the way is
-- taken back.
pub reserve_refused :
    (batch : Batch) (d : Disseminator) (n : ℕ)
    → (reserve batch d).0 ≡ false
    → lookup n (reserve batch d).2.items ≡ lookup n d.items
unfolding reserve
reserve_refused batch d n h =
    let outcome = reserve_tokens batch.budget [] batch.tokens d.items in
    elim (Bool-cases outcome.0) [
      | inl granted ↦ ground arith
      | inr refused ↦
          let same : lookup n outcome.1 ≡ lookup n d.items =
            refused_tokens batch.budget n [] batch.tokens d.items refused
            ∙ (unfold times in lowered_zero (lookup n d.items)) in
          ground arith
    ]
