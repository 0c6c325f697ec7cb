-- ===== src/Swim/Dissemination.antt =====
-- internal/swim/dissemination.go: the bounded queue of membership updates that are still to be sent.
-- Go's ints are natural numbers: a bound, a multiplier or a count of members that is not positive reads
-- as 0, which the source treats alike.
pub mod Budget
pub mod Bounds
pub mod Coverage
pub mod Selection
pub mod Reservations
use crane.Base.{
  ℕ, zero, suc, ◌+◌, ◌-◌, ◌*◌, ◌/◌, ltb, leb, ◌==◌, max_u64, Bool, true, false, ◌&&◌, ◌||◌, not,
  Option, none, some, List, [], ◌∷◌, ◌++◌, length, if◌then◌else◌, Result, ok, err,
}
use crane.Base.Maps.{lookup, insert, remove}
use crane.Swim.Types.{Member, Update, is_status}

-- math.MaxInt on 64 bits.
abbrev pub max_int : ℕ
max_int = 9223372036854775807

-- bits.Len: the halvings that it takes to reach 0.
abbrev pub halvings : ℕ → ℕ → ℕ
halvings zero n = 0
halvings (suc rounds) n = let rest = halvings rounds (n / 2) in if n == 0 then 0 else suc rest

-- A word has 64 bits, so that 64 rounds are enough.
unfoldable pub bit_length : ℕ → ℕ
bit_length n = halvings 64 n

unfoldable pub retransmit_budget : ℕ → ℕ → ℕ
unfolding bit_length
retransmit_budget multiplier alive_members =
    if (multiplier == 0) || (alive_members == 0)
    then 0
    else if ltb (max_int / bit_length alive_members) multiplier
    then max_int
    else multiplier * bit_length alive_members

pub record Item : Type 0 where
  pub update : Update
  pub sequence : ℕ
  pub transmissions : ℕ
  pub in_flight : ℕ

pub record Disseminator : Type 0 where
  pub digest_required : Bool
  pub max_items : ℕ
  pub retransmit_multiplier : ℕ
  pub next_sequence : ℕ
  pub digest_generation : ℕ
  pub items : List (ℕ × Item)

pub record Token : Type 0 where
  pub node_id : ℕ
  pub sequence : ℕ

pub record Batch : Type 0 where
  pub updates : List Update
  pub tokens : List Token
  pub budget : ℕ
  pub reserved : Bool

abbrev pub new_disseminator : ℕ → ℕ → Disseminator
new_disseminator max_items retransmit_multiplier = record {
  digest_required = false;
  max_items = max_items;
  retransmit_multiplier = retransmit_multiplier;
  next_sequence = 1;
  digest_generation = 0;
  items = [];
}

abbrev pub is_valid_update : Update → Bool
is_valid_update update =
    not (update.member.node_id == 0)
    && not (update.member.incarnation == 0)
    && not (update.reporter_id == 0)
    && is_status update.member.status

-- `mergePendingUpdate`: the update that is to be pending, if it changes.
abbrev pub merge_pending_update : Update → Update → Option Update
merge_pending_update current incoming =
    if ltb incoming.member.incarnation current.member.incarnation
    then none
    else if ltb current.member.incarnation incoming.member.incarnation
    then some incoming
    else if leb incoming.member.status current.member.status
    then none
    else some
        (record incoming { member = record current.member { status = incoming.member.status } })

-- What `Enqueue` goes on with, beside what is pending for the node.
abbrev pub pending_update : Option Item → Update → Option Update
pending_update none update = some update
pending_update (some current) update = merge_pending_update current.update update

-- The generation wraps around to 1.
unfoldable pub require_digest : Disseminator → Disseminator
require_digest d = record d {
  digest_required = true;
  digest_generation = if d.digest_generation == max_u64 then 1 else d.digest_generation + 1;
}

unfoldable pub mark_digest_repaired : ℕ → Disseminator → Bool × Disseminator
mark_digest_repaired generation d =
    if not d.digest_required || (generation == 0) || not (generation == d.digest_generation)
    then (false, d)
    else (true, record d { digest_required = false })

-- `d.nextSequence` after `takeSequence`, which stops at the end of its range.
abbrev pub following_sequence : ℕ → ℕ
following_sequence sequence = if ltb sequence max_u64 then sequence + 1 else sequence

abbrev pub is_present : {A : Type 0} → Option A → Bool
is_present none = false
is_present (some a) = true

-- `Enqueue` once the update to be pending is known.
unfoldable pub admit : ℕ → Update → ℕ → Disseminator → Disseminator
unfolding require_digest retransmit_budget
admit id update alive_members d =
    if (d.max_items == 0) || (retransmit_budget d.retransmit_multiplier alive_members == 0)
    then require_digest (record d { items = remove id d.items })
    else if not (is_present (lookup id d.items)) && leb d.max_items (length d.items)
    then require_digest d
    else record d {
      items =
          insert id
            (record {
              update = update;
              sequence = d.next_sequence;
              transmissions = 0;
              in_flight = 0;
            })
            d.items;
      next_sequence = following_sequence d.next_sequence;
    }

unfoldable pub enqueue : Update → ℕ → Disseminator → Disseminator
unfolding admit
enqueue update alive_members d =
    if not (is_valid_update update)
    then d
    else elim (pending_update (lookup update.member.node_id d.items) update) [
      | none ↦ d
      | some merged ↦ admit update.member.node_id merged alive_members d
    ]

-- The loop of `Peek` over the queue: what is exhausted goes, and what is wholly in flight is passed over.
abbrev pub remaining : ℕ → List (ℕ × Item) → List (ℕ × Item)
remaining budget [] = []
remaining budget (row ∷ rows) =
    let rest = remaining budget rows in if leb budget row.1.transmissions then rest else row ∷ rest

abbrev pub candidates : ℕ → List (ℕ × Item) → List Item
candidates budget [] = []
candidates budget (row ∷ rows) =
    let rest = candidates budget rows in
    if leb budget row.1.transmissions
    then rest
    else if leb budget (row.1.transmissions + row.1.in_flight)
    then rest
    else row.1 ∷ rest

-- The order of the candidates: the more severe status, the older sequence, the lower node.
abbrev pub precedes : Item → Item → Bool
precedes a b =
    if not (a.update.member.status == b.update.member.status)
    then ltb b.update.member.status a.update.member.status
    else if not (a.sequence == b.sequence)
    then ltb a.sequence b.sequence
    else ltb a.update.member.node_id b.update.member.node_id

-- sort.Slice, whose result the order determines, since the nodes differ.
abbrev pub place : Item → List Item → List Item
place x [] = x ∷ []
place x (y ∷ ys) = let rest = place x ys in if precedes y x then y ∷ rest else x ∷ y ∷ ys

abbrev pub prioritized : List Item → List Item
prioritized [] = []
prioritized (x ∷ xs) = place x (prioritized xs)

-- The tokens of the selected updates, which all come from the queue.
abbrev pub tokens_of : List (ℕ × Item) → List Update → List Token
tokens_of items [] = []
tokens_of items (update ∷ updates) =
    let rest = tokens_of items updates in
    elim (lookup update.member.node_id items) [
      | none ↦ rest
      | some item ↦ record { node_id = update.member.node_id; sequence = item.sequence } ∷ rest
    ]

abbrev pub empty_batch : ℕ → Batch
empty_batch budget = record { updates = []; tokens = []; budget = budget; reserved = false }

module _ {E : Type 0} (encode : List Update → Result E (List ℕ)) where
  -- The loop that takes candidates as long as the encoding of all of them fits.
  abbrev pub select : ℕ → List Update → List Item → Result E (List Update)
  select max_bytes selected [] = ok selected
  select max_bytes selected (item ∷ items) =
      let trial = selected ++ (item.update ∷ []) in
      let rest = select max_bytes trial items in
      elim (encode trial) [
        | err e ↦ err e
        | ok encoded ↦ if ltb max_bytes (length encoded) then ok selected else rest
      ]

  -- `Peek`, and the queue without what is exhausted.
  unfoldable pub peek : ℕ → ℕ → Disseminator → Result E Batch × Disseminator
  unfolding retransmit_budget
  peek max_bytes alive_members d =
      let budget = retransmit_budget d.retransmit_multiplier alive_members in
      let found = prioritized (candidates budget d.items) in
      let kept : Disseminator = record d { items = remaining budget d.items } in
      if length d.items == 0
      then (ok (empty_batch 0), d)
      else if (max_bytes == 0) || (length found == 0)
      then (ok (empty_batch budget), kept)
      else elim (select max_bytes [] found) [
        | err e ↦ (err e, kept)
        | ok updates ↦ (
          ok (record {
            updates = updates;
            tokens = tokens_of kept.items updates;
            budget = budget;
            reserved = false;
          }),
          kept,
        )
      ]

-- The reservations made so far, taken back.
abbrev pub take_back : List ℕ → List (ℕ × Item) → List (ℕ × Item)
take_back [] items = items
take_back (id ∷ ids) items = elim (lookup id items) [
  | none ↦ take_back ids items
  | some item ↦ take_back ids (insert id (record item { in_flight = item.in_flight - 1 }) items)
]

-- The loop of `Reserve`, with the nodes reserved so far.
abbrev pub reserve_tokens : ℕ → List ℕ → List Token → List (ℕ × Item) → Bool × List (ℕ × Item)
reserve_tokens budget done [] items = (true, items)
reserve_tokens budget done (token ∷ tokens) items = elim (lookup token.node_id items) [
  | none ↦ (false, take_back done items)
  | some item ↦
      let rest =
        reserve_tokens budget (token.node_id ∷ done) tokens
          (insert token.node_id (record item { in_flight = item.in_flight + 1 }) items) in
      if not (item.sequence == token.sequence) || leb budget (item.transmissions + item.in_flight)
      then (false, take_back done items)
      else rest
]

unfoldable pub reserve : Batch → Disseminator → Bool × Batch × Disseminator
reserve batch d =
    let outcome = reserve_tokens batch.budget [] batch.tokens d.items in
    if length batch.tokens == 0
    then (true, batch, d)
    else if batch.budget == 0
    then (false, batch, d)
    else if outcome.0
    then (true, record batch { reserved = true }, record d { items = outcome.1 })
    else (false, batch, record d { items = outcome.1 })

abbrev pub release_tokens : List Token → List (ℕ × Item) → List (ℕ × Item)
release_tokens [] items = items
release_tokens (token ∷ tokens) items = elim (lookup token.node_id items) [
  | none ↦ release_tokens tokens items
  | some item ↦
      let rest = release_tokens tokens items in
      if (item.sequence == token.sequence) && ltb 0 item.in_flight
      then release_tokens tokens
          (insert token.node_id (record item { in_flight = item.in_flight - 1 }) items)
      else rest
]

unfoldable pub release : Batch → Disseminator → Disseminator
release batch d =
    if not batch.reserved then d else record d { items = release_tokens batch.tokens d.items }

-- One healthy delivery of an item, which goes once its budget is spent.
abbrev pub charge : ℕ → ℕ → Item → List (ℕ × Item) → List (ℕ × Item)
charge budget id item items =
    if leb budget (item.transmissions + 1)
    then remove id items
    else insert id (record item { transmissions = item.transmissions + 1 }) items

abbrev pub commit_token : Batch → Token → List (ℕ × Item) → List (ℕ × Item)
commit_token batch token items = elim (lookup token.node_id items) [
  | none ↦ items
  | some item ↦
      if not (item.sequence == token.sequence)
      then items
      else if batch.reserved
      then (if item.in_flight == 0
          then items
          else charge batch.budget token.node_id (record item { in_flight = item.in_flight - 1 })
              items)
      else charge batch.budget token.node_id item items
]

abbrev pub commit_tokens : Batch → List Token → List (ℕ × Item) → List (ℕ × Item)
commit_tokens batch [] items = items
commit_tokens batch (token ∷ tokens) items =
    commit_tokens batch tokens (commit_token batch token items)

unfoldable pub commit : Batch → Disseminator → Disseminator
commit batch d =
    if batch.budget == 0 then d else record d { items = commit_tokens batch batch.tokens d.items }

module _ {E : Type 0} (encode : List Update → Result E (List ℕ)) where
  -- `Take`.
  unfoldable pub take_updates : ℕ → ℕ → Disseminator → Result E (List Update) × Disseminator
  unfolding peek commit
  take_updates max_bytes alive_members d =
      let (peeked, kept) = peek encode max_bytes alive_members d in
      elim peeked [ err e ↦ (err e, kept) | ok batch ↦ (ok batch.updates, commit batch kept) ]
