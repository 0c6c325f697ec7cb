-- ===== src/Swim/Examples/Queues.antt =====
-- A queue of internal/swim/dissemination.go for two updates, and the theorems on Dissemination applied
-- to it.
use crane.Base.{
  ℕ, ◌*◌, ◌^◌, ◌≤◌, ◌<◌, ◌≡◌, ◌⊎◌, refl, true, false, List, [], ◌∷◌, length, Result, ok, err, arith,
}
use crane.Base.Maps.{lookup, insert}
use crane.Raft.Types.{Error}
use crane.Swim.Types.{Update, alive, suspect, dead}
use crane.Swim.Dissemination.{
  Item, Disseminator, Batch, new_disseminator, bit_length, max_int, retransmit_budget, enqueue,
  peek, reserve,
}
use crane.Swim.Dissemination.Budget.{retransmit_budget_lem}
use crane.Swim.Dissemination.Bounds.{Call, enqueued, peeked, perform_all, queue_bounded}
use crane.Swim.Dissemination.Coverage.{Carried, enqueue_covers}
use crane.Swim.Dissemination.Selection.{peek_fits}
use crane.Swim.Dissemination.Reservations.{reserve_refused}

abbrev news : ℕ → ℕ → ℕ → Update
news id incarnation status = record {
  member = record {
    node_id = id;
    host = 104 ∷ [];
    base_port = 7000;
    incarnation = incarnation;
    status = status;
  };
  reporter_id = 1;
}

-- Ten bytes for each update.
abbrev ten_each : List Update → Result Error (List ℕ)
ten_each [] = ok []
ten_each (u ∷ us) = elim (ten_each us) [
  | err e ↦ err e
  | ok bytes ↦ ok (0 ∷ 1 ∷ 2 ∷ 3 ∷ 4 ∷ 5 ∷ 6 ∷ 7 ∷ 8 ∷ 9 ∷ bytes)
]

abbrev item : Update → ℕ → Item
item update sequence = record {
  update = update;
  sequence = sequence;
  transmissions = 0;
  in_flight = 0;
}

abbrev queue : Disseminator
queue = record (new_disseminator 2 3) {
  next_sequence = 3;
  items = (7, item (news 7 2 suspect) 1) ∷ (9, item (news 9 1 dead) 2) ∷ [];
}

retransmit_budget_example :
    (4 < 2 ^ bit_length 4)
    × (2 ^ bit_length 4 ≤ 2 * 4)
    × ((3 * bit_length 4 ≤ max_int) × (retransmit_budget 3 4 ≡ 3 * bit_length 4)
        ⊎ (max_int < 3 * bit_length 4) × (retransmit_budget 3 4 ≡ max_int))
retransmit_budget_example = retransmit_budget_lem 3 4 (omega arith) (omega arith) (omega arith)

abbrev calls : List Call
calls = enqueued (news 7 3 alive) 4 ∷ enqueued (news 8 1 suspect) 4 ∷ peeked 25 4 ∷ []

queue_bounded_example : length (perform_all ten_each calls queue).items ≤ 2
queue_bounded_example = queue_bounded ten_each calls queue (omega arith)

enqueue_covers_example :
    ((enqueue (news 8 1 suspect) 4 queue).digest_required ≡ true)
    ⊎ Carried (news 8 1 suspect).member (enqueue (news 8 1 suspect) 4 queue)
enqueue_covers_example = enqueue_covers (news 8 1 suspect) 4 queue refl

-- Both updates are pending; one of them fits.
abbrev one_update : Batch
one_update = record {
  updates = news 9 1 dead ∷ [];
  tokens = record { node_id = 9; sequence = 2 } ∷ [];
  budget = 9;
  reserved = false;
}

one_peeked : (peek ten_each 15 4 queue).0 ≡ ok one_update
unfolding peek lookup
one_peeked = refl

peek_fits_example :
    (one_update.updates ≡ [])
    ⊎ ((bytes : List ℕ) × (ten_each one_update.updates ≡ ok bytes) × (length bytes ≤ 15))
peek_fits_example = peek_fits ten_each 15 4 queue one_update one_peeked

-- The second token is of an item that was replaced.
abbrev stale : Batch
stale = record {
  updates = news 7 2 suspect ∷ news 9 1 dead ∷ [];
  tokens = record { node_id = 7; sequence = 1 } ∷ record { node_id = 9; sequence = 1 } ∷ [];
  budget = 9;
  reserved = false;
}

stale_refused : (reserve stale queue).0 ≡ false
unfolding reserve lookup insert
stale_refused = refl

reserve_refused_example : lookup 7 (reserve stale queue).2.items ≡ lookup 7 queue.items
reserve_refused_example = reserve_refused stale queue 7 stale_refused
