-- ===== src/Swim/Suspicion.antt =====
-- internal/swim/suspicion.go: what the engine does with a membership update, with the suspicions and
-- tombstones that it holds, and when their time is over. Of the Engine of engine.go this is the part
-- without probes.
pub mod Refutation
pub mod Timeouts
pub mod Durations
use crane.Base.{
  ℕ, zero, suc, ◌+◌, ◌-◌, ◌*◌, ◌/◌, ltb, leb, ◌==◌, max_u64, Bool, true, false, ◌&&◌, ◌||◌, not,
  Option, none, some, List, [], ◌∷◌, ◌++◌, length, if◌then◌else◌,
}
use crane.Base.Maps.{lookup, insert, remove, contains}
use crane.Swim.Types.{
  Status, Member, Update, MembershipEvent, alive, suspect, dead, left, is_terminal,
}
use crane.Swim.Table.{Table, merge, expire_terminal}
use crane.Swim.Duration.{
  minimum_suspicion_duration, max_duration, max_time, suspicion_duration,
  multiply_duration_saturated, add_duration_saturated, leave_duration,
}
use crane.Swim.Dissemination.{
  Disseminator, max_int, bit_length, retransmit_budget, is_valid_update, enqueue,
}

pub record SuspicionState : Type 0 where
  pub incarnation : ℕ
  pub deadline : ℕ
  pub duration : ℕ
  pub reporters : List ℕ

pub record TombstoneState : Type 0 where
  pub incarnation : ℕ
  pub status : Status
  pub deadline : ℕ

pub data TimerKind : Type 0 where
  timer_suspicion timer_tombstone timer_leave_deadline : TimerKind

pub record TimerRequest : Type 0 where
  pub kind : TimerKind
  pub node_id : ℕ
  pub incarnation : ℕ
  pub status : Status
  pub deadline : ℕ

-- Without the outbound messages, which no handler here makes.
pub record Effects : Type 0 where
  pub timers : List TimerRequest
  pub events : List MembershipEvent
  pub persist_incarnation : Option ℕ
  pub snapshot_required : Bool

abbrev pub no_effects : Effects
no_effects = record {
  timers = [];
  events = [];
  persist_incarnation = none;
  snapshot_required = false;
}

pub record Engine : Type 0 where
  pub self_id : ℕ
  pub probe_interval : ℕ
  pub suspicion_multiplier : ℕ
  pub table : Table
  pub dissemination : Disseminator
  pub suspicions : List (ℕ × SuspicionState)
  pub tombstones : List (ℕ × TombstoneState)

abbrev pub count_alive : List (ℕ × Member) → ℕ
count_alive [] = 0
count_alive (row ∷ rows) =
    let rest = count_alive rows in if row.1.status == alive then suc rest else rest

abbrev pub alive_members : Engine → ℕ
alive_members e = count_alive e.table.members

unfoldable pub applied_transition : Effects → MembershipEvent → ℕ → Engine → Effects × Engine
applied_transition effects event reporter_id e =
    let queue =
      enqueue (record { member = event.current; reporter_id = reporter_id }) (alive_members e)
        e.dissemination in
    (
      record effects {
        events = effects.events ++ (event ∷ []);
        snapshot_required = queue.digest_required;
      },
      record e { dissemination = queue },
    )

abbrev pub suspicion_timer : ℕ → ℕ → ℕ → TimerRequest
suspicion_timer node_id incarnation deadline = record {
  kind = timer_suspicion;
  node_id = node_id;
  incarnation = incarnation;
  status = alive;
  deadline = deadline;
}

unfoldable pub begin_suspicion : Member → ℕ → ℕ → ℕ → Engine → TimerRequest × Engine
begin_suspicion m reporter_id members now e =
    let duration = suspicion_duration e.suspicion_multiplier e.probe_interval members in
    let deadline = add_duration_saturated now duration in
    (
      suspicion_timer m.node_id m.incarnation deadline,
      record e {
        suspicions =
            insert m.node_id
              (record {
                incarnation = m.incarnation;
                deadline = deadline;
                duration = duration;
                reporters = reporter_id ∷ [];
              })
              e.suspicions;
      },
    )

unfoldable pub begin_tombstone : Member → ℕ → Engine → TimerRequest × Engine
begin_tombstone m now e =
    let retention =
      multiply_duration_saturated
        (suspicion_duration e.suspicion_multiplier e.probe_interval (alive_members e)) 10 in
    let deadline = add_duration_saturated now retention in
    (
      record {
        kind = timer_tombstone;
        node_id = m.node_id;
        incarnation = m.incarnation;
        status = m.status;
        deadline = deadline;
      },
      record e {
        tombstones =
            insert m.node_id
              (record { incarnation = m.incarnation; status = m.status; deadline = deadline })
              e.tombstones;
      },
    )

-- A corroborated suspicion: one reporter more, and the deadline sooner where the rest allows it.
abbrev pub corroborated : ℕ → ℕ → ℕ → SuspicionState → SuspicionState
corroborated reporter_id probe_interval now s =
    let reporters = reporter_id ∷ s.reporters in
    let share = s.duration / length reporters in
    let remaining = if ltb share probe_interval then probe_interval else share in
    let candidate = add_duration_saturated now remaining in
    if ltb candidate s.deadline
    then record s { reporters = reporters; deadline = candidate }
    else record s { reporters = reporters }

unfoldable pub corroborate_suspicion : Member → ℕ → ℕ → Engine → Effects × Engine
corroborate_suspicion m reporter_id now e = elim (lookup m.node_id e.suspicions) [
  | none ↦ (no_effects, e)
  | some s ↦
      let next = corroborated reporter_id e.probe_interval now s in
      if not (s.incarnation == m.incarnation) || contains reporter_id s.reporters
      then (no_effects, e)
      else (
        if ltb next.deadline s.deadline
            then record no_effects {
              timers = suspicion_timer m.node_id m.incarnation next.deadline ∷ [];
            }
            else no_effects,
        record e { suspicions = insert m.node_id next e.suspicions },
      )
]

-- The test of a suspicion of this very node, in its current generation.
abbrev pub suspects_self : Engine → Update → Member → Bool
suspects_self e update current =
    (current.node_id == e.self_id)
    && (update.member.status == suspect)
    && (update.member.incarnation == current.incarnation)
    && leb current.status suspect

-- The refutation of `ApplyUpdate`.
unfoldable pub refute : Member → Engine → Effects × Engine
refute current e =
    let refutation : Member = record current {
      incarnation = current.incarnation + 1;
      status = alive;
    } in
    let merged = merge (record { member = refutation; reporter_id = e.self_id }) e.table in
    if current.incarnation == max_u64
    then (no_effects, e)
    else if not merged.changed
    then (no_effects, record e { table = merged.table })
    else applied_transition
        (record no_effects { persist_incarnation = some (current.incarnation + 1) }) merged.event
        e.self_id
        (record e {
          table = merged.table;
          suspicions = remove current.node_id e.suspicions;
          tombstones = remove current.node_id e.tombstones;
        })

-- The switch of `ApplyUpdate` on the new status, once the update is merged.
unfoldable pub settle_status : Member → ℕ → ℕ → ℕ → Engine → List TimerRequest × Engine
unfolding begin_suspicion begin_tombstone
settle_status m reporter_id alive_before now e =
    if m.status == alive
    then (
      [],
      record e {
        suspicions = remove m.node_id e.suspicions;
        tombstones = remove m.node_id e.tombstones;
      },
    )
    else if m.status == suspect
    then (let (timer, next) =
          begin_suspicion m reporter_id alive_before now
            (record e { tombstones = remove m.node_id e.tombstones }) in
        (timer ∷ [], next))
    else (let (timer, next) =
          begin_tombstone m now (record e { suspicions = remove m.node_id e.suspicions }) in
        (timer ∷ [], next))

-- `ApplyUpdate` from the count of the living on.
unfoldable pub merge_update : Update → Option Member → ℕ → Engine → Effects × Engine
unfolding corroborate_suspicion settle_status applied_transition
merge_update update visible now e =
    let merged = merge update e.table in
    let (timers, settled) =
      settle_status merged.event.current update.reporter_id (alive_members e) now
        (record e { table = merged.table }) in
    if merged.changed
    then applied_transition (record no_effects { timers = timers }) merged.event update.reporter_id
        settled
    else elim visible [
      | none ↦ (no_effects, e)
      | some current ↦
          if (update.member.status == suspect)
            && (current.status == suspect)
            && (update.member.incarnation == current.incarnation)
          then corroborate_suspicion current update.reporter_id now e
          else (no_effects, e)
    ]

unfoldable pub apply_update : Update → ℕ → Engine → Effects × Engine
unfolding refute merge_update
apply_update update now e =
    let visible = lookup update.member.node_id e.table.members in
    let merging = merge_update update visible now e in
    if not (is_valid_update update) then (no_effects, e) else elim visible [
      | none ↦ merging
      | some current ↦ if suspects_self e update current then refute current e else merging
    ]

unfoldable pub handle_suspicion_timeout : ℕ → ℕ → ℕ → Engine → Effects × Engine
unfolding apply_update
handle_suspicion_timeout node_id incarnation now e =
    let forgotten : Engine = record e { suspicions = remove node_id e.suspicions } in
    elim (lookup node_id e.suspicions) [
      | none ↦ (no_effects, e)
      | some s ↦
          if not (s.incarnation == incarnation) || ltb now s.deadline
          then (no_effects, e)
          else elim (lookup node_id e.table.members) [
            | none ↦ (no_effects, forgotten)
            | some m ↦
                if not (m.incarnation == incarnation) || not (m.status == suspect)
                then (no_effects, forgotten)
                else apply_update
                    (record { member = record m { status = dead }; reporter_id = e.self_id }) now
                    forgotten
          ]
    ]

unfoldable pub expire_tombstone : ℕ → ℕ → Status → ℕ → Engine → Effects × Engine
expire_tombstone node_id incarnation status now e =
    let forgotten : Engine = record e { tombstones = remove node_id e.tombstones } in
    elim (lookup node_id e.tombstones) [
      | none ↦ (no_effects, e)
      | some s ↦
          if not (s.incarnation == incarnation) || not (s.status == status) || ltb now s.deadline
          then (no_effects, e)
          else elim (lookup node_id e.table.members) [
            | none ↦ (no_effects, forgotten)
            | some m ↦
                if not (m.incarnation == incarnation) || not (m.status == status)
                then (no_effects, forgotten)
                else (no_effects, record forgotten { table = (expire_terminal m e.table).1 })
          ]
    ]

-- `Leave`: the node's own generation ends, and its deadline bounds the farewell.
unfoldable pub leave : ℕ → Engine → Effects × Engine
unfolding begin_tombstone applied_transition
leave now e = elim (lookup e.self_id e.table.members) [
  | none ↦ (no_effects, e)
  | some current ↦
      let self : Member = record current { incarnation = current.incarnation + 1; status = left } in
      let merged = merge (record { member = self; reporter_id = e.self_id }) e.table in
      let (tombstone, settled) =
        begin_tombstone self now
          (record e { table = merged.table; suspicions = remove self.node_id e.suspicions }) in
      let farewell : TimerRequest = record {
        kind = timer_leave_deadline;
        node_id = self.node_id;
        incarnation = self.incarnation;
        status = left;
        deadline = add_duration_saturated now (
            leave_duration e.dissemination.retransmit_multiplier e.probe_interval
              (alive_members e));
      } in
      if (current.status == left) || (current.incarnation == max_u64)
      then (no_effects, e)
      else if not merged.changed
      then (no_effects, record e { table = merged.table })
      else applied_transition
          (record no_effects {
            timers = farewell ∷ tombstone ∷ [];
            persist_incarnation = some self.incarnation;
          })
          merged.event e.self_id settled
]
