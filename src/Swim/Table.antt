-- ===== src/Swim/Table.antt =====
-- internal/swim/table.go: the membership table and its merges.
pub mod Valid
pub mod Rows
pub mod Shown
pub mod Kept
pub mod Expiry
pub mod Ranks
pub mod Joins
pub mod Address
pub mod Runs
use crane.Base.{
  ℕ, ltb, leb, ◌==◌, Bool, true, false, ◌&&◌, ◌||◌, not, Option, none, some, List, [], ◌∷◌,
  if◌then◌else◌,
}
use crane.Base.Maps.{lookup, insert, remove}
use crane.Raft.Types.{bytes_equal}
use crane.Swim.Types.{
  Member, Update, MembershipEvent, is_status, is_terminal, no_member, no_event, member_changed,
}

pub record Table : Type 0 where
  pub members : List (ℕ × Member)
  pub floors : List (ℕ × Member)

abbrev pub new_table : Table
new_table = record { members = []; floors = [] }

-- `compareMemberVersion(left, right) > 0`.
abbrev pub outranks : Member → Member → Bool
outranks newer older =
    ltb older.incarnation newer.incarnation
    || ((newer.incarnation == older.incarnation) && ltb older.status newer.status)

-- `canonical`: within a generation only the status changes, never the address.
abbrev pub revised : Member → Member → Member
revised newer older =
    if newer.incarnation == older.incarnation then record older { status = newer.status } else newer

-- The `reference` of Merge: what is visible, or the floor where that is above it.
abbrev pub reference_of : Option Member → Option Member → Option Member
reference_of visible none = visible
reference_of none (some floor) = some floor
reference_of (some m) (some floor) = if outranks floor m then some floor else some m

-- The switch of Merge: the record to be kept, if the update is newer.
abbrev pub admitted : Member → Option Member → Option Member
admitted incoming none = some incoming
admitted incoming (some reference) =
    if ltb incoming.incarnation reference.incarnation
    then none
    else if incoming.incarnation == reference.incarnation
    then (if leb incoming.status reference.status
        then none
        else some (record reference { status = incoming.status }))
    else some incoming

-- The floor that `retainIncarnationFloor` writes, if it writes one.
abbrev pub raised_floor : Member → Option Member → Option Member
raised_floor m retained = if not (is_terminal m.status) then none else elim retained [
  | none ↦ some m
  | some floor ↦ if outranks m floor then some (revised m floor) else none
]

unfoldable pub retain_incarnation_floor : Member → Table → Table
retain_incarnation_floor m t = elim (raised_floor m (lookup m.node_id t.floors)) [
  | none ↦ t
  | some floor ↦ record t { floors = insert m.node_id floor t.floors }
]

-- What Merge and MergeIncarnationFloor return, with the table they leave.
pub record Merged : Type 0 where
  pub changed : Bool
  pub event : MembershipEvent
  pub table : Table

abbrev pub refused : Table → Merged
refused t = record { changed = false; event = no_event; table = t }

abbrev pub or_zero : Option Member → Member
or_zero none = no_member
or_zero (some m) = m

abbrev pub is_mergeable : Update → Bool
is_mergeable update =
    not (update.member.node_id == 0)
    && not (update.reporter_id == 0)
    && is_status update.member.status

unfoldable pub merge : Update → Table → Merged
unfolding retain_incarnation_floor
merge update t =
    let id = update.member.node_id in
    let visible = lookup id t.members in
    if not (is_mergeable update)
    then refused t
    else elim (admitted update.member (reference_of visible (lookup id t.floors))) [
      | none ↦ refused t
      | some m ↦ record {
        changed = true;
        event = record {
          previous = or_zero visible;
          current = m;
          cause = member_changed;
          reporter_id = update.reporter_id;
        };
        table = retain_incarnation_floor m (record t { members = insert m.node_id m t.members });
      }
    ]

-- The first test of MergeIncarnationFloor.
abbrev pub is_floor : Member → ℕ → Bool
is_floor floor reporter_id =
    not (floor.node_id == 0)
    && not (floor.incarnation == 0)
    && not (reporter_id == 0)
    && is_terminal floor.status

-- Its comparison with the retained floor.
abbrev pub advanced_floor : Member → Option Member → Option Member
advanced_floor floor none = some floor
advanced_floor floor (some retained) =
    if outranks floor retained then some (revised floor retained) else none

-- Its end, at a floor that is new: a visible member below it is merged, a hidden one stays hidden.
unfoldable pub settle_floor : Member → ℕ → Table → Merged
unfolding merge
settle_floor floor reporter_id t =
    let hidden : Merged = record {
      changed = true;
      event = no_event;
      table = record t { floors = insert floor.node_id floor t.floors };
    } in
    elim (lookup floor.node_id t.members) [
      | none ↦ hidden
      | some current ↦
          if outranks floor current
          then merge (record { member = revised floor current; reporter_id = reporter_id }) t
          else hidden
    ]

unfoldable pub merge_incarnation_floor : Member → ℕ → Table → Merged
unfolding settle_floor
merge_incarnation_floor floor reporter_id t =
    if not (is_floor floor reporter_id)
    then refused t
    else elim (advanced_floor floor (lookup floor.node_id t.floors)) [
      | none ↦ refused t
      | some f ↦ settle_floor f reporter_id t
    ]

abbrev pub same_member : Member → Member → Bool
same_member a b =
    (a.node_id == b.node_id)
    && bytes_equal a.host b.host
    && (a.base_port == b.base_port)
    && (a.incarnation == b.incarnation)
    && (a.status == b.status)

unfoldable pub expire_terminal : Member → Table → Bool × Table
unfolding retain_incarnation_floor
expire_terminal m t =
    if not (is_terminal m.status) then (false, t) else elim (lookup m.node_id t.members) [
      | none ↦ (false, t)
      | some current ↦ if not (same_member current m) then (false, t) else (
        true,
        record (retain_incarnation_floor current t) { members = remove m.node_id t.members },
      )
    ]
