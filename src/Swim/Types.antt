-- ===== src/Swim/Types.antt =====
-- internal/swim/member.go: members, updates and events.
use crane.Base.{ℕ, leb, ◌==◌, Bool, ◌||◌, List, []}

-- A status is the number that Go's type gives it, since the merge compares statuses as numbers and an
-- update may hold one that is none of the four.
abbrev pub Status : Type 0
Status = ℕ

abbrev pub alive : Status
alive = 0

abbrev pub suspect : Status
suspect = 1

abbrev pub dead : Status
dead = 2

abbrev pub left : Status
left = 3

-- `Status.valid`.
abbrev pub is_status : Status → Bool
is_status s = leb s left

-- The two statuses that end a generation.
abbrev pub is_terminal : Status → Bool
is_terminal s = (s == dead) || (s == left)

pub record Member : Type 0 where
  pub node_id : ℕ
  pub host : List ℕ
  pub base_port : ℕ
  pub incarnation : ℕ
  pub status : Status

-- Go's zero value.
abbrev pub no_member : Member
no_member = record { node_id = 0; host = []; base_port = 0; incarnation = 0; status = alive }

pub record Update : Type 0 where
  pub member : Member
  pub reporter_id : ℕ

pub data EventCause : Type 0 where
  member_changed : EventCause
  resync_required : EventCause

pub record MembershipEvent : Type 0 where
  pub previous : Member
  pub current : Member
  pub cause : EventCause
  pub reporter_id : ℕ

abbrev pub no_event : MembershipEvent
no_event = record {
  previous = no_member;
  current = no_member;
  cause = member_changed;
  reporter_id = 0;
}
