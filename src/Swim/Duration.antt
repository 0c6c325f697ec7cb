-- ===== src/Swim/Duration.antt =====
-- The durations and instants of internal/swim/suspicion.go. Durations are nanoseconds, and an instant is
-- the nanoseconds since Go's zero time; a duration or a multiplier that is not positive reads as 0, which
-- the source treats alike.
use crane.Base.{ℕ, ◌+◌, ◌*◌, ◌/◌, ltb, ◌==◌, ◌||◌, if◌then◌else◌}
use crane.Swim.Dissemination.{max_int, bit_length, retransmit_budget}

-- Five seconds, and the greatest duration.
abbrev pub minimum_suspicion_duration : ℕ
minimum_suspicion_duration = 5000000000

abbrev pub max_duration : ℕ
max_duration = max_int

-- The last instant of Go's time, where Add past it is caught.
abbrev pub max_time : ℕ
max_time = 9223372036854775807999999999

unfoldable pub suspicion_duration : ℕ → ℕ → ℕ → ℕ
suspicion_duration multiplier probe_interval alive_members =
    if (multiplier == 0) || (probe_interval == 0) || (alive_members == 0)
    then minimum_suspicion_duration
    else if ltb (max_int / bit_length alive_members) multiplier
    then max_duration
    else if ltb (max_duration / (multiplier * bit_length alive_members)) probe_interval
    then max_duration
    else if ltb (multiplier * bit_length alive_members * probe_interval) minimum_suspicion_duration
    then minimum_suspicion_duration
    else multiplier * bit_length alive_members * probe_interval

unfoldable pub multiply_duration_saturated : ℕ → ℕ → ℕ
multiply_duration_saturated duration factor =
    if (duration == 0) || (factor == 0)
    then 0
    else if ltb (max_duration / factor) duration
    then max_duration
    else duration * factor

unfoldable pub add_duration_saturated : ℕ → ℕ → ℕ
add_duration_saturated now duration =
    if ltb max_time (now + duration) then max_time else now + duration

unfoldable pub leave_duration : ℕ → ℕ → ℕ → ℕ
unfolding multiply_duration_saturated
leave_duration retransmit_multiplier probe_interval alive_members =
    let duration =
      multiply_duration_saturated probe_interval
        (retransmit_budget retransmit_multiplier alive_members) in
    if ltb duration minimum_suspicion_duration then minimum_suspicion_duration else duration
