-- ===== src/Swim/Suspicion/Durations.antt =====
-- The durations of internal/swim/suspicion.go, within their bounds.
use crane.Base.{ℕ, ◌*◌, ◌/◌, ◌≤◌, ◌<◌, ◌≡◌, inl, inr, ltb, ◌==◌, ◌∷◌, arith, Bool-cases, not_ltb→le}
use native.Mathlib.Nat.{le-div_iff_mul-le, mul_comm}
use crane.Swim.Dissemination.{bit_length}
use crane.Swim.Duration.{max_duration, suspicion_duration}
use crane.Swim.Suspicion.{SuspicionState, corroborated}

positive_factor : (k d : ℕ) → 0 < d → d ≤ max_duration / k → 0 < k
positive_factor k d h b = elim (Bool-cases (k == 0)) [
  | inl z ↦ let e : k ≡ 0 = ground arith in absurd (omega (arith, h, rw e at b))
  | inr p ↦ ground arith
]

-- SuspicionDuration is at least five seconds and at most the greatest duration: it never wraps.
pub suspicion_duration_bounds :
    (multiplier probe_interval alive_members : ℕ)
    → (5000000000 ≤ suspicion_duration multiplier probe_interval alive_members)
      × (suspicion_duration multiplier probe_interval alive_members ≤ 9223372036854775807)
unfolding suspicion_duration
suspicion_duration_bounds multiplier probe_interval alive_members =
    let factor = multiplier * bit_length alive_members in
    elim (Bool-cases (ltb (max_duration / factor) probe_interval)) [
      | inl over ↦ ground arith
      | inr within ↦ elim (Bool-cases (probe_interval == 0)) [
        | inl stopped ↦ ground arith
        | inr running ↦
            let b = not_ltb→le (max_duration / factor) probe_interval within in
            let p = positive_factor factor probe_interval (ground arith) b in
            let product : factor * probe_interval ≤ max_duration =
              rw (mul_comm probe_interval factor) at ((le-div_iff_mul-le p).0 b) in
            ground arith
      ]
    ]

-- A corroboration keeps the generation of a suspicion and its duration, adds the reporter, and never
-- puts the deadline off.
pub corroborated_lem :
    (reporter_id probe_interval now : ℕ) (s : SuspicionState)
    → ((corroborated reporter_id probe_interval now s).deadline ≤ s.deadline)
      × ((corroborated reporter_id probe_interval now s).incarnation ≡ s.incarnation)
      × ((corroborated reporter_id probe_interval now s).duration ≡ s.duration)
      × ((corroborated reporter_id probe_interval now s).reporters ≡ reporter_id ∷ s.reporters)
corroborated_lem reporter_id probe_interval now s = ground arith
