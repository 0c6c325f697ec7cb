-- ===== src/Swim/Dissemination/Budget.antt =====
-- RetransmitBudget of internal/swim/dissemination.go: its levels, and its saturation.
use Prim.Native.Nat.pow
use native.Mathlib.Nat.{div-lt_iff_lt-mul, le-div_iff_mul-le}
use crane.Base.{
  ℕ, zero, suc, ◌*◌, ◌/◌, ◌^◌, ◌≤◌, ◌<◌, ◌≡◌, ◌⊎◌, refl, ltb→lt, not_ltb→le, inl, inr, ltb, ◌==◌,
  false, ◌||◌, arith, Bool-cases,
}
use crane.Swim.Dissemination.{halvings, bit_length, max_int, retransmit_budget}

halvings_high : (rounds n : ℕ) → n < 2 ^ rounds → n < 2 ^ halvings rounds n
halvings_high zero n h = h
halvings_high (suc rounds) n h =
    let rest = halvings_high rounds (n / 2) (omega (arith, pow.suc 2 rounds, h)) in
    let twice = pow.suc 2 (halvings rounds (n / 2)) in
    elim (Bool-cases (n == 0)) [
      | inl none ↦ rw none (ground arith)
      | inr some ↦ rw some (omega (arith, rest, twice))
    ]

halvings_zero : (rounds : ℕ) → halvings rounds 0 ≡ 0
halvings_zero zero = refl
halvings_zero (suc rounds) = refl

halvings_low : (rounds n : ℕ) → n < 2 ^ rounds → 0 < n → 2 ^ halvings rounds n ≤ 2 * n
halvings_low zero n h p = omega (arith, h)
halvings_low (suc rounds) n h p =
    let twice = pow.suc 2 (halvings rounds (n / 2)) in
    elim (Bool-cases (n == 0)) [
      | inl none ↦ absurd (ground arith)
      | inr some ↦ rw some (elim (Bool-cases (n / 2 == 0)) [
        | inl last ↦ let e : n / 2 ≡ 0 = ground arith in rw (e, halvings_zero rounds) (omega arith)
        | inr more ↦
            let rest =
              halvings_low rounds (n / 2) (omega (arith, pow.suc 2 rounds, h)) (ground arith) in
            omega (arith, rest, twice)
      ])
    ]

positive_levels : (n levels : ℕ) → 0 < n → n < 2 ^ levels → 0 < levels
positive_levels n zero p h = absurd (omega (arith, p, h))
positive_levels n (suc levels) p h = omega arith

-- For a positive multiplier and a positive number of members in the range of an int, the levels of
-- RetransmitBudget are the least that 2 to their power exceeds the members, and the budget is the
-- multiplier times the levels, or the greatest int where the product is beyond it.
pub retransmit_budget_lem :
    (multiplier alive_members : ℕ)
    → 0 < multiplier
    → 0 < alive_members
    → alive_members ≤ max_int
    → (alive_members < 2 ^ bit_length alive_members)
      × (2 ^ bit_length alive_members ≤ 2 * alive_members)
      × ((multiplier * bit_length alive_members ≤ max_int)
            × (retransmit_budget multiplier alive_members ≡ multiplier * bit_length alive_members)
          ⊎ (max_int < multiplier * bit_length alive_members)
            × (retransmit_budget multiplier alive_members ≡ max_int))
unfolding retransmit_budget
retransmit_budget_lem multiplier alive_members m a h =
    let levels = bit_length alive_members in
    let high : alive_members < 2 ^ levels =
      unfold bit_length in halvings_high 64 alive_members (omega (arith, h)) in
    let low : 2 ^ levels ≤ 2 * alive_members =
      unfold bit_length in halvings_low 64 alive_members (omega (arith, h)) a in
    let p = positive_levels alive_members levels a high in
    let z : ((multiplier == 0) || (alive_members == 0)) ≡ false = ground arith in
    (
      high,
      low,
      elim (Bool-cases (ltb (max_int / levels) multiplier)) [
        | inl over ↦
            inr
              ((div-lt_iff_lt-mul p).0 (ltb→lt _ _ over), rw (retransmit_budget, z) (rw over refl))
        | inr within ↦ inl (
          (le-div_iff_mul-le p).0 (not_ltb→le _ _ within),
          rw (retransmit_budget, z) (rw within refl),
        )
      ],
    )
