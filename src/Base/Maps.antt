-- ===== src/Base/Maps.antt =====
-- Go maps keyed by numbers as association lists, and sets of numbers as lists. A nil map and an
-- empty one are both []: the source reads them alike.
use Prim.Native.Nat.{ℕ, suc, ◌≤◌}
use mathlib.Core.Bool.{Bool, true, false}
use mathlib.Core.List.{List, [], ◌∷◌}
use mathlib.Core.Option.{Option, none, some}
use mathlib.Core.Path.{◌≡◌, refl}
use native.Mathlib.Omega.{arith}
use mathlib.Core.Logic.{inl, inr}
use crane.Base.Tests.{◌==◌, if◌then◌else◌, Bool-cases, Option-cases}
use crane.Base.Lists.{length}

module _ {ℓ} {V : Type ℓ} where
  unfoldable pub lookup : ℕ → List (ℕ × V) → Option V
  lookup key [] = none
  lookup key (row ∷ rows) = if row.0 == key then some row.1 else lookup key rows

  -- An assignment `m[key] = value`: in the key's place, or at the end.
  unfoldable pub insert : ℕ → V → List (ℕ × V) → List (ℕ × V)
  insert key value [] = (key, value) ∷ []
  insert key value (row ∷ rows) =
      let others = insert key value rows in
      if row.0 == key then (key, value) ∷ rows else row ∷ others

  -- Go's `delete`.
  unfoldable pub remove : ℕ → List (ℕ × V) → List (ℕ × V)
  remove key [] = []
  remove key (row ∷ rows) =
      let others = remove key rows in if row.0 == key then others else row ∷ others

-- Membership, and the set with one more element.
unfoldable pub contains : ℕ → List ℕ → Bool
contains x [] = false
contains x (y ∷ ys) = if y == x then true else contains x ys

unfoldable pub add : ℕ → List ℕ → List ℕ
unfolding contains
add x xs = if contains x xs then xs else x ∷ xs

module _ {ℓ} {V : Type ℓ} where
  -- A key reads what was written to it last.
  pub lookup-insert :
      (key other : ℕ) (value : V) (rows : List (ℕ × V))
      → lookup other (insert key value rows)
        ≡ (if key == other then some value else lookup other rows)
  unfolding lookup insert
  lookup-insert key other value [] = refl
  lookup-insert key other value (row ∷ rows) =
      let h = lookup-insert key other value rows in ground arith

  pub lookup-remove :
      (key other : ℕ) (rows : List (ℕ × V))
      → lookup other (remove key rows) ≡ (if key == other then none else lookup other rows)
  unfolding lookup remove
  lookup-remove key other [] = ground arith
  lookup-remove key other (row ∷ rows) = let h = lookup-remove key other rows in ground arith

  -- A write to a key that is there keeps the number of keys, and one to a new key adds one.
  pub length-insert :
      (key : ℕ) (value : V) (rows : List (ℕ × V))
      → length (insert key value rows)
        ≡ (elim (lookup key rows) [ none ↦ suc (length rows) | some v ↦ length rows ])
  unfolding lookup insert
  length-insert key value [] = refl
  length-insert key value (row ∷ rows) =
      let h = length-insert key value rows in
      elim (Bool-cases (row.0 == key)) [
        | inl same ↦ rw same refl
        | inr other ↦ elim (Option-cases (lookup key rows)) [
          | inl q ↦ rw (other, q, rw q at h) refl
          | inr (v, q) ↦ rw (other, q, rw q at h) refl
        ]
      ]

  pub length-remove : (key : ℕ) (rows : List (ℕ × V)) → length (remove key rows) ≤ length rows
  unfolding remove
  length-remove key [] = omega arith
  length-remove key (row ∷ rows) = let h = length-remove key rows in ground arith
