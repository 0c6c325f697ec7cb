-- ===== src/Base/Results.antt =====
-- A value or an error, for the source's pairs `(value, error)`.
use mathlib.Core.Path.{◌≡◌, refl}
use mathlib.Core.Option.{Option, none, some}
use mathlib.Core.Logic.{◌⊎◌, inl, inr}

pub data Result {ℓ} (E A : Type ℓ) : Type ℓ where
  ok : A → Result E A
  err : E → Result E A

-- What follows a call whose error is returned at once.
infixl 5 ◌>>=◌
abbrev pub ◌>>=◌ {ℓ} : {Fault V W : Type ℓ} → Result Fault V → (V → Result Fault W) → Result Fault W
err fault >>= next = err fault
ok value >>= next = next value

pub Result-cases {ℓ} :
    {E A : Type ℓ} (r : Result E A) → ((a : A) × (r ≡ ok a)) ⊎ ((e : E) × (r ≡ err e))
Result-cases (ok a) = inl (a, refl)
Result-cases (err e) = inr (e, refl)

pub ok_pair {ℓ} :
    {E V W : Type ℓ} (r : Result E (V × W)) {a c : V} {b d : W}
    → r ≡ ok (a, b)
    → r ≡ ok (c, d)
    → (a ≡ c) × (b ≡ d)
ok_pair r h q = (cc, cc)

pub ok_eq {ℓ} : {E V : Type ℓ} (r : Result E V) {a b : V} → r ≡ ok a → r ≡ ok b → a ≡ b
ok_eq r h q = cc

pub ok_or_err {ℓ} : {E V : Type ℓ} (r : Result E V) {a : V} {e : E} → r ≡ ok a → r ≡ err e → ⊥
ok_or_err r h q = cc

-- The error of a call, where its value is not used.
abbrev pub failure {ℓ} : {Fault V : Type ℓ} → Result Fault V → Option Fault
failure (ok value) = none
failure (err fault) = some fault
