-- ===== src/Raft/Log/Repair.antt =====
-- The second loop of Append (internal/raft/log.go): where it writes, and that a valid log results.
use crane.Base.{
  ℕ, zero, suc, ◌+◌, ◌≤◌, ◌<◌, ◌≡◌, refl, ap, inl, inr, false, some, List, [], ◌∷◌, ◌++◌, ◌==◌, ltb,
  leb, length, get_elem?, take, arith, Bool-cases, ==→≡, get_elem?_lt,
}
use crane.Raft.Types.{Entry, committed_conflict}
use crane.Raft.Log.{Log, AppendResult, appended, refused, no_hint, at, graft, repair}
use crane.Raft.Log.Valid.{Contiguous, IsValid}
use crane.Raft.Log.Lookup.{retained_offset_lem}

-- From offset `o` on, the list holds the terms of `es`.
abbrev pub Agrees : List Entry → ℕ → List Entry → Type 0
Agrees xs o [] = Unit {0}
Agrees xs o (e ∷ es) =
    ((m : Entry) × (get_elem? xs o ≡ some m) × (m.term ≡ e.term)) × Agrees xs (suc o) es

-- What the loop can do with a batch that follows offset `o`.
pub data Repaired (l : Log) (o : ℕ) (es : List Entry) (r : AppendResult) : Type 0 where
  kept : Agrees l.entries o es → r ≡ appended l → Repaired l o es r
  written :
      (pre : List Entry) (b : Entry) (bs : List Entry)
      → es ≡ pre ++ (b ∷ bs)
      → Agrees l.entries o pre
      → o + length pre ≤ length l.entries
      → l.commit_index ≤ l.snapshot_index + (o + length pre)
      → r ≡ appended (graft l (o + length pre) b bs)
      → Repaired l o es r
  conflict : r ≡ refused no_hint committed_conflict → Repaired l o es r

take-length : (xs : List Entry) → take (length xs) xs ≡ xs
take-length [] = refl
take-length (x ∷ xs) = ap (λ t. x ∷ t) (take-length xs)

repair_past :
    (l : Log) (e : Entry) (es : List Entry)
    → IsValid l
    → e.index ≡ suc (l.snapshot_index + length l.entries)
    → repair l (e ∷ es) ≡ appended (graft l (length l.entries) e es)
unfolding repair graft
repair_past l e es v h = rw (take-length l.entries) (ground (arith, v.last_exact))

repair_same :
    (l : Log) (o : ℕ) (e m : Entry) (es : List Entry)
    → IsValid l
    → e.index ≡ l.snapshot_index + suc o
    → o < length l.entries
    → get_elem? l.entries o ≡ some m
    → m.term ≡ e.term
    → repair l (e ∷ es) ≡ repair l es
unfolding repair at
repair_same l o e m es v p h g t = rw p (ground (arith, v.last_exact, retained_offset_lem l o v h))

repair_differs :
    (l : Log) (o : ℕ) (e m : Entry) (es : List Entry)
    → IsValid l
    → e.index ≡ l.snapshot_index + suc o
    → o < length l.entries
    → get_elem? l.entries o ≡ some m
    → (m.term == e.term) ≡ false
    → Repaired l o (e ∷ es) (repair l (e ∷ es))
unfolding repair at
repair_differs l o e m es v p h g t = elim (Bool-cases (leb e.index l.commit_index)) [
  | inl c ↦ conflict (rw p (ground (arith, p, c, v.last_exact, retained_offset_lem l o v h)))
  | inr c ↦ written [] e es refl tt (omega arith) (ground arith) (
      let z : o + 0 ≡ o = omega arith in
      rw z (rw p (ground (arith, p, c, v.last_exact, retained_offset_lem l o v h))))
]

Repaired-after :
    (l : Log) (o : ℕ) (e m : Entry) (es : List Entry) {r : AppendResult}
    → get_elem? l.entries o ≡ some m
    → m.term ≡ e.term
    → Repaired l (suc o) es r
    → Repaired l o (e ∷ es) r
Repaired-after l o e m es g t (kept a q) = kept ((m, g, t), a) q
Repaired-after l o e m es g t (written pre b bs p a h c q) =
    let s : suc o + length pre ≡ o + suc (length pre) = omega arith in
    written (e ∷ pre) b bs (ap (λ z. e ∷ z) p) ((m, g, t), a) (omega arith) (omega arith)
      (rw s at q)
Repaired-after l o e m es g t (conflict q) = conflict q

pub repair-Repaired :
    (l : Log) (o : ℕ) (es : List Entry)
    → IsValid l
    → o ≤ length l.entries
    → Contiguous (l.snapshot_index + o) es
    → Repaired l o es (repair l es)
unfolding repair
repair-Repaired l o [] v h c = kept tt refl
repair-Repaired l o (e ∷ es) v h c = elim (Bool-cases (ltb o (length l.entries))) [
  | inr full ↦
      let z : o + 0 ≡ length l.entries = ground arith in
      written [] e es refl tt (omega arith) (omega (arith, v.committed_stored, v.last_exact))
        (rw z (repair_past l e es v (omega (arith, c.0))))
  | inl room ↦
      let h' : o < length l.entries = ground arith in
      let (m, g) = get_elem?_lt l.entries o h' in
      let p : e.index ≡ l.snapshot_index + suc o = omega (arith, c.0) in
      elim (Bool-cases (m.term == e.term)) [
        | inr differs ↦ repair_differs l o e m es v p h' g differs
        | inl t ↦
            let s : suc (l.snapshot_index + o) ≡ l.snapshot_index + suc o = omega arith in
            rw (repair_same l o e m es v p h' g (==→≡ _ _ t)) (
              Repaired-after l o e m es g (==→≡ _ _ t)
                (repair-Repaired l (suc o) es v h' (rw s at (c.2))))
      ]
]

pub Agrees-get_elem? :
    (xs : List Entry) (o : ℕ) (es : List Entry) (k : ℕ) (e : Entry)
    → Agrees xs o es
    → get_elem? es k ≡ some e
    → (m : Entry) × (get_elem? xs (o + k) ≡ some m) × (m.term ≡ e.term)
Agrees-get_elem? xs o [] k e a g = absurd (ground arith)
Agrees-get_elem? xs o (x ∷ es) zero e a g =
    let z : o + 0 ≡ o = omega arith in
    rw z (a.0.0, a.0.1, let same : x ≡ e = ground arith in rw (← same) a.0.2)
Agrees-get_elem? xs o (x ∷ es) (suc k) e a g =
    let s : o + suc k ≡ suc o + k = omega arith in rw s (Agrees-get_elem? xs (suc o) es k e (a.1) g)
