-- ===== src/Swim/Table/Valid.antt =====
-- What holds of a membership table (internal/swim/table.go) after every merge and every expiry.
use crane.Base.{
  ℕ, ◌≤◌, ◌<◌, ◌≡◌, ◌≢◌, refl, sym, ap, subst, ◌∙◌, ◌⊎◌, inl, inr, ◌==◌, true, Option, none, some,
  arith, Bool-cases,
}
use crane.Base.Maps.{lookup}
use crane.Swim.Types.{Member}
use crane.Swim.Table.{Table, outranks, revised, reference_of, admitted, raised_floor}

-- A record of node `n`, in one of the four statuses.
pub record Named (n : ℕ) (m : Member) : Type 0 where
  pub named : m.node_id ≡ n
  pub nonzero : n ≢ 0
  pub ranked : m.status ≤ 3

-- The two rows of one node. A visible record whose generation has not ended is above the floor; one whose
-- generation has ended is the floor itself.
abbrev pub Slot : ℕ → Option Member → Option Member → Type 0
Slot n none none = Unit
Slot n none (some f) = Named n f × (2 ≤ f.status)
Slot n (some m) none = Named n m × (m.status ≤ 1)
Slot n (some m) (some f) =
    Named n m
    × Named n f
    × (2 ≤ f.status)
    × (((f.incarnation < m.incarnation) × (m.status ≤ 1)) ⊎ (f ≡ m))

pub record IsValid (t : Table) : Type 0 where
  pub slot : (n : ℕ) → Slot n (lookup n t.members) (lookup n t.floors)

abbrev pub or_kept : Option Member → Option Member → Option Member
or_kept none retained = retained
or_kept (some f) retained = some f

-- The floor after `retainIncarnationFloor`.
abbrev pub floor_after : Member → Option Member → Option Member
floor_after m retained = or_kept (raised_floor m retained) retained

terminal_or_not : (m : Member) → m.status ≤ 3 → (m.status ≤ 1) ⊎ (2 ≤ m.status)
terminal_or_not m h = ground arith

pub floor_kept :
    (m : Member) (retained : Option Member) → m.status ≤ 1 → floor_after m retained ≡ retained
floor_kept m none h = ground arith
floor_kept m (some f) h = ground arith

floor_first : (m : Member) → 2 ≤ m.status → m.status ≤ 3 → floor_after m none ≡ some m
floor_first m h k = ground arith

floor_raised :
    (m f : Member)
    → 2 ≤ m.status
    → m.status ≤ 3
    → outranks m f ≡ true
    → floor_after m (some f) ≡ some (revised m f)
floor_raised m f h k o = ground arith

pub outranks_lem :
    (m f : Member)
    → outranks m f ≡ true
    → (f.incarnation ≤ m.incarnation) × (f.incarnation ≡ m.incarnation → f.status < m.status)
outranks_lem m f h = ground arith

-- A record above the floor, which within the floor's generation has the floor's address.
Above : ℕ → Member → Option Member → Type 0
Above n m none = Unit
Above n m (some f) = Named n f × (2 ≤ f.status) × (outranks m f ≡ true) × (revised m f ≡ m)

landed-Slot :
    (n : ℕ) (m : Member) (retained : Option Member)
    → Named n m
    → Above n m retained
    → Slot n (some m) (floor_after m retained)
unfolding Above
landed-Slot n m none w a = elim (terminal_or_not m w.ranked) [
  | inl low ↦ subst (Slot n (some m)) (sym (floor_kept m none low)) (w, low)
  | inr high ↦ subst (Slot n (some m)) (sym (floor_first m high w.ranked)) (w, w, high, inr refl)
]
landed-Slot n m (some f) w (u, t, o, r) = elim (terminal_or_not m w.ranked) [
  | inl low ↦
      let (le, eq) = outranks_lem m f o in
      subst (Slot n (some m)) (sym (floor_kept m (some f) low)) (w, u, t, inl (ground arith, low))
  | inr high ↦
      subst (Slot n (some m)) (sym (floor_raised m f high w.ranked o ∙ ap some r))
        (w, w, high, inr refl)
]

-- What Merge admits beside a reference is above it, and has its address within its generation.
pub admitted_lem :
    (incoming m reference : Member)
    → admitted incoming (some reference) ≡ some m
    → (m ≡ revised incoming reference) × (outranks incoming reference ≡ true)
admitted_lem incoming m reference h = ground arith

revised-Named : (n : ℕ) (m f : Member) → Named n m → Named n f → Named n (revised m f)
revised-Named n m f u w = elim (Bool-cases (m.incarnation == f.incarnation)) [
  | inl same ↦ rw same (record { named = w.named; nonzero = w.nonzero; ranked = u.ranked })
  | inr other ↦ rw other u
]

-- A record put beside a reference is above all that the reference is above.
revised_at : (incoming f : Member) → revised (revised incoming f) f ≡ revised incoming f
revised_at incoming f = elim (Bool-cases (incoming.incarnation == f.incarnation)) [
  | inl same ↦ ground arith
  | inr other ↦ ground arith
]

outranks-revised :
    (incoming f : Member) → outranks incoming f ≡ true → outranks (revised incoming f) f ≡ true
outranks-revised incoming f h = ground arith

older_floor :
    (m f : Member) → f.incarnation < m.incarnation → (outranks m f ≡ true) × (revised m f ≡ m)
older_floor m f h = ground arith

outranks-revised_le :
    (incoming v : Member)
    → outranks incoming v ≡ true
    → v.incarnation ≤ (revised incoming v).incarnation
outranks-revised_le incoming v h = ground arith

-- The floor of a visible record is never above it.
pub visible_reference :
    (n : ℕ) (v : Member) (retained : Option Member)
    → Slot n (some v) retained
    → reference_of (some v) retained ≡ some v
visible_reference n v none s = refl
visible_reference n v (some f) (_, _, _, inl (older, low)) = ground arith
visible_reference n v (some f) (_, _, _, inr same) =
    let i = ap (λ (x : Member). x.incarnation) same in
    let k = ap (λ (x : Member). x.status) same in ground arith

pub visible-Named :
    (n : ℕ) (v : Member) (retained : Option Member) → Slot n (some v) retained → Named n v
visible-Named n v none (w, _) = w
visible-Named n v (some f) (w, _, _, _) = w

-- A record that is above the visible one is above its floor.
Above-visible :
    (n : ℕ) (incoming v : Member) (retained : Option Member)
    → outranks incoming v ≡ true
    → Slot n (some v) retained
    → Above n (revised incoming v) retained
unfolding Above
Above-visible n incoming v none o s = tt
Above-visible n incoming v (some f) o (_, u, t, inl (older, low)) =
    let le = outranks-revised_le incoming v o in
    let (o2, r) = older_floor (revised incoming v) f (omega (arith, le, older)) in (u, t, o2, r)
Above-visible n incoming v (some f) o (w, u, t, inr same) =
    subst (λ (g : Member). Above n (revised incoming v) (some g)) (sym same)
      (
        w,
        subst (λ (g : Member). 2 ≤ g.status) same t,
        outranks-revised incoming v o,
        revised_at incoming v,
      )

-- A record that Merge admits takes the place of the visible one.
pub admitted-Slot :
    (n : ℕ) (incoming m : Member) (visible retained : Option Member)
    → Named n incoming
    → Slot n visible retained
    → admitted incoming (reference_of visible retained) ≡ some m
    → Named n m × Slot n (some m) (floor_after m retained)
unfolding Above
admitted-Slot n incoming m none none w s h =
    let e : incoming ≡ m = ground arith in
    subst (λ (x : Member). Named n x × Slot n (some x) (floor_after x none)) e
      (w, landed-Slot n incoming none w tt)
admitted-Slot n incoming m none (some f) w (u, t) h =
    let (e, o) = admitted_lem incoming m f h in
    let k = revised-Named n incoming f w u in
    subst (λ (x : Member). Named n x × Slot n (some x) (floor_after x (some f))) (sym e)
      (
        k,
        landed-Slot n (revised incoming f) (some f) k
            (u, t, outranks-revised incoming f o, revised_at incoming f),
      )
admitted-Slot n incoming m (some v) retained w s h =
    let (e, o) = admitted_lem incoming m v (rw (visible_reference n v retained s) at h) in
    let k = revised-Named n incoming v w (visible-Named n v retained s) in
    subst (λ (x : Member). Named n x × Slot n (some x) (floor_after x retained)) (sym e)
      (k, landed-Slot n (revised incoming v) retained k (Above-visible n incoming v retained o s))
