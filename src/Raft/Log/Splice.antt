-- ===== src/Raft/Log/Splice.antt =====
-- The log that Append (internal/raft/log.go) leaves, as a splice of the old log and the batch.
use crane.Base.{
  ℕ, suc, ◌+◌, ◌-◌, ◌≤◌, ◌<◌, ◌≡◌, refl, sym, ap, ◌∙◌, inl, inr, some, List, [], ◌∷◌, ◌++◌, ltb,
  max_u64, length, get_elem?, take, arith, Bool-cases, length-append, length-take,
  get_elem?-append_left, get_elem?-append_right, get_elem?-take,
}
use crane.Raft.Types.{Entry}
use crane.Raft.Log.{Log, appended, final_index, graft}
use crane.Raft.Log.Valid.{Contiguous, IsValid, Contiguous-append, Contiguous-take, final_index_lem}
use crane.Raft.Log.Repair.{Agrees, Repaired, kept, written, conflict, Agrees-get_elem?}

Contiguous-suffix :
    (start : ℕ) (xs ys : List Entry)
    → Contiguous start (xs ++ ys)
    → Contiguous (start + length xs) ys
Contiguous-suffix start [] ys c = let z : start ≡ start + 0 = omega arith in rw z at c
Contiguous-suffix start (x ∷ xs) ys c =
    let s : suc start + length xs ≡ start + suc (length xs) = omega arith in
    rw s at (Contiguous-suffix (suc start) xs ys (c.2))

-- The list that `graft` leaves.
abbrev pub grafted : List Entry → ℕ → Entry → List Entry → List Entry
grafted xs n b bs = take n xs ++ (b ∷ bs)

module _ (xs : List Entry) (n : ℕ) (b : Entry) (bs : List Entry) (h : n ≤ length xs) where
  length-grafted : length (grafted xs n b bs) ≡ n + suc (length bs)
  length-grafted = omega (arith, length-append (take n xs) (b ∷ bs), length-take n xs)

  pub grafted_prefix : (i : ℕ) → i < n → get_elem? (grafted xs n b bs) i ≡ get_elem? xs i
  grafted_prefix i p =
      get_elem?-append_left (take n xs) (b ∷ bs) i (omega (arith, length-take n xs))
      ∙ get_elem?-take n xs i p

  grafted_suffix : (i : ℕ) → get_elem? (grafted xs n b bs) (n + i) ≡ get_elem? (b ∷ bs) i
  grafted_suffix i =
      let e : length (take n xs) + i ≡ n + i = omega (arith, length-take n xs) in
      rw e at (get_elem?-append_right (take n xs) (b ∷ bs) i)

graft-IsValid :
    (l : Log) (n : ℕ) (b : Entry) (bs : List Entry)
    → IsValid l
    → n ≤ length l.entries
    → l.commit_index ≤ l.snapshot_index + n
    → Contiguous (l.snapshot_index + n) (b ∷ bs)
    → l.snapshot_index + n + suc (length bs) ≤ max_u64
    → IsValid (graft l n b bs)
unfolding graft
graft-IsValid l n b bs v h c d f =
    let k : final_index b.index bs ≡ l.snapshot_index + n + suc (length bs) =
      final_index_lem (l.snapshot_index + n) (b ∷ bs) d in
    record {
      base_paired = v.base_paired;
      base_applied = v.base_applied;
      applied_committed = v.applied_committed;
      committed_stored = omega (arith, k);
      last_exact = omega (arith, k, length-grafted l.entries n b bs h);
      last_fits = omega (arith, k);
      contiguous =
          let e : l.snapshot_index + n ≡ l.snapshot_index + length (take n l.entries) =
            omega (arith, length-take n l.entries) in
          Contiguous-append l.snapshot_index (take n l.entries) (b ∷ bs)
            (Contiguous-take l.snapshot_index n l.entries v.contiguous) (rw e at d);
    }

-- The two ways to accept a batch: the log had it all, or it was written from `n` on.
pub data Spliced (l : Log) (o : ℕ) (es : List Entry) (l' : Log) : Type 0 where
  whole : Agrees l.entries o es → l' ≡ l → Spliced l o es l'
  cut :
      (pre : List Entry) (b : Entry) (bs : List Entry)
      → es ≡ pre ++ (b ∷ bs)
      → Agrees l.entries o pre
      → o + length pre ≤ length l.entries
      → l.commit_index ≤ l.snapshot_index + (o + length pre)
      → l' ≡ graft l (o + length pre) b bs
      → Spliced l o es l'

pub Spliced-of :
    {l l' : Log} {o : ℕ} {es : List Entry} → Repaired l o es (appended l') → Spliced l o es l'
Spliced-of (kept a q) = whole a (cc q)
Spliced-of (written pre b bs s a h c q) = cut pre b bs s a h c (cc q)
Spliced-of (conflict q) = absurd (cc q)

-- What `Append` leaves alone.
pub record SameBase (l l' : Log) : Type 0 where
  pub same_index : l'.snapshot_index ≡ l.snapshot_index
  pub same_term : l'.snapshot_term ≡ l.snapshot_term
  pub same_commit : l'.commit_index ≡ l.commit_index
  pub same_applied : l'.applied_index ≡ l.applied_index

pub Spliced-SameBase : {l l' : Log} {o : ℕ} {es : List Entry} → Spliced l o es l' → SameBase l l'
unfolding graft
Spliced-SameBase (whole a q) = rw q (omega arith)
Spliced-SameBase (cut pre b bs s a h c q) = rw q (omega arith)

pub Spliced-IsValid :
    {l l' : Log} {o : ℕ} {es : List Entry}
    → IsValid l
    → Contiguous (l.snapshot_index + o) es
    → l.snapshot_index + o + length es ≤ max_u64
    → Spliced l o es l'
    → IsValid l'
Spliced-IsValid v c f (whole a q) = rw q v
Spliced-IsValid {l} {l'} {o} {es} v c f (cut pre b bs s a h d q) =
    let e : l.snapshot_index + o + length pre ≡ l.snapshot_index + (o + length pre) = omega arith in
    let n : length es ≡ length pre + suc (length bs) = ap length s ∙ length-append pre (b ∷ bs) in
    rw q (
      graft-IsValid l (o + length pre) b bs v h d
        (rw e at (Contiguous-suffix (l.snapshot_index + o) pre (b ∷ bs) (rw s at c)))
        (omega (arith, n)))

-- The entry `m` at an offset is the batch's entry, or the old one there, of the same term.
pub data Holds (xs : List Entry) (i : ℕ) (e m : Entry) : Type 0 where
  took : m ≡ e → Holds xs i e m
  had : get_elem? xs i ≡ some m → m.term ≡ e.term → Holds xs i e m

pub Holds-term : {xs : List Entry} {i : ℕ} {e m : Entry} → Holds xs i e m → m.term ≡ e.term
Holds-term (took q) = ap (λ (x : Entry). x.term) q
Holds-term (had g t) = t

grafted_stored :
    (xs : List Entry) (o : ℕ) (pre : List Entry) (b : Entry) (bs : List Entry) (k : ℕ) (e : Entry)
    → Agrees xs o pre
    → o + length pre ≤ length xs
    → get_elem? (pre ++ (b ∷ bs)) k ≡ some e
    → (m : Entry) × (get_elem? (grafted xs (o + length pre) b bs) (o + k) ≡ some m)
      × Holds xs (o + k) e m
grafted_stored xs o pre b bs k e a h g = elim (Bool-cases (ltb k (length pre))) [
  | inl inside ↦
      let (m, at_k, t) =
        Agrees-get_elem? xs o pre k e a
          (sym (get_elem?-append_left pre (b ∷ bs) k (ground arith)) ∙ g) in
      (m, grafted_prefix xs (o + length pre) b bs h (o + k) (ground arith) ∙ at_k, had at_k t)
  | inr past ↦
      let j : ℕ = k - length pre in
      let p : k ≡ length pre + j = ground arith in
      let i : o + k ≡ (o + length pre) + j = omega (arith, p) in
      (
        e,
        ap (get_elem? (grafted xs (o + length pre) b bs)) i
            ∙ grafted_suffix xs (o + length pre) b bs h j
            ∙ sym (get_elem?-append_right pre (b ∷ bs) j)
            ∙ ap (get_elem? (pre ++ (b ∷ bs))) (sym p)
            ∙ g,
        took refl,
      )
]

pub Spliced-stored :
    {l l' : Log} {o : ℕ} {es : List Entry} (k : ℕ) (e : Entry)
    → Spliced l o es l'
    → get_elem? es k ≡ some e
    → (m : Entry) × (get_elem? l'.entries (o + k) ≡ some m) × Holds l.entries (o + k) e m
unfolding graft
Spliced-stored {l} {l'} {o} {es} k e (whole a q) g =
    let (m, at_k, t) = Agrees-get_elem? l.entries o es k e a g in rw q (m, at_k, had at_k t)
Spliced-stored {l} {l'} {o} {es} k e (cut pre b bs s a h c q) g =
    rw q (grafted_stored l.entries o pre b bs k e a h (rw s at g))

-- What is committed, or precedes the batch's first difference, is read as before.
pub Spliced-kept :
    {l l' : Log} {o : ℕ} {es : List Entry} (i : ℕ)
    → Spliced l o es l'
    → l.snapshot_index + suc i ≤ l.commit_index
    → get_elem? l'.entries i ≡ get_elem? l.entries i
unfolding graft
Spliced-kept i (whole a q) h = rw q
Spliced-kept {l} {l'} {o} {es} i (cut pre b bs s a g c q) h =
    rw q (grafted_prefix l.entries (o + length pre) b bs g i (omega arith))
