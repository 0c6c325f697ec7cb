-- ===== src/Raft/Codec/Reads.antt =====
-- The readers of internal/raft/codec.go on what the encoder writes.
use crane.Base.{
  ℕ, ◌^◌, ◌≤◌, ◌<◌, ◌≡◌, refl, Bool, true, false, List, [], ◌∷◌, ◌++◌, length, take, drop, All,
  length-append, arith, if◌then◌else◌, ok, err, ◌>>=◌,
}
use mathlib.Core.List.{append_assoc, append-nil}
use crane.Base.Bytes.{big_endian, length-big_endian, spelled-big_endian}
use crane.Raft.Types.{Error}
use crane.Raft.Codec.Wire.{Reader, read, read_uint, read_boolean, read_bytes32, read_uints, bit}
use crane.Raft.Codec.Layout.{uints, bytes32}

-- The reader takes `xs` off the bytes and yields `a`.
pub record Reads {A : Type 0} (r : Reader A) (xs : List ℕ) (a : A) : Type 0 where
  pub takes : (rest : List ℕ) → r (xs ++ rest) ≡ ok (a, rest)

pub bind-Reads :
    {A B : Type 0} {r : Reader A} (k : A → Reader B) {xs ys : List ℕ} {a : A} {b : B}
    → Reads r xs a
    → Reads (k a) ys b
    → Reads (λ d. r d >>= λ p. k p.0 p.1) (xs ++ ys) b
bind-Reads k {xs} {ys} f g = record {
  takes = λ rest. rw (append_assoc xs ys rest, f.takes (ys ++ rest)) (g.takes rest);
}

pub ok-Reads : {A : Type 0} (a : A) → Reads (λ d. ok (a, d)) [] a
ok-Reads a = record { takes = λ rest. refl }

-- The last reader's value made into a message.
pub end-Reads :
    {A B : Type 0} {r : Reader A} (k : A → B) {xs : List ℕ} {a : A}
    → Reads r xs a
    → Reads (λ d. r d >>= λ p. ok (k p.0, p.1)) xs (k a)
end-Reads k f = record { takes = λ rest. rw (f.takes rest) refl }

take-append : (xs ys : List ℕ) → take (length xs) (xs ++ ys) ≡ xs
take-append [] ys = refl
take-append (x ∷ xs) ys = rw (take-append xs ys)

drop-append : (xs ys : List ℕ) → drop (length xs) (xs ++ ys) ≡ ys
drop-append [] ys = refl
drop-append (x ∷ xs) ys = drop-append xs ys

pub read-Reads : (n : ℕ) (xs : List ℕ) → length xs ≡ n → Reads (read n) xs xs
unfolding read
read-Reads n xs h = record {
  takes = λ rest.
      let q = length-append xs rest in
      let t = take-append xs rest in let d = drop-append xs rest in ground arith;
}

pub read_uint-Reads :
    (width v : ℕ) → v < 256 ^ width → Reads (read_uint width) (big_endian width v) v
unfolding read_uint
read_uint-Reads width v h = record {
  takes = λ rest.
      rw ((read-Reads width _ (length-big_endian width v)).takes rest, spelled-big_endian width v h)
        refl;
}

pub read_boolean-Reads : (b : Bool) → Reads read_boolean (big_endian 1 (bit b)) b
unfolding read_boolean
read_boolean-Reads true = record {
  takes = λ rest. rw ((read_uint-Reads 1 1 (omega arith)).takes rest) refl;
}
read_boolean-Reads false = record {
  takes = λ rest. rw ((read_uint-Reads 1 0 (omega arith)).takes rest) refl;
}

pub read_uints-Reads :
    (width : ℕ) (vs : List ℕ)
    → All (λ v. v < 256 ^ width) vs
    → Reads (read_uints width (length vs)) (uints width vs) vs
unfolding read_uints uints
read_uints-Reads width [] h = ok-Reads []
read_uints-Reads width (v ∷ vs) (h, hs) =
    bind-Reads _ (read_uint-Reads width v h) (end-Reads _ (read_uints-Reads width vs hs))

pub read_bytes32-Reads :
    (maximum : ℕ) (xs : List ℕ)
    → length xs ≤ maximum
    → length xs < 256 ^ 4
    → Reads (read_bytes32 maximum) (bytes32 xs) xs
unfolding read_bytes32 bytes32
read_bytes32-Reads maximum xs h f = record {
  takes = λ rest.
      let n = (read_uint-Reads 4 (length xs) f).takes (xs ++ rest) in
      let m = (read-Reads (length xs) xs refl).takes rest in
      let q = length-append xs rest in
      let a = append_assoc (big_endian 4 (length xs)) xs rest in rw (a, n) (ground arith);
}

-- The reader takes all of `xs`, and yields `a`.
pub record Finishes {A : Type 0} (r : Reader A) (xs : List ℕ) (a : A) : Type 0 where
  pub takes_all : r xs ≡ ok (a, [])

pub bind-Finishes :
    {A B : Type 0} {r : Reader A} (k : A → Reader B) {xs ys : List ℕ} {a : A} {b : B}
    → Reads r xs a
    → Finishes (k a) ys b
    → Finishes (λ d. r d >>= λ p. k p.0 p.1) (xs ++ ys) b
bind-Finishes k {xs} {ys} f g = record { takes_all = rw (f.takes ys) g.takes_all }

-- A test that the reader makes before it goes on.
pub guard-Finishes :
    {A : Type 0} {r : Reader A} {bad : Bool} (e : Error) {xs : List ℕ} {a : A}
    → bad ≡ false
    → Finishes r xs a
    → Finishes (λ d. if bad then err e else r d) xs a
guard-Finishes e q f = record { takes_all = rw q f.takes_all }

pub Reads-Finishes :
    {A : Type 0} {r : Reader A} {xs : List ℕ} {a : A} → Reads r xs a → Finishes r xs a
Reads-Finishes {xs = xs} f = record { takes_all = rw (append-nil xs) at (f.takes []) }

pub Reads-as :
    {A : Type 0} {r : Reader A} {xs ys : List ℕ} {a b : A}
    → xs ≡ ys
    → a ≡ b
    → Reads r xs a
    → Reads r ys b
Reads-as q e f = rw (q, e) at f
