-- ===== src/Base/Bytes.antt =====
-- Numbers as big-endian byte strings of a fixed width (encoding/binary's BigEndian).
use Prim.Native.Nat.{ℕ, zero, suc, ◌+◌, ◌*◌, ◌/◌, ◌%◌, ◌^◌, ◌<◌}
use Prim.Native.Nat.pow
use mathlib.Core.Path.{◌≡◌, refl, ap, ◌∙◌}
use mathlib.Core.List.{List, [], ◌∷◌, ◌++◌}
use native.Mathlib.Omega.{arith}
use crane.Base.Lists.{length, All, All-append, length-append}

abbrev pub IsByte : ℕ → Type 0
IsByte b = b < 256

-- `width` bytes, the most significant first.
unfoldable pub big_endian : ℕ → ℕ → List ℕ
big_endian zero v = []
big_endian (suc width) v = big_endian width (v / 256) ++ (v % 256 ∷ [])

unfoldable pub spelled : ℕ → List ℕ → ℕ
spelled high [] = high
spelled high (b ∷ bs) = spelled (high * 256 + b) bs

spelled-snoc :
    (high b : ℕ) (bs : List ℕ) → spelled high (bs ++ (b ∷ [])) ≡ spelled high bs * 256 + b
unfolding spelled
spelled-snoc high b [] = refl
spelled-snoc high b (x ∷ bs) = spelled-snoc (high * 256 + x) b bs

pub length-big_endian : (width v : ℕ) → length (big_endian width v) ≡ width
unfolding big_endian
length-big_endian zero v = refl
length-big_endian (suc width) v =
    rw
      (length-append (big_endian width (v / 256)) (v % 256 ∷ []), length-big_endian width (v / 256))
      (omega arith)

pub spelled-big_endian : (width v : ℕ) → v < 256 ^ width → spelled 0 (big_endian width v) ≡ v
unfolding big_endian
spelled-big_endian zero v h = unfold spelled in omega arith
spelled-big_endian (suc width) v h =
    spelled-snoc 0 (v % 256) (big_endian width (v / 256))
    ∙ ap (λ (n : ℕ). n * 256 + v % 256)
        (spelled-big_endian width (v / 256) (omega (arith, pow.suc 256 width)))
    ∙ omega arith

pub big_endian-IsByte : (width v : ℕ) → All IsByte (big_endian width v)
unfolding big_endian
big_endian-IsByte zero v = tt
big_endian-IsByte (suc width) v =
    All-append IsByte (big_endian width (v / 256)) _ (big_endian-IsByte width (v / 256))
      (omega arith, tt)
