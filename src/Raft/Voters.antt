-- ===== src/Raft/Voters.antt =====
-- internal/raft/voters.go: the fixed voter set and its quorum. The endpoint of a voter is text, and a fingerprint the number that its bytes spell.
use Prim.Native.String.{String}
use crane.Base.{
  ℕ, suc, ◌≤◌, ◌<◌, ◌≡◌, refl, inl, inr, arith, Bool-cases, ◌+◌, ◌/◌, ◌==◌, Bool, true, false, ◌||◌,
  not, Option, none, some, List, [], ◌∷◌, length, if◌then◌else◌,
}
use mathlib.Core.List.{Memᴰ}
use crane.Raft.Types.{Error, not_voter}

pub record Voter : Type 0 where
  pub id : ℕ
  pub endpoint : String

-- `voters` in ascending order of their ids; the source's `byID` indexes the same voters.
pub record VoterSet : Type 0 where
  pub voters : List Voter
  pub fingerprint : ℕ

find : ℕ → List Voter → Option Voter
find id [] = none
find id (v ∷ vs) = if v.id == id then some v else find id vs

unfoldable pub voter : VoterSet → ℕ → Option Voter
unfolding find
voter s id = find id s.voters

unfoldable pub contains_voter : VoterSet → ℕ → Bool
unfolding voter
contains_voter s id = elim (voter s id) [ none ↦ false | some v ↦ true ]

unfoldable pub majority : VoterSet → ℕ
majority s = length s.voters / 2 + 1

unfoldable pub validate_local_id : VoterSet → ℕ → Option Error
validate_local_id s id = if (id == 0) || not (contains_voter s id) then some not_voter else none

-- How many of the voters a test holds for.
unfoldable pub count : (Voter → Bool) → List Voter → ℕ
count p [] = 0
count p (v ∷ vs) = let rest = count p vs in if p v then suc rest else rest

count_meets :
    (p q : Voter → Bool) (vs : List Voter)
    → length vs < count p vs + count q vs
    → (v : Voter) × Memᴰ v vs × (p v ≡ true) × (q v ≡ true)
unfolding count
count_meets p q [] h = absurd (omega arith)
count_meets p q (v ∷ vs) h = elim (Bool-cases (p v)) [
  | inr a ↦ let (w, m, x, y) = count_meets p q vs (ground arith) in (w, Memᴰ.tail m, x, y)
  | inl a ↦ elim (Bool-cases (q v)) [
    | inr b ↦ let (w, m, x, y) = count_meets p q vs (ground arith) in (w, Memᴰ.tail m, x, y)
    | inl b ↦ (v, Memᴰ.head refl, a, b)
  ]
]

-- Any two tests that each hold for a majority of the voters hold together for some voter: two quorums
-- share a member.
pub quorums_meet :
    (s : VoterSet) (p q : Voter → Bool)
    → majority s ≤ count p s.voters
    → majority s ≤ count q s.voters
    → (v : Voter) × Memᴰ v s.voters × (p v ≡ true) × (q v ≡ true)
unfolding majority
quorums_meet s p q a b = count_meets p q s.voters (omega arith)
