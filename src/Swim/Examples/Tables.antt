-- ===== src/Swim/Examples/Tables.antt =====
-- A membership table of internal/swim/table.go with a suspect and a dead member, and the theorems on
-- Table applied to it.
use crane.Base.{ℕ, ◌<◌, ◌⊎◌, ◌≡◌, refl, subst, inr, List, [], ◌∷◌, some, arith}
use mathlib.Core.List.Perm
use crane.Base.Maps.{lookup, insert}
use crane.Swim.Types.{Member, Update, alive, suspect, dead, left}
use crane.Swim.Table.{Table, new_table, merge, refused, retain_incarnation_floor, expire_terminal}
use crane.Swim.Table.Valid.{IsValid}
use crane.Swim.Table.Ranks.{known, greater}
use crane.Swim.Table.Runs.{
  Change, updated, floored, expired, run, tells_all, run-IsValid, new_table-IsValid, run-known,
  runs_agree, merged_once, no_resurrection,
}
use crane.Swim.Table.Address.{merge_keeps_address}

abbrev peer : ℕ → ℕ → ℕ → Member
peer id incarnation status = record {
  node_id = id;
  host = 104 ∷ [];
  base_port = 7000;
  incarnation = incarnation;
  status = status;
}

abbrev heard : Member → Update
heard m = record { member = m; reporter_id = 1 }

abbrev history : List Change
history =
    updated (heard (peer 7 2 alive))
    ∷ updated (heard (peer 9 3 suspect))
    ∷ updated (heard (peer 7 2 suspect))
    ∷ updated (heard (peer 9 3 dead))
    ∷ []

abbrev table : Table
table = record {
  members = (7, peer 7 2 suspect) ∷ (9, peer 9 3 dead) ∷ [];
  floors = (9, peer 9 3 dead) ∷ [];
}

table_built : run history new_table ≡ table
unfolding merge lookup insert retain_incarnation_floor
table_built = refl

table-IsValid : IsValid table
table-IsValid = subst IsValid table_built (run-IsValid history new_table new_table-IsValid)

table_nine : lookup 9 table.members ≡ some (peer 9 3 dead)
unfolding lookup
table_nine = refl

table_seven : lookup 7 table.members ≡ some (peer 7 2 suspect)
unfolding lookup
table_seven = refl

-- The dead member is taken away, and its neighbours still gossip about it.
abbrev later : List Change
later =
    expired (peer 9 3 dead)
    ∷ updated (heard (peer 9 3 suspect))
    ∷ floored (peer 9 3 left) 2
    ∷ updated (heard (peer 7 3 alive))
    ∷ []

run-IsValid_example : IsValid (run later table)
run-IsValid_example = run-IsValid later table table-IsValid

run-known_example : known 9 (run later table) ≡ greater (known 9 table) (tells_all 9 later)
run-known_example = run-known 9 later table table-IsValid

abbrev gossip : List Change
gossip = updated (heard (peer 7 2 suspect)) ∷ updated (heard (peer 7 3 alive)) ∷ []

abbrev reordered : List Change
reordered = updated (heard (peer 7 3 alive)) ∷ updated (heard (peer 7 2 suspect)) ∷ []

gossip_shown : lookup 7 (run gossip new_table).members ≡ some (peer 7 3 alive)
unfolding merge lookup insert retain_incarnation_floor
gossip_shown = refl

reordered_shown : lookup 7 (run reordered new_table).members ≡ some (peer 7 3 alive)
unfolding merge lookup insert retain_incarnation_floor
reordered_shown = refl

runs_agree_example :
    ((peer 7 3 alive).incarnation ≡ (peer 7 3 alive).incarnation)
    × ((peer 7 3 alive).status ≡ (peer 7 3 alive).status)
runs_agree_example =
    runs_agree gossip reordered 7 (peer 7 3 alive) (peer 7 3 alive) (Perm.swap _ _ []) gossip_shown
      reordered_shown

merged_once_example :
    merge (heard (peer 7 3 alive)) (run later (merge (heard (peer 7 3 alive)) table).table)
    ≡ refused (run later (merge (heard (peer 7 3 alive)) table).table)
merged_once_example = merged_once (heard (peer 7 3 alive)) later table table-IsValid

no_resurrection_example :
    merge (heard (peer 9 3 alive)) (run later (expire_terminal (peer 9 3 dead) table).1)
    ≡ refused (run later (expire_terminal (peer 9 3 dead) table).1)
no_resurrection_example =
    no_resurrection (peer 9 3 dead) (heard (peer 9 3 alive)) later table table-IsValid table_nine
      refl (inr (refl, omega arith))

-- A report that node 7 is dead, at a port that is not its own.
abbrev moved : Update
moved = heard (record (peer 7 2 dead) { base_port = 8000 })

moved_merged : lookup 7 (merge moved table).table.members ≡ some (peer 7 2 dead)
unfolding merge lookup insert retain_incarnation_floor
moved_merged = refl

merge_keeps_address_example :
    (((peer 7 2 dead).host ≡ (peer 7 2 suspect).host)
      × ((peer 7 2 dead).base_port ≡ (peer 7 2 suspect).base_port))
    ⊎ ((peer 7 2 suspect).incarnation < (peer 7 2 dead).incarnation)
merge_keeps_address_example =
    merge_keeps_address moved table 7 (peer 7 2 suspect) (peer 7 2 dead) table-IsValid table_seven
      moved_merged
