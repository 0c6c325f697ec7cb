-- ===== src/Swim/Examples/Engines.antt =====
-- An engine of internal/swim that is suspected itself and suspects another, and the theorems on Suspicion
-- applied to it.
use crane.Base.{ℕ, ◌≤◌, ◌≡◌, ◌⊎◌, refl, subst, none, some, List, [], ◌∷◌, arith}
use crane.Base.Maps.{lookup, insert}
use crane.Swim.Types.{Member, Update, alive, suspect}
use crane.Swim.Table.{Table, new_table, merge, retain_incarnation_floor}
use crane.Swim.Table.Valid.{IsValid}
use crane.Swim.Table.Runs.{Change, updated, run, run-IsValid, new_table-IsValid}
use crane.Swim.Dissemination.{new_disseminator}
use crane.Swim.Duration.{suspicion_duration}
use crane.Swim.Suspicion.{Engine, apply_update, handle_suspicion_timeout}
use crane.Swim.Suspicion.Refutation.{apply_update_refutes}
use crane.Swim.Suspicion.Timeouts.{RunOut, Unmoved, Buried, handle_suspicion_timeout_lem}
use crane.Swim.Suspicion.Durations.{suspicion_duration_bounds}

abbrev node : ℕ → ℕ → ℕ → Member
node id incarnation status = record {
  node_id = id;
  host = 104 ∷ [];
  base_port = 7000;
  incarnation = incarnation;
  status = status;
}

abbrev view : Table
view = record { members = (1, node 1 4 alive) ∷ (7, node 7 2 suspect) ∷ []; floors = [] }

abbrev joined : List Change
joined =
    updated (record { member = node 1 4 alive; reporter_id = 1 })
    ∷ updated (record { member = node 7 2 suspect; reporter_id = 1 })
    ∷ []

view_built : run joined new_table ≡ view
unfolding merge lookup insert retain_incarnation_floor
view_built = refl

view-IsValid : IsValid view
view-IsValid = subst IsValid view_built (run-IsValid joined new_table new_table-IsValid)

abbrev engine : Engine
engine = record {
  self_id = 1;
  probe_interval = 1000000000;
  suspicion_multiplier = 3;
  table = view;
  dissemination = new_disseminator 8 3;
  suspicions =
      (
        7,
        record {
          incarnation = 2;
          deadline = 6000000000;
          duration = 6000000000;
          reporters = 1 ∷ [];
        },
      )
      ∷ [];
  tombstones = [];
}

abbrev accusation : Update
accusation = record { member = node 1 4 suspect; reporter_id = 7 }

self_visible : lookup 1 view.members ≡ some (node 1 4 alive)
unfolding lookup
self_visible = refl

apply_update_refutes_example :
    ((apply_update accusation 5000000000 engine).0.persist_incarnation ≡ some 5)
    × (lookup 1 (apply_update accusation 5000000000 engine).1.table.members ≡ some (node 1 5 alive))
    × (lookup 1 (apply_update accusation 5000000000 engine).1.suspicions ≡ none)
apply_update_refutes_example =
    apply_update_refutes accusation (node 1 4 alive) 5000000000 engine view-IsValid refl refl refl
      refl self_visible (omega arith) (omega arith)

handle_suspicion_timeout_example :
    (¬ RunOut 7 2 6000000000 engine
      × Unmoved engine (handle_suspicion_timeout 7 2 6000000000 engine))
    ⊎ ((x : RunOut 7 2 6000000000 engine) × Buried 7 x.member engine
          (handle_suspicion_timeout 7 2 6000000000 engine))
handle_suspicion_timeout_example =
    handle_suspicion_timeout_lem 7 2 6000000000 engine view-IsValid (omega arith) (omega arith)

suspicion_duration_bounds_example :
    (5000000000 ≤ suspicion_duration 3 1000000000 4)
    × (suspicion_duration 3 1000000000 4 ≤ 9223372036854775807)
suspicion_duration_bounds_example = suspicion_duration_bounds 3 1000000000 4
