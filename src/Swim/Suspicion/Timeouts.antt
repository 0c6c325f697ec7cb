-- ===== src/Swim/Suspicion/Timeouts.antt =====
-- HandleSuspicionTimeout of internal/swim/suspicion.go: whom a timeout declares dead, and what that leaves.
use crane.Base.{
  ℕ, ◌≤◌, ◌<◌, ◌≡◌, ◌≢◌, ◌⊎◌, refl, sym, ap, subst, ◌∙◌, inl, inr, ltb, ◌==◌, ◌||◌, not, true,
  false, Option, none, some, List, [], ◌∷◌, arith, Bool-cases, Option-cases, ==_refl,
}
use crane.Base.Maps.{lookup, insert, remove, lookup-insert, lookup-remove}
use crane.Swim.Types.{Member, Update, MembershipEvent, suspect, dead}
use crane.Swim.Table.{Table, merge, is_mergeable, admitted}
use crane.Swim.Table.Valid.{IsValid, Named, Slot, visible-Named}
use crane.Swim.Table.Shown.{merge_shows}
use crane.Swim.Dissemination.{is_valid_update}
use crane.Swim.Duration.{suspicion_duration, multiply_duration_saturated, add_duration_saturated}
use crane.Swim.Suspicion.{
  no_effects, alive_members, Engine, Effects, SuspicionState, TombstoneState, suspects_self,
  applied_transition, begin_tombstone, settle_status, merge_update, apply_update,
  handle_suspicion_timeout,
}

-- The suspicion that a timeout is about has run out, and its member is still suspect in the generation
-- that the timeout names.
pub record RunOut (node_id incarnation now : ℕ) (e : Engine) : Type 0 where
  pub suspicion : SuspicionState
  pub held : lookup node_id e.suspicions ≡ some suspicion
  pub same_generation : suspicion.incarnation ≡ incarnation
  pub over : suspicion.deadline ≤ now
  pub member : Member
  pub visible : lookup node_id e.table.members ≡ some member
  pub current : member.incarnation ≡ incarnation
  pub suspected : member.status ≡ 1

abbrev pub declared_dead : Member → Member
declared_dead m = record m { status = dead }

-- The engine has declared the member dead: it shows it dead, as it was otherwise, and shows all others
-- as before; it holds no suspicion of it, but a tombstone of that generation, and announces it.
pub record Buried (node_id : ℕ) (m : Member) (e : Engine) (after : Effects × Engine) : Type 0 where
  pub shown : lookup node_id after.1.table.members ≡ some (declared_dead m)
  pub others :
      (k : ℕ) → (node_id == k) ≡ false → lookup k after.1.table.members ≡ lookup k e.table.members
  pub forgotten : lookup node_id after.1.suspicions ≡ none
  pub tombstone : TombstoneState
  pub entombed : lookup node_id after.1.tombstones ≡ some tombstone
  pub generation : tombstone.incarnation ≡ m.incarnation
  pub status : tombstone.status ≡ 2
  pub event : MembershipEvent
  pub announced : after.0.events ≡ event ∷ []
  pub announces : event.current ≡ declared_dead m

-- What `ApplyUpdate` leaves where its merge has announced a member dead.
record Settled (m : Member) (u : Update) (e : Engine) (after : Effects × Engine) : Type 0 where
  same_table : after.1.table ≡ (merge u e.table).table
  removed : after.1.suspicions ≡ remove m.node_id e.suspicions
  stone : TombstoneState
  inserted : after.1.tombstones ≡ insert m.node_id stone e.tombstones
  of_generation : stone.incarnation ≡ m.incarnation
  of_status : stone.status ≡ 2
  events : after.0.events ≡ (merge u e.table).event ∷ []

-- The tombstone of `begin_tombstone`.
abbrev tombstone_of : Member → ℕ → Engine → TombstoneState
tombstone_of m now e = record {
  incarnation = m.incarnation;
  status = dead;
  deadline = add_duration_saturated now (
      multiply_duration_saturated
        (suspicion_duration e.suspicion_multiplier e.probe_interval (alive_members e)) 10);
}

abbrev death_report : ℕ → Member → Update
death_report self_id m = record { member = declared_dead m; reporter_id = self_id }

merge_update-Settled :
    (m : Member) (visible : Option Member) (u : Update) (now : ℕ) (e : Engine)
    → (merge u e.table).changed ≡ true
    → (merge u e.table).event.current ≡ declared_dead m
    → Settled m u e (merge_update u visible now e)
unfolding merge_update settle_status begin_tombstone applied_transition
merge_update-Settled m visible u now e changed announces =
    rw (merge_update, changed)
      (rw announces (record {
        same_table = refl;
        removed = refl;
        stone = tombstone_of m now (record e { table = (merge u e.table).table });
        inserted = refl;
        of_generation = refl;
        of_status = refl;
        events = refl;
      }))

report_mergeable :
    (n self_id : ℕ) (m : Member)
    → Named n m
    → 0 < self_id
    → is_mergeable (death_report self_id m) ≡ true
report_mergeable n self_id m w s =
    let y : m.node_id ≢ 0 = λ e. w.nonzero (sym w.named ∙ e) in ground arith

admitted-dead :
    (m : Member) → m.status ≡ 1 → admitted (declared_dead m) (some m) ≡ some (declared_dead m)
admitted-dead m h = ground arith

-- The report is not taken for a suspicion of the node itself.
apply_update-report :
    (m : Member) (now : ℕ) (e : Engine)
    → is_mergeable (death_report e.self_id m) ≡ true
    → 0 < m.incarnation
    → lookup m.node_id e.table.members ≡ some m
    → apply_update (death_report e.self_id m) now e
      ≡ merge_update (death_report e.self_id m) (some m) now e
unfolding apply_update
apply_update-report m now e good z q =
    let valid : is_valid_update (death_report e.self_id m) ≡ true = ground arith in
    let meek : suspects_self e (death_report e.self_id m) m ≡ false = ground arith in
    rw (apply_update, valid)
      (rw q
        (rw meek (ap (λ (o : Option Member). merge_update (death_report e.self_id m) o now e) q)))

-- The report of a visible suspect buries it, whatever the engine has forgotten of it before.
report-Buried :
    (n now : ℕ) (m : Member) (e : Engine)
    → IsValid e.table
    → 0 < e.self_id
    → 0 < m.incarnation
    → lookup n e.table.members ≡ some m
    → m.status ≡ 1
    → Buried n m e (
        apply_update
          (death_report e.self_id m)
          now
          (record e { suspicions = remove n e.suspicions }))
report-Buried n now m e v self z q suspected =
    let slot = subst (λ (o : Option Member). Slot n o (lookup n e.table.floors)) q (v.slot n) in
    let w = visible-Named n m (lookup n e.table.floors) slot in
    let u = death_report e.self_id m in
    let good = report_mergeable n e.self_id m w self in
    let forgetful : Engine = record e { suspicions = remove n e.suspicions } in
    let here : lookup m.node_id e.table.members ≡ some m =
      ap (λ (k : ℕ). lookup k e.table.members) w.named ∙ q in
    let sh =
      merge_shows n u m (declared_dead m) e.table v q w.named w.named good
        (admitted-dead m suspected) in
    let step = apply_update-report m now forgetful good z here in
    let st = merge_update-Settled m (some m) u now forgetful sh.raised sh.announced in
    rw step (record {
      shown = ap (λ (t : Table). lookup n t.members) st.same_table ∙ sh.shown;
      others = λ k other. ap (λ (t : Table). lookup k t.members) st.same_table ∙ sh.others k other;
      forgotten =
          ap (lookup n) st.removed
          ∙ lookup-remove m.node_id n (remove n e.suspicions)
          ∙ rw w.named (simp (==_refl n) refl);
      tombstone = st.stone;
      entombed =
          ap (lookup n) st.inserted
          ∙ lookup-insert m.node_id n st.stone e.tombstones
          ∙ rw w.named (simp (==_refl n) refl);
      generation = st.of_generation;
      status = st.of_status;
      event = (merge u e.table).event;
      announced = st.events;
      announces = sh.announced;
    })

-- The engine shows, disseminates, entombs and announces nothing new.
pub record Unmoved (e : Engine) (after : Effects × Engine) : Type 0 where
  pub same_table : after.1.table ≡ e.table
  pub same_queue : after.1.dissemination ≡ e.dissemination
  pub same_tombstones : after.1.tombstones ≡ e.tombstones
  pub silent : after.0.events ≡ []

-- Without effects, whatever suspicions remain.
quiet :
    (s : List (ℕ × SuspicionState)) (e : Engine)
    → Unmoved e (no_effects, record e { suspicions = s })
quiet s e = record { same_table = refl; same_queue = refl; same_tombstones = refl; silent = refl }

-- In an engine with a valid table and its own identifier, a suspicion timeout for a generation from 1 on
-- declares its member dead where the suspicion has run out and the member is still suspect in that
-- generation, the node itself included: the table then shows it dead and all others as before, the
-- suspicion is gone, a tombstone of the generation is held, and the change is announced. In every other
-- case the table, the queue and the tombstones stay as they are, and nothing is announced.
pub handle_suspicion_timeout_lem :
    (node_id incarnation now : ℕ) (e : Engine)
    → IsValid e.table
    → 0 < e.self_id
    → 0 < incarnation
    → (¬ RunOut node_id incarnation now e
        × Unmoved e (handle_suspicion_timeout node_id incarnation now e))
      ⊎ ((x : RunOut node_id incarnation now e) × Buried node_id x.member e
            (handle_suspicion_timeout node_id incarnation now e))
unfolding handle_suspicion_timeout
handle_suspicion_timeout_lem node_id incarnation now e v self z =
    elim (Option-cases (lookup node_id e.suspicions)) [
      | inl q ↦
          inl (λ x. let h = x.held in cc, rw (handle_suspicion_timeout, q) (quiet e.suspicions e))
      | inr (s, q) ↦ elim (Bool-cases (not (s.incarnation == incarnation) || ltb now s.deadline)) [
        | inl early ↦ inl (
          λ x.
              let same : x.suspicion ≡ s = let h = x.held in cc in
              let generation = rw same at x.same_generation in
              let over = rw same at x.over in ground arith,
          rw (handle_suspicion_timeout, q) (rw early (quiet e.suspicions e)),
        )
        | inr due ↦ elim (Option-cases (lookup node_id e.table.members)) [
          | inl p ↦ inl (
            λ x. let h = x.visible in cc,
            rw (handle_suspicion_timeout, q)
                (rw due (rw p (quiet (remove node_id e.suspicions) e))),
          )
          | inr (m, p) ↦
              elim (Bool-cases (not (m.incarnation == incarnation) || not (m.status == suspect))) [
                | inl moved ↦ inl (
                  λ x.
                      let same : x.member ≡ m = let h = x.visible in cc in
                      let current = rw same at x.current in
                      let suspected = rw same at x.suspected in ground arith,
                  rw (handle_suspicion_timeout, q)
                      (rw due (rw p (rw moved (quiet (remove node_id e.suspicions) e)))),
                )
                | inr still ↦ inr (
                  record {
                    suspicion = s;
                    held = q;
                    same_generation = ground arith;
                    over = ground arith;
                    member = m;
                    visible = p;
                    current = ground arith;
                    suspected = ground arith;
                  },
                  rw (handle_suspicion_timeout, q)
                      (rw due (
                        rw p (
                          rw still (
                            report-Buried node_id now m e v self (ground arith) p
                              (ground arith))))),
                )
              ]
        ]
      ]
    ]
