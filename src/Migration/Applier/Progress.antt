-- ===== src/Migration/Applier/Progress.antt =====
-- The SQL connector's migrations: which steps are made, what the database is left as, and what the
-- table of migrations records
-- (migration-engine/connectors/migration-connector/src/migration_applier.rs).
use native.Mathlib.Numerals.{add-one}
use prisma_engine.Base.{
  ℕ, zero, suc, ◌+◌, ◌<◌, true, false, some, List, [], ◌∷◌, Outcome, ok, err, panic, ◌≡◌, refl, sym,
  ap, ◌∙◌, arith, length, drop, drop-suc,
}
use prisma_engine.Migration.Persistence.{Migration, MigrationUpdateParams, update}
use prisma_engine.Migration.Applier.{Run, go, apply_next_step}
use prisma_engine.Migration.Applier.Execution.{
  Executed, SameRow, counted-suc, execute, execute_pos, recorded, times, update-update,
}
use prisma_engine.Migration.Applier.Rounds.{continued, go_step, answer, next_step_lem}

module _ {E S D J Db : Type 0} (run : S → Db → Outcome E (Unit {0}) × Db)
    (count : MigrationUpdateParams → MigrationUpdateParams)
    (keeps : (u v : MigrationUpdateParams) → SameRow u v → SameRow u (count v)) (steps : List S)
    (ms : List (Migration D J)) where
  -- Where the loop ends: what executing the steps that are left gives, with the row written for the
  -- steps that are counted.
  abbrev pub ended : MigrationUpdateParams → Executed E Db → Run E D J Db
  ended u x = record {
    result = x.result;
    params = times (recorded x) count u;
    world = record { migrations = update (times (recorded x) count u) ms; database = x.database };
  }

  last_step :
      (fuel step : ℕ) (s : S) (u : MigrationUpdateParams) (db : Db)
      → drop step steps ≡ s ∷ []
      → go
          (apply_next_step run steps)
          count
          (suc fuel)
          step
          u
          (record { migrations = update u ms; database = db })
        ≡ some (ended u (execute run (s ∷ []) db))
  unfolding execute
  last_step fuel step s u db at =
      go_step (apply_next_step run steps) count fuel step u _ (next_step_lem run steps step at)
      ∙ cases (run s db).0 refl
    where
      cases :
          (r : Outcome E (Unit {0}))
          → (run s db).0 ≡ r
          → continued
              (apply_next_step run steps)
              count
              fuel
              step
              u
              (record { migrations = update u ms; database = (run s db).1 })
              (answer false (run s db).0)
            ≡ some (ended u (execute run (s ∷ []) db))
      cases (ok _) e = rw (e, execute) refl
      cases (err x) e = rw (e, execute) refl
      cases panic e = rw (e, execute) refl

  more_steps :
      (fuel step : ℕ) (s t : S) (rest : List S) (u : MigrationUpdateParams) (db : Db)
      → drop step steps ≡ s ∷ (t ∷ rest)
      → SameRow u u
      → go
          (apply_next_step run steps)
          count
          fuel
          (step + 1)
          (count u)
          (record { migrations = update (count u) ms; database = (run s db).1 })
        ≡ some (ended (count u) (execute run (t ∷ rest) (run s db).1))
      → go
          (apply_next_step run steps)
          count
          (suc fuel)
          step
          u
          (record { migrations = update u ms; database = db })
        ≡ some (ended u (execute run (s ∷ (t ∷ rest)) db))
  unfolding execute
  more_steps fuel step s t rest u db at same further =
      go_step (apply_next_step run steps) count fuel step u _ (next_step_lem run steps step at)
      ∙ cases (run s db).0 refl
    where
      db' : Db
      db' = (run s db).1

      cases :
          (r : Outcome E (Unit {0}))
          → (run s db).0 ≡ r
          → continued
              (apply_next_step run steps)
              count
              fuel
              step
              u
              (record { migrations = update u ms; database = db' })
              (answer true (run s db).0)
            ≡ some (ended u (execute run (s ∷ t ∷ rest) db))
      cases (ok _) e =
          rw (e, execute)
            (ap
                (λ m.
                  go (apply_next_step run steps) count fuel (step + 1) (count u)
                    (record { migrations = m; database = db' }))
                (update-update u (count u) ms (keeps u u same))
              ∙ (further
                  ∙ ap
                      (λ n. some (record {
                        result = (execute run (t ∷ rest) db').result;
                        params = times n count u;
                        world = record {
                          migrations = update (times n count u) ms;
                          database = (execute run (t ∷ rest) db').database;
                        };
                      }))
                      (sym (
                        counted-suc (execute run (t ∷ rest) db').result
                          (execute run (t ∷ rest) db').succeeded (execute_pos run t rest db')))))
      cases (err x) e = rw (e, execute) refl
      cases panic e = rw (e, execute) refl

  keeps_self : (u : MigrationUpdateParams) → SameRow u u → SameRow (count u) (count u)
  keeps_self u same =
      let k = keeps u u same in
      record {
        name = refl;
        new_name = refl;
        revision = refl;
        kept = sym k.new_name ∙ (same.kept ∙ k.name);
      }

  pub go_lem :
      (rest : List S) (s : S) (fuel step : ℕ) (u : MigrationUpdateParams) (db : Db)
      → drop step steps ≡ s ∷ rest
      → length rest < fuel
      → SameRow u u
      → go
          (apply_next_step run steps)
          count
          fuel
          step
          u
          (record { migrations = update u ms; database = db })
        ≡ some (ended u (execute run (s ∷ rest) db))
  unfolding execute
  go_lem rest s zero step u db at enough same = absurd (omega arith)
  go_lem [] s (suc fuel) step u db at enough same = last_step fuel step s u db at
  go_lem (t ∷ rest) s (suc fuel) step u db at enough same =
      let db' = (run s db).1 in
      more_steps fuel step s t rest u db at same (
        go_lem rest t fuel (step + 1) (count u) db' (rw (add-one, drop-suc step steps at) refl)
          (omega arith) (keeps_self u same))

  no_steps :
      (fuel : ℕ) (u : MigrationUpdateParams) (db : Db)
      → 0 < fuel
      → steps ≡ []
      → go
          (apply_next_step run steps)
          count
          fuel
          0
          u
          (record { migrations = update u ms; database = db })
        ≡ some (ended u (execute run [] db))
  unfolding execute apply_next_step
  no_steps zero u db h e = absurd (omega arith)
  no_steps (suc fuel) u db h e =
      go_step (apply_next_step run steps) count fuel 0 u
        (record { migrations = update u ms; database = db }) {answer = ok false} {db = db}
        (rw (e, apply_next_step) refl)

  -- The whole loop, from the first step; no steps at all are no failure.
  pub go_total :
      (fuel : ℕ) (u : MigrationUpdateParams) (db : Db)
      → length steps < fuel
      → SameRow u u
      → go
          (apply_next_step run steps)
          count
          fuel
          0
          u
          (record { migrations = update u ms; database = db })
        ≡ some (ended u (execute run steps db))
  go_total fuel u db enough same = from_start steps refl
    where
      from_start :
          (l : List S)
          → steps ≡ l
          → go
              (apply_next_step run steps)
              count
              fuel
              0
              u
              (record { migrations = update u ms; database = db })
            ≡ some (ended u (execute run l db))
      from_start [] e = no_steps fuel u db (omega arith) e
      from_start (s ∷ rest) e =
          let many : suc (length rest) < fuel = rw e at enough in
          go_lem rest s fuel 0 u db e (omega arith) same
