-- ===== src/Migration/Applier/Results.antt =====
-- What `apply` makes of a migration of the SQL connector
-- (migration-engine/connectors/migration-connector/src/migration_applier.rs).
use mathlib.Core.Option
use prisma_engine.Base.{
  true, ℕ, ◌+◌, ◌<◌, String, some, List, Outcome, ok, err, panic, ◌≡◌, refl, sym, ap, ◌∙◌, length,
}
use prisma_engine.Migration.Persistence.{
  Migration, MigrationUpdateParams, pending, migration_in_progress, migration_failure,
  update_params, update, status_eq, mark_as_finished, mark_as_finished,
}
use prisma_engine.Migration.Applier.{
  World, applied_one, apply, SqlMigration, sql_step_applier, finish,
}
use prisma_engine.Migration.Applier.Progress.{go_total}
use prisma_engine.Migration.Applier.Execution.{execute, recorded, times, SameRow, update-update}
use prisma_engine.Migration.Applier.Records.{applied_params, self_row, times-applied_one}

module _ {E S D J Db : Type 0} (debug : E → String) (run : S → Db → Outcome E (Unit {0}) × Db) where
  applied_finish :
      (sql : SqlMigration S) (now n : ℕ) (u : MigrationUpdateParams) (ms : List (Migration D J))
      (db : Db) (r : Outcome E (Unit {0}))
      → SameRow u u
      → finish (sql_step_applier debug run) sql (mark_as_finished now) migration_failure (record {
        result = r;
        params = times n applied_one (record u { status = migration_in_progress });
        world = record {
          migrations =
              update (times n applied_one (record u { status = migration_in_progress })) ms;
          database = db;
        };
      })
        ≡ (r, record { migrations = update (applied_params debug r n now u) ms; database = db })
  applied_finish sql now n u ms db r same =
      ap
        (λ (q : MigrationUpdateParams).
          finish (sql_step_applier debug run) sql (mark_as_finished now) migration_failure (record {
            result = r;
            params = q;
            world = record { migrations = update q ms; database = db };
          }))
        (times-applied_one n (record u { status = migration_in_progress }))
      ∙ by_result r
    where
      p : MigrationUpdateParams
      p = record u { status = migration_in_progress; applied = u.applied + n }

      row :
          (v : MigrationUpdateParams)
          → v.name ≡ u.name
          → v.new_name ≡ u.new_name
          → v.revision ≡ u.revision
          → SameRow p v
      row v a b c = record { name = sym a; new_name = sym b; revision = sym c; kept = same.kept }

      by_result :
          (r : Outcome E (Unit {0}))
          → finish
              (sql_step_applier debug run)
              sql
              (mark_as_finished now)
              migration_failure
              (record {
                result = r;
                params = p;
                world = record { migrations = update p ms; database = db };
              })
            ≡ (r, record { migrations = update (applied_params debug r n now u) ms; database = db })
      by_result (ok o) =
          let v = applied_params debug (ok o) n now u in
          rw (update-update p v ms (row v refl refl refl)) refl
      by_result (err e) =
          let v = applied_params debug (err e) n now u in
          rw (update-update p v ms (row v refl refl refl)) refl
      by_result panic = refl

  -- Applying a pending migration makes its steps in order until one fails, and leaves the database as
  -- these steps leave it. The row of the migration then holds success, or failure with the error, and
  -- the steps that were made are added to those it had recorded, less one if all of at least one step
  -- succeeded. There is such an end whenever the fuel is more than the number of steps.
  pub apply_lem :
      (m : Migration D J) (sql : SqlMigration S) (w : World D J Db) (fuel now : ℕ)
      → length sql.corrected_steps < fuel
      → m.status ≡ pending
      → let x = execute run sql.corrected_steps w.database in
        apply (sql_step_applier debug run) sql fuel now m w
        ≡ some (
          x.result,
          record {
            migrations =
                update
                  (applied_params debug x.result (recorded x) now (update_params m))
                  w.migrations;
            database = x.database;
          },
        )
  unfolding apply
  apply_lem m sql w fuel now enough known =
      let u = record (update_params m) { status = migration_in_progress } in
      let x = execute run sql.corrected_steps w.database in
      let st : status_eq m.status pending ≡ true = rw known refl in
      let loop =
        go_total run applied_one
          (λ a b r. record {
            name = r.name;
            new_name = r.new_name;
            revision = r.revision;
            kept = r.kept;
          })
          sql.corrected_steps w.migrations fuel u w.database enough
          (record { name = refl; new_name = refl; revision = refl; kept = refl }) in
      rw st (
        ap
          (Option.map
            (finish (sql_step_applier debug run) sql (mark_as_finished now) migration_failure))
          loop
        ∙ ap some (
            applied_finish sql now (recorded x) (update_params m) w.migrations x.database x.result
              (self_row m)))
