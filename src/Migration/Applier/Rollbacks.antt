-- ===== src/Migration/Applier/Rollbacks.antt =====
-- What `unapply` makes of a migration of the SQL connector
-- (migration-engine/connectors/migration-connector/src/migration_applier.rs).
use mathlib.Core.Option
use prisma_engine.Base.{
  true, ℕ, ◌+◌, ◌<◌, String, some, List, Outcome, ok, err, panic, ◌≡◌, refl, sym, ap, ◌∙◌, length,
}
use prisma_engine.Migration.Persistence.{
  Migration, MigrationUpdateParams, migration_success, rolling_back, rollback_success,
  rollback_failure, update_params, update, status_eq,
}
use prisma_engine.Migration.Applier.{
  World, rolled_back_one, unapply, SqlMigration, sql_step_applier, finish,
}
use prisma_engine.Migration.Applier.Progress.{go_total}
use prisma_engine.Migration.Applier.Execution.{execute, recorded, times, SameRow, update-update}
use prisma_engine.Migration.Applier.Records.{rolled_back_params, self_row, times-rolled_back_one}

module _ {E S D J Db : Type 0} (debug : E → String) (run : S → Db → Outcome E (Unit {0}) × Db) where
  rolled_back_finish :
      (sql : SqlMigration S) (n : ℕ) (u : MigrationUpdateParams) (ms : List (Migration D J))
      (db : Db) (r : Outcome E (Unit {0}))
      → SameRow u u
      → finish
          (sql_step_applier debug run)
          sql
          (λ q. record q { status = rollback_success })
          rollback_failure
          (record {
            result = r;
            params = times n rolled_back_one (record u { status = rolling_back });
            world = record {
              migrations = update (times n rolled_back_one (record u { status = rolling_back })) ms;
              database = db;
            };
          })
        ≡ (r, record { migrations = update (rolled_back_params debug r n u) ms; database = db })
  rolled_back_finish sql n u ms db r same =
      ap
        (λ (q : MigrationUpdateParams).
          finish (sql_step_applier debug run) sql (λ q. record q { status = rollback_success })
            rollback_failure
            (record {
              result = r;
              params = q;
              world = record { migrations = update q ms; database = db };
            }))
        (times-rolled_back_one n (record u { status = rolling_back }))
      ∙ by_result r
    where
      p : MigrationUpdateParams
      p = record u { status = rolling_back; rolled_back = u.rolled_back + n }

      row :
          (v : MigrationUpdateParams)
          → v.name ≡ u.name
          → v.new_name ≡ u.new_name
          → v.revision ≡ u.revision
          → SameRow p v
      row v a b c = record { name = sym a; new_name = sym b; revision = sym c; kept = same.kept }

      by_result :
          (r : Outcome E (Unit {0}))
          → finish
              (sql_step_applier debug run)
              sql
              (λ q. record q { status = rollback_success })
              rollback_failure
              (record {
                result = r;
                params = p;
                world = record { migrations = update p ms; database = db };
              })
            ≡ (r, record { migrations = update (rolled_back_params debug r n u) ms; database = db })
      by_result (ok o) =
          let v = rolled_back_params debug (ok o) n u in
          rw (update-update p v ms (row v refl refl refl)) refl
      by_result (err e) =
          let v = rolled_back_params debug (err e) n u in
          rw (update-update p v ms (row v refl refl refl)) refl
      by_result panic = refl

  -- Rolling back a migration that has succeeded makes its rollback steps in order until one fails, and
  -- leaves the database as these steps leave it. The row of the migration then holds the success or
  -- the failure of the rollback, with the error of a failure, and the steps that were made are added to
  -- those rolled back, less one if all of at least one step succeeded. There is such an end whenever
  -- the fuel is more than the number of steps.
  pub unapply_lem :
      (m : Migration D J) (sql : SqlMigration S) (w : World D J Db) (fuel : ℕ)
      → length sql.rollback < fuel
      → m.status ≡ migration_success
      → let x = execute run sql.rollback w.database in
        unapply (sql_step_applier debug run) sql fuel m w
        ≡ some (
          x.result,
          record {
            migrations =
                update
                  (rolled_back_params debug x.result (recorded x) (update_params m))
                  w.migrations;
            database = x.database;
          },
        )
  unfolding unapply
  unapply_lem m sql w fuel enough known =
      let u = record (update_params m) { status = rolling_back } in
      let x = execute run sql.rollback w.database in
      let st : status_eq m.status migration_success ≡ true = rw known refl in
      let loop =
        go_total run rolled_back_one
          (λ a b r. record {
            name = r.name;
            new_name = r.new_name;
            revision = r.revision;
            kept = r.kept;
          })
          sql.rollback w.migrations fuel u w.database enough
          (record { name = refl; new_name = refl; revision = refl; kept = refl }) in
      rw st (
        ap
          (Option.map (
            finish (sql_step_applier debug run) sql (λ q. record q { status = rollback_success })
              rollback_failure))
          loop
        ∙ ap some (
            rolled_back_finish sql (recorded x) (update_params m) w.migrations x.database x.result
              (self_row m)))
