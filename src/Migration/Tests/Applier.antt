-- ===== src/Migration/Tests/Applier.antt =====
-- Tests of the migration applier
-- (migration-engine/connectors/migration-connector/src/migration_applier.rs).
use prisma_engine.Base.{ℕ, List, [], ◌∷◌, ◌≡◌, refl, some, ok, err, arith}
use prisma_engine.Migration.Persistence.{
  pending, migration_success, migration_failure, update_params, update,
}
use prisma_engine.Migration.Applier.{World, SqlMigration, apply, unapply, sql_step_applier}
use prisma_engine.Migration.Applier.Execution.{execute, recorded}
use prisma_engine.Migration.Applier.Results.{apply_lem}
use prisma_engine.Migration.Applier.Rollbacks.{unapply_lem}
use prisma_engine.Migration.Applier.Records.{applied_params, rolled_back_params}
use prisma_engine.Migration.Samples.{migration, run_sample}

abbrev world : World (Unit {0}) (Unit {0}) (List ℕ)
world = record { migrations = migration "init" 1 pending ∷ []; database = [] }

abbrev three_steps : SqlMigration ℕ
three_steps = record { corrected_steps = 1 ∷ 2 ∷ 3 ∷ []; rollback = 4 ∷ [] }

-- Three steps are made and two are recorded.
three_steps_run :
    apply (sql_step_applier (λ s. s) run_sample) three_steps 5 77 (migration "init" 1 pending) world
    ≡ some (
      ok tt,
      record {
        migrations =
            record (migration "init" 1 migration_success) { applied = 2; finished_at = some 77 }
            ∷ [];
        database = 3 ∷ 2 ∷ 1 ∷ [];
      },
    )
unfolding apply prisma_engine.Migration.Applier.apply_next_step update
three_steps_run = refl

refused_run :
    apply
      (sql_step_applier (λ s. s) run_sample)
      (record { corrected_steps = 1 ∷ 2 ∷ 0 ∷ 3 ∷ []; rollback = [] })
      5
      77
      (migration "init" 1 pending)
      world
    ≡ some (
      err "refused",
      record {
        migrations =
            record (migration "init" 1 migration_failure) { applied = 2; errors = "refused" ∷ [] }
            ∷ [];
        database = 2 ∷ 1 ∷ [];
      },
    )
unfolding apply prisma_engine.Migration.Applier.apply_next_step update
refused_run = refl

apply_lem_example :
    let x = execute run_sample three_steps.corrected_steps [] in
    apply (sql_step_applier (λ s. s) run_sample) three_steps 5 77 (migration "init" 1 pending) world
    ≡ some (
      x.result,
      record {
        migrations =
            update
              (applied_params
                (λ s. s)
                x.result
                (recorded x)
                77
                (update_params (migration "init" 1 pending)))
              world.migrations;
        database = x.database;
      },
    )
apply_lem_example =
    apply_lem (λ s. s) run_sample (migration "init" 1 pending) three_steps world 5 77 (omega arith)
      refl

unapply_lem_example :
    let x = execute run_sample three_steps.rollback [] in
    unapply
      (sql_step_applier (λ s. s) run_sample)
      three_steps
      5
      (migration "init" 1 migration_success)
      world
    ≡ some (
      x.result,
      record {
        migrations =
            update
              (rolled_back_params
                (λ s. s)
                x.result
                (recorded x)
                (update_params (migration "init" 1 migration_success)))
              world.migrations;
        database = x.database;
      },
    )
unapply_lem_example =
    unapply_lem (λ s. s) run_sample (migration "init" 1 migration_success) three_steps world 5
      (omega arith) refl
