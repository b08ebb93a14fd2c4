-- ===== src/Migration/Tests/Calculated.antt =====
-- Tests of the commands that apply steps to the empty datamodel, and of the list of the migrations
-- (migration-engine/core/src/commands/calculate_datamodel.rs, calculate_database_steps.rs and
-- list_migrations.rs beside it).
use prisma_engine.Base.{traverse_ok, Option, String, some, List, [], ◌∷◌, ◌≡◌, refl, ok}
use prisma_engine.Datamodel.Ast.{Top}
use prisma_engine.Migration.Persistence.{migration_success}
use prisma_engine.Migration.Commands.{MigrationStepsResultOutput}
use prisma_engine.Migration.Commands.Calculate.{
  CalculateDatabaseStepsInput, calculate_datamodel_execute, calculate_database_steps_execute,
  database_steps_between, list_execute, convert_migration_to_list_migration_steps_output,
}
use prisma_engine.Migration.Commands.Calculated.{
  calculate_datamodel_execute-calculate_database_steps_execute,
}
use prisma_engine.Migration.Samples.{program}
use prisma_engine.Migration.Steps.{MigrationStep}
use prisma_engine.Migration.Tests.Commands.{Json, engine_with, quiet, world, past, create_b}

-- One model is written as "a", two as "ab".
abbrev render_tops : List Top → Option String
render_tops [] = some ""
render_tops (t ∷ []) = some "a"
render_tops (t ∷ u ∷ ts) = some "ab"

abbrev b_after_a : CalculateDatabaseStepsInput
b_after_a = record {
  assume_to_be_applied = MigrationStep.create_model (record { model = "A" }) ∷ [];
  steps_to_apply = create_b;
}

abbrev b_output : MigrationStepsResultOutput Json
b_output = record {
  datamodel = "ab";
  datamodel_steps = create_b;
  database_steps = [];
  warnings = [];
  errors = [];
  general_errors = [];
}

b_calculated :
    calculate_database_steps_execute (engine_with quiet) (λ s. render_tops s.tops) b_after_a world
    ≡ ok b_output
unfolding program calculate_database_steps_execute database_steps_between
b_calculated = refl

calculate_datamodel_execute-calculate_database_steps_execute_example :
    calculate_datamodel_execute
      (engine_with quiet)
      (λ s. render_tops s.tops)
      (record { steps = MigrationStep.create_model (record { model = "A" }) ∷ create_b })
    ≡ ok (record { datamodel = "ab" })
calculate_datamodel_execute-calculate_database_steps_execute_example =
    calculate_datamodel_execute-calculate_database_steps_execute (engine_with quiet)
      (λ s. render_tops s.tops) b_after_a world b_output b_calculated

listed :
    list_execute
      (engine_with quiet)
      (λ j. record { corrected_steps = []; rollback = [] })
      (record { migrations = past "init" 1 migration_success "a" ∷ []; database = [] })
    ≡ ok (
        record {
          id = "init";
          datamodel_steps = [];
          database_steps = [];
          status = migration_success;
          datamodel = "blog";
        }
        ∷ [])
unfolding list_execute convert_migration_to_list_migration_steps_output traverse_ok
listed = refl
