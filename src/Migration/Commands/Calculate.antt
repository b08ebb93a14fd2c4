-- ===== src/Migration/Commands/Calculate.antt =====
-- The commands that apply steps to the empty datamodel: CalculateDatamodel
-- (migration-engine/core/src/commands/calculate_datamodel.rs), CalculateDatabaseSteps
-- (calculate_database_steps.rs beside it), and the list of the migrations (list_migrations.rs). The
-- printing of a datamodel's tree and the reading of a database migration are parameters.
use prisma_engine.Base.{String, Option, List, [], Outcome, ok, ◌>>=◌, unwrap, traverse_ok}
use prisma_engine.Datamodel.Ast.{SchemaAst, empty}
use prisma_engine.Migration.Steps.{MigrationStep}
use prisma_engine.Migration.Calculator
use prisma_engine.Migration.Persistence.{Migration, MigrationStatus}
use prisma_engine.Migration.Applier.{World}
use prisma_engine.Migration.Commands.{
  CommandError, DestructiveChangeDiagnostics, Engine, MigrationStepsResultOutput, from_errors,
  from_connector, from_calculator,
}

pub record CalculateDatamodelInput : Type 0 where
  pub steps : List MigrationStep

pub record CalculateDatamodelOutput : Type 0 where
  pub datamodel : String

pub record CalculateDatabaseStepsInput : Type 0 where
  pub assume_to_be_applied : List MigrationStep
  pub steps_to_apply : List MigrationStep

pub record ListMigrationStepsOutput (J : Type 0) : Type 0 where
  pub id : String
  pub datamodel_steps : List MigrationStep
  pub database_steps : List J
  pub status : MigrationStatus
  pub datamodel : String

module _ {E D J T Db : Type 0} (engine : Engine E D J T Db) where
  unfoldable pub calculate_datamodel_execute :
      (SchemaAst → Option String)
      → CalculateDatamodelInput
      → Outcome CommandError CalculateDatamodelOutput
  calculate_datamodel_execute render_schema_ast input = do
    datamodel ← from_calculator engine (Calculator.apply engine.text empty input.steps)
    rendered ← unwrap (render_schema_ast datamodel)
    ok (record { datamodel = rendered })

  -- The output, once there are a database migration, its check and the text of its steps.
  abbrev pub steps_output :
      List MigrationStep
      → DestructiveChangeDiagnostics
      → List J
      → String
      → MigrationStepsResultOutput J
  steps_output steps diagnostics database_steps rendered = record {
    datamodel = rendered;
    datamodel_steps = steps;
    database_steps = database_steps;
    errors = [];
    warnings = diagnostics.warnings;
    general_errors = [];
  }

  -- The part of the command behind the two datamodels.
  unfoldable pub database_steps_between :
      (SchemaAst → Option String)
      → List MigrationStep
      → D
      → SchemaAst
      → World D J Db
      → Outcome CommandError (MigrationStepsResultOutput J)
  database_steps_between render_schema_ast steps assumed_datamodel next_datamodel_ast w = do
    next_datamodel ← from_errors engine (engine.lift_ast next_datamodel_ast)
    database_migration ←
        from_connector engine (engine.infer assumed_datamodel next_datamodel steps w.database)
    diagnostics ← from_connector engine (engine.check database_migration w.database)
    database_steps ← from_connector engine (engine.render_steps_pretty database_migration)
    rendered ← unwrap (render_schema_ast next_datamodel_ast)
    ok (steps_output steps diagnostics database_steps rendered)

  unfoldable pub calculate_database_steps_execute :
      (SchemaAst → Option String)
      → CalculateDatabaseStepsInput
      → World D J Db
      → Outcome CommandError (MigrationStepsResultOutput J)
  calculate_database_steps_execute render_schema_ast input w = do
    assumed_datamodel_ast ←
        from_calculator engine (Calculator.apply engine.text empty input.assume_to_be_applied)
    assumed_datamodel ← from_errors engine (engine.lift_ast assumed_datamodel_ast)
    next_datamodel_ast ←
        from_calculator engine
          (Calculator.apply engine.text assumed_datamodel_ast input.steps_to_apply)
    database_steps_between render_schema_ast input.steps_to_apply assumed_datamodel
        next_datamodel_ast w

  unfoldable pub convert_migration_to_list_migration_steps_output :
      (J → T) → Migration D J → Outcome CommandError (ListMigrationStepsOutput J)
  convert_migration_to_list_migration_steps_output deserialize migration = do
    database_steps ←
        from_connector engine
          (engine.render_steps_pretty (deserialize migration.database_migration))
    rendered ← unwrap (engine.render_datamodel migration.datamodel)
    ok (record {
      id = migration.name;
      datamodel_steps = migration.datamodel_steps;
      database_steps = database_steps;
      status = migration.status;
      datamodel = rendered;
    })

  unfoldable pub list_execute :
      (J → T) → World D J Db → Outcome CommandError (List (ListMigrationStepsOutput J))
  list_execute deserialize w =
      traverse_ok (convert_migration_to_list_migration_steps_output deserialize) w.migrations
