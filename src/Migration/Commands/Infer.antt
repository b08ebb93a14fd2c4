-- ===== src/Migration/Commands/Infer.antt =====
-- The command that infers the steps to a datamodel
-- (migration-engine/core/src/commands/infer_migration_steps.rs).
use mathlib.Core.Option
use prisma_engine.Base.{
  String, Bool, List, [], unwrap_or, Outcome, ok, ◌>>=◌, unwrap, starts_with, if◌then◌else◌,
}
use prisma_engine.Datamodel.Ast.{SchemaAst, empty}
use prisma_engine.Migration.Steps.{MigrationStep}
use prisma_engine.Migration.Calculator
use prisma_engine.Migration.Differ.{diff}
use prisma_engine.Migration.Persistence.{Migration, last_non_watch_applied_migration}
use prisma_engine.Migration.Applier.{World}
use prisma_engine.Migration.Commands.{
  CommandError, Engine, MigrationStepsResultOutput, from_errors, from_connector, from_calculator,
  datamodel_ast, current_datamodel_ast,
}

pub record InferMigrationStepsInput : Type 0 where
  pub migration_id : String
  pub datamodel : String
  pub assume_to_be_applied : List MigrationStep

unfoldable pub is_watch_infer : InferMigrationStepsInput → Bool
is_watch_infer input = starts_with input.migration_id "watch"

-- `parse_datamodel` and `parse` of the text that the command is given.
pub record Source (D : Type 0) : Type 0 where
  pub parse_datamodel : String → Outcome (List String) D
  pub parse_ast : String → Outcome (List String) SchemaAst

module _ {E D J T Db : Type 0} (engine : Engine E D J T Db) (source : Source D)
    (input : InferMigrationStepsInput) where
  -- The steps and the database steps since the last migration that is not watch and has succeeded.
  unfoldable pub since_last_non_watch :
      D → SchemaAst → List (Migration D J) → Outcome CommandError (List MigrationStep × List J)
  unfolding last_non_watch_applied_migration datamodel_ast
  since_last_non_watch next next_ast all = do
    let last_migration = last_non_watch_applied_migration all
    let last_ast = unwrap_or (Option.map (datamodel_ast engine) last_migration) empty
    let last_datamodel =
        unwrap_or (Option.map (λ m. m.datamodel) last_migration) engine.empty_datamodel
    let datamodel_steps = diff engine.text last_ast next_ast
    full ← from_connector engine (engine.infer_from_datamodels last_datamodel next datamodel_steps)
    database_steps ← from_connector engine (engine.render_steps_pretty full)
    ok (datamodel_steps, database_steps)

  unfoldable pub infer_execute : World D J Db → Outcome CommandError (MigrationStepsResultOutput J)
  unfolding current_datamodel_ast since_last_non_watch is_watch_infer
  infer_execute w = do
    assumed_ast ← from_calculator engine (
        Calculator.apply engine.text (current_datamodel_ast engine w.migrations)
          input.assume_to_be_applied)
    assumed ← from_errors engine (engine.lift_ast assumed_ast)
    next ← from_errors engine (source.parse_datamodel input.datamodel)
    next_ast ← from_errors engine (source.parse_ast input.datamodel)
    let model_migration_steps = diff engine.text assumed_ast next_ast
    database_migration ←
        from_connector engine (engine.infer assumed next model_migration_steps w.database)
    diagnostics ← from_connector engine (engine.check database_migration w.database)
    returned ←
        (if is_watch_infer input
          then from_connector engine (engine.render_steps_pretty database_migration)
            >>= (λ database_steps. ok (model_migration_steps, database_steps))
          else since_last_non_watch next next_ast w.migrations)
    datamodel ← unwrap (engine.render_datamodel next)
    ok (record {
      datamodel = datamodel;
      datamodel_steps = returned.0;
      database_steps = returned.1;
      warnings = diagnostics.warnings;
      errors = [];
      general_errors = [];
    })
