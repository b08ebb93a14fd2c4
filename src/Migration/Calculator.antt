-- ===== src/Migration/Calculator.antt =====
-- Applying migration steps to a schema's syntax tree
-- (migration-engine/core/src/migration/datamodel_calculator.rs).
pub mod Common
pub mod Enums
pub mod Models
pub mod Fields
pub mod Directives
pub mod Outputs
pub mod Spares
pub mod StepFrame
pub mod Frame
pub mod Guards
pub mod Undo
use prisma_engine.Base.{List, [], ◌∷◌, ok, ◌>>=◌}
use prisma_engine.Datamodel.Ast.{SchemaAst}
use prisma_engine.Datamodel.Ast.Render.{ExpressionText}
use prisma_engine.Migration.Steps.{MigrationStep}
use Common.{Calculation}
use Enums.{apply_create_enum, apply_update_enum, apply_delete_enum}
use Models.{apply_create_model, apply_update_model, apply_delete_model}
use Fields.{apply_create_field, apply_update_field, apply_delete_field}
use Directives.{
  apply_create_directive, apply_delete_directive, apply_create_directive_argument,
  apply_delete_directive_argument, apply_update_directive_argument,
}

module _ (text : ExpressionText) where
  unfoldable pub apply_step : SchemaAst → MigrationStep → Calculation
  apply_step s (MigrationStep.create_enum step) = apply_create_enum s step
  apply_step s (MigrationStep.update_enum step) = apply_update_enum s step
  apply_step s (MigrationStep.delete_enum step) = apply_delete_enum s step
  apply_step s (MigrationStep.create_model step) = apply_create_model s step
  apply_step s (MigrationStep.update_model step) = apply_update_model s step
  apply_step s (MigrationStep.delete_model step) = apply_delete_model s step
  apply_step s (MigrationStep.create_field step) = apply_create_field s step
  apply_step s (MigrationStep.update_field step) = apply_update_field s step
  apply_step s (MigrationStep.delete_field step) = apply_delete_field s step
  apply_step s (MigrationStep.create_directive step) = apply_create_directive text s step
  apply_step s (MigrationStep.delete_directive step) = apply_delete_directive text s step
  apply_step s (MigrationStep.create_directive_argument step) =
      apply_create_directive_argument text s step
  apply_step s (MigrationStep.delete_directive_argument step) =
      apply_delete_directive_argument text s step
  apply_step s (MigrationStep.update_directive_argument step) =
      apply_update_directive_argument text s step

  -- `DataModelCalculatorImpl::infer`, by `apply`: the first error ends it.
  unfoldable pub apply : SchemaAst → List MigrationStep → Calculation
  unfolding apply_step
  apply s [] = ok s
  apply s (step ∷ steps) = apply_step s step >>= λ s'. apply s' steps
