-- ===== src/Migration/Commands.antt =====
-- What the commands of the migration engine share (migration-engine/core/src/commands/command.rs and
-- mod.rs), the engine that they run on (migration-engine/core/src/migration_engine.rs), and the parts of
-- the persistence that they call (migration-engine/connectors/migration-connector/src/
-- migration_persistence.rs, and sql-migration-connector/src/sql_migration_persistence.rs beside it).
pub mod Apply
pub mod Applied
pub mod Infer
pub mod Calculate
pub mod Calculated
pub mod Unapply
pub mod Unapplied
use mathlib.Core.Option
use mathlib.Core.List.{reverse}
use prisma_engine.Base.{
  map_err, ℕ, String, Bool, true, false, not, Option, none, some, List, [], ◌∷◌, ◌++◌, ◌==◌,
  and_then, find?, unwrap_or, Outcome, ok, err, panic, starts_with,
}
use prisma_engine.Datamodel.Ast.{SchemaAst, empty}
use prisma_engine.Datamodel.Ast.Render.{ExpressionText}
use prisma_engine.Migration.Steps.{MigrationStep}
use prisma_engine.Migration.Calculator.Common.{CalculatorError}
use prisma_engine.Migration.Persistence.{Migration, pending, migration_success, status_eq}
use prisma_engine.Migration.Applier.{StepApplier}

pub data CommandError : Type 0 where
  data_model_errors : (code : ℕ) (errors : List String) → CommandError
  initialization_error generic input : (code : ℕ) (error : String) → CommandError

-- destructive_changes_checker.rs of the migration connector
pub record MigrationWarning : Type 0 where
  pub description : String

pub record MigrationError : Type 0 where
  pub tpe : String
  pub description : String
  pub field : Option String

pub record DestructiveChangeDiagnostics : Type 0 where
  pub errors : List MigrationError
  pub warnings : List MigrationWarning

unfoldable pub has_warnings : DestructiveChangeDiagnostics → Bool
has_warnings diagnostics = not (is_empty diagnostics.warnings)
  where
    is_empty : List MigrationWarning → Bool
    is_empty [] = true
    is_empty (w ∷ ws) = false

-- The engine with its connector, on a database `Db`: `D` is a datamodel, `J` a JSON value, `T` a
-- database migration and `E` an error of the connector. The inferrer and the checker may look at the
-- database. `read_datamodel` is the reading of a datamodel that was rendered; the source panics when it
-- reads a table with a datamodel that does not parse, and here a table has none.
pub record Engine (E D J T Db : Type 0) : Type 0 where
  pub text : ExpressionText
  pub calculator_message : CalculatorError → String
  pub lift_ast : SchemaAst → Outcome (List String) D
  pub parse : String → Option SchemaAst
  pub empty_datamodel : D
  pub render_datamodel : D → Option String
  pub read_datamodel : String → D
  pub infer : D → D → List MigrationStep → Db → Outcome E T
  pub infer_from_datamodels : D → D → List MigrationStep → Outcome E T
  pub render_steps_pretty : T → Outcome E (List J)
  pub serialize : T → J
  pub empty_json : J
  pub check : T → Db → Outcome E DestructiveChangeDiagnostics
  pub step_applier : StepApplier E T Db

pub record MigrationStepsResultOutput (J : Type 0) : Type 0 where
  pub datamodel : String
  pub datamodel_steps : List MigrationStep
  pub database_steps : List J
  pub warnings : List MigrationWarning
  pub errors : List MigrationError
  pub general_errors : List String

module _ {E D J T Db : Type 0} (engine : Engine E D J T Db) where
  abbrev pub from_errors : {A : Type 0} → Outcome (List String) A → Outcome CommandError A
  from_errors = map_err (CommandError.data_model_errors 1001)

  abbrev pub from_connector : {A : Type 0} → Outcome E A → Outcome CommandError A
  from_connector = map_err (λ e. CommandError.generic 1000 (engine.step_applier.debug e))

  abbrev pub from_calculator : {A : Type 0} → Outcome CalculatorError A → Outcome CommandError A
  from_calculator = map_err (λ e. CommandError.generic 1 (engine.calculator_message e))

  -- The last migration that has succeeded; the table is in the order of its revisions.
  unfoldable pub last : List (Migration D J) → Option (Migration D J)
  last all = find? (λ m. status_eq m.status migration_success) (reverse all)

  unfoldable pub datamodel_ast : Migration D J → SchemaAst
  datamodel_ast m = unwrap_or (engine.parse m.datamodel_string) empty

  unfoldable pub current_datamodel : List (Migration D J) → D
  unfolding last
  current_datamodel all =
      unwrap_or (Option.map (λ m. m.datamodel) (last all)) engine.empty_datamodel

  unfoldable pub current_datamodel_ast : List (Migration D J) → SchemaAst
  unfolding last
  current_datamodel_ast all =
      unwrap_or (and_then (last all) (λ m. engine.parse m.datamodel_string)) empty

  -- `Migration::new` at the time `now`.
  abbrev pub new_migration : ℕ → String → Migration D J
  new_migration now name = record {
    name = name;
    revision = 0;
    status = pending;
    applied = 0;
    rolled_back = 0;
    datamodel_string = "";
    datamodel = engine.empty_datamodel;
    datamodel_steps = [];
    database_migration = engine.empty_json;
    errors = [];
    started_at = now;
    finished_at = none;
  }

  -- The row that is inserted, with the revision that the database gives it, as it is read later. That
  -- the text of a rendered datamodel parses is taken for granted: where it does not, the source panics
  -- when the row is read.
  abbrev pub inserted : ℕ → String → Migration D J → Migration D J
  inserted revision rendered m = record m {
    revision = revision;
    datamodel_string = rendered;
    datamodel = engine.read_datamodel rendered;
    finished_at = none;
  }

  unfoldable pub create :
      ℕ → Migration D J → List (Migration D J) → Option (Migration D J × List (Migration D J))
  create revision m all =
      Option.map
        (λ rendered. (record m { revision = revision }, all ++ inserted revision rendered m ∷ []))
        (engine.render_datamodel m.datamodel)
