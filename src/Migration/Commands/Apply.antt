-- ===== src/Migration/Commands/Apply.antt =====
-- The command that applies a migration (migration-engine/core/src/commands/apply_migration.rs).
use mathlib.Core.Option
use prisma_engine.Base.{
  ℕ, String, Bool, false, not, Option, none, some, List, [], ◌&&◌, unwrap_or, Outcome, ok, err,
  panic, ◌>>=◌, unwrap, starts_with, if◌then◌else◌,
}
use prisma_engine.Datamodel.Ast.{SchemaAst, empty}
use prisma_engine.Migration.Steps.{MigrationStep}
use prisma_engine.Migration.Calculator
use prisma_engine.Migration.Persistence.{Migration, is_watch_migration, last_non_watch_migration}
use prisma_engine.Migration.Applier
use prisma_engine.Migration.Applier.{World}
use prisma_engine.Migration.Commands.{
  CommandError, DestructiveChangeDiagnostics, has_warnings, Engine, MigrationStepsResultOutput,
  from_errors, from_connector, from_calculator, last, datamodel_ast, current_datamodel,
  current_datamodel_ast, new_migration, create,
}

pub record ApplyMigrationInput : Type 0 where
  pub migration_id : String
  pub steps : List MigrationStep
  pub force : Option Bool

unfoldable pub is_watch_input : ApplyMigrationInput → Bool
is_watch_input input = starts_with input.migration_id "watch"

-- What a run is given from outside: the times at its start and at its end, and the revision of the row
-- that it inserts.
pub record Moment : Type 0 where
  pub started : ℕ
  pub finished : ℕ
  pub revision : ℕ

-- What is known before anything is written.
pub record Plan (J T : Type 0) : Type 0 where
  pub database_migration : T
  pub database_steps : List J
  pub diagnostics : DestructiveChangeDiagnostics

module _ {E D J T Db : Type 0} (engine : Engine E D J T Db) (input : ApplyMigrationInput) where
  unfoldable pub plan : D → D → Db → Outcome CommandError (Plan J T)
  plan current next db = do
    database_migration ← from_connector engine (engine.infer current next input.steps db)
    database_steps ← from_connector engine (engine.render_steps_pretty database_migration)
    diagnostics ← from_connector engine (engine.check database_migration db)
    ok (record {
      database_migration = database_migration;
      database_steps = database_steps;
      diagnostics = diagnostics;
    })

  unfoldable pub output : D → Plan J T → Outcome CommandError (MigrationStepsResultOutput J)
  output next p = do
    datamodel ← unwrap (engine.render_datamodel next)
    ok (record {
      datamodel = datamodel;
      datamodel_steps = input.steps;
      database_steps = p.database_steps;
      warnings = p.diagnostics.warnings;
      errors = p.diagnostics.errors;
      general_errors = [];
    })

  -- Warnings without the force flag.
  abbrev pub is_held : Plan J T → Bool
  is_held p = has_warnings p.diagnostics && not (unwrap_or input.force false)

  abbrev pub migration_of : Moment → D → Plan J T → Migration D J
  migration_of moment next p = record (new_migration engine moment.started input.migration_id) {
    datamodel_steps = input.steps;
    database_migration = engine.serialize p.database_migration;
    datamodel = next;
  }

  abbrev pub Answer : Type 0
  Answer = Outcome CommandError (MigrationStepsResultOutput J) × World D J Db

  -- The row is inserted, the migration applied, and the answer given if that succeeded.
  unfoldable pub save_and_apply : ℕ → Moment → D → Plan J T → World D J Db → Option Answer
  unfolding create output
  save_and_apply fuel moment next p w =
      elim (create engine moment.revision (migration_of moment next p) w.migrations) [
        | none ↦ some (panic, w)
        | some created ↦
            Option.map
              (λ applied. (from_connector engine applied.0 >>= (λ _. output next p), applied.1))
              (Applier.apply engine.step_applier p.database_migration fuel moment.finished created.0
                (record w { migrations = created.1 }))
      ]

  unfoldable pub handle_migration : ℕ → Moment → D → D → World D J Db → Option Answer
  unfolding plan output save_and_apply has_warnings
  handle_migration fuel moment current next w = elim (plan current next w.database) [
    | ok p ↦
        let applied = save_and_apply fuel moment next p w in
        if is_held p then some (output next p, w) else applied
    | err e ↦ some (err e, w)
    | panic ↦ some (panic, w)
  ]

  -- The steps are applied to the syntax tree that they are meant for.
  unfoldable pub next_datamodel : SchemaAst → Outcome CommandError D
  next_datamodel base = do
    ast ← from_calculator engine (Calculator.apply engine.text base input.steps)
    from_errors engine (engine.lift_ast ast)

  abbrev pub handle_from : SchemaAst → ℕ → Moment → World D J Db → Option Answer
  handle_from base fuel moment w = elim (next_datamodel base) [
    | ok next ↦ handle_migration fuel moment (current_datamodel engine w.migrations) next w
    | err e ↦ some (err e, w)
    | panic ↦ some (panic, w)
  ]

  unfoldable pub handle_transition_out_of_watch_mode : ℕ → Moment → World D J Db → Option Answer
  unfolding next_datamodel handle_migration current_datamodel last_non_watch_migration datamodel_ast
  handle_transition_out_of_watch_mode fuel moment w =
      handle_from
        (unwrap_or (Option.map (datamodel_ast engine) (last_non_watch_migration w.migrations))
          empty)
        fuel moment w

  unfoldable pub handle_normal_migration : ℕ → Moment → World D J Db → Option Answer
  unfolding next_datamodel handle_migration current_datamodel current_datamodel_ast
  handle_normal_migration fuel moment w =
      handle_from (current_datamodel_ast engine w.migrations) fuel moment w

  unfoldable pub execute : ℕ → Moment → World D J Db → Option Answer
  unfolding handle_transition_out_of_watch_mode handle_normal_migration last is_watch_input
      is_watch_migration
  execute fuel moment w = elim (last engine w.migrations) [
    | none ↦ handle_normal_migration fuel moment w
    | some m ↦
        if is_watch_migration m && not (is_watch_input input)
        then handle_transition_out_of_watch_mode fuel moment w
        else handle_normal_migration fuel moment w
  ]
