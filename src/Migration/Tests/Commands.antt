-- ===== src/Migration/Tests/Commands.antt =====
-- Tests of the commands (migration-engine/core/src/commands).
use prisma_engine.Base.{
  ◌⊎◌, true, ℕ, String, none, some, List, [], ◌∷◌, ◌≡◌, refl, ok, err, arith, all, ◌==◌,
  if◌then◌else◌,
}
use prisma_engine.Datamodel.Ast.{SchemaAst, empty}
use prisma_engine.Migration.Persistence.{
  Migration, MigrationStatus, migration_success, migration_failure, update,
}
use prisma_engine.Migration.Applier
use prisma_engine.Migration.Applier.{World, SqlMigration, sql_step_applier}
use prisma_engine.Migration.Applier.Execution
use prisma_engine.Migration.Commands.{
  has_warnings, Engine, CommandError, MigrationStepsResultOutput, DestructiveChangeDiagnostics,
  current_datamodel, current_datamodel_ast, new_migration,
}
use prisma_engine.Migration.Steps.{MigrationStep}
use prisma_engine.Migration.Commands.Apply
use prisma_engine.Migration.Commands.Infer.{InferMigrationStepsInput, Source, since_last_non_watch}
use prisma_engine.Migration.Commands.{last}
use prisma_engine.Base.{find?}
use prisma_engine.Migration.Persistence.{rollback_success}
use prisma_engine.Migration.Commands.Unapply.{unapply_execute, progress_execute}
use prisma_engine.Migration.Commands.Unapplied.{sql_rollback_engine, unapply_execute_lem}
use prisma_engine.Migration.Commands.Apply.{
  ApplyMigrationInput, Moment, Plan, plan, is_held, handle_migration,
}
use prisma_engine.Migration.Commands.Applied.{
  sql_engine, given, final_row, MayRun, handle_migration-succeeded, handle_migration_lem,
}
use prisma_engine.Migration.Samples.{program, sample_text, blog, run_sample, model}

abbrev pub Json : Type 0
Json = Unit {0}

-- Every datamodel is written as "blog", and is migrated by two statements.
abbrev pub engine_with :
    DestructiveChangeDiagnostics → Engine String SchemaAst Json (SqlMigration ℕ) (List ℕ)
engine_with diagnostics = record {
  text = sample_text;
  calculator_message = λ e. "refused";
  lift_ast = λ s. ok s;
  parse = λ s. if s == "blog" then some blog else none;
  empty_datamodel = empty;
  render_datamodel = λ d. some "blog";
  read_datamodel = λ s. blog;
  infer = λ c n steps db. ok (record { corrected_steps = 1 ∷ 2 ∷ []; rollback = 3 ∷ [] });
  infer_from_datamodels =
      λ c n steps. ok (record { corrected_steps = 1 ∷ 2 ∷ []; rollback = 3 ∷ [] });
  render_steps_pretty = λ t. ok [];
  serialize = λ t. tt;
  empty_json = tt;
  check = λ t db. ok diagnostics;
  step_applier = sql_step_applier (λ s. s) run_sample;
}

abbrev pub quiet : DestructiveChangeDiagnostics
quiet = record { errors = []; warnings = [] }

abbrev drops_data : DestructiveChangeDiagnostics
drops_data = record { errors = []; warnings = record { description = "drops data" } ∷ [] }

abbrev new_input : ApplyMigrationInput
new_input = record { migration_id = "init"; steps = []; force = none }

abbrev moment : Moment
moment = record { started = 70; finished = 77; revision = 1 }

abbrev pub world : World SchemaAst Json (List ℕ)
world = record { migrations = []; database = [] }

abbrev two_steps : Plan Json (SqlMigration ℕ)
two_steps = record {
  database_migration = record { corrected_steps = 1 ∷ 2 ∷ []; rollback = 3 ∷ [] };
  database_steps = [];
  diagnostics = quiet;
}

abbrev Succeeded : Type 0
Succeeded =
    let engine =
      sql_engine (engine_with quiet) run_sample (λ s. s) new_input 5 moment blog two_steps "blog" in
    (out : MigrationStepsResultOutput Json) × (w' : World SchemaAst Json (List ℕ))
    × (handle_migration engine new_input 5 moment empty blog world ≡ some (ok out, w'))
    × (current_datamodel engine w'.migrations ≡ blog)
    × (current_datamodel_ast engine w'.migrations ≡ blog)
    × (w'.database ≡ 2 ∷ 1 ∷ [])

handle_migration-succeeded_example : Succeeded
unfolding plan Execution.execute has_warnings all
handle_migration-succeeded_example =
    handle_migration-succeeded (engine_with quiet) run_sample (λ s. s) new_input 5 moment blog
      two_steps "blog" world empty refl refl refl refl (omega arith) refl

-- The plan of a migration that drops data.
abbrev dropping : Plan Json (SqlMigration ℕ)
dropping = record two_steps { diagnostics = drops_data }

abbrev forced_input : ApplyMigrationInput
forced_input = record new_input { force = some true }

-- What a migration that drops data gives, with an input that may force it.
abbrev Guarded : ApplyMigrationInput → Type 0
Guarded input =
    let engine =
      sql_engine (engine_with drops_data) run_sample (λ s. s) input 5 moment blog dropping "blog" in
    let out =
      given (engine_with drops_data) run_sample (λ s. s) input 5 moment blog dropping "blog" in
    let x = Execution.execute run_sample (1 ∷ 2 ∷ []) [] in
    (MayRun (engine_with drops_data) run_sample (λ s. s) input 5 moment blog dropping "blog"
      × (handle_migration engine input 5 moment empty blog world
          ≡ some (
            ok out,
            record {
              migrations =
                  final_row (engine_with drops_data) run_sample (λ s. s) input 5 moment blog
                    dropping "blog" x
                  ∷ [];
              database = 2 ∷ 1 ∷ [];
            },
          )))
    ⊎ ((MayRun (engine_with drops_data) run_sample (λ s. s) input 5 moment blog dropping "blog" → ⊥)
        × (handle_migration engine input 5 moment empty blog world ≡ some (ok out, world)))

handle_migration_lem_example : Guarded forced_input
unfolding plan Execution.execute has_warnings all
handle_migration_lem_example =
    handle_migration_lem (engine_with drops_data) run_sample (λ s. s) forced_input 5 moment blog
      dropping "blog" world empty refl refl (omega arith) refl

-- Without the flag, nothing is written.
held :
    handle_migration (engine_with drops_data) new_input 5 moment empty blog world
    ≡ some (
      ok (
          given
            (engine_with drops_data)
            run_sample
            (λ s. s)
            new_input
            5
            moment
            blog
            dropping
            "blog"),
      world,
    )
unfolding handle_migration plan has_warnings Apply.output
held = refl

-- A migration that the history holds, with the text of its datamodel.
abbrev pub past : String → ℕ → MigrationStatus → String → Migration SchemaAst Json
past name revision status text = record (new_migration (engine_with quiet) 70 name) {
  revision = revision;
  status = status;
  datamodel_string = text;
}

abbrev one_model : SchemaAst
one_model = record { tops = model "A" [] [] ∷ [] }

abbrev two_models : SchemaAst
two_models = record { tops = model "A" [] [] ∷ model "B" [] [] ∷ [] }

-- The texts "a" and "ab" are the two schemas.
abbrev reading_engine : Engine String SchemaAst Json (SqlMigration ℕ) (List ℕ)
reading_engine = record (engine_with quiet) {
  parse = λ s. if s == "a" then some one_model else if s == "ab" then some two_models else none;
}

-- A migration that failed stands between the last applied one and a watch migration.
abbrev after_failure : List (Migration SchemaAst Json)
after_failure =
    past "init" 1 migration_success "a"
    ∷ past "second" 2 migration_failure "ab"
    ∷ past "watch-1" 3 migration_success "a"
    ∷ []

abbrev third : InferMigrationStepsInput
third = record { migration_id = "third"; datamodel = "ab"; assume_to_be_applied = [] }

abbrev pub create_b : List MigrationStep
create_b = MigrationStep.create_model (record { model = "B" }) ∷ []

abbrev reader : Source SchemaAst
reader = record { parse_datamodel = λ s. ok two_models; parse_ast = λ s. ok two_models }

-- The steps that are inferred start from the last migration that has succeeded.
inferred_after_failure :
    since_last_non_watch reading_engine reader third two_models two_models after_failure
    ≡ ok (create_b, [])
unfolding since_last_non_watch program
inferred_after_failure = refl

-- They are applied to the last migration that is not watch, which has failed, and are refused.
refused_after_failure :
    Apply.execute reading_engine
      (record { migration_id = "third"; steps = create_b; force = none })
      5
      moment
      (record { migrations = after_failure; database = [] })
    ≡ some (
      err (CommandError.generic 1 "refused"),
      record { migrations = after_failure; database = [] },
    )
unfolding Apply.execute program
refused_after_failure = refl

-- Errors of the check do not hold a migration.
errors_run :
    handle_migration
      (engine_with (record {
        errors = record { tpe = "Field"; description = "unsafe"; field = none } ∷ [];
        warnings = [];
      }))
      new_input
      5
      moment
      empty
      blog
      world
    ≡ some (
      ok (record {
        datamodel = "blog";
        datamodel_steps = [];
        database_steps = [];
        warnings = [];
        errors = record { tpe = "Field"; description = "unsafe"; field = none } ∷ [];
        general_errors = [];
      }),
      record {
        migrations =
            record (past "init" 1 migration_success "blog") {
              applied = 1;
              datamodel = blog;
              finished_at = some 77;
            }
            ∷ [];
        database = 2 ∷ 1 ∷ [];
      },
    )
unfolding handle_migration Applier.apply Applier.apply_next_step update
errors_run = refl

abbrev stored : Json → SqlMigration ℕ
stored j = record { corrected_steps = 1 ∷ 2 ∷ []; rollback = 3 ∷ 4 ∷ [] }

abbrev with_two : World SchemaAst Json (List ℕ)
with_two = record {
  migrations =
      past "init" 1 migration_success "a"
      ∷ past "second" 2 migration_success "ab"
      ∷ past "third" 3 migration_failure "ab"
      ∷ [];
  database = [];
}

unapply_execute_lem_example :
    unapply_execute
      (sql_rollback_engine
        (engine_with quiet)
        run_sample
        (λ s. s)
        stored
        (past "init" 1 migration_success "a" ∷ [])
        (past "second" 2 migration_success "ab")
        (past "third" 3 migration_failure "ab" ∷ []))
      stored
      5
      with_two
    ≡ some (
      ok (record { rolled_back = "second"; active = some "init"; errors = [] }),
      record {
        migrations =
            past "init" 1 migration_success "a"
            ∷ record (past "second" 2 rollback_success "ab") { rolled_back = 1 }
            ∷ past "third" 3 migration_failure "ab"
            ∷ [];
        database = 4 ∷ 3 ∷ [];
      },
    )
unfolding all last find? Execution.execute
unapply_execute_lem_example =
    unapply_execute_lem (engine_with quiet) run_sample (λ s. s) stored
      (past "init" 1 migration_success "a" ∷ []) (past "second" 2 migration_success "ab")
      (past "third" 3 migration_failure "ab" ∷ []) [] 5 refl refl refl refl (omega arith) refl

progress_run :
    progress_execute "second" with_two.migrations
    ≡ ok (record {
      status = migration_success;
      steps = 0;
      applied = 0;
      rolled_back = 0;
      errors = [];
      started_at = 70;
      finished_at = none;
    })
unfolding progress_execute find?
progress_run = refl
