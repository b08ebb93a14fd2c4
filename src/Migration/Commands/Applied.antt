-- ===== src/Migration/Commands/Applied.antt =====
-- What applying a migration leaves in the table of migrations and in the database
-- (migration-engine/core/src/commands/apply_migration.rs), with the SQL connector's step applier.
use mathlib.Core.Option
use mathlib.Core.List.{reverse-append}
use prisma_engine.Base.{
  ◌+◌, ◌-◌, ℕ, ◌<◌, String, Bool, true, false, not, some, List, [], ◌∷◌, ◌++◌, ◌≡◌, refl, sym, ap,
  ◌∙◌, arith, all, unwrap_or, Outcome, ok, err, panic, ◌>>=◌, nat_eq, nat_eq_refl, str_refl, length,
  find?, ◌⊎◌, inl, inr, Option, none,
}
use prisma_engine.Datamodel.Ast.{empty}
use prisma_engine.Migration.Persistence.{
  Migration, MigrationUpdateParams, update, update_row, update_params, migration_success,
}
use prisma_engine.Migration.Applier.{World, SqlMigration, sql_step_applier}
use prisma_engine.Migration.Applier.Execution.{execute, recorded, Executed}
use prisma_engine.Migration.Applier.Results.{apply_lem}
use prisma_engine.Migration.Applier.Records.{applied_params}
use prisma_engine.Migration.Commands.{
  Engine, CommandError, MigrationWarning, has_warnings, MigrationStepsResultOutput, last,
  current_datamodel, current_datamodel_ast, create, inserted, from_connector,
}
use prisma_engine.Migration.Commands.Apply.{
  ApplyMigrationInput, Moment, Plan, plan, output, is_held, migration_of, save_and_apply,
  handle_migration,
}

abbrev pub has_fresh_revision : {D J : Type 0} → ℕ → List (Migration D J) → Bool
has_fresh_revision revision ms = all (λ m. not (nat_eq m.revision revision)) ms

-- An update of a row of a new revision changes no other row.
update-snoc :
    {D J : Type 0} (u : MigrationUpdateParams) (ms : List (Migration D J)) (row : Migration D J)
    → has_fresh_revision u.revision ms ≡ true
    → update u (ms ++ row ∷ []) ≡ ms ++ update_row u row ∷ []
unfolding update all
update-snoc u [] row h = refl
update-snoc u (m ∷ ms) row h =
    let head : update_row u m ≡ m = ground arith in
    let rest = update-snoc u ms row (ground arith) in λ i. head i ∷ rest i

applied_params-revision :
    {E : Type 0} (debug : E → String) (r : Outcome E (Unit {0})) (n now : ℕ)
    (u : MigrationUpdateParams)
    → (applied_params debug r n now u).revision ≡ u.revision
applied_params-revision debug (ok o) n now u = refl
applied_params-revision debug (err e) n now u = refl
applied_params-revision debug panic n now u = refl

module _ {E D J S Db : Type 0} (engine : Engine E D J (SqlMigration S) Db)
    (run : S → Db → Outcome E (Unit {0}) × Db) (debug : E → String) (input : ApplyMigrationInput)
    (fuel : ℕ) (moment : Moment) (next : D) (p : Plan J (SqlMigration S)) (rendered : String) where
  -- The engine with the SQL connector's step applier.
  abbrev pub sql_engine : Engine E D J (SqlMigration S) Db
  sql_engine = record engine { step_applier = sql_step_applier debug run }

  abbrev pub new_row : Migration D J
  new_row =
      inserted sql_engine moment.revision rendered (migration_of sql_engine input moment next p)

  -- The row as the run leaves it.
  abbrev pub final_row : Executed E Db → Migration D J
  final_row x =
      update_row
        (applied_params debug x.result (recorded x) moment.finished (update_params new_row)) new_row

  create-some :
      (w : World D J Db)
      → engine.render_datamodel next ≡ some rendered
      → create sql_engine moment.revision (migration_of sql_engine input moment next p) w.migrations
        ≡ some (
          record (migration_of sql_engine input moment next p) { revision = moment.revision },
          w.migrations ++ new_row ∷ [],
        )
  unfolding create
  create-some w shown = rw shown refl

  pub save_and_apply_lem :
      (w : World D J Db)
      → engine.render_datamodel next ≡ some rendered
      → length p.database_migration.corrected_steps < fuel
      → has_fresh_revision moment.revision w.migrations ≡ true
      → let x = execute run p.database_migration.corrected_steps w.database in
        save_and_apply sql_engine input fuel moment next p w
        ≡ some (
          from_connector sql_engine x.result >>= (λ _. output sql_engine input next p),
          record { migrations = w.migrations ++ final_row x ∷ []; database = x.database },
        )
  unfolding save_and_apply
  save_and_apply_lem w shown enough fresh =
      let saved : Migration D J = record (migration_of sql_engine input moment next p) {
        revision = moment.revision;
      } in
      let x = execute run p.database_migration.corrected_steps w.database in
      let u = applied_params debug x.result (recorded x) moment.finished (update_params saved) in
      let e : has_fresh_revision u.revision w.migrations ≡ true =
        rw
          (applied_params-revision debug x.result (recorded x) moment.finished
            (update_params saved))
          fresh in
      rw (create-some w shown, save_and_apply)
        (ap
            (Option.map (λ applied. (
              from_connector sql_engine applied.0 >>= (λ _. output sql_engine input next p),
              applied.1,
            )))
            (apply_lem debug run saved p.database_migration
              (record w { migrations = w.migrations ++ new_row ∷ [] }) fuel moment.finished enough
              refl)
          ∙ ap
              (λ (ms : List (Migration D J)). some (
                from_connector sql_engine x.result >>= (λ _. output sql_engine input next p),
                record { migrations = ms; database = x.database },
              ))
              (update-snoc u w.migrations new_row e))

  final_row-succeeded :
      (x : Executed E Db)
      → x.result ≡ ok tt
      → final_row x ≡ record new_row {
        status = migration_success;
        applied = recorded x;
        finished_at = some moment.finished;
      }
  final_row-succeeded x h =
      let e : 0 + (x.succeeded - 1) ≡ x.succeeded - 1 = omega arith in
      rw (h, str_refl input.migration_id, nat_eq_refl moment.revision)
        (ap
          (λ (k : ℕ). record new_row {
            status = migration_success;
            applied = k;
            finished_at = some moment.finished;
          })
          e)

  last-snoc :
      (ms : List (Migration D J)) (row : Migration D J)
      → row.status ≡ migration_success
      → last sql_engine (ms ++ row ∷ []) ≡ some row
  unfolding last find?
  last-snoc ms row h = rw (reverse-append ms (row ∷ []), h) refl

  abbrev pub given : MigrationStepsResultOutput J
  given = record {
    datamodel = rendered;
    datamodel_steps = input.steps;
    database_steps = p.database_steps;
    warnings = p.diagnostics.warnings;
    errors = p.diagnostics.errors;
    general_errors = [];
  }

  output-some :
      engine.render_datamodel next ≡ some rendered → output sql_engine input next p ≡ ok given
  unfolding output
  output-some shown = rw (shown, ◌>>=◌) refl

  -- A migration that is planned and not held, whose next datamodel can be written, and whose steps all
  -- succeed, is applied: the command answers with an output, the current datamodel is then what reads
  -- back from the next one as it was written, and the database is what the steps make of it. The
  -- revision of the new row must be new, and the fuel more than the number of steps.
  pub handle_migration-succeeded :
      (w : World D J Db) (current : D)
      → plan sql_engine input current next w.database ≡ ok p
      → is_held sql_engine input p ≡ false
      → engine.render_datamodel next ≡ some rendered
      → (execute run p.database_migration.corrected_steps w.database).result ≡ ok tt
      → length p.database_migration.corrected_steps < fuel
      → has_fresh_revision moment.revision w.migrations ≡ true
      → (out : MigrationStepsResultOutput J) × (w' : World D J Db) × (handle_migration sql_engine
            input fuel moment current next w
          ≡ some (ok out, w'))
        × (current_datamodel sql_engine w'.migrations ≡ engine.read_datamodel rendered)
        × (current_datamodel_ast sql_engine w'.migrations ≡ unwrap_or (engine.parse rendered) empty)
        × (w'.database ≡ (execute run p.database_migration.corrected_steps w.database).database)
  unfolding handle_migration current_datamodel current_datamodel_ast
  handle_migration-succeeded w current planned free shown succeeded enough fresh =
      let x = execute run p.database_migration.corrected_steps w.database in
      let row : Migration D J = record new_row {
        status = migration_success;
        applied = recorded x;
        finished_at = some moment.finished;
      } in
      let answered : from_connector sql_engine x.result >>= (λ _. output sql_engine input next p)
          ≡ ok given =
        rw (succeeded, ◌>>=◌) (output-some shown) in
      let stored = final_row-succeeded x succeeded in
      let ends : last sql_engine (w.migrations ++ row ∷ []) ≡ some row =
        last-snoc w.migrations row refl in
      (
        given,
        record { migrations = w.migrations ++ row ∷ []; database = x.database },
        rw (planned, handle_migration, free)
            (save_and_apply_lem w shown enough fresh ∙ (λ i. some (
              answered i,
              record { migrations = w.migrations ++ stored i ∷ []; database = x.database },
            ))),
        rw ends refl,
        rw ends refl,
        refl,
      )

  -- The migration may run: it has no warnings, or the flag says to force it.
  abbrev pub MayRun : Type 0
  MayRun = (p.diagnostics.warnings ≡ []) ⊎ (input.force ≡ some true)

  may_run-cases :
      ((is_held sql_engine input p ≡ false) × MayRun)
      ⊎ ((is_held sql_engine input p ≡ true) × (MayRun → ⊥))
  unfolding has_warnings
  may_run-cases = by_both p.diagnostics.warnings input.force refl refl
    where
      none-ne-true : ◌≡◌ {A = Option Bool} none (some true) → ⊥
      none-ne-true h = cc

      false-ne-true : ◌≡◌ {A = Option Bool} (some false) (some true) → ⊥
      false-ne-true h = cc

      cons-ne-nil : (m : MigrationWarning) (ms : List MigrationWarning) → m ∷ ms ≡ [] → ⊥
      cons-ne-nil m ms h = cc

      not_may :
          (m : MigrationWarning) (ms : List MigrationWarning) (force : Option Bool)
          → p.diagnostics.warnings ≡ m ∷ ms
          → input.force ≡ force
          → (force ≡ some true → ⊥)
          → MayRun
          → ⊥
      not_may m ms force e k differ (inl h) = cons-ne-nil m ms (sym e ∙ h)
      not_may m ms force e k differ (inr h) = differ (sym k ∙ h)

      by_both :
          (warnings : List MigrationWarning) (force : Option Bool)
          → p.diagnostics.warnings ≡ warnings
          → input.force ≡ force
          → ((is_held sql_engine input p ≡ false) × MayRun)
            ⊎ ((is_held sql_engine input p ≡ true) × (MayRun → ⊥))
      by_both [] force e k = inl (rw e refl, inl e)
      by_both (m ∷ ms) none e k = inr (rw (e, k) refl, not_may m ms none e k (λ h. none-ne-true h))
      by_both (m ∷ ms) (some true) e k = inl (rw (e, k) refl, inr k)
      by_both (m ∷ ms) (some false) e k =
          inr (rw (e, k) refl, not_may m ms (some false) e k (λ h. false-ne-true h))

  -- A migration that is planned and whose next datamodel can be written is made if and only if it has no
  -- warnings or is forced. Then one row is added at the end of the table, which records how the steps
  -- ended, the database is what the steps made of it up to the first that failed, and the answer is the
  -- output, or the failure of that step. Otherwise nothing is written, and the answer is the output. The
  -- revision of the new row must be new, and the fuel more than the number of steps.
  pub handle_migration_lem :
      (w : World D J Db) (current : D)
      → plan sql_engine input current next w.database ≡ ok p
      → engine.render_datamodel next ≡ some rendered
      → length p.database_migration.corrected_steps < fuel
      → has_fresh_revision moment.revision w.migrations ≡ true
      → let x = execute run p.database_migration.corrected_steps w.database in
        (MayRun
          × (handle_migration sql_engine input fuel moment current next w
              ≡ some (
                from_connector sql_engine x.result >>= (λ _. ok given),
                record { migrations = w.migrations ++ final_row x ∷ []; database = x.database },
              )))
        ⊎ ((MayRun → ⊥)
            × (handle_migration sql_engine input fuel moment current next w ≡ some (ok given, w)))
  unfolding handle_migration
  handle_migration_lem w current planned shown enough fresh =
      let x = execute run p.database_migration.corrected_steps w.database in
      elim may_run-cases [
        | inl (free, may) ↦ inl (
          may,
          rw (planned, handle_migration, free)
              (save_and_apply_lem w shown enough fresh
                ∙ ap
                    (λ (o : Outcome CommandError (MigrationStepsResultOutput J)). some (
                      from_connector sql_engine x.result >>= (λ _. o),
                      record {
                        migrations = w.migrations ++ final_row x ∷ [];
                        database = x.database;
                      },
                    ))
                    (output-some shown)),
        )
        | inr (held, may_not) ↦ inr (
          may_not,
          rw (planned, handle_migration, held) (ap (λ o. some (o, w)) (output-some shown)),
        )
      ]
