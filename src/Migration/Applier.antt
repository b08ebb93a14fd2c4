-- ===== src/Migration/Applier.antt =====
-- Applying a migration to the database and recording the progress
-- (migration-engine/connectors/migration-connector/src/migration_applier.rs), and the step applier of
-- the SQL connector (migration-engine/connectors/sql-migration-connector/src/
-- sql_database_step_applier.rs).
pub mod Execution
pub mod Rounds
pub mod Progress
pub mod Records
pub mod Results
pub mod Rollbacks
use mathlib.Core.Option
use prisma_engine.Base.{
  ℕ, zero, suc, ◌+◌, String, Bool, true, false, Option, none, some, List, [], ◌∷◌, Outcome, ok, err,
  panic, get_elem?, is_some, if◌then◌else◌,
}
use prisma_engine.Migration.Persistence.{
  Migration, MigrationStatus, MigrationUpdateParams, pending, migration_in_progress,
  migration_success, migration_failure, rolling_back, rollback_success, rollback_failure, status_eq,
  update_params, mark_as_finished, update,
}

-- What the applier is given: the error type with its text, and the steps of a database migration `T`
-- on a database `Db`. `true` asks for the next step.
pub record StepApplier (E T Db : Type 0) : Type 0 where
  pub debug : E → String
  pub apply_step : T → ℕ → Db → Outcome E Bool × Db
  pub unapply_step : T → ℕ → Db → Outcome E Bool × Db

-- The table of migrations beside the database that they change.
pub record World (D J Db : Type 0) : Type 0 where
  pub migrations : List (Migration D J)
  pub database : Db

-- How a run ends.
pub record Run (E D J Db : Type 0) : Type 0 where
  pub result : Outcome E (Unit {0})
  pub params : MigrationUpdateParams
  pub world : World D J Db

abbrev pub applied_one : MigrationUpdateParams → MigrationUpdateParams
applied_one u = record u { applied = u.applied + 1 }

abbrev pub rolled_back_one : MigrationUpdateParams → MigrationUpdateParams
rolled_back_one u = record u { rolled_back = u.rolled_back + 1 }

module _ {D J Db : Type 0} where
  -- `migration_persistence.update`
  abbrev pub persist : MigrationUpdateParams → World D J Db → World D J Db
  persist u w = record w { migrations = update u w.migrations }

module _ {E D J Db : Type 0} (step_of : ℕ → Db → Outcome E Bool × Db)
    (count : MigrationUpdateParams → MigrationUpdateParams) where
  -- The `while` loop of `go_forward` and of `go_backward`, which differ in the step that they make
  -- and in the counter that they raise. `none`: the fuel ran out.
  unfoldable pub go : ℕ → ℕ → MigrationUpdateParams → World D J Db → Option (Run E D J Db)
  go zero step u w = none
  go (suc fuel) step u w =
      let (answer, database) = step_of step w.database in
      let w' : World D J Db = record w { database = database } in
      elim answer [
        | ok more ↦ elim more [
          | true ↦ go fuel (step + 1) (count u) (persist (count u) w')
          | false ↦ some (record { result = ok tt; params = u; world = w' })
        ]
        | err e ↦ some (record { result = err e; params = u; world = w' })
        | panic ↦ some (record { result = panic; params = u; world = w' })
      ]

module _ {E T D J Db : Type 0} (steps : StepApplier E T Db) (database_migration : T) where
  unfoldable pub go_forward : ℕ → MigrationUpdateParams → World D J Db → Option (Run E D J Db)
  unfolding go
  go_forward fuel = go (steps.apply_step database_migration) applied_one fuel 0

  unfoldable pub go_backward : ℕ → MigrationUpdateParams → World D J Db → Option (Run E D J Db)
  unfolding go
  go_backward fuel = go (steps.unapply_step database_migration) rolled_back_one fuel 0

  -- What is written once the steps are made.
  abbrev pub finish :
      (MigrationUpdateParams → MigrationUpdateParams)
      → MigrationStatus
      → Run E D J Db
      → Outcome E (Unit {0}) × World D J Db
  finish done failure run = elim run.result [
    | ok _ ↦ (ok tt, persist (done run.params) run.world)
    | err e ↦ (
      err e,
      persist (record (run.params) { status = failure; errors = steps.debug e ∷ [] }) run.world,
    )
    | panic ↦ (panic, run.world)
  ]

  -- `apply` and `unapply`: the assertion on the status, and its panic, come first.
  unfoldable pub apply :
      ℕ → ℕ → Migration D J → World D J Db → Option (Outcome E (Unit {0}) × World D J Db)
  unfolding go_forward
  apply fuel now migration w =
      let u = record (update_params migration) { status = migration_in_progress } in
      if status_eq migration.status pending
      then Option.map (finish (mark_as_finished now) migration_failure)
          (go_forward fuel u (persist u w))
      else some (panic, w)

  unfoldable pub unapply :
      ℕ → Migration D J → World D J Db → Option (Outcome E (Unit {0}) × World D J Db)
  unfolding go_backward
  unapply fuel migration w =
      let u = record (update_params migration) { status = rolling_back } in
      if status_eq migration.status migration_success
      then Option.map (finish (λ p. record p { status = rollback_success }) rollback_failure)
          (go_backward fuel u (persist u w))
      else some (panic, w)

-- The SQL connector: `run` sends the statement of one step to the database.
module _ {E S Db : Type 0} (run : S → Db → Outcome E (Unit {0}) × Db) where
  abbrev pub answer_of : List S → ℕ → Outcome E (Unit {0}) → Outcome E Bool
  answer_of steps index (ok _) = ok (is_some (get_elem? steps (index + 1)))
  answer_of steps index (err e) = err e
  answer_of steps index panic = panic

  unfoldable pub apply_next_step : List S → ℕ → Db → Outcome E Bool × Db
  apply_next_step steps index db = elim (get_elem? steps index) [
    | none ↦ (ok false, db)
    | some step ↦ let (result, db') = run step db in (answer_of steps index result, db')
  ]

-- The part of `SqlMigration` that is applied.
pub record SqlMigration (S : Type 0) : Type 0 where
  pub corrected_steps : List S
  pub rollback : List S

module _ {E S Db : Type 0} (debug : E → String) (run : S → Db → Outcome E (Unit {0}) × Db) where
  abbrev pub sql_step_applier : StepApplier E (SqlMigration S) Db
  sql_step_applier = record {
    debug = debug;
    apply_step = λ m. apply_next_step run m.corrected_steps;
    unapply_step = λ m. apply_next_step run m.rollback;
  }
