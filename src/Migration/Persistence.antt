-- ===== src/Migration/Persistence.antt =====
-- Migration records, and what the migration engine reads off their history
-- (migration-engine/connectors/migration-connector/src/migration_persistence.rs). A timestamp is its
-- milliseconds, and the clock is an argument. The datamodel and the JSON value that a record holds are
-- not looked into.
pub mod History
use mathlib.Core.List.{reverse}
use prisma_engine.Base.{
  ℕ, String, Bool, true, false, not, Option, none, some, List, [], ◌∷◌, ◌==◌, ◌&&◌, nat_eq, map,
  find?, starts_with, if◌then◌else◌, unwrap_or,
}
use mathlib.Core.Option
use prisma_engine.Migration.Steps.{MigrationStep}

pub data MigrationStatus : Type 0 where
  pending migration_in_progress migration_success migration_failure rolling_back rollback_success
        rollback_failure :
      MigrationStatus

unfoldable pub code : MigrationStatus → String
code pending = "Pending"
code migration_in_progress = "MigrationInProgress"
code migration_success = "MigrationSuccess"
code migration_failure = "MigrationFailure"
code rolling_back = "RollingBack"
code rollback_success = "RollbackSuccess"
code rollback_failure = "RollbackFailure"

-- `none` is the panic at a text that is no status.
unfoldable pub from_str : String → Option MigrationStatus
from_str s =
    if s == "Pending"
    then some pending
    else if s == "MigrationInProgress"
    then some migration_in_progress
    else if s == "MigrationSuccess"
    then some migration_success
    else if s == "MigrationFailure"
    then some migration_failure
    else if s == "RollingBack"
    then some rolling_back
    else if s == "RollbackSuccess"
    then some rollback_success
    else if s == "RollbackFailure"
    then some rollback_failure
    else none

abbrev pub status_eq : MigrationStatus → MigrationStatus → Bool
status_eq pending pending = true
status_eq migration_in_progress migration_in_progress = true
status_eq migration_success migration_success = true
status_eq migration_failure migration_failure = true
status_eq rolling_back rolling_back = true
status_eq rollback_success rollback_success = true
status_eq rollback_failure rollback_failure = true
status_eq _ _ = false

-- `D` is the type of the datamodel, and `J` that of a JSON value.
pub record Migration (D J : Type 0) : Type 0 where
  pub name : String
  pub revision : ℕ
  pub status : MigrationStatus
  pub applied : ℕ
  pub rolled_back : ℕ
  pub datamodel_string : String
  pub datamodel : D
  pub datamodel_steps : List MigrationStep
  pub database_migration : J
  pub errors : List String
  pub started_at : ℕ
  pub finished_at : Option ℕ

pub record MigrationUpdateParams : Type 0 where
  pub name : String
  pub new_name : String
  pub revision : ℕ
  pub status : MigrationStatus
  pub applied : ℕ
  pub rolled_back : ℕ
  pub errors : List String
  pub finished_at : Option ℕ

-- `now` is the time that `timestamp_without_nanos` reads.
abbrev pub mark_as_finished : ℕ → MigrationUpdateParams → MigrationUpdateParams
mark_as_finished now u = record u { status = migration_success; finished_at = some now }

module _ {D J : Type 0} where
  abbrev pub update_params : Migration D J → MigrationUpdateParams
  update_params m = record {
    name = m.name;
    new_name = m.name;
    revision = m.revision;
    status = m.status;
    applied = m.applied;
    rolled_back = m.rolled_back;
    errors = m.errors;
    finished_at = m.finished_at;
  }

  unfoldable pub is_watch_migration : Migration D J → Bool
  is_watch_migration m = starts_with m.name "watch"

  -- The queries, over what `load_all` gives.
  abbrev pub is_applied_non_watch : Migration D J → Bool
  is_applied_non_watch m = not (is_watch_migration m) && status_eq m.status migration_success

  unfoldable pub last_non_watch_applied_migration : List (Migration D J) → Option (Migration D J)
  unfolding is_watch_migration
  last_non_watch_applied_migration all = find? is_applied_non_watch (reverse all)

  unfoldable pub last_non_watch_migration : List (Migration D J) → Option (Migration D J)
  unfolding is_watch_migration
  last_non_watch_migration all = find? (λ m. not (is_watch_migration m)) (reverse all)

  unfoldable pub last_non_watch_datamodel : D → List (Migration D J) → D
  unfolding last_non_watch_migration
  last_non_watch_datamodel empty all =
      unwrap_or (Option.map (λ m. m.datamodel) (last_non_watch_migration all)) empty

  -- The loop that breaks at the first migration that is not watch.
  unfoldable pub take_watch : List (Migration D J) → List (Migration D J)
  unfolding is_watch_migration
  take_watch [] = []
  take_watch (m ∷ ms) = let rest = take_watch ms in if is_watch_migration m then m ∷ rest else []

  unfoldable pub load_current_watch_migrations : List (Migration D J) → List (Migration D J)
  unfolding take_watch
  load_current_watch_migrations all = reverse (take_watch (reverse all))

  -- The row of that name and revision is rewritten, as the persistence of the SQL connector does.
  abbrev pub update_row : MigrationUpdateParams → Migration D J → Migration D J
  update_row u m =
      if m.name == u.name && nat_eq m.revision u.revision
      then record m {
        name = u.new_name;
        status = u.status;
        applied = u.applied;
        rolled_back = u.rolled_back;
        errors = u.errors;
        finished_at = u.finished_at;
      }
      else m

  unfoldable pub update : MigrationUpdateParams → List (Migration D J) → List (Migration D J)
  update u = map (update_row u)
