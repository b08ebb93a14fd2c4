-- ===== src/Migration/Commands/Unapply.antt =====
-- The command that rolls the last migration back
-- (migration-engine/core/src/commands/unapply_migration.rs), and the one that reports on a migration
-- (migration-engine/core/src/commands/migration_progress.rs).
use mathlib.Core.Option
use mathlib.Core.List.{reverse}
use prisma_engine.Base.{
  ℕ, String, Option, none, some, List, [], ◌∷◌, ◌==◌, find?, length, Outcome, ok, ◌>>=◌, ok_or,
}
use Prim.Native.String.{◌++◌}
use prisma_engine.Migration.Persistence.{Migration, MigrationStatus}
use prisma_engine.Migration.Applier
use prisma_engine.Migration.Applier.{World}
use prisma_engine.Migration.Commands.{CommandError, Engine, from_connector, last}

pub record UnapplyMigrationOutput : Type 0 where
  pub rolled_back : String
  pub active : Option String
  pub errors : List String

abbrev pub not_applicable : UnapplyMigrationOutput
not_applicable = record {
  rolled_back = "not-applicable";
  active = none;
  errors = "There is no last migration that can be rolled back." ∷ [];
}

pub record MigrationProgressOutput : Type 0 where
  pub status : MigrationStatus
  pub steps : ℕ
  pub applied : ℕ
  pub rolled_back : ℕ
  pub errors : List String
  pub started_at : ℕ
  pub finished_at : Option ℕ

module _ {E D J T Db : Type 0} (engine : Engine E D J T Db) (deserialize : J → T) where
  abbrev pub rolled_back_output :
      Migration D J
      → Outcome E (Unit {0}) × World D J Db
      → Outcome CommandError UnapplyMigrationOutput × World D J Db
  rolled_back_output m (result, w) = (
    from_connector engine result >>= (λ _. ok (record {
      rolled_back = m.name;
      active = Option.map (λ a. a.name) (last engine w.migrations);
      errors = [];
    })),
    w,
  )

  unfoldable pub unapply_execute :
      ℕ → World D J Db → Option (Outcome CommandError UnapplyMigrationOutput × World D J Db)
  unfolding last
  unapply_execute fuel w = elim (last engine w.migrations) [
    | none ↦ some (ok not_applicable, w)
    | some m ↦
        Option.map (rolled_back_output m)
          (Applier.unapply engine.step_applier (deserialize m.database_migration) fuel m w)
  ]

module _ {D J : Type 0} where
  -- The last migration of a name; the table is in the order of its revisions.
  unfoldable pub by_name : String → List (Migration D J) → Option (Migration D J)
  by_name name all = find? (λ m. m.name == name) (reverse all)

  unfoldable pub progress_execute :
      String → List (Migration D J) → Outcome CommandError MigrationProgressOutput
  unfolding by_name
  progress_execute migration_id all = do
    m ←
        ok_or
          (CommandError.input 1002
            ("Could not load migration from database. Migration name was: " ++ migration_id))
          (by_name migration_id all)
    ok (record {
      status = m.status;
      steps = length m.datamodel_steps;
      applied = m.applied;
      rolled_back = m.rolled_back;
      errors = m.errors;
      started_at = m.started_at;
      finished_at = m.finished_at;
    })
