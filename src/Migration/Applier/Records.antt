-- ===== src/Migration/Applier/Records.antt =====
-- What the table records of a migration that was applied or rolled back
-- (migration-engine/connectors/migration-connector/src/migration_applier.rs).
use prisma_engine.Base.{
  ℕ, zero, suc, ◌+◌, String, some, [], ◌∷◌, Outcome, ok, err, panic, ◌≡◌, refl, ◌∙◌, arith,
}
use prisma_engine.Migration.Persistence.{
  Migration, MigrationUpdateParams, migration_in_progress, migration_success, migration_failure,
  rolling_back, rollback_success, rollback_failure, update_params,
}
use prisma_engine.Migration.Applier.{applied_one, rolled_back_one}
use prisma_engine.Migration.Applier.Execution.{times, SameRow}

pub times-applied_one :
    (n : ℕ) (u : MigrationUpdateParams)
    → times n applied_one u ≡ record u { applied = u.applied + n }
times-applied_one zero u = let e : u.applied + 0 ≡ u.applied = omega arith in rw e refl
times-applied_one (suc n) u =
    times-applied_one n (applied_one u)
    ∙ (let e : u.applied + 1 + n ≡ u.applied + suc n = omega arith in rw e refl)

pub times-rolled_back_one :
    (n : ℕ) (u : MigrationUpdateParams)
    → times n rolled_back_one u ≡ record u { rolled_back = u.rolled_back + n }
times-rolled_back_one zero u = let e : u.rolled_back + 0 ≡ u.rolled_back = omega arith in rw e refl
times-rolled_back_one (suc n) u =
    times-rolled_back_one n (rolled_back_one u)
    ∙ (let e : u.rolled_back + 1 + n ≡ u.rolled_back + suc n = omega arith in rw e refl)

module _ {E : Type 0} (debug : E → String) where
  -- What the table records of a migration that was applied, and of one that was rolled back.
  abbrev pub applied_params :
      Outcome E (Unit {0}) → ℕ → ℕ → MigrationUpdateParams → MigrationUpdateParams
  applied_params (ok _) n now u = record u {
    status = migration_success;
    applied = u.applied + n;
    finished_at = some now;
  }
  applied_params (err e) n now u = record u {
    status = migration_failure;
    applied = u.applied + n;
    errors = debug e ∷ [];
  }
  applied_params panic n now u = record u {
    status = migration_in_progress;
    applied = u.applied + n;
  }

  abbrev pub rolled_back_params :
      Outcome E (Unit {0}) → ℕ → MigrationUpdateParams → MigrationUpdateParams
  rolled_back_params (ok _) n u = record u {
    status = rollback_success;
    rolled_back = u.rolled_back + n;
  }
  rolled_back_params (err e) n u = record u {
    status = rollback_failure;
    rolled_back = u.rolled_back + n;
    errors = debug e ∷ [];
  }
  rolled_back_params panic n u = record u { status = rolling_back; rolled_back = u.rolled_back + n }

pub self_row : {D J : Type 0} (m : Migration D J) → SameRow (update_params m) (update_params m)
self_row m = record { name = refl; new_name = refl; revision = refl; kept = refl }
