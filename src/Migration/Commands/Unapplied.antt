-- ===== src/Migration/Commands/Unapplied.antt =====
-- What rolling the last migration back leaves (migration-engine/core/src/commands/unapply_migration.rs),
-- with the SQL connector's step applier.
use mathlib.Core.Option
use mathlib.Core.List.{reverse, reverse-append, reverse-cons}
use prisma_engine.Base.{
  Bool-cases, inl, inr, ◌+◌, ℕ, ◌<◌, String, Bool, true, false, not, none, some, List, [], ◌∷◌,
  ◌++◌, ◌≡◌, refl, ap, ◌∙◌, arith, all, all-reverse, Outcome, ok, nat_eq_refl, str_refl, length,
  find?, find?-append, if◌then◌else◌,
}
use prisma_engine.Migration.Persistence.{
  Migration, MigrationUpdateParams, update, update_row, update_params, migration_success,
  rollback_success, status_eq,
}
use prisma_engine.Migration.Applier.{World, SqlMigration, sql_step_applier}
use prisma_engine.Migration.Applier.Execution.{execute, recorded, Executed}
use prisma_engine.Migration.Applier.Rollbacks.{unapply_lem}
use prisma_engine.Migration.Applier.Records.{rolled_back_params}
use prisma_engine.Migration.Commands.{Engine, last}
use prisma_engine.Migration.Commands.Applied.{has_fresh_revision}
use prisma_engine.Migration.Commands.Unapply.{unapply_execute, rolled_back_output}

abbrev has_succeeded : {D J : Type 0} → Migration D J → Bool
has_succeeded m = status_eq m.status migration_success

find?-none :
    {A : Type 0} (p : A → Bool) (xs : List A) → all (λ x. not (p x)) xs ≡ true → find? p xs ≡ none
unfolding find? all
find?-none p [] h = refl
find?-none p (x ∷ xs) h = let ih = find?-none p xs in ground (arith, ih)

module _ {D J : Type 0} where
  update-others :
      (u : MigrationUpdateParams) (ms : List (Migration D J))
      → has_fresh_revision u.revision ms ≡ true
      → update u ms ≡ ms
  unfolding update all
  update-others u [] h = refl
  update-others u (m ∷ ms) h =
      let head : update_row u m ≡ m = ground arith in
      let rest = update-others u ms (ground arith) in λ i. head i ∷ rest i

  -- An update of one row, where no other has its revision.
  update-one :
      (u : MigrationUpdateParams) (before : List (Migration D J)) (m : Migration D J)
      (after : List (Migration D J))
      → has_fresh_revision u.revision before ≡ true
      → has_fresh_revision u.revision after ≡ true
      → update u (before ++ m ∷ after) ≡ before ++ update_row u m ∷ after
  unfolding update all
  update-one u [] m after h k = ap (λ l. update_row u m ∷ l) (update-others u after k)
  update-one u (b ∷ before) m after h k =
      let head : update_row u b ≡ b = ground arith in
      let rest = update-one u before m after (ground arith) k in λ i. head i ∷ rest i

  -- What is found from the back passes over rows that have not succeeded.
  find?-back :
      (before : List (Migration D J)) (r : Migration D J) (after : List (Migration D J))
      → all (λ m. not (has_succeeded m)) after ≡ true
      → find? has_succeeded (reverse (before ++ r ∷ after))
        ≡ (if has_succeeded r then some r else find? has_succeeded (reverse before))
  unfolding find? all
  find?-back before r after h =
      let skipped : find? has_succeeded (reverse after) ≡ none =
        find?-none has_succeeded (reverse after)
          (all-reverse (λ m. not (has_succeeded m)) after ∙ h) in
      rw
        (
          reverse-append before (r ∷ after),
          reverse-cons r after,
          find?-append,
          find?-append,
          skipped,
        )
        (elim (Bool-cases (has_succeeded r)) [ inl e ↦ rw e refl | inr e ↦ rw e refl ])

module _ {E D J S Db : Type 0} (engine : Engine E D J (SqlMigration S) Db)
    (run : S → Db → Outcome E (Unit {0}) × Db) (debug : E → String)
    (deserialize : J → SqlMigration S) (before : List (Migration D J)) (m : Migration D J)
    (after : List (Migration D J)) where
  abbrev pub sql_rollback_engine : Engine E D J (SqlMigration S) Db
  sql_rollback_engine = record engine { step_applier = sql_step_applier debug run }

  abbrev pub rolled_back_row : ℕ → Migration D J
  rolled_back_row n = record m { status = rollback_success; rolled_back = m.rolled_back + n }

  last-here :
      m.status ≡ migration_success
      → all (λ a. not (has_succeeded a)) after ≡ true
      → last sql_rollback_engine (before ++ m ∷ after) ≡ some m
  unfolding last
  last-here known none_later =
      find?-back before m after none_later
      ∙ (let e : has_succeeded m ≡ true = rw known refl in rw e refl)

  last-before :
      (r : Migration D J)
      → has_succeeded r ≡ false
      → all (λ a. not (has_succeeded a)) after ≡ true
      → last sql_rollback_engine (before ++ r ∷ after) ≡ last sql_rollback_engine before
  unfolding last
  last-before r known none_later = find?-back before r after none_later ∙ rw known refl

  rolled_back_update :
      (x : Executed E Db)
      → x.result ≡ ok tt
      → has_fresh_revision m.revision before ≡ true
      → has_fresh_revision m.revision after ≡ true
      → update
          (rolled_back_params debug x.result (recorded x) (update_params m))
          (before ++ m ∷ after)
        ≡ before ++ rolled_back_row (recorded x) ∷ after
  rolled_back_update x h fresh_before fresh_after =
      ap
        (λ (r : Outcome E (Unit {0})).
          update (rolled_back_params debug r (recorded x) (update_params m)) (before ++ m ∷ after))
        h
      ∙ (update-one (rolled_back_params debug (ok tt) (recorded x) (update_params m)) before m after
            fresh_before fresh_after
          ∙ rw (str_refl m.name, nat_eq_refl m.revision) refl)

  -- Rolling back takes the last migration that has succeeded. If all its rollback steps succeed, its row,
  -- and no other, is marked as rolled back, the answer names it and the migration that was the last one
  -- before it, and the database is what the rollback steps make of it. The revisions of the other rows
  -- must differ from its own, and the fuel be more than the number of its rollback steps.
  pub unapply_execute_lem :
      (db : Db) (fuel : ℕ)
      → m.status ≡ migration_success
      → all (λ a. not (has_succeeded a)) after ≡ true
      → has_fresh_revision m.revision before ≡ true
      → has_fresh_revision m.revision after ≡ true
      → length (deserialize m.database_migration).rollback < fuel
      → (execute run (deserialize m.database_migration).rollback db).result ≡ ok tt
      → let x = execute run (deserialize m.database_migration).rollback db in
        unapply_execute sql_rollback_engine deserialize fuel
          (record { migrations = before ++ m ∷ after; database = db })
        ≡ some (
          ok (record {
            rolled_back = m.name;
            active = Option.map (λ a. a.name) (last sql_rollback_engine before);
            errors = [];
          }),
          record {
            migrations = before ++ rolled_back_row (recorded x) ∷ after;
            database = x.database;
          },
        )
  unfolding unapply_execute
  unapply_execute_lem db fuel known none_later fresh_before fresh_after enough succeeded =
      let sql = deserialize m.database_migration in
      let x = execute run sql.rollback db in
      let w : World D J Db = record { migrations = before ++ m ∷ after; database = db } in
      let row = rolled_back_row (recorded x) in
      let active = last-before row refl none_later in
      let stored = rolled_back_update x succeeded fresh_before fresh_after in
      rw (last-here known none_later, unapply_execute)
        (ap (Option.map (rolled_back_output sql_rollback_engine deserialize m)) (
            unapply_lem debug run m sql w fuel enough known
            ∙ (λ i. some (succeeded i, record { migrations = stored i; database = x.database })))
          ∙ rw active refl)
