-- ===== src/Sql/InferrerTests.antt =====
-- Tests of the inferrer and of the checker
-- (migration-engine/connectors/sql-migration-connector/src/sql_database_migration_inferrer.rs and
-- sql_destructive_changes_checker.rs).
use prisma_engine.Base.{
  String, none, ◌≡◌, refl, some, List, [], ◌∷◌, any, ok, ◌==◌, ℕ, if◌then◌else◌,
}
use prisma_engine.Sql.Schema.{SqlSchema, Table, contains, empty}
use prisma_engine.Sql.Differ.{
  drop_table, into_steps, diff, create_table, alter_table, create_index, raw_sql, rename_table,
  add_column, drop_column, CreateTable,
}
use prisma_engine.Migration.Commands.{DestructiveChangeDiagnostics, has_warnings}
use prisma_engine.Sql.Inferrer.{
  infer, infer_database_migration_steps_and_fix, fix, delayed_changes, sqlite, postgres,
  delay_foreign_key_creation, delay_foreign_keys,
}
use prisma_engine.Sql.Checker.{check, warning}
use prisma_engine.Sql.Warned.{step_loses, check-diff}
use mathlib.Core.List.Memᴰ.{head}
use prisma_engine.Sql.Unchanged.{All}
use prisma_engine.Sql.Columns.{run_columns, occurrences}
use prisma_engine.Sql.Delayed.{run_steps-delay_foreign_key_creation}
use prisma_engine.Sql.DelayedColumns.{
  made_names, CreatesInOrder, run_columns-delay_foreign_key_creation,
}
use prisma_engine.Sql.Sqlite.{run_steps-fix}
use prisma_engine.Sql.Inferred.{infer_self}
use prisma_engine.Sql.Tables.{tables_after}
use prisma_engine.Sql.Steps.{run_steps}
use prisma_engine.Sql.Samples.{run, int_column, index_on, user, post, with_tables, before, after}

-- On SQLite, a table whose column is dropped is made anew.
abbrev smaller : SqlSchema
smaller = with_tables (user (int_column "id" ∷ []) (index_on "by_id" "id" ∷ []) ∷ [])

abbrev larger : SqlSchema
larger =
    with_tables (user (int_column "id" ∷ int_column "age" ∷ []) (index_on "by_id" "id" ∷ []) ∷ [])

sqlite_steps :
    infer_database_migration_steps_and_fix larger smaller "db" sqlite
    ≡ ok (
      alter_table (record {
        table = user (int_column "id" ∷ []) (index_on "by_id" "id" ∷ []);
        changes = drop_column "age" ∷ [];
      })
          ∷ [],
      raw_sql "PRAGMA foreign_keys=OFF;"
          ∷ create_table (record {
            table = record (user (int_column "id" ∷ []) (index_on "by_id" "id" ∷ [])) {
              name = "new_User";
            };
          })
          ∷ raw_sql "INSERT INTO \"new_User\" (\"id\") SELECT \"id\" from \"User\""
          ∷ drop_table (record { name = "User" })
          ∷ rename_table "new_User" "User"
          ∷ create_index (record { table = "User"; index = index_on "by_id" "id" })
          ∷ raw_sql "PRAGMA \"db\".foreign_key_check;"
          ∷ raw_sql "PRAGMA foreign_keys=ON;"
          ∷ [],
    )
unfolding run
sqlite_steps = refl

-- The column with a foreign key to a table that is made too is added later.
delayed :
    delayed_changes ("Post" ∷ "User" ∷ []) (record { table = post [] })
    ≡ some (record {
      table = record (post []) { columns = int_column "id" ∷ [] };
      changes = add_column (int_column "user") ∷ [];
    })
unfolding run
delayed = refl

-- Two tables that are new, of which the one refers to the other.
abbrev post_table : CreateTable
post_table = record { table = post [] }

abbrev two_new : SqlSchema
two_new = with_tables (post [] ∷ user (int_column "id" ∷ []) [] ∷ [])

abbrev PostColumns : Type 0
PostColumns =
    (ns : List String) × (run_columns (delay_foreign_key_creation (diff empty two_new)) (λ n. none)
        "Post"
      ≡ some ns)
    × ((n : String) → occurrences n ns ≡ occurrences n ("id" ∷ "user" ∷ []))
    × All (CreatesInOrder (made_names empty two_new))
        (delay_foreign_key_creation (diff empty two_new))

run_columns-delay_foreign_key_creation_example : PostColumns
unfolding run empty
run_columns-delay_foreign_key_creation_example =
    run_columns-delay_foreign_key_creation empty two_new refl post_table (head refl) (λ n. none)

post_waits :
    delay_foreign_key_creation (diff empty two_new)
    ≡ create_table (record { table = record (post []) { columns = int_column "id" ∷ [] } })
      ∷ create_table (record { table = user (int_column "id" ∷ []) [] })
      ∷ alter_table (record {
        table = record (post []) { columns = int_column "id" ∷ [] };
        changes = add_column (int_column "user") ∷ [];
      })
      ∷ []
unfolding run delay_foreign_key_creation delay_foreign_keys empty
post_waits = refl

run_steps-delay_foreign_key_creation_example :
    run_steps ("User" ∷ []) (delay_foreign_key_creation (diff before after))
    ≡ some (tables_after ("User" ∷ []) (diff before after))
unfolding run
run_steps-delay_foreign_key_creation_example =
    run_steps-delay_foreign_key_creation before after (λ h. absurd cc) refl

run_steps-fix_example :
    (rest : List String) × (run_steps
        ("User" ∷ [])
        (fix (user (int_column "age" ∷ []) []) (user (int_column "id" ∷ []) []) "db")
      ≡ some rest)
    × ((n : String) → contains rest n ≡ contains ("User" ∷ []) n)
unfolding run
run_steps-fix_example =
    run_steps-fix (user (int_column "age" ∷ []) []) (user (int_column "id" ∷ []) []) "db"
      ("User" ∷ []) refl refl refl

infer_self_example :
    infer after after "db" postgres
    ≡ ok (record {
      before = after;
      after = after;
      original_steps = [];
      corrected_steps = [];
      rollback = [];
    })
unfolding run
infer_self_example = infer_self after "db" postgres refl refl refl

-- A database with two users, whose ages are known.
abbrev rows : String → ℕ
rows name = if name == "User" then 2 else 0

abbrev values : String → Table → ℕ
values c t = if c == "age" then 2 else 0

check-diff_example :
    (d : DestructiveChangeDiagnostics) × (check
        (λ n. ok (rows n))
        (λ c t. ok (values c t))
        before
        (into_steps (diff before after))
      ≡ ok d)
    × (has_warnings d ≡ any (step_loses rows values before) (into_steps (diff before after)))
check-diff_example = check-diff rows values before after

age_lost :
    check (λ n. ok (rows n)) (λ c t. ok (values c t)) before (into_steps (diff before after))
    ≡ ok (record {
      errors = [];
      warnings =
          warning
            "You are about to drop the column `age` on the `User` table, which still contains 2 non-null values."
          ∷ [];
    })
unfolding run
age_lost = refl
