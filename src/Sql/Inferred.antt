-- ===== src/Sql/Inferred.antt =====
-- The migration that is inferred when nothing has changed
-- (migration-engine/connectors/sql-migration-connector/src/sql_database_migration_inferrer.rs, infer).
use prisma_engine.Base.{String, true, [], ◌≡◌, refl, all, filter_map, find_ok, ok}
use prisma_engine.Sql.Schema.{SqlSchema}
use prisma_engine.Sql.Differ.{diff, into_steps}
use prisma_engine.Sql.Inferrer.{
  SqlFamily, postgres, mysql, sqlite, infer, infer_database_migration_steps_and_fix,
  fix_stupid_sqlite, fix_steps, fix_id_column_type_change, delay_foreign_key_creation,
  delay_foreign_keys,
}
use prisma_engine.Sql.Unchanged.{
  has_own_tables, has_own_columns, has_own_indexes, no_changes, diff-no_changes,
}

-- Without changes there is nothing to correct, whatever the database is.
no_steps :
    (from to : SqlSchema) (schema_name : String) (sql_family : SqlFamily)
    → diff from to ≡ no_changes
    → infer_database_migration_steps_and_fix from to schema_name sql_family ≡ ok ([], [])
unfolding infer_database_migration_steps_and_fix fix_stupid_sqlite fix_steps
    fix_id_column_type_change delay_foreign_key_creation delay_foreign_keys into_steps find_ok
    filter_map
no_steps from to schema_name postgres h = rw h refl
no_steps from to schema_name mysql h = rw h refl
no_steps from to schema_name sqlite h = rw h refl

-- The migration of a schema to itself has no steps, no corrected steps and no rollback, on every kind of
-- database, if no two tables of the schema have one name, no two columns of a table have one name, and
-- no two indexes of a table with different names have the same columns and type.
pub infer_self :
    (s : SqlSchema) (schema_name : String) (sql_family : SqlFamily)
    → has_own_tables s ≡ true
    → all has_own_columns s.tables ≡ true
    → all has_own_indexes s.tables ≡ true
    → infer s s schema_name sql_family
      ≡ ok (record {
        before = s;
        after = s;
        original_steps = [];
        corrected_steps = [];
        rollback = [];
      })
unfolding infer
infer_self s schema_name sql_family own columns indexes =
    rw (no_steps s s schema_name sql_family (diff-no_changes s own columns indexes)) refl
