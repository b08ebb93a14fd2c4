-- ===== src/Sql/Samples.antt =====
-- Schemas that the tests run on
-- (migration-engine/connectors/sql-migration-connector/src/sql_schema_differ.rs).
use prisma_engine.Base.{
  String, false, none, some, List, [], ◌∷◌, find?, any, all, filter, filter_map, flat_map, are_new,
  decimal, find_ok,
}
use prisma_engine.Sql.Schema.{
  SqlSchema, Table, Column, Index, ForeignKey, normal, int, required, cascade, get_table, table,
  has_table, column, has_column, contains, names_eq, foreign_key_for_column,
}
use prisma_engine.Sql.Differ.{
  into_steps, diff, create_tables, drop_tables_of, alter_tables, alter_indexes, create_indexes,
  drop_indexes, table_pairs, altered_in, renamed_index, index_in, index_covers_pk, table_changes,
  drop_columns, add_columns, alter_columns, column_changed, drop_foreign_keys, foreign_keys_match,
  foreign_key_changed, indexes_are_equivalent,
}
use prisma_engine.Sql.Schema.{is_part_of_primary_key}
use prisma_engine.Sql.Inferrer.{
  infer_database_migration_steps_and_fix, fix_stupid_sqlite, fix_steps, fix, copy_statement, join,
  intersection_columns, sqlite_fix_table, table_or_err, needs_fix, change_needs_fix,
  delayed_changes, without_delayed, delayed_columns, is_delayed, column_eq,
}
use prisma_engine.Sql.Checker.{
  check, check_steps, check_step, check_changes, check_change, check_column_drop, warn_if,
  add_warning,
}
use prisma_engine.Sql.Steps.{distinct}

-- A test names this to compute with the differ, the inferrer and the checker.
unfoldable pub run : Unit {0}
unfolding into_steps diff create_tables drop_tables_of alter_tables alter_indexes create_indexes
    drop_indexes table_pairs altered_in renamed_index index_in index_covers_pk table_changes
    drop_columns add_columns alter_columns column_changed drop_foreign_keys foreign_keys_match
    foreign_key_changed indexes_are_equivalent get_table table has_table column has_column contains
    names_eq foreign_key_for_column find? any all filter decimal find_ok
    infer_database_migration_steps_and_fix fix_stupid_sqlite fix_steps fix copy_statement join
    intersection_columns sqlite_fix_table table_or_err needs_fix change_needs_fix delayed_changes
    without_delayed delayed_columns is_delayed column_eq is_part_of_primary_key check check_steps
    check_step check_changes check_change check_column_drop warn_if add_warning filter_map flat_map
    distinct are_new
run = tt

abbrev pub int_column : String → Column
int_column name = record {
  name = name;
  tpe = record { raw = "int"; family = int };
  arity = required;
  default = none;
  auto_increment = false;
}

abbrev pub user_id : ForeignKey
user_id = record {
  constraint_name = some "post_user";
  columns = "user" ∷ [];
  referenced_table = "User";
  referenced_columns = "id" ∷ [];
  on_delete_action = cascade;
}

abbrev pub index_on : String → String → Index
index_on name column = record { name = name; columns = column ∷ []; tpe = normal }

abbrev pub user : List Column → List Index → Table
user columns indices = record {
  name = "User";
  columns = columns;
  indices = indices;
  primary_key = some (record { columns = "id" ∷ []; sequence = none });
  foreign_keys = [];
}

abbrev pub post : List Index → Table
post indices = record {
  name = "Post";
  columns = int_column "id" ∷ int_column "user" ∷ [];
  indices = indices;
  primary_key = none;
  foreign_keys = user_id ∷ [];
}

abbrev pub with_tables : List Table → SqlSchema
with_tables tables = record { tables = tables; enums = []; sequences = [] }

abbrev pub before : SqlSchema
before =
    with_tables (user (int_column "id" ∷ int_column "age" ∷ []) (index_on "by_age" "age" ∷ []) ∷ [])

abbrev pub after : SqlSchema
after = with_tables (
    user (int_column "id" ∷ int_column "size" ∷ []) [] ∷ post (index_on "by_user" "user" ∷ []) ∷ [])
