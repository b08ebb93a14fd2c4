-- ===== src/Sql/Inferrer.antt =====
-- The steps of a database migration with the corrections for each kind of database
-- (migration-engine/connectors/sql-migration-connector/src/sql_database_migration_inferrer.rs). An
-- error is its text. The schemas that the describer reads and that the calculator of schemas makes are
-- arguments.
use Prim.Native.String.{◌++◌}
use mathlib.Core.List.{◌++◌ as append}
use prisma_engine.Base.{
  String, Bool, true, false, not, ◌&&◌, Option, none, some, List, [], ◌∷◌, ◌==◌, nat_eq, any,
  filter, filter_map, map, is_some, unwrap, ok_or, starts_with, if◌then◌else◌, Outcome, ok, ◌>>=◌,
  find_ok,
}
use prisma_engine.Sql.Schema.{
  SqlSchema, Table, Column, empty, required, arity_index, family_index, table, column, contains,
  foreign_key_for_column, is_part_of_primary_key, primary_key_columns,
}
use prisma_engine.Sql.Differ.{
  SqlMigrationStep, create_table, alter_table, drop_table, drop_tables, rename_table, raw_sql,
  create_index, drop_index, alter_index, CreateTable, AlterTable, TableChange, add_column,
  alter_column, drop_column, drop_foreign_key, SqlSchemaDiff, into_steps, diff,
}

-- `Table::column_bang` and `SqlSchema::table` with its error.
unfoldable pub column_bang : {E : Type 0} → Table → String → Outcome E Column
column_bang t name = unwrap (column t name)

unfoldable pub table_or_err : SqlSchema → String → Outcome String Table
table_or_err schema name = ok_or ("Table " ++ (name ++ " not found")) (table schema name)

abbrev pub option_eq : Option String → Option String → Bool
option_eq none none = true
option_eq none (some y) = false
option_eq (some x) none = false
option_eq (some x) (some y) = x == y

abbrev pub bool_eq : Bool → Bool → Bool
bool_eq true b = b
bool_eq false b = not b

-- The derived equality of columns.
unfoldable pub column_eq : Column → Column → Bool
column_eq c d =
    c.name == d.name
    && ((c.tpe.raw == d.tpe.raw && nat_eq (family_index c.tpe.family) (family_index d.tpe.family))
        && (nat_eq (arity_index c.arity) (arity_index d.arity)
            && (option_eq c.default d.default && bool_eq c.auto_increment d.auto_increment)))

-- Whether a column of a new table waits until all tables are there: it has a foreign key to a table
-- that is made too, is no part of the primary key, and its table is no relation table.
unfoldable pub is_delayed : List String → Table → Column → Bool
is_delayed made t c = elim (foreign_key_for_column t c.name) [
  | none ↦ false
  | some fk ↦
      contains made fk.referenced_table
      && (not (is_part_of_primary_key t c.name) && not (starts_with t.name "_"))
]

unfoldable pub delayed_columns : List String → Table → List Column
delayed_columns made t = filter (is_delayed made t) t.columns

unfoldable pub without_delayed : List String → CreateTable → CreateTable
without_delayed made c = record {
  table = record c.table {
    columns =
        filter (λ d. not (any (λ e. column_eq e d) (delayed_columns made c.table))) c.table.columns;
  };
}

unfoldable pub delayed_changes : List String → CreateTable → Option AlterTable
delayed_changes made c = elim (map add_column (delayed_columns made c.table)) [
  | [] ↦ none
  | change ∷ changes ↦
      some (record { table = (without_delayed made c).table; changes = change ∷ changes })
]

unfoldable pub delay_foreign_keys : SqlSchemaDiff → SqlSchemaDiff
delay_foreign_keys d =
    let made : List String = map (λ c. c.table.name) d.created_tables in
    record d {
      created_tables = map (without_delayed made) d.created_tables;
      altered_tables = append d.altered_tables (filter_map (delayed_changes made) d.created_tables);
    }

unfoldable pub delay_foreign_key_creation : SqlSchemaDiff → List SqlMigrationStep
delay_foreign_key_creation d = into_steps (delay_foreign_keys d)

-- Whether a change is to the type of a column of the primary key.
unfoldable pub changes_id_type : Table → TableChange → Outcome String Bool
changes_id_type current (alter_column name c) = column_bang current name >>= λ current_column. ok (
    contains (primary_key_columns current) name
    && not (nat_eq (family_index current_column.tpe.family) (family_index c.tpe.family)))
changes_id_type current (add_column c) = ok false
changes_id_type current (drop_column name) = ok false
changes_id_type current (drop_foreign_key name) = ok false

unfoldable pub step_changes_id_type : SqlSchema → SqlMigrationStep → Outcome String Bool
step_changes_id_type from (alter_table a) = elim (table from a.table.name) [
  | none ↦ ok false
  | some current ↦ find_ok (changes_id_type current) a.changes >>= λ found. ok (is_some found)
]
step_changes_id_type from (create_table c) = ok false
step_changes_id_type from (drop_table d) = ok false
step_changes_id_type from (drop_tables d) = ok false
step_changes_id_type from (rename_table name new_name) = ok false
step_changes_id_type from (raw_sql raw) = ok false
step_changes_id_type from (create_index c) = ok false
step_changes_id_type from (drop_index d) = ok false
step_changes_id_type from (alter_index a) = ok false

-- All tables are dropped and made anew, but that of the migrations.
unfoldable pub radical_steps : SqlSchema → SqlSchema → List SqlMigrationStep
radical_steps from to =
    drop_tables (record {
      names = map (λ t. t.name) (filter (λ t. not (t.name == "_Migration")) from.tables);
    })
    ∷ delay_foreign_key_creation (diff empty to)

unfoldable pub fix_id_column_type_change :
    SqlSchema → SqlSchema → List SqlMigrationStep → Outcome String (List SqlMigrationStep)
fix_id_column_type_change from to steps = find_ok (step_changes_id_type from) steps >>= λ found.
    ok (if is_some found then radical_steps from to else steps)

unfoldable pub change_needs_fix : TableChange → Bool
change_needs_fix (add_column c) = nat_eq (arity_index c.arity) (arity_index required)
change_needs_fix (drop_column name) = true
change_needs_fix (alter_column name c) = true
change_needs_fix (drop_foreign_key name) = true

unfoldable pub needs_fix : AlterTable → Bool
needs_fix a = any change_needs_fix a.changes

unfoldable pub join : String → List String → String
join separator [] = ""
join separator (x ∷ xs) = elim xs [ [] ↦ x | _ ∷ _ ↦ x ++ (separator ++ join separator xs) ]

-- The columns that both tables have, in the order of the current one.
unfoldable pub intersection_columns : Table → Table → List String
intersection_columns current next =
    filter (contains (map (λ c. c.name) next.columns)) (map (λ c. c.name) current.columns)

unfoldable pub copy_statement : Table → Table → String
copy_statement current next =
    let columns_string =
      join "," (map (λ c. "\"" ++ (c ++ "\"")) (intersection_columns current next)) in
    "INSERT INTO \"new_"
    ++ (next.name
        ++ ("\" ("
            ++ (columns_string
                ++ (") SELECT " ++ (columns_string ++ (" from \"" ++ (next.name ++ "\"")))))))

-- A table is changed by making the new one beside it, copying, and renaming.
unfoldable pub fix : Table → Table → String → List SqlMigrationStep
fix current next schema_name =
    raw_sql "PRAGMA foreign_keys=OFF;"
    ∷ create_table (record { table = record next { name = "new_" ++ next.name } })
    ∷ raw_sql (copy_statement current next)
    ∷ drop_table (record { name = current.name })
    ∷ rename_table ("new_" ++ next.name) next.name
    ∷ append (map (λ i. create_index (record { table = next.name; index = i })) next.indices) (
        raw_sql ("PRAGMA \"" ++ (schema_name ++ "\".foreign_key_check;"))
        ∷ raw_sql "PRAGMA foreign_keys=ON;"
        ∷ [])

unfoldable pub sqlite_fix_table :
    SqlSchema → SqlSchema → String → String → Outcome String (List SqlMigrationStep)
sqlite_fix_table current next table_name schema_name =
    table_or_err current table_name >>= λ current_table.
    table_or_err next table_name >>= λ next_table. ok (fix current_table next_table schema_name)

-- The loop over the steps, with the tables that are fixed so far.
module _ (current next : SqlSchema) (schema_name : String) where
  unfoldable pub fix_steps :
      List String → List SqlMigrationStep → Outcome String (List SqlMigrationStep)
  fix_steps fixed [] = ok []
  fix_steps fixed (alter_table a ∷ steps) =
      if needs_fix a
      then (sqlite_fix_table current next a.table.name schema_name >>= λ made.
          fix_steps (append fixed (a.table.name ∷ [])) steps >>= λ rest. ok (append made rest))
      else (fix_steps fixed steps >>= λ rest. ok (alter_table a ∷ rest))
  fix_steps fixed (create_index c ∷ steps) =
      if contains fixed c.table
      then fix_steps fixed steps
      else (fix_steps fixed steps >>= λ rest. ok (create_index c ∷ rest))
  fix_steps fixed (alter_index a ∷ steps) =
      sqlite_fix_table current next a.table schema_name >>= λ made.
      fix_steps (append fixed (a.table ∷ [])) steps >>= λ rest. ok (append made rest)
  fix_steps fixed (create_table c ∷ steps) =
      fix_steps fixed steps >>= λ rest. ok (create_table c ∷ rest)
  fix_steps fixed (drop_table d ∷ steps) =
      fix_steps fixed steps >>= λ rest. ok (drop_table d ∷ rest)
  fix_steps fixed (drop_tables d ∷ steps) =
      fix_steps fixed steps >>= λ rest. ok (drop_tables d ∷ rest)
  fix_steps fixed (rename_table name new_name ∷ steps) =
      fix_steps fixed steps >>= λ rest. ok (rename_table name new_name ∷ rest)
  fix_steps fixed (raw_sql raw ∷ steps) = fix_steps fixed steps >>= λ rest. ok (raw_sql raw ∷ rest)
  fix_steps fixed (drop_index d ∷ steps) =
      fix_steps fixed steps >>= λ rest. ok (drop_index d ∷ rest)

unfoldable pub fix_stupid_sqlite :
    SqlSchemaDiff → SqlSchema → SqlSchema → String → Outcome String (List SqlMigrationStep)
fix_stupid_sqlite d current next schema_name = fix_steps current next schema_name [] (into_steps d)

pub data SqlFamily : Type 0 where
  postgres mysql sqlite : SqlFamily

abbrev pub is_sqlite : SqlFamily → Bool
is_sqlite sqlite = true
is_sqlite postgres = false
is_sqlite mysql = false

-- The steps as they are, and with the corrections.
unfoldable pub infer_database_migration_steps_and_fix :
    SqlSchema
    → SqlSchema
    → String
    → SqlFamily
    → Outcome String (List SqlMigrationStep × List SqlMigrationStep)
infer_database_migration_steps_and_fix from to schema_name sql_family =
    (if is_sqlite sql_family
      then fix_stupid_sqlite (diff from to) from to schema_name
      else fix_id_column_type_change from to (delay_foreign_key_creation (diff from to)))
    >>= λ corrected_steps. ok (into_steps (diff from to), corrected_steps)

pub record SqlMigrationOf : Type 0 where
  pub before : SqlSchema
  pub after : SqlSchema
  pub original_steps : List SqlMigrationStep
  pub corrected_steps : List SqlMigrationStep
  pub rollback : List SqlMigrationStep

unfoldable pub infer : SqlSchema → SqlSchema → String → SqlFamily → Outcome String SqlMigrationOf
infer current_database_schema expected_database_schema schema_name sql_family =
    infer_database_migration_steps_and_fix current_database_schema expected_database_schema
      schema_name sql_family
    >>= λ steps.
        infer_database_migration_steps_and_fix expected_database_schema current_database_schema
          schema_name sql_family
        >>= λ back. ok (record {
          before = current_database_schema;
          after = expected_database_schema;
          original_steps = steps.0;
          corrected_steps = steps.1;
          rollback = back.1;
        })
