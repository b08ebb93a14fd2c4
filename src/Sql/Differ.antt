-- ===== src/Sql/Differ.antt =====
-- The steps between two database schemas
-- (migration-engine/connectors/sql-migration-connector/src/sql_schema_differ.rs, and the types of
-- migration-engine/connectors/sql-migration-connector/src/sql_migration.rs).
use mathlib.Core.Option
use prisma_engine.Base.{
  String, Bool, true, false, not, ◌&&◌, ◌||◌, Option, none, some, List, [], ◌∷◌, ◌++◌, ◌==◌, nat_eq,
  find?, any, filter, filter_map, flat_map, map, is_some, is_none, and_then, if◌then◌else◌,
}
use prisma_engine.Sql.Schema.{
  SqlSchema, Table, Column, Index, ForeignKey, action_index, arity_index, family_index,
  index_type_index, names_eq, table, has_table, column, has_column, foreign_key_for_column,
}

pub record CreateTable : Type 0 where
  pub table : Table

pub record DropTable : Type 0 where
  pub name : String

pub record DropTables : Type 0 where
  pub names : List String

pub data TableChange : Type 0 where
  add_column : (column : Column) → TableChange
  alter_column : (name : String) (column : Column) → TableChange
  drop_column : (name : String) → TableChange
  drop_foreign_key : (constraint_name : String) → TableChange

pub record AlterTable : Type 0 where
  pub table : Table
  pub changes : List TableChange

pub record CreateIndex : Type 0 where
  pub table : String
  pub index : Index

pub record DropIndex : Type 0 where
  pub table : String
  pub name : String

pub record AlterIndex : Type 0 where
  pub table : String
  pub index_name : String
  pub index_new_name : String

pub data SqlMigrationStep : Type 0 where
  create_table : CreateTable → SqlMigrationStep
  alter_table : AlterTable → SqlMigrationStep
  drop_table : DropTable → SqlMigrationStep
  drop_tables : DropTables → SqlMigrationStep
  rename_table : (name new_name : String) → SqlMigrationStep
  raw_sql : (raw : String) → SqlMigrationStep
  create_index : CreateIndex → SqlMigrationStep
  drop_index : DropIndex → SqlMigrationStep
  alter_index : AlterIndex → SqlMigrationStep

pub record SqlSchemaDiff : Type 0 where
  pub dropped_tables : List DropTable
  pub created_tables : List CreateTable
  pub altered_tables : List AlterTable
  pub created_indexes : List CreateIndex
  pub dropped_indexes : List DropIndex
  pub altered_indexes : List AlterIndex

abbrev pub migration_table_name : String
migration_table_name = "_Migration"

unfoldable pub into_steps : SqlSchemaDiff → List SqlMigrationStep
into_steps d =
    map drop_index d.dropped_indexes
    ++ (map drop_table d.dropped_tables
        ++ (map create_table d.created_tables
            ++ (map alter_table d.altered_tables
                ++ (map create_index d.created_indexes ++ map alter_index d.altered_indexes))))

unfoldable pub foreign_keys_match : ForeignKey → ForeignKey → Bool
foreign_keys_match previous next =
    previous.referenced_table == next.referenced_table
    && (names_eq previous.referenced_columns next.referenced_columns
        && (names_eq previous.columns next.columns
            && nat_eq (action_index previous.on_delete_action)
                (action_index next.on_delete_action)))

unfoldable pub foreign_key_changed : Option ForeignKey → Option ForeignKey → Bool
foreign_key_changed none none = false
foreign_key_changed (some previous) (some next) = not (foreign_keys_match previous next)
foreign_key_changed none (some next) = true
foreign_key_changed (some previous) none = true

unfoldable pub indexes_are_equivalent : Index → Index → Bool
indexes_are_equivalent first second =
    names_eq first.columns second.columns
    && nat_eq (index_type_index first.tpe) (index_type_index second.tpe)

unfoldable pub drop_columns : Table → Table → List TableChange
drop_columns previous next =
    filter_map (λ c. if has_column next c.name then none else some (drop_column c.name))
      previous.columns

unfoldable pub add_columns : Table → Table → List TableChange
add_columns previous next =
    filter_map (λ c. if has_column previous c.name then none else some (add_column c)) next.columns

-- Whether a column is altered: it differs, or its foreign key does. Where both have a foreign key, the
-- arity is not compared.
unfoldable pub column_changed : Table → Table → Column → Column → Bool
column_changed previous next previous_column next_column =
    let previous_fk = foreign_key_for_column previous previous_column.name in
    let next_fk = foreign_key_for_column next next_column.name in
    let is_fk_case = is_some previous_fk && is_some next_fk in
    (not (previous_column.name == next_column.name)
      || (not
            (nat_eq (family_index previous_column.tpe.family) (family_index next_column.tpe.family))
          || (not (nat_eq (arity_index previous_column.arity) (arity_index next_column.arity))
              && not is_fk_case)))
    || foreign_key_changed previous_fk next_fk

unfoldable pub alter_columns : Table → Table → List TableChange
alter_columns previous next =
    filter_map
      (λ next_column. and_then (column previous next_column.name) (λ previous_column.
        if column_changed previous next previous_column next_column
        then some (alter_column previous_column.name next_column)
        else none))
      next.columns

unfoldable pub drop_foreign_keys : Table → Table → List TableChange
drop_foreign_keys previous next = map drop_foreign_key (
    filter_map (λ fk. fk.constraint_name)
      (filter
        (λ previous_fk.
          is_none (find? (λ next_fk. foreign_keys_match previous_fk next_fk) next.foreign_keys))
        previous.foreign_keys))

unfoldable pub table_changes : Table → Table → List TableChange
table_changes previous next =
    drop_foreign_keys previous next
    ++ (drop_columns previous next ++ (add_columns previous next ++ alter_columns previous next))

-- The index that an index of the table before is renamed to.
unfoldable pub renamed_index : Table → Index → Option Index
renamed_index next_table previous_index =
    find?
      (λ next_index.
        indexes_are_equivalent previous_index next_index
        && not (previous_index.name == next_index.name))
      next_table.indices

unfoldable pub altered_in : Table × Table → List AlterIndex
altered_in (previous_table, next_table) =
    filter_map
      (λ previous_index.
        Option.map
          (λ renamed. record {
            table = next_table.name;
            index_name = previous_index.name;
            index_new_name = renamed.name;
          })
          (renamed_index next_table previous_index))
      previous_table.indices

-- The index of the name in the table of the name.
unfoldable pub index_in : SqlSchema → String → String → Option Index
index_in schema table_name index_name =
    and_then (table schema table_name) (λ t. find? (λ i. i.name == index_name) t.indices)

unfoldable pub index_covers_pk : Table → Index → Bool
index_covers_pk t index = elim t.primary_key [
  | none ↦ false
  | some pk ↦ names_eq pk.columns index.columns
]

-- The differ has the schema before and the schema after.
module _ (previous next : SqlSchema) where
  unfoldable pub create_tables : List CreateTable
  create_tables =
      filter_map
        (λ t.
          if not (has_table previous t.name) && not (t.name == migration_table_name)
          then some (record { table = t })
          else none)
        next.tables

  unfoldable pub drop_tables_of : List DropTable
  drop_tables_of =
      filter_map
        (λ t.
          if not (has_table next t.name) && not (t.name == migration_table_name)
          then some (record { name = t.name })
          else none)
        previous.tables

  unfoldable pub alter_tables : List AlterTable
  alter_tables =
      filter_map
        (λ previous_table. and_then (table next previous_table.name) (λ next_table.
          elim (table_changes previous_table next_table) [
            | [] ↦ none
            | c ∷ cs ↦ some (record { table = next_table; changes = c ∷ cs })
          ]))
        previous.tables

  unfoldable pub table_pairs : List (Table × Table)
  table_pairs =
      filter_map
        (λ previous_table.
          Option.map (λ next_table. (previous_table, next_table))
            (find? (λ next_table. next_table.name == previous_table.name) next.tables))
        previous.tables

  unfoldable pub alter_indexes : List AlterIndex
  alter_indexes = flat_map altered_in table_pairs

  unfoldable pub create_indexes : List AlterIndex → List CreateIndex
  create_indexes altered =
      flat_map
        (λ next_table.
          filter_map
            (λ index.
              if is_none (index_in previous next_table.name index.name)
                && not (any (λ a. a.index_new_name == index.name) altered)
              then some (record { table = next_table.name; index = index })
              else none)
            next_table.indices)
        next.tables

  unfoldable pub drop_indexes : List AlterIndex → List DropIndex
  drop_indexes altered =
      flat_map
        (λ previous_table.
          filter_map
            (λ index.
              if is_none (index_in next previous_table.name index.name)
                && (not (any (λ a. a.index_name == index.name) altered)
                    && not (index_covers_pk previous_table index))
              then some (record { table = previous_table.name; name = index.name })
              else none)
            previous_table.indices)
        previous.tables

  unfoldable pub diff : SqlSchemaDiff
  diff = record {
    dropped_tables = drop_tables_of;
    created_tables = create_tables;
    altered_tables = alter_tables;
    created_indexes = create_indexes alter_indexes;
    dropped_indexes = drop_indexes alter_indexes;
    altered_indexes = alter_indexes;
  }
