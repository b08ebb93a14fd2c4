-- ===== src/Sql/Checker.antt =====
-- The warnings of the steps that lose data
-- (migration-engine/connectors/sql-migration-connector/src/sql_destructive_changes_checker.rs). The
-- counts that the database gives are arguments: of the rows of a table, and of the values of a column
-- that are not null; an error is its text.
use Prim.Native.String.{◌++◌}
use mathlib.Core.List.{◌++◌ as append}
use prisma_engine.Base.{
  ℕ, String, List, [], ◌∷◌, ltb, decimal, ok_or, if◌then◌else◌, Outcome, ok, ◌>>=◌,
}
use prisma_engine.Migration.Commands.{DestructiveChangeDiagnostics, MigrationWarning}
use prisma_engine.Sql.Schema.{SqlSchema, Table, get_table}
use prisma_engine.Sql.Differ.{
  SqlMigrationStep, create_table, alter_table, drop_table, drop_tables, rename_table, raw_sql,
  create_index, drop_index, alter_index, TableChange, add_column, alter_column, drop_column,
  drop_foreign_key,
}

abbrev pub warning : String → MigrationWarning
warning description = record { description = description }

unfoldable pub add_warning :
    DestructiveChangeDiagnostics → MigrationWarning → DestructiveChangeDiagnostics
add_warning diagnostics w = record diagnostics { warnings = append diagnostics.warnings (w ∷ []) }

unfoldable pub warn_if :
    ℕ → String → DestructiveChangeDiagnostics → Outcome String DestructiveChangeDiagnostics
warn_if count description diagnostics =
    ok (if ltb 0 count then add_warning diagnostics (warning description) else diagnostics)

module _ (count_rows : String → Outcome String ℕ)
    (count_values_in_column : String → Table → Outcome String ℕ) where
  unfoldable pub check_table_drop :
      String → DestructiveChangeDiagnostics → Outcome String DestructiveChangeDiagnostics
  check_table_drop table_name diagnostics = count_rows table_name >>= λ rows_count.
      warn_if rows_count
        ("You are about to drop the table `"
          ++ (table_name ++ ("`, which is not empty (" ++ (decimal rows_count ++ " rows)."))))
        diagnostics

  unfoldable pub check_column_drop :
      String → Table → DestructiveChangeDiagnostics → Outcome String DestructiveChangeDiagnostics
  check_column_drop column_name t diagnostics =
      count_values_in_column column_name t >>= λ values_count.
      warn_if values_count
        ("You are about to drop the column `"
          ++ (column_name
              ++ ("` on the `"
                  ++ (t.name
                      ++ ("` table, which still contains "
                          ++ (decimal values_count ++ " non-null values."))))))
        diagnostics

  unfoldable pub check_alter_column :
      String → Table → DestructiveChangeDiagnostics → Outcome String DestructiveChangeDiagnostics
  check_alter_column column_name t diagnostics =
      count_values_in_column column_name t >>= λ values_count.
      warn_if values_count
        ("You are about to alter the column `"
          ++ (column_name
              ++ ("` on the `"
                  ++ (t.name
                      ++ ("` table, which still contains "
                          ++ (decimal values_count
                              ++ " non-null values. The data in that column will be lost."))))))
        diagnostics

  unfoldable pub check_change :
      Table
      → TableChange
      → DestructiveChangeDiagnostics
      → Outcome String DestructiveChangeDiagnostics
  check_change before_table (drop_column name) diagnostics =
      check_column_drop name before_table diagnostics
  check_change before_table (alter_column name c) diagnostics =
      check_alter_column name before_table diagnostics
  check_change before_table (add_column c) diagnostics = ok diagnostics
  check_change before_table (drop_foreign_key name) diagnostics = ok diagnostics

  unfoldable pub check_changes :
      Table
      → List TableChange
      → DestructiveChangeDiagnostics
      → Outcome String DestructiveChangeDiagnostics
  check_changes before_table [] diagnostics = ok diagnostics
  check_changes before_table (change ∷ changes) diagnostics =
      check_change before_table change diagnostics >>= λ d. check_changes before_table changes d

  unfoldable pub check_table_drops :
      List String → DestructiveChangeDiagnostics → Outcome String DestructiveChangeDiagnostics
  check_table_drops [] diagnostics = ok diagnostics
  check_table_drops (name ∷ names) diagnostics =
      check_table_drop name diagnostics >>= λ d. check_table_drops names d

  unfoldable pub check_step :
      SqlSchema
      → SqlMigrationStep
      → DestructiveChangeDiagnostics
      → Outcome String DestructiveChangeDiagnostics
  check_step before (alter_table a) diagnostics =
      ok_or ("Internal Error: altering previously-unknown table " ++ a.table.name)
        (get_table before a.table.name)
      >>= λ before_table. check_changes before_table a.changes diagnostics
  check_step before (drop_table d) diagnostics = check_table_drop d.name diagnostics
  check_step before (drop_tables d) diagnostics = check_table_drops d.names diagnostics
  check_step before (create_table c) diagnostics = ok diagnostics
  check_step before (rename_table name new_name) diagnostics = ok diagnostics
  check_step before (raw_sql raw) diagnostics = ok diagnostics
  check_step before (create_index c) diagnostics = ok diagnostics
  check_step before (drop_index d) diagnostics = ok diagnostics
  check_step before (alter_index a) diagnostics = ok diagnostics

  unfoldable pub check_steps :
      SqlSchema
      → List SqlMigrationStep
      → DestructiveChangeDiagnostics
      → Outcome String DestructiveChangeDiagnostics
  check_steps before [] diagnostics = ok diagnostics
  check_steps before (step ∷ steps) diagnostics =
      check_step before step diagnostics >>= λ d. check_steps before steps d

  -- The original steps of a migration are checked against the schema before it.
  unfoldable pub check :
      SqlSchema → List SqlMigrationStep → Outcome String DestructiveChangeDiagnostics
  check before original_steps =
      check_steps before original_steps (record { errors = []; warnings = [] })
