-- ===== src/Sql/Columns.antt =====
-- The columns of the tables of a database along a list of steps
-- (migration-engine/connectors/sql-migration-connector/src/sql_migration.rs).
use mathlib.Core.Option
use mathlib.Core.List.{Memᴰ}
use mathlib.Core.List.Memᴰ.{head, tail}
use prisma_engine.Base.{
  ℕ, ◌+◌, String, Bool, true, false, not, Option, none, some, List, [], ◌∷◌, ◌++◌, ◌==◌, ◌≡◌, refl,
  ◌∙◌, all, any, map, if◌then◌else◌, arith, str_refl,
}
use prisma_engine.Sql.Schema.{contains}
use prisma_engine.Sql.Differ.{
  SqlMigrationStep, create_table, alter_table, drop_table, drop_tables, rename_table, raw_sql,
  create_index, drop_index, alter_index, CreateTable, AlterTable,
}
use prisma_engine.Sql.Tables.{columns_after}
use prisma_engine.Sql.Steps.{distinct}

-- The names of the columns of each table, in their order, and `none` for a table that is not there.
abbrev pub Database : Type 0
Database = String → Option (List String)

unfoldable pub columns_after_step : SqlMigrationStep → Database → Database
columns_after_step (create_table c) db n =
    if c.table.name == n then some (map (λ d. d.name) c.table.columns) else db n
columns_after_step (alter_table a) db n =
    if a.table.name == n then Option.map (λ ns. columns_after ns a.changes) (db n) else db n
columns_after_step (drop_table d) db n = if d.name == n then none else db n
columns_after_step (drop_tables d) db n = if contains d.names n then none else db n
columns_after_step (rename_table name new_name) db n =
    if new_name == n then db name else if name == n then none else db n
columns_after_step (raw_sql raw) db n = db n
columns_after_step (create_index c) db n = db n
columns_after_step (drop_index d) db n = db n
columns_after_step (alter_index a) db n = db n

unfoldable pub run_columns : List SqlMigrationStep → Database → Database
run_columns [] db = db
run_columns (s ∷ steps) db = run_columns steps (columns_after_step s db)

-- How often a name stands in a list.
unfoldable pub occurrences : String → List String → ℕ
occurrences n [] = 0
occurrences n (x ∷ xs) = let rest = occurrences n xs in if x == n then rest + 1 else rest

pub occurrences-append :
    (n : String) (xs ys : List String)
    → occurrences n (xs ++ ys) ≡ occurrences n xs + occurrences n ys
unfolding occurrences
occurrences-append n [] ys = omega arith
occurrences-append n (x ∷ xs) ys = let ih = occurrences-append n xs ys in ground (arith, ih)

pub run_columns-append :
    (xs ys : List SqlMigrationStep) (db : Database) (n : String)
    → run_columns (xs ++ ys) db n ≡ run_columns ys (run_columns xs db) n
unfolding run_columns
run_columns-append [] ys db n = refl
run_columns-append (x ∷ xs) ys db n = run_columns-append xs ys (columns_after_step x db) n

-- A table looks only at what a database has of it, if no table is renamed to it.
module _ {A : Type 0} (step : A → SqlMigrationStep) (n : String) where
  pub run_columns-kept :
      (quiet : A → Bool)
      → ((x : A) (db : Database) → quiet x ≡ true → columns_after_step (step x) db n ≡ db n)
      → (xs : List A) (db : Database) → all quiet xs ≡ true
      → run_columns (map step xs) db n ≡ db n
  unfolding run_columns all
  run_columns-kept quiet same [] db each = refl
  run_columns-kept quiet same (x ∷ xs) db each =
      run_columns-kept quiet same xs (columns_after_step (step x) db) (ground arith)
      ∙ same x db (ground arith)

pub create_table-kept :
    (n : String) (c : CreateTable) (db : Database)
    → not (c.table.name == n) ≡ true
    → columns_after_step (create_table c) db n ≡ db n
unfolding columns_after_step
create_table-kept n c db differ = ground arith

pub alter_table-kept :
    (n : String) (a : AlterTable) (db : Database)
    → not (a.table.name == n) ≡ true
    → columns_after_step (alter_table a) db n ≡ db n
unfolding columns_after_step
alter_table-kept n a db differ = ground arith

pub all-absent :
    {A : Type 0} (name : A → String) (xs : List A) (n : String)
    → contains (map name xs) n ≡ false
    → all (λ x. not (name x == n)) xs ≡ true
unfolding contains any all
all-absent name [] n absent = refl
all-absent name (x ∷ xs) n absent = let ih = all-absent name xs n in ground (arith, ih)

created_there :
    (d : CreateTable) (db : Database)
    → columns_after_step (create_table d) db d.table.name ≡ some (map (λ e. e.name) d.table.columns)
unfolding columns_after_step
created_there d db = rw (str_refl d.table.name) refl

-- Of tables whose names are all different, each is there with its columns once they are created.
pub run_columns-creates :
    (cs : List CreateTable) (c : CreateTable)
    → Memᴰ c cs
    → distinct (map (λ d. d.table.name) cs) ≡ true
    → (db : Database)
    → run_columns (map create_table cs) db c.table.name ≡ some (map (λ d. d.name) c.table.columns)
unfolding run_columns distinct
run_columns-creates [] c m apart db = elim m [ ]
run_columns-creates (d ∷ cs) c (head q) apart db = rw q (
    run_columns-kept create_table d.table.name (λ x. not (x.table.name == d.table.name))
      (λ x w h. create_table-kept d.table.name x w h) cs (columns_after_step (create_table d) db)
      (all-absent (λ x. x.table.name) cs d.table.name (ground arith))
    ∙ created_there d db)
run_columns-creates (d ∷ cs) c (tail m) apart db =
    run_columns-creates cs c m (ground arith) (columns_after_step (create_table d) db)
