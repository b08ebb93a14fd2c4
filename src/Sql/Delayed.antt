-- ===== src/Sql/Delayed.antt =====
-- The foreign keys that wait until all tables are there
-- (migration-engine/connectors/sql-migration-connector/src/sql_database_migration_inferrer.rs,
-- delay_foreign_key_creation).
use mathlib.Core.Path.{subst}
use mathlib.Core.Option.{some-injective}
use prisma_engine.Base.{
  String, Bool, true, false, ◌||◌, none, some, List, [], ◌∷◌, ◌++◌, ◌==◌, ◌≡◌, refl, sym, ap, ◌∙◌,
  all, map, filter_map, all-append, find?, is_some,
}
use prisma_engine.Sql.Schema.{SqlSchema, contains, has_table}
use prisma_engine.Sql.Differ.{
  CreateTable, AlterTable, TableChange, add_column, diff, create_tables, alter_tables,
  alter_indexes, migration_table_name,
}
use prisma_engine.Sql.Inferrer.{
  delayed_columns, without_delayed, delayed_changes, delay_foreign_keys, delay_foreign_key_creation,
}
use prisma_engine.Sql.Unchanged.{named}
use prisma_engine.Sql.Made.{all-filter_map, All-map}
use prisma_engine.Sql.Steps.{run_steps, distinct, run_steps-into_steps}
use prisma_engine.Sql.Ordered.{
  before, after, left, run_steps-dropped, dropped_indexes_found, created_indexes_found,
  altered_tables_found, altered_indexes_found,
}
use prisma_engine.Sql.Names.{contains-map, contains-append, any-find?}
use prisma_engine.Sql.Tables.{tables_after}

or_true : (b : Bool) → (b || true) ≡ true
or_true true = refl
or_true false = refl

pub names_kept :
    (made : List String) (cs : List CreateTable)
    → map (λ c. c.table.name) (map (without_delayed made) cs) ≡ map (λ c. c.table.name) cs
unfolding without_delayed
names_kept made [] = refl
names_kept made (c ∷ cs) = ap (λ ns. c.table.name ∷ ns) (names_kept made cs)

-- The tables that are altered for the delayed columns are tables that are created.
delayed_found :
    (made left : List String) (cs : List CreateTable)
    → all
        (λ a. contains (left ++ map (λ c. c.table.name) cs) a.table.name)
        (filter_map (delayed_changes made) cs)
      ≡ true
unfolding delayed_changes without_delayed
delayed_found made left cs =
    all-filter_map _ _ cs (All-map _ _ created cs (named (λ c. c.table.name) cs))
  where
    name_found :
        (c : CreateTable)
        → is_some (find? (λ d. d.table.name == c.table.name) cs) ≡ true
        → contains (left ++ map (λ c. c.table.name) cs) c.table.name ≡ true
    name_found c h =
        contains-append left (map (λ c. c.table.name) cs) c.table.name
        ∙ rw
            (
              contains-map (λ c. c.table.name) cs c.table.name,
              sym (any-find? (λ c. c.table.name) cs c.table.name),
              h,
            )
            (or_true (contains left c.table.name))

    made_for :
        (c : CreateTable) (changes : List TableChange)
        → contains (left ++ map (λ c. c.table.name) cs) c.table.name ≡ true
        → (a : AlterTable)
        → elim changes [
          | [] ↦ none
          | x ∷ xs ↦ some (record { table = (without_delayed made c).table; changes = x ∷ xs })
        ]
          ≡ some a
        → contains (left ++ map (λ c. c.table.name) cs) a.table.name ≡ true
    made_for c [] h a e = absurd cc
    made_for c (x ∷ xs) h a e =
        subst
          (λ (y : AlterTable). contains (left ++ map (λ c. c.table.name) cs) y.table.name ≡ true)
          (some-injective (record { table = (without_delayed made c).table; changes = x ∷ xs }) a e)
          h

    created :
        (c : CreateTable)
        → is_some (find? (λ d. d.table.name == c.table.name) cs) ≡ true
        → (a : AlterTable) → delayed_changes made c ≡ some a
        → contains (left ++ map (λ c. c.table.name) cs) a.table.name ≡ true
    created c h a e =
        made_for c (map add_column (delayed_columns made c.table)) (name_found c h) a e

module _ (previous next : SqlSchema)
    (migrations : has_table next migration_table_name ≡ true
      → has_table previous migration_table_name ≡ true) where
  -- With the foreign keys delayed, too, each step finds the table that it is about, and the tables are
  -- left that the steps between the two schemas leave, if no two tables of the schema before have one
  -- name and the table of the migrations is not in the schema after only.
  pub run_steps-delay_foreign_key_creation :
      distinct (before previous next migrations) ≡ true
      → run_steps
          (before previous next migrations)
          (delay_foreign_key_creation (diff previous next))
        ≡ some (after previous next migrations)
  unfolding delay_foreign_key_creation delay_foreign_keys diff tables_after
  run_steps-delay_foreign_key_creation apart =
      let made : List String = map (λ c. c.table.name) (create_tables previous next) in
      run_steps-into_steps (before previous next migrations) (left previous next migrations)
        (after previous next migrations) (delay_foreign_keys (diff previous next))
        (dropped_indexes_found previous next migrations (alter_indexes previous next))
        (run_steps-dropped previous next migrations apart)
        (ap (λ ns. left previous next migrations ++ ns)
          (names_kept made (create_tables previous next)))
        (all-append (λ a. contains (after previous next migrations) a.table.name)
            (alter_tables previous next)
            (filter_map (delayed_changes made) (create_tables previous next))
          ∙ rw
              (
                altered_tables_found previous next migrations,
                delayed_found made (left previous next migrations) (create_tables previous next),
              )
              refl)
        (created_indexes_found previous next migrations (alter_indexes previous next))
        (altered_indexes_found previous next migrations)
