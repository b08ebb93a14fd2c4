-- ===== src/Sql/Altered.antt =====
-- The tables that are altered between two schemas
-- (migration-engine/connectors/sql-migration-connector/src/sql_schema_differ.rs).
use mathlib.Core.Path.{subst}
use prisma_engine.Base.{
  Bool, true, none, some, List, [], ◌∷◌, ◌==◌, ◌≡◌, find?, all, and_then, Option-cases, inl, inr,
}
use mathlib.Core.Option.{some-injective}
use prisma_engine.Sql.Schema.{SqlSchema, Table, has_table, get_table, table}
use prisma_engine.Sql.Differ.{AlterTable, alter_tables, table_changes, TableChange}
use prisma_engine.Sql.Unchanged.{named, All}
use prisma_engine.Sql.Made.{all-filter_map, All-map}
use prisma_engine.Sql.Unchanged.{named, All}

-- Every table of a schema is among its names.
pub table_names : (s : SqlSchema) → All (λ t. has_table s t.name ≡ true) s.tables
unfolding has_table get_table
table_names s = named (λ t. t.name) s.tables

module _ (previous next : SqlSchema) (q : Table → Bool)
    (each : (pt nt : Table)
      → has_table previous pt.name ≡ true
      → find? (λ n. n.name == pt.name) next.tables ≡ some nt
      → q nt ≡ true) where
  made :
      (pt nt : Table) (changes : List TableChange)
      → q nt ≡ true
      → (a : AlterTable)
      → elim changes [ [] ↦ none | c ∷ cs ↦ some (record { table = nt; changes = c ∷ cs }) ]
        ≡ some a
      → q a.table ≡ true
  made pt nt [] h a e = absurd cc
  made pt nt (c ∷ cs) h a e =
      subst (λ (x : AlterTable). q x.table ≡ true)
        (some-injective (record { table = nt; changes = c ∷ cs }) a e) h

  changed :
      (pt : Table)
      → has_table previous pt.name ≡ true
      → (a : AlterTable)
      → and_then {B = AlterTable} (find? (λ n. n.name == pt.name) next.tables) (λ nt.
        elim (table_changes pt nt) [
          | [] ↦ none
          | c ∷ cs ↦ some (record { table = nt; changes = c ∷ cs })
        ])
        ≡ some a
      → q a.table ≡ true
  changed pt h a e = elim (Option-cases (find? (λ n. n.name == pt.name) next.tables)) [
    | inl k ↦ absurd cc
    | inr (nt, k) ↦ made pt nt (table_changes pt nt) (each pt nt h k) a (rw (k, and_then) at e)
  ]

  pub all-alter_tables : all (λ a. q a.table) (alter_tables previous next) ≡ true
  unfolding alter_tables table
  all-alter_tables =
      all-filter_map _ _ previous.tables
        (All-map _ _ changed previous.tables (table_names previous))
