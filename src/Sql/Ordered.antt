-- ===== src/Sql/Ordered.antt =====
-- The order of the steps between two database schemas
-- (migration-engine/connectors/sql-migration-connector/src/sql_schema_differ.rs): every step finds the
-- table that it is about.
use mathlib.Core.Option
use mathlib.Core.Path.{subst}
use prisma_engine.Base.{
  any, filter, String, true, not, ◌&&◌, some, List, [], ◌∷◌, ◌==◌, ◌≡◌, refl, sym, ◌∙◌, find?, all,
  filter_map, flat_map, map, Bool-cases, Option-cases, inl, inr, all-append, eq_of_str_eq,
  find?-passes,
}
use mathlib.Core.Option.{some-injective}
use prisma_engine.Sql.Schema.{SqlSchema, Table, contains, has_table, get_table}
use prisma_engine.Sql.Differ.{
  drop_table, AlterIndex, into_steps, diff, drop_tables_of, alter_tables, alter_indexes, altered_in,
  table_pairs, renamed_index, create_indexes, drop_indexes, migration_table_name,
}
use prisma_engine.Sql.Names.{contains-map, any-find?}
use prisma_engine.Sql.Tables.{tables_after, tables_after-diff}
use prisma_engine.Sql.Steps.{run_steps, distinct, run_steps-drops, run_steps-into_steps}
use prisma_engine.Sql.Altered.{table_names, all-alter_tables}
use prisma_engine.Sql.Made.{all-guarded, all-mapped, all-flat_map, All-map, all-All}

contains-names :
    (s : SqlSchema) (n : String) → contains (map (λ t. t.name) s.tables) n ≡ has_table s n
unfolding has_table get_table
contains-names s n =
    contains-map (λ t. t.name) s.tables n ∙ sym (any-find? (λ t. t.name) s.tables n)

module _ (previous next : SqlSchema)
    (migrations : has_table next migration_table_name ≡ true
      → has_table previous migration_table_name ≡ true) where
  abbrev pub before : List String
  before = map (λ t. t.name) previous.tables

  abbrev pub after : List String
  after = tables_after before (diff previous next)

  next_is_left : (n : String) → has_table next n ≡ true → contains after n ≡ true
  next_is_left n h = elim (Bool-cases (n == migration_table_name)) [
    | inl k ↦
        tables_after-diff previous next n
        ∙ rw k (
            subst (λ m. has_table previous m ≡ true) (sym (eq_of_str_eq n migration_table_name k))
              (migrations
                (subst (λ m. has_table next m ≡ true) (eq_of_str_eq n migration_table_name k) h)))
    | inr k ↦ tables_after-diff previous next n ∙ rw k h
  ]

  -- The table of the schema after that goes with a table of the schema before.
  both_are_left :
      (pt nt : Table)
      → find? (λ n. n.name == pt.name) next.tables ≡ some nt
      → contains after nt.name ≡ true
  unfolding has_table get_table
  both_are_left pt nt h = next_is_left nt.name (
      subst (λ m. has_table next m ≡ true)
        (sym (eq_of_str_eq nt.name pt.name (find?-passes (λ n. n.name == pt.name) next.tables h)))
        (rw h refl))

  pub dropped_indexes_found :
      (altered : List AlterIndex)
      → all (λ d. contains before d.table) (drop_indexes previous next altered) ≡ true
  unfolding drop_indexes
  dropped_indexes_found altered = all-flat_map _ _ previous.tables (
      All-map _ _
        (λ t h.
          all-guarded _ _ (λ d. contains before d.table) (λ i. contains-names previous t.name ∙ h)
            t.indices)
        previous.tables (table_names previous))

  pub created_indexes_found :
      (altered : List AlterIndex)
      → all (λ c. contains after c.table) (create_indexes previous next altered) ≡ true
  unfolding create_indexes
  created_indexes_found altered = all-flat_map _ _ next.tables (
      All-map _ _
        (λ t h.
          all-guarded _ _ (λ c. contains after c.table) (λ i. next_is_left t.name h) t.indices)
        next.tables (table_names next))

  pub altered_tables_found :
      all (λ a. contains after a.table.name) (alter_tables previous next) ≡ true
  altered_tables_found =
      all-alter_tables previous next (λ t. contains after t.name)
        (λ pt nt h k. both_are_left pt nt k)

  altered_indexes_of :
      (todo : List Table)
      → all
          (λ a. contains after a.table)
          (flat_map altered_in (
            filter_map {B = Table × Table}
              (λ pt. Option.map (λ nt. (pt, nt)) (find? (λ n. n.name == pt.name) next.tables))
              todo))
        ≡ true
  unfolding flat_map all filter_map altered_in
  altered_indexes_of [] = refl
  altered_indexes_of (pt ∷ todo) =
      elim (Option-cases (find? (λ n. n.name == pt.name) next.tables)) [
        | inl k ↦ rw (k, filter_map) (altered_indexes_of todo)
        | inr (nt, k) ↦
            rw (k, filter_map, all-append (λ a. contains after a.table) (altered_in (pt, nt)) _)
              (rw
                (all-mapped {C = AlterIndex} (renamed_index nt)
                  (λ i renamed. record {
                    table = nt.name;
                    index_name = i.name;
                    index_new_name = renamed.name;
                  })
                  (λ a. contains after a.table) (λ i renamed. both_are_left pt nt k) pt.indices)
                (altered_indexes_of todo))
      ]

  pub altered_indexes_found : all (λ a. contains after a.table) (alter_indexes previous next) ≡ true
  unfolding alter_indexes table_pairs
  altered_indexes_found = altered_indexes_of previous.tables

  -- The names of the tables once the dropped ones are gone.
  abbrev pub left : List String
  left = filter (λ n. not (any (λ x. x.name == n) (drop_tables_of previous next))) before

  pub run_steps-dropped :
      distinct before ≡ true
      → run_steps before (map drop_table (drop_tables_of previous next)) ≡ some left
  unfolding drop_tables_of
  run_steps-dropped apart =
      run_steps-drops (λ n. not (has_table next n) && not (n == migration_table_name))
        previous.tables before apart
        (all-All (λ t. contains before t.name) previous.tables
          (All-map _ _ (λ t h. contains-names previous t.name ∙ h) previous.tables
            (table_names previous)))

  -- The steps between two schemas, made in order, each find the table that they are about, and leave
  -- the tables before without the dropped ones and with the created ones, if no two tables of the
  -- schema before have one name and the table of the migrations is not in the schema after only.
  pub run_steps-diff :
      distinct before ≡ true → run_steps before (into_steps (diff previous next)) ≡ some after
  unfolding diff tables_after
  run_steps-diff apart =
      run_steps-into_steps before left after (diff previous next)
        (dropped_indexes_found (alter_indexes previous next)) (run_steps-dropped apart) refl
        altered_tables_found (created_indexes_found (alter_indexes previous next))
        altered_indexes_found
