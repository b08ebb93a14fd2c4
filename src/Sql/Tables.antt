-- ===== src/Sql/Tables.antt =====
-- The tables and the columns that the steps leave
-- (migration-engine/connectors/sql-migration-connector/src/sql_schema_differ.rs).
use prisma_engine.Base.{
  String, Bool, not, ◌&&◌, ◌||◌, none, some, List, [], ◌∷◌, ◌++◌, ◌==◌, ◌≡◌, refl, sym, ap, ◌∙◌,
  any, filter, filter_map, map, if◌then◌else◌, arith, eq_iff, Bool-cases, Option-cases, inl, inr,
  and_then,
}
use prisma_engine.Sql.Schema.{
  SqlSchema, Table, Column, contains, has_table, get_table, has_column, column,
}
use prisma_engine.Sql.Differ.{
  SqlSchemaDiff, TableChange, add_column, alter_column, drop_column, drop_foreign_key,
  create_tables, drop_tables_of, diff, migration_table_name, drop_columns, add_columns,
  alter_columns, drop_foreign_keys, table_changes, column_changed,
}
use prisma_engine.Sql.Names.{
  any-find?, contains-map, any-filter_map, contains-append, contains-filter,
}

-- What is there before and not dropped, or created.
left_and_made :
    (next previous kept : Bool) {dropped made old : Bool}
    → dropped ≡ ((not next && not kept) && previous)
    → made ≡ ((not previous && not kept) && next)
    → old ≡ previous
    → (not dropped && old || made) ≡ (if kept then previous else next)
left_and_made next previous kept d m o = ground arith

-- The names of the tables once those of the diff are dropped and created.
unfoldable pub tables_after : List String → SqlSchemaDiff → List String
tables_after names d =
    filter (λ n. not (any (λ x. x.name == n) d.dropped_tables)) names
    ++ map (λ c. c.table.name) d.created_tables

-- From the names of the tables before, the dropped and the created tables lead to a list that has the
-- names of the tables of the schema after, and no others. Only the table of the migrations is left as
-- it was.
pub tables_after-diff :
    (previous next : SqlSchema) (name : String)
    → contains (tables_after (map (λ t. t.name) previous.tables) (diff previous next)) name
      ≡ (if name == migration_table_name then has_table previous name else has_table next name)
unfolding tables_after diff create_tables drop_tables_of has_table get_table
tables_after-diff previous next name =
    rw
      (
        contains-append
            (filter (λ n. not (any (λ x. x.name == n) (drop_tables_of previous next)))
              (map (λ t. t.name) previous.tables))
            (map (λ c. c.table.name) (create_tables previous next)) name,
        contains-filter (λ n. not (any (λ x. x.name == n) (drop_tables_of previous next)))
            (map (λ t. t.name) previous.tables) name,
      )
      (left_and_made (has_table next name) (has_table previous name) (name == migration_table_name)
        (any-filter_map (λ t. t.name) (λ t. record { name = t.name }) (λ x. x.name) (λ _. refl)
            (λ n. not (has_table next n) && not (n == migration_table_name)) previous.tables name
          ∙ ap (λ b. (not (has_table next name) && not (name == migration_table_name)) && b)
              (sym (any-find? (λ t. t.name) previous.tables name)))
        (contains-map (λ c. c.table.name) (create_tables previous next) name
          ∙ any-filter_map (λ t. t.name) (λ t. record { table = t }) (λ c. c.table.name) (λ _. refl)
              (λ n. not (has_table previous n) && not (n == migration_table_name)) next.tables name
          ∙ ap (λ b. (not (has_table previous name) && not (name == migration_table_name)) && b)
              (sym (any-find? (λ t. t.name) next.tables name)))
        (contains-map (λ t. t.name) previous.tables name
          ∙ sym (any-find? (λ t. t.name) previous.tables name)))

-- The names of the columns of a table once a change is made, and once the changes are made in order.
unfoldable pub columns_after_change : List String → TableChange → List String
columns_after_change names (add_column c) = names ++ c.name ∷ []
columns_after_change names (drop_column n) = filter (λ m. not (n == m)) names
columns_after_change names (alter_column n c) = names
columns_after_change names (drop_foreign_key n) = names

unfoldable pub columns_after : List String → List TableChange → List String
columns_after names [] = names
columns_after names (c ∷ cs) = columns_after (columns_after_change names c) cs

columns_after-append :
    (names : List String) (cs ds : List TableChange)
    → columns_after names (cs ++ ds) ≡ columns_after (columns_after names cs) ds
unfolding columns_after
columns_after-append names [] ds = refl
columns_after-append names (c ∷ cs) ds = columns_after-append (columns_after_change names c) cs ds

columns_after-foreign_keys :
    (names : List String) (ns : List String) → columns_after names (map drop_foreign_key ns) ≡ names
unfolding columns_after columns_after_change
columns_after-foreign_keys names [] = refl
columns_after-foreign_keys names (n ∷ ns) = columns_after-foreign_keys names ns

after_dropped :
    (next : Table) (names : List String) (cs : List Column) (n : String)
    → contains
        (columns_after names
          (filter_map (λ c. if has_column next c.name then none else some (drop_column c.name)) cs))
        n
      ≡ (contains names n && (has_column next n || not (any (λ c. c.name == n) cs)))
unfolding columns_after columns_after_change filter_map any
after_dropped next names [] n = ground arith
after_dropped next names (c ∷ cs) n =
    let kept = after_dropped next names cs n in
    let gone = after_dropped next (filter (λ m. not (c.name == m)) names) cs n in
    let out = contains-filter (λ m. not (c.name == m)) names n in
    ground (arith, kept, gone, out, eq_iff c.name n)

after_added :
    (previous : Table) (names : List String) (cs : List Column) (n : String)
    → contains
        (columns_after names
          (filter_map (λ c. if has_column previous c.name then none else some (add_column c)) cs))
        n
      ≡ (contains names n || (not (has_column previous n) && any (λ c. c.name == n) cs))
unfolding columns_after columns_after_change filter_map any contains
after_added previous names [] n = ground arith
after_added previous names (c ∷ cs) n =
    let old = after_added previous names cs n in
    let new = after_added previous (names ++ c.name ∷ []) cs n in
    let end = contains-append names (c.name ∷ []) n in
    ground (arith, old, new, end, eq_iff c.name n)

after_altered :
    (previous next : Table) (names : List String) (cs : List Column)
    → columns_after names (
        filter_map
          (λ c.
            and_then (column previous c.name) (λ p.
              if column_changed previous next p c then some (alter_column p.name c) else none))
          cs)
      ≡ names
unfolding columns_after columns_after_change filter_map
after_altered previous next names [] = refl
after_altered previous next names (c ∷ cs) = elim (Option-cases (column previous c.name)) [
  | inl e ↦ rw (e, filter_map) (after_altered previous next names cs)
  | inr (p, e) ↦ elim (Bool-cases (column_changed previous next p c)) [
    | inl d ↦ rw (e, d, filter_map) (after_altered previous next names cs)
    | inr d ↦ rw (e, d, filter_map) (after_altered previous next names cs)
  ]
]

kept_and_added :
    (next previous : Bool) {start old new : Bool}
    → start ≡ previous
    → old ≡ previous
    → new ≡ next
    → ((start && (next || not old)) || (not previous && new)) ≡ next
kept_and_added next previous a b c = ground arith

column_found : (t : Table) (name : String) → has_column t name ≡ any (λ c. c.name == name) t.columns
unfolding has_column column
column_found t name = any-find? (λ c. c.name) t.columns name

-- The changes of a table, made in order, lead from the names of its columns to a list that has the
-- names of the columns of the table after, and no others.
pub columns_after-table_changes :
    (previous next : Table) (name : String)
    → contains
        (columns_after (map (λ c. c.name) previous.columns) (table_changes previous next))
        name
      ≡ has_column next name
unfolding table_changes drop_foreign_keys drop_columns add_columns alter_columns
columns_after-table_changes previous next name =
    let start : List String = map (λ c. c.name) previous.columns in
    rw
      (
        columns_after-append start (drop_foreign_keys previous next) _,
        columns_after-foreign_keys start _,
        columns_after-append start (drop_columns previous next) _,
        columns_after-append (columns_after start (drop_columns previous next))
            (add_columns previous next) _,
        after_altered previous next _ next.columns,
        after_added previous (columns_after start (drop_columns previous next)) next.columns name,
        after_dropped next start previous.columns name,
      )
      (kept_and_added (has_column next name) (has_column previous name)
        (contains-map (λ c. c.name) previous.columns name ∙ sym (column_found previous name))
        (sym (column_found previous name)) (sym (column_found next name)))
