-- ===== src/Sql/DelayedColumns.antt =====
-- The columns of the tables that are created, when their foreign keys wait until all tables are there
-- (migration-engine/connectors/sql-migration-connector/src/sql_database_migration_inferrer.rs,
-- delay_foreign_key_creation).
use mathlib.Core.Path.{subst}
use mathlib.Core.List.{Memᴰ}
use mathlib.Core.List.Memᴰ.{head, tail}
use prisma_engine.Base.{
  String, Bool, true, not, ◌⊎◌, none, some, List, [], ◌∷◌, ◌++◌, ◌==◌, ◌≡◌, refl, sym, ap, ◌∙◌, all,
  map, filter, filter_map, if◌then◌else◌, arith, ◌&&◌, starts_with, Bool-cases, eq_of_str_eq,
  find?-passes, inl, inr,
}
use prisma_engine.Sql.Schema.{
  SqlSchema, Table, Column, contains, has_table, foreign_key_for_column, is_part_of_primary_key,
  ForeignKey,
}
use prisma_engine.Sql.Differ.{
  SqlMigrationStep, create_table, alter_table, drop_table, drop_tables, rename_table, raw_sql,
  create_index, drop_index, alter_index, CreateTable, diff, create_tables, alter_tables, into_steps,
  SqlSchemaDiff, migration_table_name,
}
use prisma_engine.Sql.Inferrer.{
  is_delayed, delayed_columns, without_delayed, delayed_changes, delay_foreign_keys,
  delay_foreign_key_creation,
}
use prisma_engine.Sql.Steps.{distinct}
use prisma_engine.Sql.Columns.{
  Database, columns_after_step, run_columns, occurrences, run_columns-append, run_columns-kept,
  alter_table-kept, run_columns-creates,
}
use prisma_engine.Sql.Unchanged.{All}
use prisma_engine.Sql.Made.{all-passed}
use prisma_engine.Sql.Altered.{all-alter_tables}
use prisma_engine.Sql.Waiting.{run_columns-late, all-mem}
use prisma_engine.Sql.Delayed.{names_kept}
use prisma_engine.Sql.Staying.{without_delayed_lem, occurrences-delayed}

All-append : {A : Type 0} (P : A → Type 0) (xs ys : List A) → All P xs → All P ys → All P (xs ++ ys)
All-append P [] ys h k = k
All-append P (x ∷ xs) ys (h, hs) k = (h, All-append P xs ys hs k)

All-made :
    {A B : Type 0} (P : B → Type 0) (make : A → B)
    → ((x : A) → P (make x))
    → (xs : List A) → All P (map make xs)
All-made P make each [] = tt
All-made P make each (x ∷ xs) = (each x, All-made P make each xs)

All-filter :
    {A : Type 0} (P : A → Type 0) (p : A → Bool)
    → ((x : A) → p x ≡ true → P x)
    → (xs : List A) → All P (filter p xs)
unfolding filter
All-filter P p each [] = tt
All-filter P p each (x ∷ xs) = elim (Bool-cases (p x)) [
  | inl e ↦ rw e (each x e, All-filter P p each xs)
  | inr e ↦ rw e (All-filter P p each xs)
]

-- A column of a new table refers to no other new table, unless it is a part of the primary key or the
-- table is a relation table, whose name starts with an underscore.
abbrev pub RefersBack : List String → Table → Column → Type 0
RefersBack made t d =
    (fk : ForeignKey)
    → foreign_key_for_column t d.name ≡ some fk
    → contains made fk.referenced_table ≡ true
    → (is_part_of_primary_key t d.name ≡ true) ⊎ (starts_with t.name "_" ≡ true)

abbrev pub CreatesInOrder : List String → SqlMigrationStep → Type 0
CreatesInOrder made (create_table c) = All (RefersBack made c.table) c.table.columns
CreatesInOrder made (alter_table a) = Unit
CreatesInOrder made (drop_table d) = Unit
CreatesInOrder made (drop_tables d) = Unit
CreatesInOrder made (rename_table name new_name) = Unit
CreatesInOrder made (raw_sql raw) = Unit
CreatesInOrder made (create_index c) = Unit
CreatesInOrder made (drop_index d) = Unit
CreatesInOrder made (alter_index a) = Unit

refers_back :
    (made : List String) (t : Table) (d : Column)
    → not (is_delayed made t d) ≡ true
    → RefersBack made t d
unfolding is_delayed
refers_back made t d stays fk has new =
    let stay : not (
          contains made fk.referenced_table
          && (not (is_part_of_primary_key t d.name) && not (starts_with t.name "_")))
        ≡ true =
      rw (has, is_delayed) at stays in
    elim (Bool-cases (is_part_of_primary_key t d.name)) [
      | inl e ↦ inl e
      | inr e ↦ inr (ground arith)
    ]

creates_in_order :
    (made : List String) (c : CreateTable)
    → CreatesInOrder made (create_table (without_delayed made c))
unfolding without_delayed foreign_key_for_column is_part_of_primary_key
creates_in_order made c =
    subst (λ (cols : List Column). All (RefersBack made c.table) cols)
      (sym (without_delayed_lem made c))
      (All-filter (RefersBack made c.table) (λ d. not (is_delayed made c.table d))
        (λ d h. refers_back made c.table d h) c.table.columns)

map-append_lem :
    {A B : Type 0} (f : A → B) (xs ys : List A) → map f (xs ++ ys) ≡ map f xs ++ map f ys
map-append_lem f [] ys = refl
map-append_lem f (x ∷ xs) ys = ap (λ zs. f x ∷ zs) (map-append_lem f xs ys)

mem-map_lem : {A B : Type 0} (f : A → B) (xs : List A) (x : A) → Memᴰ x xs → Memᴰ (f x) (map f xs)
mem-map_lem f [] x m = elim m [ ]
mem-map_lem f (y ∷ ys) x (head q) = head (ap f q)
mem-map_lem f (y ∷ ys) x (tail m) = tail (mem-map_lem f ys x m)

-- The steps of a diff, by what its created and its altered tables do to a table.
run_columns-into_steps :
    (d : SqlSchemaDiff) (n : String) {cols all_cols : List String}
    → ((db : Database) → run_columns (map create_table d.created_tables) db n ≡ some cols)
    → ((db : Database)
        → db n ≡ some cols
        → run_columns (map alter_table d.altered_tables) db n ≡ some all_cols)
    → (db : Database) → run_columns (into_steps d) db n ≡ some all_cols
unfolding into_steps columns_after_step
run_columns-into_steps d n creates alters db =
    let db1 = run_columns (map drop_index d.dropped_indexes) db in
    let db2 = run_columns (map drop_table d.dropped_tables) db1 in
    let db3 = run_columns (map create_table d.created_tables) db2 in
    let db4 = run_columns (map alter_table d.altered_tables) db3 in
    let db5 = run_columns (map create_index d.created_indexes) db4 in
    run_columns-append (map drop_index d.dropped_indexes) _ db n
    ∙ run_columns-append (map drop_table d.dropped_tables) _ db1 n
    ∙ run_columns-append (map create_table d.created_tables) _ db2 n
    ∙ run_columns-append (map alter_table d.altered_tables) _ db3 n
    ∙ run_columns-append (map create_index d.created_indexes) _ db4 n
    ∙ run_columns-kept alter_index n (λ _. true) (λ x w h. refl) d.altered_indexes db5
        (all-passed (λ _. true) (λ x. refl) d.altered_indexes)
    ∙ run_columns-kept create_index n (λ _. true) (λ x w h. refl) d.created_indexes db4
        (all-passed (λ _. true) (λ x. refl) d.created_indexes)
    ∙ alters db3 (creates db2)

All-into_steps :
    (made : List String) (d : SqlSchemaDiff)
    → All (CreatesInOrder made) (map create_table d.created_tables)
    → All (CreatesInOrder made) (into_steps d)
unfolding into_steps
All-into_steps made d creates =
    All-append _ (map drop_index d.dropped_indexes) _
      (All-made _ drop_index (λ x. tt) d.dropped_indexes)
      (All-append _ (map drop_table d.dropped_tables) _
        (All-made _ drop_table (λ x. tt) d.dropped_tables)
        (All-append _ (map create_table d.created_tables) _ creates (
          All-append _ (map alter_table d.altered_tables) _
            (All-made _ alter_table (λ x. tt) d.altered_tables)
            (All-append _ (map create_index d.created_indexes) _
              (All-made _ create_index (λ x. tt) d.created_indexes)
              (All-made _ alter_index (λ x. tt) d.altered_indexes)))))

All-creates :
    (made : List String) (cs : List CreateTable)
    → All (CreatesInOrder made) (map create_table (map (without_delayed made) cs))
All-creates made [] = tt
All-creates made (c ∷ cs) = (creates_in_order made c, All-creates made cs)

module _ (previous next : SqlSchema) where
  absent :
      (ts : List Table)
      → all
          (λ (c : CreateTable). not (has_table previous c.table.name))
          (filter_map {B = CreateTable}
            (λ t.
              if not (has_table previous t.name) && not (t.name == migration_table_name)
              then some (record { table = t })
              else none)
            ts)
        ≡ true
  unfolding all filter_map
  absent [] = refl
  absent (t ∷ ts) = let ih = absent ts in ground (arith, ih)

  -- A table that is created is not there before, so it is none of those that are altered.
  created_absent :
      all (λ c. not (has_table previous c.table.name)) (create_tables previous next) ≡ true
  unfolding create_tables
  created_absent = absent next.tables

  altered_others :
      (n : String)
      → not (has_table previous n) ≡ true
      → all (λ a. not (a.table.name == n)) (alter_tables previous next) ≡ true
  altered_others n new =
      all-alter_tables previous next (λ t. not (t.name == n))
        (λ pt nt there found. elim (Bool-cases (nt.name == n)) [
          | inr e ↦ rw e refl
          | inl e ↦
              let same : nt.name ≡ pt.name =
                eq_of_str_eq nt.name pt.name
                  (find?-passes (λ x. x.name == pt.name) next.tables found) in
              let is_n : nt.name ≡ n = eq_of_str_eq nt.name n e in
              let old : has_table previous n ≡ true =
                subst (λ x. has_table previous x ≡ true) (sym same ∙ is_n) there in
              ground arith
        ])

  abbrev pub made_names : List String
  made_names = map (λ c. c.table.name) (create_tables previous next)

  -- With the foreign keys delayed, a table that is created has in the end each name of a column as often
  -- as it is to have it, whatever the database had before, if no two created tables have one name; and
  -- no step creates a table with a column that refers to a table that is created too, but for columns
  -- of primary keys and of relation tables.
  pub run_columns-delay_foreign_key_creation :
      distinct made_names ≡ true
      → (c : CreateTable) → Memᴰ c (create_tables previous next)
      → (db : Database)
      → let steps = delay_foreign_key_creation (diff previous next) in
        (ns : List String) × (run_columns steps db c.table.name ≡ some ns)
        × ((n : String) → occurrences n ns ≡ occurrences n (map (λ d. d.name) c.table.columns))
        × All (CreatesInOrder made_names) steps
  unfolding delay_foreign_key_creation delay_foreign_keys diff without_delayed
  run_columns-delay_foreign_key_creation apart c m db = (
    map (λ d. d.name) (without_delayed made_names c).table.columns
        ++ map (λ d. d.name) (delayed_columns made_names c.table),
    run_columns-into_steps (delay_foreign_keys (diff previous next)) c.table.name
        (λ w.
          run_columns-creates (map (without_delayed made_names) (create_tables previous next))
            (without_delayed made_names c)
            (mem-map_lem (without_delayed made_names) (create_tables previous next) c m)
            (rw (names_kept made_names (create_tables previous next)) apart) w)
        (λ w there.
          ap (λ steps. run_columns steps w c.table.name)
            (map-append_lem alter_table (alter_tables previous next)
              (filter_map (delayed_changes made_names) (create_tables previous next)))
          ∙ run_columns-append (map alter_table (alter_tables previous next)) _ w c.table.name
          ∙ run_columns-late made_names (create_tables previous next) c m apart
              (run_columns (map alter_table (alter_tables previous next)) w) _
              (run_columns-kept alter_table c.table.name (λ a. not (a.table.name == c.table.name))
                  (λ a v h. alter_table-kept c.table.name a v h) (alter_tables previous next) w
                  (altered_others c.table.name (
                    all-mem (λ (x : CreateTable). not (has_table previous x.table.name))
                      (create_tables previous next) created_absent c m))
                ∙ there))
        db,
    occurrences-delayed made_names c,
    All-into_steps made_names (delay_foreign_keys (diff previous next))
        (All-creates made_names (create_tables previous next)),
  )
