-- ===== src/Sql/Steps.antt =====
-- The tables of a database along a list of steps
-- (migration-engine/connectors/sql-migration-connector/src/sql_migration.rs).
use prisma_engine.Base.{
  String, Bool, true, false, not, ◌&&◌, ◌||◌, Option, none, some, List, [], ◌∷◌, ◌++◌, ◌==◌, ◌≡◌,
  refl, sym, ap, ◌∙◌, any, all, filter, filter_map, map, and_then, append-nil, append_assoc,
  if◌then◌else◌, arith, Bool-cases, Option-cases, inl, inr, filter-filter, filter-cong, filter-all,
  str_eq_comm,
}
use mathlib.Core.Option.{some-injective}
use prisma_engine.Sql.Schema.{Table, contains}
use prisma_engine.Sql.Differ.{
  SqlSchemaDiff, into_steps, alter_index, alter_table, create_index, create_table, drop_index,
  drop_table, SqlMigrationStep, drop_tables, rename_table, raw_sql, CreateTable, DropTable,
}
use prisma_engine.Sql.Names.{contains-filter}

-- The names of the tables of a database after a step, and `none` if a table that the step is about is
-- missing.
unfoldable pub tables_after_step : List String → SqlMigrationStep → Option (List String)
tables_after_step names (create_table c) = some (names ++ c.table.name ∷ [])
tables_after_step names (alter_table a) = if contains names a.table.name then some names else none
tables_after_step names (drop_table d) =
    if contains names d.name then some (filter (λ n. not (d.name == n)) names) else none
tables_after_step names (drop_tables d) =
    if all (contains names) d.names
    then some (filter (λ n. not (contains d.names n)) names)
    else none
tables_after_step names (rename_table name new_name) =
    if contains names name
    then some (filter (λ n. not (name == n)) names ++ new_name ∷ [])
    else none
tables_after_step names (raw_sql raw) = some names
tables_after_step names (create_index c) = if contains names c.table then some names else none
tables_after_step names (drop_index d) = if contains names d.table then some names else none
tables_after_step names (alter_index a) = if contains names a.table then some names else none

unfoldable pub run_steps : List String → List SqlMigrationStep → Option (List String)
run_steps names [] = some names
run_steps names (s ∷ steps) = and_then (tables_after_step names s) (λ rest. run_steps rest steps)

-- No name stands twice.
unfoldable pub distinct : List String → Bool
distinct [] = true
distinct (x ∷ xs) = not (contains xs x) && distinct xs

pub run_steps-append :
    (names : List String) (xs ys : List SqlMigrationStep) {middle : List String}
    → run_steps names xs ≡ some middle
    → run_steps names (xs ++ ys) ≡ run_steps middle ys
unfolding run_steps
run_steps-append names [] ys h = ap (λ ns. run_steps ns ys) (some-injective names _ h)
run_steps-append names (x ∷ xs) ys h = elim (Option-cases (tables_after_step names x)) [
  | inl e ↦ absurd (none-ne-some (rw e at h))
  | inr (rest, e) ↦ rw e (run_steps-append rest xs ys (rw e at h))
]
  where
    none-ne-some : {m : List String} → none ≡ some m → ⊥
    none-ne-some k = cc

-- Steps that only need their table leave the names alone.
pub run_steps-checks :
    {A : Type 0} (step : A → SqlMigrationStep) (about : A → String) (names : List String)
    → ((x : A) → contains names (about x) ≡ true → tables_after_step names (step x) ≡ some names)
    → (xs : List A) → all (λ x. contains names (about x)) xs ≡ true
    → run_steps names (map step xs) ≡ some names
unfolding run_steps all
run_steps-checks step about names same [] each = refl
run_steps-checks step about names same (x ∷ xs) each =
    rw (same x (ground arith)) (run_steps-checks step about names same xs (ground arith))

pub run_steps-creates :
    (names : List String) (cs : List CreateTable)
    → run_steps names (map create_table cs) ≡ some (names ++ map (λ c. c.table.name) cs)
unfolding run_steps tables_after_step
run_steps-creates names [] = ap some (sym (append-nil names))
run_steps-creates names (c ∷ cs) =
    run_steps-creates (names ++ c.table.name ∷ []) cs
    ∙ ap some (append_assoc names (c.table.name ∷ []) (map (λ c. c.table.name) cs))

-- The tables that are left are still there once another one is dropped.
still_there :
    (gone : String) (names : List String) (ts : List Table)
    → contains (map (λ t. t.name) ts) gone ≡ false
    → all (λ t. contains names t.name) ts ≡ true
    → all (λ t. contains (filter (λ n. not (gone == n)) names) t.name) ts ≡ true
unfolding contains any all
still_there gone names [] absent each = refl
still_there gone names (t ∷ ts) absent each =
    let ih = still_there gone names ts (ground arith) (ground arith) in
    let kept = contains-filter (λ n. not (gone == n)) names t.name in
    ground (arith, ih, kept, str_eq_comm gone t.name)

module _ (passes : String → Bool) where
  abbrev dropped : List Table → List DropTable
  dropped ts = filter_map (λ t. if passes t.name then some (record { name = t.name }) else none) ts

  dropped-passed :
      (t : Table) (ts : List Table)
      → passes t.name ≡ true
      → dropped (t ∷ ts) ≡ record { name = t.name } ∷ dropped ts
  unfolding filter_map
  dropped-passed t ts e =
      ap {B = List DropTable} (λ o. elim o [ none ↦ dropped ts | some y ↦ y ∷ dropped ts ])
        (ap {B = Option DropTable} (λ b. if b then some (record { name = t.name }) else none) e)

  dropped-kept :
      (t : Table) (ts : List Table) → passes t.name ≡ false → dropped (t ∷ ts) ≡ dropped ts
  unfolding filter_map
  dropped-kept t ts e =
      ap {B = List DropTable} (λ o. elim o [ none ↦ dropped ts | some y ↦ y ∷ dropped ts ])
        (ap {B = Option DropTable} (λ b. if b then some (record { name = t.name }) else none) e)

  pub run_steps-drops :
      (ts : List Table) (names : List String)
      → distinct (map (λ t. t.name) ts) ≡ true
      → all (λ t. contains names t.name) ts ≡ true
      → run_steps names (map drop_table (dropped ts))
        ≡ some (filter (λ n. not (any (λ x. x.name == n) (dropped ts))) names)
  unfolding run_steps tables_after_step any all distinct filter_map
  run_steps-drops [] names apart each = ap some (sym (filter-all names))
  run_steps-drops (t ∷ ts) names apart each = elim (Bool-cases (passes t.name)) [
    | inl e ↦
        rw (dropped-passed t ts e, left_name apart each)
          (run_steps-drops ts (filter (λ n. not (t.name == n)) names) (ground arith)
              (still_there t.name names ts (ground arith) (ground arith))
            ∙ ap some (
                filter-filter (λ n. not (t.name == n))
                  (λ n. not (any (λ x. x.name == n) (dropped ts))) names
                ∙ filter-cong (λ n. not (t.name == n) && not (any (λ x. x.name == n) (dropped ts)))
                    (λ n. not (t.name == n || any (λ x. x.name == n) (dropped ts)))
                    (λ n. ground arith) names))
    | inr e ↦ rw (dropped-kept t ts e) (run_steps-drops ts names (ground arith) (ground arith))
  ]
    where
      left_name :
          distinct (map (λ t. t.name) (t ∷ ts)) ≡ true
          → all (λ t. contains names t.name) (t ∷ ts) ≡ true
          → contains names t.name ≡ true
      left_name a each = ground arith

-- The steps of a diff, when the tables that its parts are about are there.
pub run_steps-into_steps :
    (names left after : List String) (d : SqlSchemaDiff)
    → all (λ x. contains names x.table) d.dropped_indexes ≡ true
    → run_steps names (map drop_table d.dropped_tables) ≡ some left
    → left ++ map (λ c. c.table.name) d.created_tables ≡ after
    → all (λ a. contains after a.table.name) d.altered_tables ≡ true
    → all (λ c. contains after c.table) d.created_indexes ≡ true
    → all (λ a. contains after a.table) d.altered_indexes ≡ true
    → run_steps names (into_steps d) ≡ some after
unfolding into_steps tables_after_step
run_steps-into_steps names left after d dropped drops creates altered created renamed =
    run_steps-append names (map drop_index d.dropped_indexes) _ (
      run_steps-checks drop_index (λ x. x.table) names (λ x h. rw h refl) d.dropped_indexes dropped)
    ∙ run_steps-append names (map drop_table d.dropped_tables) _ drops
    ∙ run_steps-append left (map create_table d.created_tables) _
        (run_steps-creates left d.created_tables ∙ ap some creates)
    ∙ run_steps-append after (map alter_table d.altered_tables) _ (
        run_steps-checks alter_table (λ a. a.table.name) after (λ x h. rw h refl) d.altered_tables
          altered)
    ∙ run_steps-append after (map create_index d.created_indexes) _ (
        run_steps-checks create_index (λ c. c.table) after (λ x h. rw h refl) d.created_indexes
          created)
    ∙ run_steps-checks alter_index (λ a. a.table) after (λ x h. rw h refl) d.altered_indexes renamed
