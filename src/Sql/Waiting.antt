-- ===== src/Sql/Waiting.antt =====
-- The columns of the tables that are created, when their foreign keys wait until all tables are there
-- (migration-engine/connectors/sql-migration-connector/src/sql_database_migration_inferrer.rs,
-- delay_foreign_key_creation).
use mathlib.Core.List.{Memᴰ}
use mathlib.Core.List.Memᴰ.{head, tail}
use prisma_engine.Base.{
  String, Bool, true, not, ◌⊎◌, Option, none, some, List, [], ◌∷◌, ◌++◌, ◌==◌, ◌≡◌, refl, sym, ap,
  ◌∙◌, all, map, filter_map, append-nil, append_assoc, arith, str_refl, str_eq_comm, inl, inr,
}
use prisma_engine.Sql.Schema.{Column}
use prisma_engine.Sql.Differ.{alter_table, CreateTable, AlterTable, TableChange, add_column}
use prisma_engine.Sql.Inferrer.{delayed_columns, without_delayed, delayed_changes}
use prisma_engine.Sql.Tables.{columns_after, columns_after_change}
use prisma_engine.Sql.Steps.{distinct}
use prisma_engine.Sql.Columns.{
  Database, columns_after_step, run_columns, run_columns-kept, alter_table-kept, all-absent,
}

columns_after-add_column :
    (names : List String) (cs : List Column)
    → columns_after names (map add_column cs) ≡ names ++ map (λ c. c.name) cs
unfolding columns_after columns_after_change
columns_after-add_column names [] = sym (append-nil names)
columns_after-add_column names (c ∷ cs) =
    columns_after-add_column (names ++ c.name ∷ []) cs
    ∙ append_assoc names (c.name ∷ []) (map (λ c. c.name) cs)

pub all-mem :
    {A : Type 0} (p : A → Bool) (xs : List A) → all p xs ≡ true → (x : A) → Memᴰ x xs → p x ≡ true
unfolding all
all-mem p [] each x m = elim m [ ]
all-mem p (y ∷ ys) each x (head q) = rw q (ground arith)
all-mem p (y ∷ ys) each x (tail m) = all-mem p ys (ground arith) x m

module _ (made : List String) where
  -- A table is altered for its delayed columns, if it has some.
  abbrev Late : CreateTable → Type 0
  Late c =
      ((map add_column (delayed_columns made c.table) ≡ []) × (delayed_changes made c ≡ none))
      ⊎ ((a : AlterTable) × (delayed_changes made c ≡ some a)
          × (a.table.name ≡ c.table.name)
          × (a.changes ≡ map add_column (delayed_columns made c.table)))

  late : (c : CreateTable) → Late c
  unfolding delayed_changes without_delayed
  late c = by_changes (map add_column (delayed_columns made c.table))
    where
      by_changes :
          (changes : List TableChange)
          → let o : Option AlterTable = elim changes [
            | [] ↦ none
            | x ∷ xs ↦ some (record { table = (without_delayed made c).table; changes = x ∷ xs })
          ] in
            ((changes ≡ []) × (o ≡ none))
            ⊎ ((a : AlterTable) × (o ≡ some a)
                × (a.table.name ≡ c.table.name)
                × (a.changes ≡ changes))
      by_changes [] = inl (refl, refl)
      by_changes (x ∷ xs) =
          inr
            (record { table = (without_delayed made c).table; changes = x ∷ xs }, refl, refl, refl)

  late_kept :
      (cs : List CreateTable) (n : String)
      → all (λ c. not (c.table.name == n)) cs ≡ true
      → all (λ a. not (a.table.name == n)) (filter_map (delayed_changes made) cs) ≡ true
  unfolding all filter_map
  late_kept [] n each = refl
  late_kept (c ∷ cs) n each = elim (late c) [
    | inl (_, e) ↦ rw (e, filter_map) (late_kept cs n (ground arith))
    | inr (a, e, same, _) ↦
        let rest = late_kept cs n (ground arith) in rw (e, filter_map) (ground (arith, rest, same))
  ]

  altered :
      (a : AlterTable) (db : Database) (ns : List String) (n : String)
      → a.table.name ≡ n
      → db n ≡ some ns
      → columns_after_step (alter_table a) db n ≡ some (columns_after ns a.changes)
  unfolding columns_after_step
  altered a db ns n same there = rw (same, str_refl n, there) refl

  -- The steps for the delayed columns of one table among others.
  pub run_columns-late :
      (cs : List CreateTable) (c : CreateTable)
      → Memᴰ c cs
      → distinct (map (λ d. d.table.name) cs) ≡ true
      → (db : Database) (ns : List String) → db c.table.name ≡ some ns
      → run_columns (map alter_table (filter_map (delayed_changes made) cs)) db c.table.name
        ≡ some (ns ++ map (λ d. d.name) (delayed_columns made c.table))
  unfolding run_columns distinct filter_map columns_after
  run_columns-late [] c m apart db ns there = elim m [ ]
  run_columns-late (d ∷ cs) c (head q) apart db ns there =
      let others =
        late_kept cs c.table.name
          (rw q (all-absent (λ (x : CreateTable). x.table.name) cs d.table.name (ground arith))) in
      elim (late d) [
        | inl (nothing, e) ↦
            rw (e, filter_map)
              (run_columns-kept alter_table c.table.name (λ a. not (a.table.name == c.table.name))
                  (λ a w h. alter_table-kept c.table.name a w h)
                  (filter_map (delayed_changes made) cs) db others
                ∙ there
                ∙ ap some (
                    ap (λ changes. columns_after ns changes) (sym nothing)
                    ∙ columns_after-add_column ns (delayed_columns made d.table)
                    ∙ ap
                        (λ (x : CreateTable).
                          ns ++ map (λ e. e.name) (delayed_columns made x.table))
                        (sym q)))
        | inr (a, e, same, changes) ↦
            rw (e, filter_map)
              (run_columns-kept alter_table c.table.name (λ a. not (a.table.name == c.table.name))
                  (λ a w h. alter_table-kept c.table.name a w h)
                  (filter_map (delayed_changes made) cs) (columns_after_step (alter_table a) db)
                  others
                ∙ altered a db ns c.table.name
                    (same ∙ ap (λ (x : CreateTable). x.table.name) (sym q)) there
                ∙ ap some (
                    ap (λ changes. columns_after ns changes) changes
                    ∙ columns_after-add_column ns (delayed_columns made d.table)
                    ∙ ap
                        (λ (x : CreateTable).
                          ns ++ map (λ e. e.name) (delayed_columns made x.table))
                        (sym q)))
      ]
  run_columns-late (d ∷ cs) c (tail m) apart db ns there = elim (late d) [
    | inl (_, e) ↦ rw (e, filter_map) (run_columns-late cs c m (ground arith) db ns there)
    | inr (a, e, same, _) ↦
        rw (e, filter_map)
          (run_columns-late cs c m (ground arith) (columns_after_step (alter_table a) db) ns
            (alter_table-kept c.table.name a db (other a same) ∙ there))
  ]
    where
      other :
          (a : AlterTable) → a.table.name ≡ d.table.name → not (a.table.name == c.table.name) ≡ true
      other a same =
          let apart_of =
            all-mem (λ (x : CreateTable). not (x.table.name == d.table.name)) cs
              (all-absent (λ (x : CreateTable). x.table.name) cs d.table.name (ground arith)) c m in
          ground (arith, apart_of, same, str_eq_comm a.table.name c.table.name)
