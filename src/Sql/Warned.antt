-- ===== src/Sql/Warned.antt =====
-- The checker warns exactly of the steps that lose data, and does not fail on the steps between two
-- schemas (migration-engine/connectors/sql-migration-connector/src/sql_destructive_changes_checker.rs).
use prisma_engine.Base.{
  ℕ, String, Bool, true, false, ◌||◌, Option, none, some, List, [], ◌∷◌, ◌++◌, ◌≡◌, refl, sym, ap,
  ◌∙◌, arith, any, all, map, ltb, is_some, find?, inl, inr, Bool-cases, ◌==◌, Outcome, ok, ◌>>=◌,
  ok_or, all-append, eq_of_str_eq, find?-passes,
}
use mathlib.Core.Path.{subst}
use prisma_engine.Migration.Commands.{DestructiveChangeDiagnostics, MigrationWarning, has_warnings}
use prisma_engine.Sql.Schema.{SqlSchema, Table, get_table, has_table}
use prisma_engine.Sql.Differ.{
  SqlMigrationStep, create_table, alter_table, drop_table, drop_tables, rename_table, raw_sql,
  create_index, drop_index, alter_index, TableChange, add_column, alter_column, drop_column,
  drop_foreign_key, AlterTable, into_steps, diff, alter_tables, drop_indexes, drop_tables_of,
  create_tables, create_indexes, alter_indexes,
}
use prisma_engine.Sql.Altered.{all-alter_tables}
use prisma_engine.Sql.Made.{all-map, all-passed}
use prisma_engine.Sql.Checker.{
  warn_if, warning, add_warning, check_table_drop, check_column_drop, check_alter_column,
  check_change, check_changes, check_table_drops, check_step, check_steps, check,
}

or_false : (b : Bool) → (b || false) ≡ b
or_false true = refl
or_false false = refl

or_assoc : (a b c : Bool) → ((a || b) || c) ≡ (a || (b || c))
or_assoc true b c = refl
or_assoc false b c = refl

or_true : (b : Bool) → (b || true) ≡ true
or_true true = refl
or_true false = refl

warned :
    (d : DestructiveChangeDiagnostics) (text : String)
    → has_warnings (add_warning d (warning text)) ≡ (has_warnings d || true)
unfolding has_warnings add_warning
warned d text = cases d.warnings ∙ sym (or_true (has_warnings d))
  where
    cases :
        (ws : List MigrationWarning)
        → has_warnings (record d { warnings = ws ++ warning text ∷ [] }) ≡ true
    cases [] = refl
    cases (w ∷ ws) = refl

false-ne-true : false ≡ true → ⊥
false-ne-true h = cc

-- Whether the table that a step alters is there.
unfoldable pub is_known : SqlSchema → SqlMigrationStep → Bool
is_known before (alter_table a) = is_some (get_table before a.table.name)
is_known before (drop_table d) = true
is_known before (drop_tables d) = true
is_known before (create_table c) = true
is_known before (rename_table name new_name) = true
is_known before (raw_sql raw) = true
is_known before (create_index c) = true
is_known before (drop_index d) = true
is_known before (alter_index a) = true

module _ (before after : SqlSchema) where
  -- An altered table has a table of its name before.
  known_pair :
      (pt nt : Table)
      → has_table before pt.name ≡ true
      → find? (λ n. n.name == pt.name) after.tables ≡ some nt
      → has_table before nt.name ≡ true
  known_pair pt nt old h =
      subst (λ m. has_table before m ≡ true)
        (sym (eq_of_str_eq nt.name pt.name (find?-passes (λ n. n.name == pt.name) after.tables h)))
        old

  altered_tables_known : all (λ a. has_table before a.table.name) (alter_tables before after) ≡ true
  altered_tables_known = all-alter_tables before after (λ t. has_table before t.name) known_pair

  silent :
      {A : Type 0} (step : A → SqlMigrationStep) (xs : List A)
      → ((x : A) → is_known before (step x) ≡ true)
      → all (is_known before) (map step xs) ≡ true
  silent step xs h =
      all-map (is_known before) step xs (all-passed (λ x. is_known before (step x)) h xs)

  steps_known : all (is_known before) (into_steps (diff before after)) ≡ true
  unfolding into_steps diff is_known has_table
  steps_known =
      rw
        (
          all-append (is_known before) (map drop_index _) _,
          all-append (is_known before) (map drop_table _) _,
          all-append (is_known before) (map create_table _) _,
          all-append (is_known before) (map alter_table _) _,
          all-append (is_known before) (map create_index _) _,
        )
        (rw
          (
            silent drop_index (drop_indexes before after (alter_indexes before after)) (λ x. refl),
            silent drop_table (drop_tables_of before after) (λ x. refl),
            silent create_table (create_tables before after) (λ x. refl),
            all-map (is_known before) alter_table (alter_tables before after) altered_tables_known,
            silent create_index (create_indexes before after (alter_indexes before after))
                (λ x. refl),
            silent alter_index (alter_indexes before after) (λ x. refl),
          )
          refl)

module _ (rows : String → ℕ) (values : String → Table → ℕ) where
  -- A database that gives its counts.
  abbrev count_rows : String → Outcome String ℕ
  count_rows n = ok (rows n)

  abbrev count_values : String → Table → Outcome String ℕ
  count_values c t = ok (values c t)

  -- What loses data: a table with rows, or a column with values.
  unfoldable pub change_loses : Table → TableChange → Bool
  change_loses t (drop_column name) = ltb 0 (values name t)
  change_loses t (alter_column name c) = ltb 0 (values name t)
  change_loses t (add_column c) = false
  change_loses t (drop_foreign_key name) = false

  unfoldable pub step_loses : SqlSchema → SqlMigrationStep → Bool
  step_loses before (alter_table a) = elim (get_table before a.table.name) [
    | none ↦ false
    | some t ↦ any (change_loses t) a.changes
  ]
  step_loses before (drop_table d) = ltb 0 (rows d.name)
  step_loses before (drop_tables d) = any (λ n. ltb 0 (rows n)) d.names
  step_loses before (create_table c) = false
  step_loses before (rename_table name new_name) = false
  step_loses before (raw_sql raw) = false
  step_loses before (create_index c) = false
  step_loses before (drop_index d) = false
  step_loses before (alter_index a) = false

  -- The check of a part gives diagnostics, which warn as before or because of the part.
  abbrev Warns :
      Outcome String DestructiveChangeDiagnostics → DestructiveChangeDiagnostics → Bool → Type 0
  Warns o d loses =
      (e : DestructiveChangeDiagnostics) × (o ≡ ok e) × (has_warnings e ≡ (has_warnings d || loses))

  warn_if-Warns :
      (count : ℕ) (text : String) (d : DestructiveChangeDiagnostics)
      → Warns (warn_if count text d) d (ltb 0 count)
  unfolding warn_if
  warn_if-Warns count text d = elim (Bool-cases (ltb 0 count)) [
    | inl e ↦ rw e (add_warning d (warning text), refl, warned d text)
    | inr e ↦ rw e (d, refl, sym (or_false (has_warnings d)))
  ]

  -- A part after another one.
  and_then-Warns :
      (o : Outcome String DestructiveChangeDiagnostics)
      (next : DestructiveChangeDiagnostics → Outcome String DestructiveChangeDiagnostics)
      (d : DestructiveChangeDiagnostics) (first second : Bool)
      → Warns o d first
      → ((e : DestructiveChangeDiagnostics) → Warns (next e) e second)
      → Warns (o >>= next) d (first || second)
  and_then-Warns o next d first second (e, made, says) each =
      let (f, last, tells) = each e in
      (f, rw made last, tells ∙ ap (λ b. b || second) says ∙ or_assoc (has_warnings d) first second)

  silent-Warns : (d : DestructiveChangeDiagnostics) → Warns (ok d) d false
  silent-Warns d = (d, refl, sym (or_false (has_warnings d)))

  check_change-Warns :
      (t : Table) (c : TableChange) (d : DestructiveChangeDiagnostics)
      → Warns (check_change count_rows count_values t c d) d (change_loses t c)
  unfolding check_change check_column_drop check_alter_column change_loses
  check_change-Warns t (drop_column name) d = warn_if-Warns (values name t) _ d
  check_change-Warns t (alter_column name c) d = warn_if-Warns (values name t) _ d
  check_change-Warns t (add_column c) d = silent-Warns d
  check_change-Warns t (drop_foreign_key name) d = silent-Warns d

  check_changes-Warns :
      (t : Table) (cs : List TableChange) (d : DestructiveChangeDiagnostics)
      → Warns (check_changes count_rows count_values t cs d) d (any (change_loses t) cs)
  unfolding check_changes any
  check_changes-Warns t [] d = silent-Warns d
  check_changes-Warns t (c ∷ cs) d =
      and_then-Warns _ (check_changes count_rows count_values t cs) d (change_loses t c)
        (any (change_loses t) cs) (check_change-Warns t c d) (check_changes-Warns t cs)

  check_table_drops-Warns :
      (names : List String) (d : DestructiveChangeDiagnostics)
      → Warns
          (check_table_drops count_rows count_values names d)
          d
          (any (λ n. ltb 0 (rows n)) names)
  unfolding check_table_drops check_table_drop any
  check_table_drops-Warns [] d = silent-Warns d
  check_table_drops-Warns (n ∷ names) d =
      and_then-Warns _ (check_table_drops count_rows count_values names) d (ltb 0 (rows n))
        (any (λ n. ltb 0 (rows n)) names) (warn_if-Warns (rows n) _ d)
        (check_table_drops-Warns names)

  alter_cases :
      (a : AlterTable) (d : DestructiveChangeDiagnostics) (message : String) (o : Option Table)
      → is_some o ≡ true
      → Warns
          (ok_or message o >>= λ t. check_changes count_rows count_values t a.changes d)
          d
          (elim o [ none ↦ false | some t ↦ any (change_loses t) a.changes ])
  alter_cases a d message none known = absurd (false-ne-true known)
  alter_cases a d message (some t) known = check_changes-Warns t a.changes d

  check_step-Warns :
      (before : SqlSchema) (step : SqlMigrationStep) (d : DestructiveChangeDiagnostics)
      → is_known before step ≡ true
      → Warns (check_step count_rows count_values before step d) d (step_loses before step)
  unfolding check_step step_loses check_table_drop is_known
  check_step-Warns before (alter_table a) d known =
      alter_cases a d _ (get_table before a.table.name) known
  check_step-Warns before (drop_table x) d known = warn_if-Warns (rows x.name) _ d
  check_step-Warns before (drop_tables x) d known = check_table_drops-Warns x.names d
  check_step-Warns before (create_table c) d known = silent-Warns d
  check_step-Warns before (rename_table name new_name) d known = silent-Warns d
  check_step-Warns before (raw_sql raw) d known = silent-Warns d
  check_step-Warns before (create_index c) d known = silent-Warns d
  check_step-Warns before (drop_index x) d known = silent-Warns d
  check_step-Warns before (alter_index a) d known = silent-Warns d

  check_steps-Warns :
      (before : SqlSchema) (steps : List SqlMigrationStep) (d : DestructiveChangeDiagnostics)
      → all (is_known before) steps ≡ true
      → Warns (check_steps count_rows count_values before steps d) d (any (step_loses before) steps)
  unfolding check_steps any all
  check_steps-Warns before [] d known = silent-Warns d
  check_steps-Warns before (s ∷ steps) d known =
      and_then-Warns _ (check_steps count_rows count_values before steps) d (step_loses before s)
        (any (step_loses before) steps) (check_step-Warns before s d (ground arith))
        (λ e. check_steps-Warns before steps e (ground arith))

  -- With a database that gives its counts, the check of the steps between two schemas gives
  -- diagnostics, and they have a warning exactly when a step drops a table with rows, or drops or
  -- alters a column with values that are not null.
  pub check-diff :
      (before after : SqlSchema)
      → (d : DestructiveChangeDiagnostics) × (check count_rows count_values before
            (into_steps (diff before after))
          ≡ ok d)
        × (has_warnings d ≡ any (step_loses before) (into_steps (diff before after)))
  unfolding check has_warnings
  check-diff before after =
      check_steps-Warns before (into_steps (diff before after))
        (record { errors = []; warnings = [] }) (steps_known before after)
