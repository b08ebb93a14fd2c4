-- ===== src/Sql/Unchanged.antt =====
-- A database schema that has not changed
-- (migration-engine/connectors/sql-migration-connector/src/sql_schema_differ.rs).
use mathlib.Core.Option
use prisma_engine.Base.{
  String, Bool, true, false, Option, none, some, List, [], ◌∷◌, ◌++◌, ◌==◌, ◌≡◌, refl, sym, ap, ◌∙◌,
  nat_eq_refl, find?, any, all, filter_map, flat_map, map, is_some, is_none, and_then, arith,
  str_refl, are_new, are_new-cons, append_assoc,
}
use mathlib.Core.List.{map-append}
use prisma_engine.Migration.Differ.Same.{deleted_self, flat_map-map_nil}
use prisma_engine.Migration.Differ.Pairs.{deleted}
use prisma_engine.Sql.Schema.{
  SqlSchema, Table, Column, Index, ForeignKey, names_eq, table, has_table, get_table, has_column,
  column, foreign_key_for_column, action_index, arity_index, family_index,
}
use prisma_engine.Sql.Differ.{
  SqlSchemaDiff, AlterIndex, into_steps, diff, create_tables, drop_tables_of, alter_tables,
  alter_indexes, altered_in, table_pairs, renamed_index, create_indexes, drop_indexes, index_in,
  drop_columns, add_columns, alter_columns, column_changed, drop_foreign_keys, table_changes,
  foreign_keys_match, foreign_key_changed,
}

names_eq_refl : (xs : List String) → names_eq xs xs ≡ true
unfolding names_eq
names_eq_refl [] = refl
names_eq_refl (x ∷ xs) = let ih = names_eq_refl xs in let e = str_refl x in ground (arith, ih, e)

foreign_keys_match_refl : (fk : ForeignKey) → foreign_keys_match fk fk ≡ true
unfolding foreign_keys_match
foreign_keys_match_refl fk =
    rw
      (
        str_refl fk.referenced_table,
        names_eq_refl fk.referenced_columns,
        names_eq_refl fk.columns,
        nat_eq_refl (action_index fk.on_delete_action),
      )
      refl

foreign_key_changed_self : (o : Option ForeignKey) → foreign_key_changed o o ≡ false
unfolding foreign_key_changed
foreign_key_changed_self none = refl
foreign_key_changed_self (some fk) = rw (foreign_keys_match_refl fk) refl

column_changed_self : (t : Table) (c : Column) → column_changed t t c c ≡ false
unfolding column_changed
column_changed_self t c =
    rw
      (
        str_refl c.name,
        nat_eq_refl (family_index c.tpe.family),
        nat_eq_refl (arity_index c.arity),
        foreign_key_changed_self (foreign_key_for_column t c.name),
      )
      refl

abbrev pub All : {A : Type 0} → (A → Type 0) → List A → Type 0
All P [] = Unit
All P (x ∷ xs) = P x × All P xs

module _ {A B : Type 0} {P : A → Type 0} where
  filter_map-All :
      (f : A → Option B) (xs : List A)
      → All P xs
      → ((x : A) → P x → f x ≡ none)
      → filter_map f xs ≡ []
  unfolding filter_map
  filter_map-All f [] h none_made = refl
  filter_map-All f (x ∷ xs) (h, hs) none_made =
      rw (none_made x h, filter_map) (filter_map-All f xs hs none_made)

  flat_map-All :
      (f : A → List B) (xs : List A) → All P xs → ((x : A) → P x → f x ≡ []) → flat_map f xs ≡ []
  unfolding flat_map
  flat_map-All f [] h none_made = refl
  flat_map-All f (x ∷ xs) (h, hs) none_made =
      rw (none_made x h, flat_map-All f xs hs none_made) refl

All-and :
    {A : Type 0} (P : A → Type 0) (good : A → Bool) (xs : List A)
    → All P xs
    → all good xs ≡ true
    → All (λ x. P x × (good x ≡ true)) xs
unfolding all
All-and P good [] h each = tt
All-and P good (x ∷ xs) (h, hs) each = ((h, ground arith), All-and P good xs hs (ground arith))

All-all :
    {A : Type 0} (good : A → Bool) (xs : List A) → all good xs ≡ true → All (λ x. good x ≡ true) xs
unfolding all
All-all good [] each = tt
All-all good (x ∷ xs) each = (ground arith, All-all good xs (ground arith))

eq_none : {A : Type 0} (o : Option A) → is_none o ≡ true → o ≡ none
eq_none none h = refl
eq_none (some a) h = cc

not_none : {A : Type 0} (o : Option A) → is_some o ≡ true → is_none o ≡ false
not_none none h = cc
not_none (some a) h = refl

module _ {A : Type 0} (name : A → String) where
  -- With names of their own, each item is found by its name.
  found :
      (done : List A) (x : A) (rest : List A)
      → any (λ t. t == name x) (map name done) ≡ false
      → find? (λ n. name n == name x) (done ++ x ∷ rest) ≡ some x
  unfolding find? any
  found [] x rest h = rw (str_refl (name x)) refl
  found (y ∷ done) x rest h = let ih = found done x rest in ground (arith, ih)

  all_own :
      (xs done todo : List A)
      → xs ≡ done ++ todo
      → are_new (map name done) (map name todo) ≡ true
      → All (λ x. find? (λ n. name n == name x) xs ≡ some x) todo
  all_own xs done [] split h = tt
  all_own xs done (x ∷ todo) split h =
      let (absent, later) = are_new-cons (map name done) (name x) (map name todo) h in
      (
        rw split (found done x todo absent),
        all_own xs (done ++ x ∷ []) todo (split ∙ sym (append_assoc done (x ∷ []) todo))
            (rw (map-append name done (x ∷ [])) later),
      )

  -- Of any list, some item is found by each name.
  present :
      (done : List A) (x : A) (rest : List A)
      → is_some (find? (λ n. name n == name x) (done ++ x ∷ rest)) ≡ true
  unfolding find?
  present [] x rest = rw (str_refl (name x)) refl
  present (y ∷ done) x rest = let ih = present done x rest in ground (arith, ih)

  all_present :
      (xs done todo : List A)
      → xs ≡ done ++ todo
      → All (λ x. is_some (find? (λ n. name n == name x) xs) ≡ true) todo
  all_present xs done [] split = tt
  all_present xs done (x ∷ todo) split = (
    rw split (present done x todo),
    all_present xs (done ++ x ∷ []) todo (split ∙ sym (append_assoc done (x ∷ []) todo)),
  )

  pub own_names :
      (xs : List A)
      → are_new [] (map name xs) ≡ true
      → All (λ x. find? (λ n. name n == name x) xs ≡ some x) xs
  own_names xs h = all_own xs [] xs refl h

  pub named : (xs : List A) → All (λ x. is_some (find? (λ n. name n == name x) xs) ≡ true) xs
  named xs = all_present xs [] xs refl

-- Two tables with the same contents need no change, if no two columns have one name.
abbrev pub has_own_columns : Table → Bool
has_own_columns t = are_new [] (map (λ c. c.name) t.columns)

drop_columns_self : (t : Table) → drop_columns t t ≡ []
unfolding drop_columns has_column column
drop_columns_self t = filter_map-All _ t.columns (named (λ c. c.name) t.columns) (λ c h. rw h refl)

add_columns_self : (t : Table) → add_columns t t ≡ []
unfolding add_columns has_column column
add_columns_self t = filter_map-All _ t.columns (named (λ c. c.name) t.columns) (λ c h. rw h refl)

alter_columns_self : (t : Table) → has_own_columns t ≡ true → alter_columns t t ≡ []
unfolding alter_columns column
alter_columns_self t own =
    filter_map-All _ t.columns (own_names (λ c. c.name) t.columns own)
      (λ c h. rw (h, column_changed_self t c) refl)

drop_foreign_keys_self : (t : Table) → drop_foreign_keys t t ≡ []
unfolding drop_foreign_keys filter_map deleted
drop_foreign_keys_self t =
    rw (deleted_self foreign_keys_match foreign_keys_match_refl t.foreign_keys) refl

table_changes_self : (t : Table) → has_own_columns t ≡ true → table_changes t t ≡ []
unfolding table_changes
table_changes_self t own =
    rw (drop_foreign_keys_self t, drop_columns_self t, add_columns_self t, alter_columns_self t own)
      refl

-- No index has the columns and the type of another one of another name.
abbrev pub has_own_indexes : Table → Bool
has_own_indexes t = all (λ i. is_none (renamed_index t i)) t.indices

abbrev pub has_own_tables : SqlSchema → Bool
has_own_tables s = are_new [] (map (λ t. t.name) s.tables)

module _ (s : SqlSchema) (own : has_own_tables s ≡ true) where
  create_tables_self : create_tables s s ≡ []
  unfolding create_tables has_table get_table
  create_tables_self = filter_map-All _ s.tables (named (λ t. t.name) s.tables) (λ t h. rw h refl)

  drop_tables_self : drop_tables_of s s ≡ []
  unfolding drop_tables_of has_table get_table
  drop_tables_self = filter_map-All _ s.tables (named (λ t. t.name) s.tables) (λ t h. rw h refl)

  alter_tables_self : all has_own_columns s.tables ≡ true → alter_tables s s ≡ []
  unfolding alter_tables table
  alter_tables_self columns =
      filter_map-All _ s.tables
        (All-and _ has_own_columns s.tables (own_names (λ t. t.name) s.tables own) columns)
        (λ t (h, good). rw (h, and_then, table_changes_self t good) refl)

  index_in_self :
      (t : Table) (i : Index)
      → find? (λ n. n.name == t.name) s.tables ≡ some t
      → is_some (find? (λ n. n.name == i.name) t.indices) ≡ true
      → is_none (index_in s t.name i.name) ≡ false
  unfolding index_in table
  index_in_self t i h k = rw h (not_none (find? (λ n. n.name == i.name) t.indices) k)

  create_indexes_self : (altered : List AlterIndex) → create_indexes s s altered ≡ []
  unfolding create_indexes
  create_indexes_self altered =
      flat_map-All _ s.tables (own_names (λ t. t.name) s.tables own) (λ t h.
        filter_map-All _ t.indices (named (λ i. i.name) t.indices)
          (λ i k. rw (index_in_self t i h k) refl))

  drop_indexes_self : (altered : List AlterIndex) → drop_indexes s s altered ≡ []
  unfolding drop_indexes
  drop_indexes_self altered = flat_map-All _ s.tables (own_names (λ t. t.name) s.tables own) (λ t h.
      filter_map-All _ t.indices (named (λ i. i.name) t.indices)
        (λ i k. rw (index_in_self t i h k) refl))

  table_pairs_self :
      (todo : List Table)
      → All (λ t. find? (λ n. n.name == t.name) s.tables ≡ some t) todo
      → filter_map {B = Table × Table}
          (λ t. Option.map (λ n. (t, n)) (find? (λ n. n.name == t.name) s.tables))
          todo
        ≡ map (λ t. (t, t)) todo
  unfolding filter_map
  table_pairs_self [] h = refl
  table_pairs_self (t ∷ todo) (h, hs) =
      rw (h, filter_map) (ap (λ l. (t, t) ∷ l) (table_pairs_self todo hs))

  alter_indexes_self : all has_own_indexes s.tables ≡ true → alter_indexes s s ≡ []
  unfolding alter_indexes table_pairs altered_in
  alter_indexes_self indexes =
      rw (table_pairs_self s.tables (own_names (λ t. t.name) s.tables own))
        (flat_map-map_nil altered_in has_own_indexes altered_self s.tables indexes)
    where
      altered_self : (t : Table) → has_own_indexes t ≡ true → altered_in (t, t) ≡ []
      altered_self t h =
          filter_map-All _ t.indices (All-all (λ i. is_none (renamed_index t i)) t.indices h)
            (λ i k. rw (eq_none (renamed_index t i) k) refl)

abbrev pub no_changes : SqlSchemaDiff
no_changes = record {
  dropped_tables = [];
  created_tables = [];
  altered_tables = [];
  created_indexes = [];
  dropped_indexes = [];
  altered_indexes = [];
}

pub diff-no_changes :
    (s : SqlSchema)
    → has_own_tables s ≡ true
    → all has_own_columns s.tables ≡ true
    → all has_own_indexes s.tables ≡ true
    → diff s s ≡ no_changes
unfolding diff
diff-no_changes s own columns indexes =
    rw
      (
        alter_indexes_self s own indexes,
        drop_indexes_self s own [],
        drop_tables_self s own,
        create_tables_self s own,
        alter_tables_self s own columns,
        create_indexes_self s own [],
      )
      refl

-- A schema compared with itself gives no steps, if no two of its tables have one name, no two columns
-- of a table have one name, and no two indexes of a table with different names have the same columns
-- and type.
pub into_steps-diff_self :
    (s : SqlSchema)
    → has_own_tables s ≡ true
    → all has_own_columns s.tables ≡ true
    → all has_own_indexes s.tables ≡ true
    → into_steps (diff s s) ≡ []
unfolding into_steps
into_steps-diff_self s own columns indexes = ap into_steps (diff-no_changes s own columns indexes)
