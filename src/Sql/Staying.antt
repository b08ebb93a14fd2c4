-- ===== src/Sql/Staying.antt =====
-- The columns that stay in a table and those that wait, together
-- (migration-engine/connectors/sql-migration-connector/src/sql_database_migration_inferrer.rs,
-- delay_foreign_key_creation).
use mathlib.Core.List.{Memᴰ}
use mathlib.Core.List.Memᴰ.{head, tail}
use prisma_engine.Base.{
  ◌+◌, String, Bool, true, false, not, Option, none, some, List, [], ◌∷◌, ◌++◌, ◌≡◌, refl, sym, ap,
  ◌∙◌, any, map, filter, arith, str_refl, nat_eq_refl, ◌&&◌, starts_with, eq_iff,
}
use prisma_engine.Sql.Schema.{
  Table, Column, contains, foreign_key_for_column, is_part_of_primary_key, family_index,
  arity_index,
}
use prisma_engine.Sql.Differ.{CreateTable}
use prisma_engine.Sql.Inferrer.{
  is_delayed, delayed_columns, without_delayed, column_eq, option_eq, bool_eq,
}
use prisma_engine.Sql.Columns.{occurrences, occurrences-append}

-- The derived equality of columns.
option_eq_refl : (o : Option String) → option_eq o o ≡ true
option_eq_refl none = refl
option_eq_refl (some x) = str_refl x

bool_eq_refl : (b : Bool) → bool_eq b b ≡ true
bool_eq_refl true = refl
bool_eq_refl false = refl

column_eq_refl : (c : Column) → column_eq c c ≡ true
unfolding column_eq
column_eq_refl c =
    rw
      (
        str_refl c.name,
        str_refl c.tpe.raw,
        nat_eq_refl (family_index c.tpe.family),
        nat_eq_refl (arity_index c.arity),
        option_eq_refl c.default,
        bool_eq_refl c.auto_increment,
      )
      refl

column_eq-name : (c d : Column) → column_eq c d ≡ true → c.name ≡ d.name
unfolding column_eq
column_eq-name c d h = (eq_iff c.name d.name).0 (ground arith)

module _ {A : Type 0} (p : A → Bool) where
  any-filter_elim :
      (q : A → Bool) (b : Bool)
      → ((e : A) → p e ≡ true → q e ≡ true → b ≡ true)
      → (xs : List A) → any q (filter p xs) ≡ true
      → b ≡ true
  unfolding any filter
  any-filter_elim q b follows [] h = absurd cc
  any-filter_elim q b follows (x ∷ xs) h =
      let here = follows x in let ih = any-filter_elim q b follows xs in ground (arith, here, ih)

  any-filter_mem :
      (q : A → Bool) (xs : List A) (x : A)
      → Memᴰ x xs
      → p x ≡ true
      → q x ≡ true
      → any q (filter p xs) ≡ true
  unfolding any filter
  any-filter_mem q [] x m h k = elim m [ ]
  any-filter_mem q (y ∷ ys) x (head e) h k =
      let h1 : p y ≡ true = ap p (sym e) ∙ h in
      let k1 : q y ≡ true = ap q (sym e) ∙ k in ground arith
  any-filter_mem q (y ∷ ys) x (tail m) h k =
      let ih = any-filter_mem q ys x m h k in ground (arith, ih)

  filter-cong_mem :
      (q : A → Bool) (xs : List A) → ((x : A) → Memᴰ x xs → q x ≡ p x) → filter q xs ≡ filter p xs
  unfolding filter
  filter-cong_mem q [] same = refl
  filter-cong_mem q (x ∷ xs) same =
      let here = same x (head refl) in
      let ih = filter-cong_mem q xs (λ y m. same y (tail m)) in ground (arith, here, ih)

  -- A filter and its complement have every name as often as the list.
  occurrences-filter :
      (name : A → String) (n : String) (xs : List A)
      → occurrences n (map name (filter (λ x. not (p x)) xs))
          + occurrences n (map name (filter p xs))
        ≡ occurrences n (map name xs)
  unfolding occurrences filter
  occurrences-filter name n [] = omega arith
  occurrences-filter name n (x ∷ xs) = let ih = occurrences-filter name n xs in ground (arith, ih)

module _ (made : List String) where
  is_delayed-name :
      (t : Table) (c d : Column) → c.name ≡ d.name → is_delayed made t c ≡ is_delayed made t d
  unfolding is_delayed
  is_delayed-name t c d same =
      ap
        (λ n. elim (foreign_key_for_column t n) [
          | none ↦ false
          | some fk ↦
              contains made fk.referenced_table
              && (not (is_part_of_primary_key t n) && not (starts_with t.name "_"))
        ])
        same

  -- The columns that stay are those that are not delayed.
  pub without_delayed_lem :
      (c : CreateTable)
      → (without_delayed made c).table.columns
        ≡ filter (λ d. not (is_delayed made c.table d)) c.table.columns
  unfolding without_delayed delayed_columns
  without_delayed_lem c =
      filter-cong_mem (λ d. not (is_delayed made c.table d))
        (λ d. not (any (λ e. column_eq e d) (filter (is_delayed made c.table) c.table.columns)))
        c.table.columns (λ d m. ap not (among d m))
    where
      among :
          (d : Column)
          → Memᴰ d c.table.columns
          → any (λ e. column_eq e d) (filter (is_delayed made c.table) c.table.columns)
            ≡ is_delayed made c.table d
      among d m =
          let to =
            any-filter_elim (is_delayed made c.table) (λ e. column_eq e d)
              (is_delayed made c.table d)
              (λ e h k. is_delayed-name c.table d e (sym (column_eq-name e d k)) ∙ h)
              c.table.columns in
          let from =
            any-filter_mem (is_delayed made c.table) (λ e. column_eq e d) c.table.columns d m in
          let self = column_eq_refl d in ground (arith, to, from, self)

  pub occurrences-delayed :
      (c : CreateTable) (n : String)
      → occurrences n (
          map (λ d. d.name) (without_delayed made c).table.columns
          ++ map (λ d. d.name) (delayed_columns made c.table))
        ≡ occurrences n (map (λ d. d.name) c.table.columns)
  unfolding delayed_columns
  occurrences-delayed c n = rw (without_delayed_lem c) (
      occurrences-append n
        (map (λ d. d.name) (filter (λ d. not (is_delayed made c.table d)) c.table.columns))
        (map (λ d. d.name) (filter (is_delayed made c.table) c.table.columns))
      ∙ occurrences-filter (is_delayed made c.table) (λ d. d.name) n c.table.columns)
