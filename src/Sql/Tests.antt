-- ===== src/Sql/Tests.antt =====
-- Tests of the differ of database schemas
-- (migration-engine/connectors/sql-migration-connector/src/sql_schema_differ.rs).
use prisma_engine.Base.{◌≡◌, refl, some, [], ◌∷◌, map}
use prisma_engine.Sql.Schema.{SqlSchema, has_table, has_column, contains}
use prisma_engine.Sql.Differ.{
  into_steps, diff, create_table, alter_table, create_index, drop_index, alter_index, add_column,
  drop_column, table_changes,
}
use prisma_engine.Sql.Tables.{
  tables_after, columns_after, tables_after-diff, columns_after-table_changes,
}
use prisma_engine.Sql.Unchanged.{into_steps-diff_self}
use prisma_engine.Sql.Steps.{run_steps}
use prisma_engine.Sql.Ordered.{run_steps-diff}
use prisma_engine.Sql.Samples.{run, int_column, index_on, user, post, with_tables, before, after}

-- What is dropped comes first, and an index after its table.
steps_between :
    into_steps (diff before after)
    ≡ drop_index (record { table = "User"; name = "by_age" })
      ∷ create_table (record { table = post (index_on "by_user" "user" ∷ []) })
      ∷ alter_table (record {
        table = user (int_column "id" ∷ int_column "size" ∷ []) [];
        changes = drop_column "age" ∷ add_column (int_column "size") ∷ [];
      })
      ∷ create_index (record { table = "Post"; index = index_on "by_user" "user" })
      ∷ []
unfolding run
steps_between = refl

-- Two indexes with the same columns and type are each renamed to the name of the other, in a schema
-- that has not changed.
abbrev twins : SqlSchema
twins = with_tables (user (int_column "id" ∷ []) (index_on "a" "id" ∷ index_on "b" "id" ∷ []) ∷ [])

twins_renamed :
    into_steps (diff twins twins)
    ≡ alter_index (record { table = "User"; index_name = "a"; index_new_name = "b" })
      ∷ alter_index (record { table = "User"; index_name = "b"; index_new_name = "a" })
      ∷ []
unfolding run
twins_renamed = refl

-- The new index "by_id" of "Post" is not created, as an index of "User" is renamed to that name.
abbrev one_index : SqlSchema
one_index = with_tables (user (int_column "id" ∷ []) (index_on "old" "id" ∷ []) ∷ post [] ∷ [])

abbrev two_indexes : SqlSchema
two_indexes = with_tables (
    user (int_column "id" ∷ []) (index_on "by_id" "id" ∷ [])
    ∷ post (index_on "by_id" "id" ∷ [])
    ∷ [])

index_missed :
    into_steps (diff one_index two_indexes)
    ≡ alter_index (record { table = "User"; index_name = "old"; index_new_name = "by_id" }) ∷ []
unfolding run
index_missed = refl

tables_after-diff_example :
    contains (tables_after (map (λ t. t.name) before.tables) (diff before after)) "Post"
    ≡ has_table after "Post"
tables_after-diff_example = tables_after-diff before after "Post"

columns_after-table_changes_example :
    contains
      (columns_after ("id" ∷ "age" ∷ []) (
        table_changes
          (user (int_column "id" ∷ int_column "age" ∷ []) [])
          (user (int_column "size" ∷ []) [])))
      "size"
    ≡ has_column (user (int_column "size" ∷ []) []) "size"
columns_after-table_changes_example =
    columns_after-table_changes (user (int_column "id" ∷ int_column "age" ∷ []) [])
      (user (int_column "size" ∷ []) []) "size"

into_steps-diff_self_example : into_steps (diff after after) ≡ []
unfolding run
into_steps-diff_self_example = into_steps-diff_self after refl refl refl

run_steps-diff_example :
    run_steps ("User" ∷ []) (into_steps (diff before after))
    ≡ some (tables_after ("User" ∷ []) (diff before after))
unfolding run
run_steps-diff_example = run_steps-diff before after (λ h. absurd cc) refl
