-- ===== src/Sql/Sqlite.antt =====
-- A table that is changed by making it anew
-- (migration-engine/connectors/sql-migration-connector/src/sql_database_migration_inferrer.rs, fix and
-- fix_stupid_sqlite).
use Prim.Native.String.{◌++◌ as join_text}
use mathlib.Core.Path.{subst}
use prisma_engine.Base.{
  String, Bool, true, false, not, ◌&&◌, ◌||◌, some, List, [], ◌∷◌, ◌++◌, ◌==◌, ◌≡◌, refl, sym, ◌∙◌,
  arith, any, map, filter, Bool-cases, inl, inr, ◌⊎◌, str_refl, eq_of_str_eq,
}
use prisma_engine.Sql.Schema.{Table, contains}
use prisma_engine.Sql.Differ.{create_index}
use prisma_engine.Sql.Inferrer.{fix}
use prisma_engine.Sql.Names.{contains-append, contains-filter}
use prisma_engine.Sql.Made.{all-passed}
use prisma_engine.Sql.Steps.{run_steps, tables_after_step, run_steps-append, run_steps-checks}

-- The names of the tables along the steps: with the new table beside the others, without the old one,
-- and with the new one under its own name.
abbrev beside : List String → String → List String
beside names new = names ++ new ∷ []

abbrev dropped : String → List String → List String
dropped old names = filter (λ n. not (old == n)) names

abbrev renamed : String → String → List String → List String
renamed new name names = dropped new names ++ name ∷ []

abbrev fixed : List String → String → String → List String
fixed names new name = renamed new name (dropped name (beside names new))

fixed_algebra :
    (is_new is_name old : Bool)
    → (is_name ≡ true → old ≡ true)
    → (is_new ≡ true → old ≡ false)
    → ((not is_new && (not is_name && (old || (is_new || false)))) || (is_name || false)) ≡ old
fixed_algebra true true old h k = sym (h refl)
fixed_algebra true false old h k = sym (k refl)
fixed_algebra false true old h k = sym (h refl)
fixed_algebra false false old h k = ground arith

-- The names are those from before, when no table has the name of the new one.
contains-fixed :
    (names : List String) (new name n : String)
    → contains names name ≡ true
    → contains names new ≡ false
    → contains (fixed names new name) n ≡ contains names n
unfolding contains any
contains-fixed names new name n here absent =
    contains-append (dropped new (dropped name (beside names new))) (name ∷ []) n
    ∙ rw
        (
          contains-filter (λ m. not (new == m)) (dropped name (beside names new)) n,
          contains-filter (λ m. not (name == m)) (beside names new) n,
          contains-append names (new ∷ []) n,
        )
        (fixed_algebra (new == n) (name == n) (contains names n)
          (λ e. subst (λ m. contains names m ≡ true) (eq_of_str_eq name n e) here)
          (λ e. subst (λ m. contains names m ≡ false) (eq_of_str_eq new n e) absent))

-- Dropping the old table and renaming the new one find their tables.
module _ (names : List String) (new name : String) (here : contains names name ≡ true)
    (absent : contains names new ≡ false) where
  old_is_there : contains (beside names new) name ≡ true
  old_is_there = contains-append names (new ∷ []) name ∙ rw here refl

  new_is_there : contains (dropped name (beside names new)) new ≡ true
  unfolding contains any
  new_is_there =
      contains-filter (λ m. not (name == m)) (beside names new) new
      ∙ rw
          (
            apart (Bool-cases (name == new)),
            contains-append names (new ∷ []) new,
            absent,
            str_refl new,
          )
          refl
    where
      apart : (name == new ≡ true) ⊎ (name == new ≡ false) → (name == new) ≡ false
      apart (inl e) =
          absurd
            (clash (subst (λ m. contains names m ≡ true) (eq_of_str_eq name new e) here) absent)
        where
          clash : contains names new ≡ true → contains names new ≡ false → ⊥
          clash h k = cc
      apart (inr e) = e

  final_is_there : contains (fixed names new name) name ≡ true
  final_is_there = contains-fixed names new name name here absent ∙ here

-- A table that is made anew is there in the end under its name with the others, and each step finds the
-- table that it is about, if the table is there before, keeps its name, and no table has the name of
-- the temporary one.
pub run_steps-fix :
    (current next : Table) (schema_name : String) (names : List String)
    → current.name ≡ next.name
    → contains names next.name ≡ true
    → contains names (join_text "new_" next.name) ≡ false
    → (rest : List String) × (run_steps names (fix current next schema_name) ≡ some rest)
      × ((n : String) → contains rest n ≡ contains names n)
unfolding fix run_steps tables_after_step
run_steps-fix current next schema_name names same here absent =
    let new : String = join_text "new_" next.name in
    (
      fixed names (join_text "new_" next.name) next.name,
      rw
          (
            same,
            old_is_there names new next.name here absent,
            tables_after_step,
            new_is_there names new next.name here absent,
          )
          (run_steps-append (fixed names new next.name)
            (map (λ i. create_index (record { table = next.name; index = i })) next.indices) _
            (run_steps-checks (λ i. create_index (record { table = next.name; index = i }))
              (λ _. next.name) (fixed names new next.name) (λ i h. rw h refl) next.indices
              (all-passed (λ _. contains (fixed names new next.name) next.name)
                (λ _. final_is_there names new next.name here absent) next.indices))),
      λ n. contains-fixed names (join_text "new_" next.name) next.name n here absent,
    )
