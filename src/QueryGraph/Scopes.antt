-- ===== src/QueryGraph/Scopes.antt =====
-- What an expression of bindings gives that ends by asking for the first binding that is not empty
-- (query-engine/core/src/interpreter/interpreter.rs).
use prisma_engine.Base.{
  String, Bool, false, ◌≡◌, ap, ◌∙◌, Option, none, some, List, ◌∷◌, ◌==◌, ◌||◌, arith, find?,
  find_map, eq_iff, Outcome, ok, unwrap, and_with, and_with-chain, and_with-scope,
}
use prisma_engine.QueryGraph.Interpreter.{
  ExpressionResult, nothing, Env, get_env, insert_env, Expression, Bindings, get_first_non_empty,
  let_in, done, next, end, bind, interpret, interpret_sequence, interpret_bindings, first_bound,
}

unfoldable pub binds : {E Query R : Type 0} → String → Bindings E Query R → Bool
binds name end = false
binds name (bind other e rest) = (other == name) || binds name rest

pub get_env-insert_env_same :
    {R : Type 0} (env : Env R) (name : String) (value : ExpressionResult R)
    → get_env (insert_env env name value) name ≡ some value
unfolding get_env insert_env find?
get_env-insert_env_same env name value = let same = eq_iff name name in ground arith

get_env-insert_env_other :
    {R : Type 0} (env : Env R) (name other : String) (value : ExpressionResult R)
    → (other == name) ≡ false
    → get_env (insert_env env other value) name ≡ get_env env name
unfolding get_env insert_env find?
get_env-insert_env_other env name other value differ = ground arith

module _ {E Query R Db : Type 0} (not_found : String → E)
    (execute : Query → Db → Outcome E R × Db) where
  first_bound_lem :
      (name : String) (names : List String) (env : Env R) (result : ExpressionResult R)
      → get_env env name ≡ some result
      → first_bound not_found execute (name ∷ names) env ≡ ok result
  unfolding first_bound find_map
  first_bound_lem name names env result found =
      ap
        (λ (o : Option (ExpressionResult R)).
          unwrap {E = E}
            (let rest = find_map (get_env env) names in elim o [ none ↦ rest | some y ↦ some y ]))
        found

  -- The bindings that follow do not bind the name, so it keeps its value to the end.
  kept_to_end :
      (name : String) (names : List String) (rest : Bindings E Query R)
      → binds name rest ≡ false
      → (env inner other : Env R) (result : ExpressionResult R) → get_env inner name ≡ some result
      → (db : Db)
      → and_with (interpret_bindings not_found execute rest env inner db) (λ scope db.
        interpret_sequence not_found execute
          (next (get_first_non_empty (name ∷ names)) done)
          nothing
          scope
          db)
        ≡ and_with
            (interpret_bindings not_found execute rest env other db)
            (λ _ db. (ok result, db))
  unfolding interpret binds
  kept_to_end name names end absent env inner other result found db =
      ap
        (λ (o : Outcome E (ExpressionResult R)).
          and_with (o, db) λ r db. interpret_sequence not_found execute done r inner db)
        (first_bound_lem name names inner result found)
  kept_to_end name names (bind key e rest) absent env inner other result found db =
      let differ : (key == name) ≡ false = ground arith in
      let later : binds name rest ≡ false = ground arith in
      and_with-chain (interpret not_found execute e env db)
        (λ (r : ExpressionResult R) (db : Db).
          interpret_bindings not_found execute rest env (insert_env inner key r) db)
        (λ (r : ExpressionResult R) (db : Db).
          interpret_bindings not_found execute rest env (insert_env other key r) db)
        _ _
        λ r db.
          kept_to_end name names rest later env (insert_env inner key r) (insert_env other key r)
            result (get_env-insert_env_other inner name key r differ ∙ found) db

  -- Bindings, with GetFirstNonEmpty on the name of the first of them and any other names, whose first name
  -- is not bound again by the others: when every binding gives a result, the result of the first one is
  -- given, even if it is empty; otherwise the first failure is given, and the bindings after it are not
  -- interpreted.
  pub let_in-get_first_non_empty :
      (name : String) (e : Expression E Query R) (rest : Bindings E Query R) (names : List String)
      → binds name rest ≡ false
      → (env : Env R) (db : Db)
      → interpret not_found execute
          (let_in (bind name e rest) (next (get_first_non_empty (name ∷ names)) done))
          env
          db
        ≡ and_with (interpret not_found execute e env db) λ result db.
          and_with (interpret_bindings not_found execute rest env env db) λ _ db. (ok result, db)
  unfolding interpret
  let_in-get_first_non_empty name e rest names absent env db =
      and_with-scope (interpret not_found execute e env db)
        (λ (r : ExpressionResult R) (db : Db).
          interpret_bindings not_found execute rest env (insert_env env name r) db)
        _
        λ r db.
          kept_to_end name names rest absent env (insert_env env name r) env r
            (get_env-insert_env_same env name r) db
