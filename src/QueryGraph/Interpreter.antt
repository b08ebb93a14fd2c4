-- ===== src/QueryGraph/Interpreter.antt =====
-- The expressions that a query graph is translated to, and their interpreter
-- (query-engine/core/src/interpreter/expression.rs, interpreter.rs beside it). A query, its result and
-- its execution on the database are parameters, and so is an error. The expressions that an expression
-- holds, and what the function of one gives, are data types of their own. The environment is an
-- association list, whose first entry of a name counts. The log is left out.
use prisma_engine.Base.{
  String, Bool, Option, List, ◌∷◌, ◌==◌, find?, find_map, if◌then◌else◌, Outcome, ok, err, panic,
  ok_or, unwrap, and_with,
}
use mathlib.Core.Option

pub data ExpressionResult (R : Type 0) : Type 0 where
  query_result : R → ExpressionResult R
  nothing : ExpressionResult R

abbrev pub Env : Type 0 → Type 0
Env R = List (String × ExpressionResult R)

unfoldable pub get_env : {R : Type 0} → Env R → String → Option (ExpressionResult R)
get_env env key = Option.map (λ b. b.1) (find? (λ b. b.0 == key) env)

unfoldable pub insert_env : {R : Type 0} → Env R → String → ExpressionResult R → Env R
insert_env env key value = (key, value) ∷ env

-- `Env::remove`, on an environment that is dropped then.
unfoldable pub remove_env :
    {E R : Type 0} → (String → E) → Env R → String → Outcome E (ExpressionResult R)
remove_env not_found env key = ok_or (not_found key) (get_env env key)

mutual
  pub data Expression (E Query R : Type 0) : Type 0 where
    sequence : Sequence E Query R → Expression E Query R
    func : (Env R → Program E Query R) → Expression E Query R
    query : Query → Expression E Query R
    let_in : Bindings E Query R → Sequence E Query R → Expression E Query R
    get : String → Expression E Query R
    get_first_non_empty : List String → Expression E Query R
    if_else : (Unit {0} → Bool) → Sequence E Query R → Sequence E Query R → Expression E Query R

  pub data Sequence (E Query R : Type 0) : Type 0 where
    done : Sequence E Query R
    next : Expression E Query R → Sequence E Query R → Sequence E Query R

  pub data Bindings (E Query R : Type 0) : Type 0 where
    end : Bindings E Query R
    bind : String → Expression E Query R → Bindings E Query R → Bindings E Query R

  pub data Program (E Query R : Type 0) : Type 0 where
    built : Expression E Query R → Program E Query R
    failed : E → Program E Query R
    crashed : Program E Query R

module _ {E Query R Db : Type 0} (not_found : String → E)
    (execute : Query → Db → Outcome E R × Db) where
  unfoldable pub first_bound : List String → Env R → Outcome E (ExpressionResult R)
  first_bound names env = unwrap (find_map (get_env env) names)

  unfoldable mutual
    pub interpret : Expression E Query R → Env R → Db → Outcome E (ExpressionResult R) × Db
    interpret (sequence s) env db = interpret_sequence s nothing env db
    interpret (func f) env db = interpret_program (f env) env db
    interpret (query q) env db = and_with (execute q db) λ r db. (ok (query_result r), db)
    interpret (let_in bindings expressions) env db =
        and_with (interpret_bindings bindings env env db)
          λ inner_env db. interpret_sequence expressions nothing inner_env db
    interpret (get name) env db = (remove_env not_found env name, db)
    interpret (get_first_non_empty names) env db = (first_bound names env, db)
    interpret (if_else f then_ else_) env db =
        let yes = interpret_sequence then_ nothing env db in
        let no = interpret_sequence else_ nothing env db in if f tt then yes else no

    -- The expressions in order; the last result counts, and none makes it `nothing`.
    pub interpret_sequence :
        Sequence E Query R → ExpressionResult R → Env R → Db → Outcome E (ExpressionResult R) × Db
    interpret_sequence done last env db = (ok last, db)
    interpret_sequence (next e s) last env db =
        and_with (interpret e env db) λ result db. interpret_sequence s result env db

    -- Each binding is interpreted in the outer environment, and goes into the inner one.
    pub interpret_bindings : Bindings E Query R → Env R → Env R → Db → Outcome E (Env R) × Db
    interpret_bindings end env inner_env db = (ok inner_env, db)
    interpret_bindings (bind name e rest) env inner_env db =
        and_with (interpret e env db)
          λ result db. interpret_bindings rest env (insert_env inner_env name result) db

    pub interpret_program : Program E Query R → Env R → Db → Outcome E (ExpressionResult R) × Db
    interpret_program (built e) env db = interpret e env db
    interpret_program (failed e) env db = (err e, db)
    interpret_program crashed env db = (panic, db)
