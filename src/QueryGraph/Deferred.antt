-- ===== src/QueryGraph/Deferred.antt =====
-- What the expressions of the translation give when they are interpreted
-- (query-engine/core/src/interpreter/expressionista.rs, interpreter.rs beside it): a query around the
-- expressions of its children, and a node that its parents change.
use prisma_engine.Base.{
  String, true, ◌≡◌, refl, sym, ap, ◌∙◌, Option, some, List, [], ◌∷◌, ◌++◌, Outcome, ok, err, panic,
  ◌>>=◌, and_with, and_with-scope, ok_or,
}
use prisma_engine.QueryGraph.{Node}
use prisma_engine.QueryGraph.Interpreter.{
  ExpressionResult, nothing, Env, get_env, insert_env, remove_env, Expression, get, done, interpret,
  interpret_sequence, interpret_program,
}
use prisma_engine.QueryGraph.Scopes.{get_env-insert_env_same}
use prisma_engine.QueryGraph.Transformers.{
  Parts, InterpreterError, env_var_not_found, InterpretationResult, Expr, ParentIdsFn, program,
  run_transformers, transformed,
}
use prisma_engine.QueryGraph.Runs.{Runs, run_transformers-Runs}
use prisma_engine.QueryGraph.Expressionista.{sequence_of, scope_of}

and_with-result :
    {E S A : Type 0} (first : Outcome E A × S) → first ≡ and_with first λ a s. (ok a, s)
and_with-result (ok a, s) = refl
and_with-result (err e, s) = refl
and_with-result (panic, s) = refl

module _ {E Query R Db : Type 0} (not_found : String → E)
    (execute : Query → Db → Outcome E R × Db) where
  interpret_program_lem :
      (o : Outcome E (Expression E Query R)) (env : Env R) (db : Db)
      → interpret_program not_found execute (program o) env db
        ≡ and_with (o, db) λ e db. interpret not_found execute e env db
  unfolding interpret program
  interpret_program_lem (ok e) env db = refl
  interpret_program_lem (err e) env db = refl
  interpret_program_lem panic env db = refl

  -- The expressions, and then a binding of their environment.
  interpret_sequence-get :
      (es : List (Expression E Query R)) (name : String) (env : Env R)
      (result last : ExpressionResult R)
      → get_env env name ≡ some result
      → (db : Db)
      → interpret_sequence not_found execute (sequence_of (es ++ (get name ∷ []))) last env db
        ≡ and_with
            (interpret_sequence not_found execute (sequence_of es) last env db)
            λ _ db. (ok result, db)
  unfolding interpret sequence_of remove_env
  interpret_sequence-get [] name env result last found db =
      ap
        (λ (o : Option (ExpressionResult R)).
          and_with (ok_or (not_found name) o, db)
            λ r db. interpret_sequence not_found execute done r env db)
        found
  interpret_sequence-get (e ∷ es) name env result last found db = sym (
      and_with-scope (interpret not_found execute e env db)
        (λ (r : ExpressionResult R) (db : Db).
          interpret_sequence not_found execute (sequence_of es) r env db)
        _ λ r db. sym (interpret_sequence-get es name env result r found db))

  -- The expression of a result node with any expressions of its children: the expression of the node
  -- is interpreted first, the others after it in the environment with its result under its name, and
  -- the result of the node is what is given; the first failure is given otherwise.
  pub interpret-scope_of :
      (name : String) (expr : Expression E Query R) (es : List (Expression E Query R)) (env : Env R)
      (db : Db)
      → interpret not_found execute (scope_of true name expr es) env db
        ≡ and_with (interpret not_found execute expr env db) λ result db.
          and_with
            (interpret_sequence not_found execute
              (sequence_of es)
              nothing
              (insert_env env name result)
              db)
            λ _ db. (ok result, db)
  unfolding interpret scope_of sequence_of
  interpret-scope_of name expr [] env db = and_with-result (interpret not_found execute expr env db)
  interpret-scope_of name expr (e ∷ es) env db =
      and_with-scope (interpret not_found execute expr env db)
        (λ (r : ExpressionResult R) (db : Db). (ok (insert_env env name r), db)) _
        λ r db.
          interpret_sequence-get (e ∷ es) name (insert_env env name r) r nothing
            (get_env-insert_env_same env name r) db

module _ (K : Parts) {Db : Type 0}
    (execute : K.Query → Db → Outcome (InterpreterError K) K.QueryResult × Db) where
  -- If the translation of a node with the functions of its parents gives an expression, then the
  -- functions run on the node one after the other in their order, each on the ids that its parent's
  -- binding has; the interpretation of the expression gives what interpreting the expression of the
  -- node after the last function gives, or the failure of the first function that is refused, with the
  -- database as it was.
  pub interpret-transformed :
      (deps : List (String × ParentIdsFn K)) (node : Node K.Query)
      (into_expr : Node K.Query → InterpretationResult K (Expr K)) (expr : Expr K)
      → transformed K deps node into_expr ≡ ok expr
      → (env : Env K.QueryResult) (db : Db)
      → (end : InterpretationResult K (Node K.Query)) × Runs K env deps node end
        × (interpret env_var_not_found execute expr env db
            ≡ and_with (end >>= into_expr, db) λ e db. interpret env_var_not_found execute e env db)
  unfolding interpret transformed run_transformers
  interpret-transformed [] node into_expr expr same env db = (
    ok node,
    run_transformers-Runs K env [] node,
    ap
        (λ (o : InterpretationResult K (Expr K)).
          and_with (o, db) λ e db. interpret env_var_not_found execute e env db)
        (sym same),
  )
  interpret-transformed (dep ∷ deps) node into_expr expr same env db = (
    run_transformers K env (dep ∷ deps) node,
    run_transformers-Runs K env (dep ∷ deps) node,
    ap
          (λ (o : InterpretationResult K (Expr K)).
            and_with (o, db) λ e db. interpret env_var_not_found execute e env db)
          (sym same)
        ∙ interpret_program_lem env_var_not_found execute
            (run_transformers K env (dep ∷ deps) node >>= into_expr) env db,
  )
