-- ===== src/QueryGraph/Runs.antt =====
-- The run of the functions of a node's parents on the node
-- (query-engine/core/src/interpreter/expressionista.rs, transform_node), as a relation.
use Prim.Native.String.{◌++◌}
use prisma_engine.Base.{
  String, ◌≡◌, refl, none, some, List, [], ◌∷◌, inl, inr, Option-cases, Outcome, ok, err, panic,
  ◌>>=◌, map_err,
}
use prisma_engine.QueryGraph.{Node}
use prisma_engine.QueryGraph.Interpreter.{ExpressionResult, Env, get_env}
use prisma_engine.QueryGraph.Transformers.{
  Parts, env_var_not_found, interpretation_error, query_graph_builder_error, InterpretationResult,
  ParentIdsFn, as_ids, parent_binding_ids, run_transformers,
}

module _ (K : Parts) (env : Env K.QueryResult) where
  -- The ids that are bound to a name.
  abbrev pub HasIds : String → List K.PrismaValue → Type 0
  HasIds name ids =
      (r : ExpressionResult K.QueryResult) × (get_env env name ≡ some r) × (as_ids K r ≡ some ids)

  -- The run of functions on a node, the first of the list first, and how it ends: with the node after
  -- the last one, or at the first function whose parent is not bound or has no ids, or which fails.
  pub data Runs
      : List (String × ParentIdsFn K)
        → Node K.Query
        → InterpretationResult K (Node K.Query)
        → Type 0 where
    finished : {node : Node K.Query} → Runs [] node (ok node)
    changed :
        {name : String} {f : ParentIdsFn K} {rest : List (String × ParentIdsFn K)}
        {node next_node : Node K.Query} {ids : List K.PrismaValue}
        {end : InterpretationResult K (Node K.Query)}
        → HasIds name ids
        → f node ids ≡ ok next_node
        → Runs rest next_node end
        → Runs ((name, f) ∷ rest) node end
    refused :
        {name : String} {f : ParentIdsFn K} {rest : List (String × ParentIdsFn K)}
        {node : Node K.Query} {ids : List K.PrismaValue} {e : K.QueryGraphBuilderError}
        → HasIds name ids
        → f node ids ≡ err e
        → Runs ((name, f) ∷ rest) node (err (query_graph_builder_error e))
    crashed_in :
        {name : String} {f : ParentIdsFn K} {rest : List (String × ParentIdsFn K)}
        {node : Node K.Query} {ids : List K.PrismaValue}
        → HasIds name ids
        → f node ids ≡ panic
        → Runs ((name, f) ∷ rest) node panic
    unbound :
        {name : String} {f : ParentIdsFn K} {rest : List (String × ParentIdsFn K)}
        {node : Node K.Query}
        → get_env env name ≡ none
        → Runs
            ((name, f) ∷ rest)
            node
            (err (env_var_not_found ("Expected parent binding '" ++ (name ++ "' to be present."))))
    without_ids :
        {name : String} {f : ParentIdsFn K} {rest : List (String × ParentIdsFn K)}
        {node : Node K.Query} {r : ExpressionResult K.QueryResult}
        → get_env env name ≡ some r
        → as_ids K r ≡ none
        → Runs ((name, f) ∷ rest) node (
            err (
              interpretation_error (
                "Invalid parent result: Unable to transform binding '"
                ++ (name ++ "' into a set of IDs."))))

  -- The fold is such a run.
  pub run_transformers-Runs :
      (deps : List (String × ParentIdsFn K)) (node : Node K.Query)
      → Runs deps node (run_transformers K env deps node)
  unfolding run_transformers parent_binding_ids
  run_transformers-Runs [] node = finished
  run_transformers-Runs ((name, f) ∷ rest) node = elim (Option-cases (get_env env name)) [
    | inl e ↦ rw e (unbound e)
    | inr (r, e) ↦ elim (Option-cases (as_ids K r)) [
      | inl k ↦ rw (e, k) (without_ids e k)
      | inr (ids, k) ↦
          rw (e, k) (applied (r, e, k) (f node ids) refl (λ n. run_transformers-Runs rest n))
    ]
  ]
    where
      applied :
          {ids : List K.PrismaValue}
          → HasIds name ids
          → (o : Outcome K.QueryGraphBuilderError (Node K.Query)) → f node ids ≡ o
          → ((n : Node K.Query) → Runs rest n (run_transformers K env rest n))
          → Runs ((name, f) ∷ rest) node (
              map_err query_graph_builder_error o >>= λ next_node.
              run_transformers K env rest next_node)
      applied ids_of (ok n) e ih = changed ids_of e (ih n)
      applied ids_of (err x) e ih = refused ids_of e
      applied ids_of panic e ih = crashed_in ids_of e
