-- ===== src/QueryGraph/Transformers.antt =====
-- The functions on the edges of a query graph that change a node by the ids of a parent's result
-- (query-engine/core/src/interpreter/expressionista.rs, transform_node and
-- collect_parent_transformers), and the errors of the interpreter
-- (query-engine/core/src/interpreter/error.rs). Queries, results with their ids and the errors of
-- other parts are parameters.
use Prim.Native.String.{◌++◌}
use prisma_engine.Base.{
  map_err, ℕ, String, Option, none, some, List, [], ◌∷◌, Outcome, ok, err, panic, ◌>>=◌, ok_or,
  and_with,
}
use prisma_engine.QueryGraph.Inner.{Petgraph}
use prisma_engine.QueryGraph.{
  Guard, Node, QueryGraphDependency, execution_order, parent_ids, then_edge, else_edge,
  QueryGraphError, query_try_from, id,
}
use prisma_engine.QueryGraph.Edges.{Graph, edge_source, pluck_edge}
use prisma_engine.QueryGraph.Interpreter.{
  ExpressionResult, query_result, nothing, Env, get_env, Expression, query as query_expression,
  func, Program, built, failed, crashed,
}

-- The types and functions of other parts: queries with their text, results with their ids (where the
-- source says that it always selects ids, and unwraps), values, and the errors of the models, of the
-- builder of the graph and of the connector.
pub record Parts : Type 1 where
  pub Query : Type 0
  pub QueryResult : Type 0
  pub PrismaValue : Type 0
  pub DomainError : Type 0
  pub QueryGraphBuilderError : Type 0
  pub ConnectorError : Type 0
  pub query_text : Query → String
  pub ids_of : QueryResult → Option (List PrismaValue)

unfoldable pub program : {E Q R : Type 0} → Outcome E (Expression E Q R) → Program E Q R
program (ok e) = built e
program (err e) = failed e
program panic = crashed

module _ (K : Parts) where
  pub data InterpreterError : Type 0 where
    env_var_not_found : String → InterpreterError
    domain_error : K.DomainError → InterpreterError
    interpretation_error : String → InterpreterError
    query_graph_error : QueryGraphError → InterpreterError
    query_graph_builder_error : K.QueryGraphBuilderError → InterpreterError
    connector_error : K.ConnectorError → InterpreterError
    generic : String → InterpreterError

  abbrev pub InterpretationResult : Type 0 → Type 0
  InterpretationResult A = Outcome InterpreterError A

  abbrev pub Expr : Type 0
  Expr = Expression InterpreterError K.Query K.QueryResult

  abbrev pub ParentIdsFn : Type 0
  ParentIdsFn = Node K.Query → List K.PrismaValue → Outcome K.QueryGraphBuilderError (Node K.Query)

  unfoldable pub as_ids : ExpressionResult K.QueryResult → Option (List K.PrismaValue)
  as_ids (query_result r) = K.ids_of r
  as_ids nothing = none

  -- The ids of the result that is bound to the name of the parent.
  unfoldable pub parent_binding_ids :
      Env K.QueryResult → String → InterpretationResult (List K.PrismaValue)
  parent_binding_ids env parent_binding_name =
      ok_or
        (env_var_not_found
          ("Expected parent binding '" ++ (parent_binding_name ++ "' to be present.")))
        (get_env env parent_binding_name)
      >>= λ binding.
          ok_or
            (interpretation_error (
              "Invalid parent result: Unable to transform binding '"
              ++ (parent_binding_name ++ "' into a set of IDs.")))
            (as_ids binding)

  -- `try_fold` over the functions, in order.
  unfoldable pub run_transformers :
      Env K.QueryResult
      → List (String × ParentIdsFn)
      → Node K.Query
      → InterpretationResult (Node K.Query)
  run_transformers env [] node = ok node
  run_transformers env ((parent_binding_name, f) ∷ rest) node =
      parent_binding_ids env parent_binding_name >>= λ ids.
      map_err query_graph_builder_error (f node ids) >>= λ next_node.
      run_transformers env rest next_node

  -- `into_expr` of a query.
  unfoldable pub query_into_expr : Node K.Query → InterpretationResult Expr
  query_into_expr node =
      map_err query_graph_error (query_try_from K.query_text node) >>= λ q. ok (query_expression q)

  -- Without a function of a parent, the expression is made directly.
  unfoldable pub transformed :
      List (String × ParentIdsFn)
      → Node K.Query
      → (Node K.Query → InterpretationResult Expr)
      → InterpretationResult Expr
  transformed [] node into_expr = into_expr node
  transformed (dep ∷ deps) node into_expr =
      ok (func λ env. program (run_transformers env (dep ∷ deps) node >>= into_expr))

module _ (K : Parts)
    (P : Petgraph (Guard (Node K.Query)) (Guard (QueryGraphDependency (ParentIdsFn K)))) where
  abbrev pub Plucked : Type 0 → Type 0
  Plucked A = InterpretationResult K A × Graph P

  -- A result of the query graph, with its error converted.
  unfoldable pub lifted : {A : Type 0} → Outcome QueryGraphError A × Graph P → Plucked A
  lifted r = (map_err query_graph_error r.0, r.1)

  unfoldable pub parent_transformer :
      QueryGraphDependency (ParentIdsFn K)
      → ℕ
      → Graph P
      → InterpretationResult K (Option (String × ParentIdsFn K))
  parent_transformer (parent_ids f) edge g =
      map_err query_graph_error (edge_source P g edge) >>= λ source. ok (some (id source, f))
  parent_transformer execution_order edge g = ok none
  parent_transformer then_edge edge g = ok none
  parent_transformer else_edge edge g = ok none

  unfoldable pub collect_parent_transformers :
      List ℕ → Graph P → Plucked (List (String × ParentIdsFn K))
  collect_parent_transformers [] g = (ok [], g)
  collect_parent_transformers (edge ∷ edges) g =
      and_with (lifted (pluck_edge P g edge)) λ content g.
        and_with (parent_transformer content edge g, g)
          λ found g.
            and_with (collect_parent_transformers edges g)
              λ more g. (ok (elim found [ none ↦ more | some t ↦ t ∷ more ]), g)

  unfoldable pub transform_node :
      List ℕ
      → Node K.Query
      → (Node K.Query → InterpretationResult K (Expr K))
      → Graph P
      → Plucked (Expr K)
  transform_node [] node into_expr g = (into_expr node, g)
  transform_node (edge ∷ edges) node into_expr g =
      and_with (collect_parent_transformers (edge ∷ edges) g)
        λ deps g. (transformed K deps node into_expr, g)
