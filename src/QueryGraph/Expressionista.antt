-- ===== src/QueryGraph/Expressionista.antt =====
-- The translation of a query graph to an expression
-- (query-engine/core/src/interpreter/expressionista.rs). A node is translated before its content is
-- taken out, and its children before it. The walk has fuel, and so have the searches of the graph;
-- without fuel it gives `panic`, which stands for the stack that overflows. A function takes the
-- translation of the nodes below as `build`.
use mathlib.Core.List.{reverse}
use prisma_engine.Base.{
  map_err, ℕ, zero, suc, String, Bool, true, false, Option, none, some, List, [], ◌∷◌, map, ◌++◌,
  Outcome, ok, panic, ◌>>=◌, if◌then◌else◌, and_with, unwrap,
}
use prisma_engine.QueryGraph.Inner.{Petgraph}
use prisma_engine.QueryGraph.{
  Guard, Node, query, flow, Flow, if_flow, empty, QueryGraphDependency, execution_order, parent_ids,
  then_edge, else_edge, QueryGraphError, flow_try_from, id,
}
use prisma_engine.QueryGraph.Edges.{
  Graph, root_nodes, node_content, edge_content, edge_source, incoming_edges, child_pairs,
  is_result_node, pluck_edge, pluck_node,
}
use prisma_engine.QueryGraph.Walks.{direct_child_pairs, subgraph_contains_result}
use prisma_engine.QueryGraph.Interpreter.{
  Env, Expression, sequence, func, let_in, get, get_first_non_empty, if_else, Sequence, done, next,
  Bindings, end, bind,
}
use prisma_engine.QueryGraph.Split.{split_results}
use prisma_engine.QueryGraph.Transformers.{
  Parts, query_graph_error, query_graph_builder_error, InterpretationResult, Expr, ParentIdsFn,
  Plucked, program, lifted, parent_binding_ids, query_into_expr, transform_node,
}

unfoldable pub sequence_of : {E Q R : Type 0} → List (Expression E Q R) → Sequence E Q R
sequence_of [] = done
sequence_of (e ∷ es) = next e (sequence_of es)

unfoldable pub bindings_of : {E Q R : Type 0} → List (String × Expression E Q R) → Bindings E Q R
bindings_of [] = end
bindings_of ((name, e) ∷ bs) = bind name e (bindings_of bs)

-- A map that changes a state and may fail.
unfoldable pub traverse_with :
    {E S A B : Type 0} → (A → S → Outcome E B × S) → List A → S → Outcome E (List B) × S
traverse_with f [] s = (ok [], s)
traverse_with f (x ∷ xs) s =
    and_with (f x s) λ y s. and_with (traverse_with f xs s) λ ys s. (ok (y ∷ ys), s)

-- `Vec::pop`.
unfoldable pub pop : {A : Type 0} → List A → Option A
pop xs = elim (reverse xs) [ [] ↦ none | x ∷ _ ↦ some x ]

-- The expression of a query, around those of its children.
unfoldable pub scope_of :
    {E Q R : Type 0} → Bool → String → Expression E Q R → List (Expression E Q R) → Expression E Q R
scope_of is_result name expr [] = expr
scope_of is_result name expr (e ∷ es) =
    let_in (bind name expr end)
      (sequence_of ((e ∷ es) ++ (if is_result then (get name ∷ []) else [])))

module _ (K : Parts)
    (P : Petgraph (Guard (Node K.Query)) (Guard (QueryGraphDependency (ParentIdsFn K)))) where
  -- The translation of a node with the edges to it.
  abbrev pub Build : Type 0
  Build = ℕ → List ℕ → Graph P → Plucked K P (Expr K)

  -- A node that is reached by an edge, with all of the edges to it.
  unfoldable pub build_child : Build → ℕ × ℕ → Graph P → Plucked K P (Expr K)
  build_child build pair g = build pair.1 (incoming_edges P g pair.1) g

  unfoldable pub result_binding : Build → ℕ × ℕ → Graph P → Plucked K P (String × Expr K)
  result_binding build pair g =
      and_with (build_child build pair g) λ expr g. (ok (id pair.1, expr), g)

  unfoldable pub fold_result_scopes : Build → List (ℕ × ℕ) → Graph P → Plucked K P (Expr K)
  fold_result_scopes build result_subgraphs g =
      and_with (traverse_with (result_binding build) result_subgraphs g) λ bindings g. (
        ok (
            let_in (bindings_of bindings)
              (next (get_first_non_empty (map (λ b. b.0) bindings)) done)),
        g,
      )

  -- The expressions of the children: one for all of the results, behind the others.
  unfoldable pub child_expressions :
      Build → List (ℕ × ℕ) → List (ℕ × ℕ) → Graph P → Plucked K P (List (Expr K))
  child_expressions build [] others g = traverse_with (build_child build) others g
  child_expressions build (r ∷ rs) others g =
      and_with (traverse_with (build_child build) others g) λ expressions g.
        and_with (fold_result_scopes build (r ∷ rs) g)
          λ result_exp g. (ok (expressions ++ (result_exp ∷ [])), g)

  unfoldable pub build_query_expression : ℕ → Build → Build
  build_query_expression limit build node parent_edges g =
      and_with (lifted K P (direct_child_pairs P limit g node, g)) λ direct_children g.
        and_with
          (lifted K P (
            split_results (λ child. subgraph_contains_result P limit g child.1) direct_children,
            g,
          ))
          λ split g. and_with (child_expressions build split.0 split.1 g) λ expressions g.
            let is_result = is_result_node P g node in
            and_with (lifted K P (pluck_node P g node)) λ content g.
              and_with (transform_node K P parent_edges content (query_into_expr K) g)
                λ expr g. (ok (scope_of is_result (id node) expr expressions), g)

  -- The edges from an `If` node are split by their contents.
  unfoldable pub is_then : QueryGraphDependency (ParentIdsFn K) → Outcome QueryGraphError Bool
  is_then then_edge = ok true
  is_then else_edge = ok false
  is_then execution_order = panic
  is_then (parent_ids f) = panic

  unfoldable pub partition_branches :
      Graph P → List (ℕ × ℕ) → Outcome QueryGraphError (List (ℕ × ℕ) × List (ℕ × ℕ))
  partition_branches g [] = ok ([], [])
  partition_branches g (pair ∷ pairs) =
      ((edge_content P g pair.0 >>= unwrap) >>= is_then) >>= λ then_.
      partition_branches g pairs >>= λ rest.
      ok (if then_ then (pair ∷ rest.0, rest.1) else (rest.0, pair ∷ rest.1))

  unfoldable pub if_expression : Flow → Expr K → List (Expr K) → InterpretationResult K (Expr K)
  if_expression (if_flow cond_fn) then_expr else_expr =
      ok (if_else cond_fn (next then_expr done) (sequence_of else_expr))
  if_expression empty then_expr else_expr = panic

  -- What the closure of an `If` node gives in an environment.
  unfoldable pub transformed_if :
      Env K.QueryResult
      → String
      → ParentIdsFn K
      → Flow
      → Expr K
      → List (Expr K)
      → InterpretationResult K (Expr K)
  transformed_if env parent_binding_name f if_node then_expr else_expr =
      parent_binding_ids K env parent_binding_name >>= λ ids.
      map_err query_graph_builder_error (f (flow if_node) ids) >>= λ node.
      map_err query_graph_error (flow_try_from K.query_text node) >>= λ changed.
      if_expression changed then_expr else_expr

  -- The match on the content of the last edge to an `If` node.
  unfoldable pub if_of_parent :
      QueryGraphDependency (ParentIdsFn K)
      → ℕ
      → Flow
      → Expr K
      → List (Expr K)
      → Graph P
      → InterpretationResult K (Expr K)
  if_of_parent (parent_ids f) edge if_node then_expr else_expr g =
      map_err query_graph_error (edge_source P g edge) >>= λ source.
      ok (func λ env. program (transformed_if env (id source) f if_node then_expr else_expr))
  if_of_parent execution_order edge if_node then_expr else_expr g = panic
  if_of_parent then_edge edge if_node then_expr else_expr g = panic
  if_of_parent else_edge edge if_node then_expr else_expr g = panic

  unfoldable pub build_if_expression : Build → Flow → ℕ → List ℕ → Graph P → Plucked K P (Expr K)
  build_if_expression build if_node node parent_edges g =
      and_with (lifted K P (child_pairs P g node >>= λ pairs. partition_branches g pairs, g))
        λ branches g.
          and_with (unwrap (pop branches.0), g)
            λ then_pair g. and_with (build_child build then_pair g) λ then_expr g.
              and_with
                (traverse_with (build_child build)
                  (elim (pop branches.1) [ none ↦ [] | some pair ↦ pair ∷ [] ]) g)
                λ else_expr g.
                  and_with (unwrap (pop parent_edges), g)
                    λ edge g.
                      and_with (lifted K P (pluck_edge P g edge))
                        λ content g. (if_of_parent content edge if_node then_expr else_expr g, g)

  unfoldable pub build_flow_node : ℕ → Build → Flow → Build
  build_flow_node limit build (if_flow c) node parent_edges g =
      build_if_expression build (if_flow c) node parent_edges g
  build_flow_node limit build empty node parent_edges g =
      and_with (lifted K P (direct_child_pairs P limit g node, g)) λ pairs g.
        and_with (traverse_with (build_child build) pairs g) λ exprs g.
          transform_node K P parent_edges (flow empty) (λ node. ok (sequence (sequence_of exprs))) g

  unfoldable pub build_flow_expression : ℕ → Build → Build
  build_flow_expression limit build node parent_edges g =
      and_with (lifted K P (pluck_node P g node)) λ content g.
        and_with (lifted K P (flow_try_from K.query_text content, g))
          λ flow_node g. build_flow_node limit build flow_node node parent_edges g

  unfoldable pub build_node : ℕ → Build → Node K.Query → Build
  build_node limit build (query q) = build_query_expression limit build
  build_node limit build (flow f) = build_flow_expression limit build

  unfoldable pub build_expression : (limit fuel : ℕ) → Build
  build_expression limit zero node parent_edges g = (panic, g)
  build_expression limit (suc fuel) node parent_edges g =
      and_with (lifted K P (node_content P g node >>= unwrap, g))
        λ content g. build_node limit (build_expression limit fuel) content node parent_edges g

  -- The root nodes in order, each without edges to it.
  unfoldable pub translate : (limit fuel : ℕ) → Graph P → InterpretationResult K (Expr K)
  translate limit fuel g =
      (traverse_with (λ node g. build_expression limit fuel node [] g) (root_nodes P g) g).0
      >>= λ exprs. ok (sequence (sequence_of exprs))
