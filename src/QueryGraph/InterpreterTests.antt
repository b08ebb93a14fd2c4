-- ===== src/QueryGraph/InterpreterTests.antt =====
-- Tests of the translation of a query graph and of the interpreter
-- (query-engine/core/src/interpreter/expressionista.rs, interpreter.rs beside it). A query and its
-- result are strings, and the database keeps the queries that are executed, the last one first.
use Prim.Native.String.{◌++◌}
use prisma_engine.QueryGraph.Runs.{Runs}
use prisma_engine.Base.{
  and_with, decimal, all_ok, find_ok, traverse_ok, filter_map_ok, ◌≡◌, refl, String, true, false,
  none, some, List, [], ◌∷◌, arith, Outcome, ok, err, panic, all, find?, filter, ◌==◌,
  if◌then◌else◌, filter_map, find_map, ◌>>=◌,
}
use prisma_engine.QueryGraph.Inner.{Petgraph}
use prisma_engine.QueryGraph.Inner.Listed.{listed}
use prisma_engine.QueryGraph.Inner.Listed.Lists.{indices, update_at, swap_remove, last_first}
use prisma_engine.QueryGraph.{
  Guard, unset, Node, query, flow, if_flow, QueryGraphDependency, execution_order, parent_ids, id,
  query_try_from, flow_try_from, then_edge, else_edge,
}
use prisma_engine.QueryGraph.Edges.{
  Graph, new, create_node, create_edge, add_result_node, child_pairs, outgoing_edges, root_nodes,
  collect_edges, edge_target, edge_source, insert, sort, is_result_node, incoming_edges,
  node_content, after_edge_creation, if_flow_edge_rules, if_node_rules, disallow_self_edges,
  branch_rule, children_rule, edge_content, pluck_edge, pluck_node,
}
use prisma_engine.QueryGraph.Walks.{
  is_ancestor, subgraph_contains_result, is_direct_child, direct_child_pairs,
}
use prisma_engine.QueryGraph.Interpreter.{
  ExpressionResult, query_result, nothing, Env, get_env, insert_env, remove_env, Expression,
  query as query_expression, func, let_in, sequence, get_first_non_empty, done, next, Bindings, end,
  bind, interpret, first_bound,
}
use prisma_engine.QueryGraph.Scopes.{binds, let_in-get_first_non_empty}
use prisma_engine.QueryGraph.Split.{result_positions, remove_at, remove_all, split_results}
use prisma_engine.QueryGraph.Transformers.{
  Parts, InterpreterError, env_var_not_found, InterpretationResult, ParentIdsFn, program, as_ids,
  parent_binding_ids, run_transformers, query_into_expr, lifted, parent_transformer,
  collect_parent_transformers, transformed, transform_node,
}
use prisma_engine.QueryGraph.Expressionista.{
  sequence_of, bindings_of, traverse_with, pop, build_child, result_binding, fold_result_scopes,
  child_expressions, scope_of, build_query_expression, is_then, partition_branches, if_expression,
  transformed_if, if_of_parent, build_if_expression, build_flow_node, build_flow_expression,
  build_node, build_expression, translate,
}
use prisma_engine.QueryGraph.Deferred.{interpret-scope_of, interpret-transformed}
use prisma_engine.QueryGraph.Partition.{split_results_lem}

run : Unit {0}
unfolding decimal id new create_node create_edge add_result_node child_pairs root_nodes
    outgoing_edges collect_edges edge_target edge_source insert sort traverse_ok is_result_node
    incoming_edges node_content after_edge_creation if_flow_edge_rules if_node_rules
    disallow_self_edges branch_rule children_rule edge_content is_ancestor pluck_edge pluck_node
    subgraph_contains_result is_direct_child find_ok all_ok filter_map_ok direct_child_pairs indices
    all update_at swap_remove find? last_first filter filter_map find_map unset query_try_from
    flow_try_from get_env insert_env remove_env interpret first_bound binds result_positions
    remove_at remove_all split_results program as_ids parent_binding_ids run_transformers
    query_into_expr lifted parent_transformer collect_parent_transformers transformed transform_node
    sequence_of bindings_of traverse_with pop build_child result_binding fold_result_scopes
    child_expressions scope_of build_query_expression is_then partition_branches if_expression
    transformed_if if_of_parent build_if_expression build_flow_node build_flow_expression build_node
    build_expression translate
run = tt

abbrev K : Parts
K = record {
  Query = String;
  QueryResult = String;
  PrismaValue = String;
  DomainError = Unit {0};
  QueryGraphBuilderError = Unit {0};
  ConnectorError = String;
  query_text = λ q. q;
  ids_of = λ r. if r == "no ids" then none else some (r ∷ []);
}

abbrev NodeGuard : Type 0
NodeGuard = Guard (Node String)

abbrev EdgeGuard : Type 0
EdgeGuard = Guard (QueryGraphDependency (ParentIdsFn K))

abbrev P : Petgraph NodeGuard EdgeGuard
P = listed NodeGuard EdgeGuard

abbrev execute : String → List String → Outcome (InterpreterError K) String × List String
execute q db = (ok q, q ∷ db)

-- A query takes the text of the first id.
abbrev by_id : Node String → List String → Outcome (Unit {0}) (Node String)
by_id node [] = err tt
by_id node (x ∷ xs) = ok (query x)

abbrev two_nodes : Graph P
two_nodes = (create_node P (create_node P (new P) (query "a")).0 (query "b")).0

-- The parent "a" is the result, and the child takes its id.
abbrev parent_and_child : Graph P
parent_and_child = (create_edge P (add_result_node P two_nodes 0) 0 1 (parent_ids by_id)).1

abbrev run_graph : Graph P → Outcome (InterpreterError K) (ExpressionResult String) × List String
run_graph g = elim (translate K P 9 9 g) [
  | ok e ↦ interpret env_var_not_found execute e [] []
  | err e ↦ (err e, [])
  | panic ↦ (panic, [])
]

parent_and_child_runs : run_graph parent_and_child ≡ (ok (query_result "a"), "a" ∷ "a" ∷ [])
unfolding run
parent_and_child_runs = refl

-- Two children that lead to a result: the second one is looked for behind the end of the list.
abbrev three_nodes : Graph P
three_nodes = (create_node P two_nodes (query "c")).0

abbrev two_results : Graph P
two_results =
    (create_edge P
      (create_edge P (add_result_node P (add_result_node P three_nodes 1) 2) 0 1 execution_order).1
      0 2 execution_order).1

two_results_panic : translate K P 9 9 two_results ≡ panic
unfolding run
two_results_panic = refl

-- One of them may be there.
abbrev one_result : Graph P
one_result =
    (create_edge P (create_edge P (add_result_node P three_nodes 1) 0 1 execution_order).1 0 2
      execution_order).1

one_result_runs : run_graph one_result ≡ (ok (query_result "b"), "b" ∷ "c" ∷ "a" ∷ [])
unfolding run
one_result_runs = refl

-- An `If` node below "a", which the id of "a" decides.
abbrev decide : Node String → List String → Outcome (Unit {0}) (Node String)
decide node [] = err tt
decide node (x ∷ xs) = ok (flow (if_flow (λ _. x == "z")))

abbrev branching : Graph P
branching =
    (create_edge P
      (create_edge P
        (create_edge P
          (create_node P (add_result_node P (add_result_node P three_nodes 1) 2)
            (flow (if_flow λ _. true))).0
          3 1 then_edge).1
        3 2 else_edge).1
      0 3 (parent_ids decide)).1

branching_runs : run_graph branching ≡ (ok (query_result "c"), "c" ∷ "a" ∷ [])
unfolding run
branching_runs = refl

abbrev read : String → Expression (InterpreterError K) String String
read q = query_expression q

abbrev rest : Bindings (InterpreterError K) String String
rest = bind "y" (read "second") end

not_bound_again : binds "x" rest ≡ false
unfolding run
not_bound_again = refl

let_in-get_first_non_empty_example :
    interpret env_var_not_found execute
      (let_in (bind "x" (read "first") rest) (next (get_first_non_empty ("x" ∷ "y" ∷ [])) done))
      []
      []
    ≡ (ok (query_result "first"), "second" ∷ "first" ∷ [])
unfolding run
let_in-get_first_non_empty_example =
    let_in-get_first_non_empty env_var_not_found execute "x" (read "first") rest ("y" ∷ [])
      not_bound_again [] []

-- A binding without a result comes first all the same.
first_is_empty :
    interpret env_var_not_found execute
      (let_in (bind "x" (sequence done) rest) (next (get_first_non_empty ("x" ∷ "y" ∷ [])) done))
      []
      []
    ≡ (ok nothing, "second" ∷ [])
unfolding run
first_is_empty = refl

interpret-scope_of_example :
    interpret env_var_not_found execute (scope_of true "0" (read "a") (read "b" ∷ [])) [] []
    ≡ (ok (query_result "a"), "b" ∷ "a" ∷ [])
unfolding run
interpret-scope_of_example =
    interpret-scope_of env_var_not_found execute "0" (read "a") (read "b" ∷ []) [] []

-- A query takes up the text of the first id at its end.
abbrev by_first_text : Node String → List String → Outcome (Unit {0}) (Node String)
by_first_text node [] = err tt
by_first_text (query q) (x ∷ xs) = ok (query (q ++ ("," ++ x)))
by_first_text (flow f) (x ∷ xs) = err tt

abbrev bound : Env String
bound = ("0", query_result "z") ∷ ("1", query_result "y") ∷ []

abbrev two_functions : List (String × ParentIdsFn K)
two_functions = ("0", by_first_text) ∷ ("1", by_first_text) ∷ []

abbrev changed : Expression (InterpreterError K) String String
changed =
    func λ env. program (run_transformers K env two_functions (query "b") >>= query_into_expr K)

changed_lem : transformed K two_functions (query "b") (query_into_expr K) ≡ ok changed
unfolding run
changed_lem = refl

abbrev TransformedExample : Type 0
TransformedExample =
    (end : InterpretationResult K (Node String)) × Runs K bound two_functions (query "b") end
    × (interpret env_var_not_found execute changed bound []
        ≡ and_with (end >>= query_into_expr K, [])
            λ e db. interpret env_var_not_found execute e bound db)

interpret-transformed_example : TransformedExample
interpret-transformed_example =
    interpret-transformed K execute two_functions (query "b") (query_into_expr K) changed
      changed_lem bound []

changed_runs :
    interpret env_var_not_found execute changed bound [] ≡ (ok (query_result "b,z,y"), "b,z,y" ∷ [])
unfolding run
changed_runs = refl

split_results_lem_example :
    split_results {E = Unit {0}} (λ a. ok (a == "r")) ("a" ∷ "r" ∷ "b" ∷ [])
    ≡ ok ("r" ∷ [], "a" ∷ "b" ∷ [])
unfolding run
split_results_lem_example =
    split_results_lem (Unit {0}) (λ a. a == "r") ("a" ∷ "r" ∷ "b" ∷ []) (omega arith)
