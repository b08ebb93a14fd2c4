-- ===== src/QueryGraph/Tests.antt =====
-- Tests of the query graph (query-engine/core/src/query_graph).
use mathlib.Core.Path.{subst}
use mathlib.Core.Option.{some-injective}
use mathlib.Core.List.{Memᴰ}
use prisma_engine.Base.{
  filter_map_ok, List, ◌↔◌, decimal, all_ok, find_ok, traverse_ok, ℕ, zero, suc, ◌≡◌, refl, ◌<◌,
  ◌⊎◌, String, true, Option, some, [], ◌∷◌, arith, ok, err, all, find?,
}
use prisma_engine.QueryGraph.Inner.{Petgraph}
use prisma_engine.QueryGraph.Inner.Listed.{listed}
use prisma_engine.QueryGraph.Inner.Listed.Lists.{indices, update_at, swap_remove, last_first}
use prisma_engine.QueryGraph.Inner.Lawful.{listed-IsLawful}
use prisma_engine.QueryGraph.{
  Guard, Node, query, flow, if_flow, QueryGraphDependency, execution_order, then_edge,
  invariance_violation, id, dependency_text,
}
use prisma_engine.QueryGraph.Edges.{
  Graph, new, create_node, create_edge, mark_nodes, add_result_node, child_pairs, outgoing_edges,
  collect_edges, edge_target, edge_source, insert, sort, is_result_node, incoming_edges,
  node_content, after_edge_creation, if_flow_edge_rules, if_node_rules, disallow_self_edges,
  branch_rule, children_rule, edge_content, remove_edge,
}
use prisma_engine.QueryGraph.Walks.{
  is_ancestor, subgraph_contains_result, is_direct_child, direct_child_pairs,
}
use prisma_engine.QueryGraph.Swap.{
  finalize, swap_marked, swap_pairs, swap_parent_edges, swap_parent_edge, reverse_edge,
  after_graph_completion,
}
use prisma_engine.QueryGraph.Decisions.{Decides}
use prisma_engine.QueryGraph.Ancestors.{Walk, Edge, IsRanked, is_ancestor-Decides}
use prisma_engine.QueryGraph.Results.{LeadsToResult, subgraph_contains_result-Decides}
use prisma_engine.QueryGraph.Direct.{direct_child_pairs_iff}
use prisma_engine.QueryGraph.Rules.{IsValid}
use prisma_engine.QueryGraph.Built.{
  Built, start, with_node, with_edge, marked, final, Built-IsValid, finalize-finalize,
}

run : Unit {0}
unfolding decimal id new create_node create_edge mark_nodes add_result_node child_pairs
    outgoing_edges collect_edges edge_target edge_source insert sort traverse_ok is_result_node
    incoming_edges node_content after_edge_creation if_flow_edge_rules if_node_rules
    disallow_self_edges branch_rule children_rule edge_content remove_edge is_ancestor
    subgraph_contains_result is_direct_child find_ok all_ok finalize swap_marked swap_pairs
    swap_parent_edges swap_parent_edge reverse_edge indices all update_at swap_remove
    dependency_text after_graph_completion find? last_first
run = tt

ids : id 0 ≡ "0"
unfolding run
ids = refl

long_id : id 2047 ≡ "2047"
unfolding run
long_id = refl

abbrev NodeGuard : Type 0
NodeGuard = Guard (Node String)

abbrev EdgeGuard : Type 0
EdgeGuard = Guard (QueryGraphDependency (Unit {0}))

abbrev P : Petgraph NodeGuard EdgeGuard
P = listed NodeGuard EdgeGuard

-- A node, and two below one another.
abbrev three_nodes : Graph P
three_nodes =
    (create_node P
      (create_node P (create_node P (new P) (flow (if_flow (λ _. true)))).0 (query "b")).0
      (query "c")).0

abbrev chain : Graph P
chain = (create_edge P (create_edge P three_nodes 0 1 then_edge).1 1 2 execution_order).1

edges_of_chain : child_pairs P chain 0 ≡ ok ((0, 1) ∷ [])
unfolding run
edges_of_chain = refl

is_above : is_ancestor P 3 chain 0 2 ≡ ok true
unfolding run
is_above = refl

refused :
    (create_edge P three_nodes 0 1 execution_order).0
    ≡ err (invariance_violation "Invalid edge 'ExecutionOrder' for If node 0.")
unfolding run
refused = refl

-- The edge that is refused is in the graph all the same.
refused_stays : child_pairs P (create_edge P three_nodes 0 1 execution_order).1 0 ≡ ok ((0, 1) ∷ [])
unfolding run
refused_stays = refl

-- A node "a" below an `If` node and below a query, and a node "b" below "a".
abbrev four_nodes : Graph P
four_nodes = (create_node P three_nodes (query "q")).0

abbrev two_parents : Graph P
two_parents =
    mark_nodes P
      (create_edge P
        (create_edge P (create_edge P four_nodes 0 1 then_edge).1 1 2 execution_order).1 3 1
        execution_order).1
      1 2

-- The edge from the `If` node is moved to "b", and the edge between the two is turned.
swapped_if : child_pairs P (finalize P two_parents).1 0 ≡ ok ((1, 2) ∷ [])
unfolding run
swapped_if = refl

swapped_child : is_ancestor P 5 (finalize P two_parents).1 2 1 ≡ ok true
unfolding run
swapped_child = refl

-- The query "q" does not become a parent of "b".
parent_missed : child_pairs P (finalize P two_parents).1 3 ≡ ok ((0, 1) ∷ [])
unfolding run
parent_missed = refl

-- It does when its edge is not the last one of the graph.
abbrev other_order : Graph P
other_order =
    mark_nodes P
      (create_edge P
        (create_edge P (create_edge P four_nodes 0 1 then_edge).1 3 1 execution_order).1 1 2
        execution_order).1
      1 2

parent_found : child_pairs P (finalize P other_order).1 3 ≡ ok ((0, 2) ∷ (1, 1) ∷ [])
unfolding run
parent_found = refl

abbrev height : ℕ → ℕ
height zero = 2
height (suc zero) = 1
height (suc (suc n)) = 0

abbrev result_chain : Graph P
result_chain = add_result_node P chain 2

-- The edge goes down when its two ends do.
lower :
    (a b s t : ℕ)
    → height b < height a
    → ◌≡◌ {A = Option (ℕ × ℕ)} (some (a, b)) (some (s, t))
    → height t < height s
lower a b s t below h =
    subst (λ (z : ℕ × ℕ). height z.1 < height z.0) (some-injective (a, b) (s, t) h) below

result_chain-IsRanked : IsRanked P result_chain height
unfolding run
result_chain-IsRanked s t (zero, h) = lower 0 1 s t (omega arith) h
result_chain-IsRanked s t (suc zero, h) = lower 1 2 s t (omega arith) h
result_chain-IsRanked s t (suc (suc e), h) = absurd cc

is_ancestor-Decides_example : Decides (is_ancestor P 3 result_chain 0 2) (Walk P result_chain 0 2)
is_ancestor-Decides_example =
    is_ancestor-Decides P (listed-IsLawful NodeGuard EdgeGuard) result_chain height
      result_chain-IsRanked 3 0 2 (omega arith)

subgraph_contains_result-Decides_example :
    Decides (subgraph_contains_result P 3 result_chain 0) (LeadsToResult P result_chain 0)
subgraph_contains_result-Decides_example =
    subgraph_contains_result-Decides P (listed-IsLawful NodeGuard EdgeGuard) result_chain height
      result_chain-IsRanked 3 0 (omega arith)

height_bound : (n : ℕ) → height n < 3
height_bound zero = omega arith
height_bound (suc zero) = omega arith
height_bound (suc (suc n)) = omega arith

abbrev DirectOfOne : Type 0
DirectOfOne =
    (pairs : List (ℕ × ℕ)) × (direct_child_pairs P 3 result_chain 1 ≡ ok pairs)
    × ((edge child : ℕ)
        → Memᴰ (edge, child) pairs ↔ (
            (P.edge_endpoints result_chain.graph edge ≡ some (1, child))
            × ((s : ℕ) → Edge P result_chain s child → (s ≡ 1) ⊎ Walk P result_chain s 1)))

direct_child_pairs_iff_example : DirectOfOne
direct_child_pairs_iff_example =
    direct_child_pairs_iff P (listed-IsLawful NodeGuard EdgeGuard) result_chain height
      result_chain-IsRanked 3 height_bound 1

direct_of_one : direct_child_pairs P 3 result_chain 1 ≡ ok ((1, 2) ∷ [])
unfolding run direct_child_pairs filter_map_ok
direct_of_one = refl

-- A node without parents passes for a direct child of any node.
root_passes : is_direct_child P 3 result_chain 2 0 ≡ ok true
unfolding run
root_passes = refl

three_nodes-Built : Built P three_nodes
three_nodes-Built =
    with_node (query "c") (with_node (query "b") (with_node (flow (if_flow (λ _. true))) start))

chain_final-Built : Built P (finalize P (mark_nodes P chain 1 2)).1
unfolding run
chain_final-Built =
    final
      (marked 1 2
        (with_edge 1 2 execution_order (with_edge 0 1 then_edge three_nodes-Built refl) refl))
      refl

Built-IsValid_example : IsValid P (finalize P (mark_nodes P chain 1 2)).1.graph
Built-IsValid_example = Built-IsValid P (listed-IsLawful NodeGuard EdgeGuard) chain_final-Built

chain_finalized : finalize P chain ≡ (ok tt, record chain { finalized = true })
unfolding run
chain_finalized = refl

finalize-finalize_example :
    finalize P (mark_nodes P (record chain { finalized = true }) 1 2)
    ≡ (ok tt, mark_nodes P (record chain { finalized = true }) 1 2)
finalize-finalize_example =
    finalize-finalize P (listed-IsLawful NodeGuard EdgeGuard) chain _ chain_finalized 1 2
