-- ===== src/QueryGraph/Walks.antt =====
-- What can be reached in the query graph from a node, and which children are its own
-- (query-engine/core/src/query_graph/mod.rs). The searches of the source call themselves without a
-- bound; here each has fuel, and without fuel it gives `panic`, which stands for the stack that
-- overflows.
use prisma_engine.Base.{
  find_ok, all_ok, filter_map_ok, ℕ, zero, suc, Bool, true, none, some, List, nat_eq, if◌then◌else◌,
  Outcome, ok, panic, ◌>>=◌, is_some,
}
use prisma_engine.QueryGraph.Inner.{Petgraph}
use prisma_engine.QueryGraph.{Guard, Node, QueryGraphDependency, QueryGraphError}
use prisma_engine.QueryGraph.Edges.{
  Graph, edge_source, edge_target, outgoing_edges, incoming_edges, child_pairs, is_result_node,
}

module _ {Query ParentIdsFn : Type 0}
    (P : Petgraph (Guard (Node Query)) (Guard (QueryGraphDependency ParentIdsFn))) where
  unfoldable pub is_ancestor : ℕ → Graph P → ℕ → ℕ → Outcome QueryGraphError Bool
  is_ancestor zero g ancestor successor_node = panic
  is_ancestor (suc fuel) g ancestor successor_node = child_pairs P g ancestor >>= λ pairs.
      find_ok
        (λ pair.
          if nat_eq pair.1 successor_node
          then ok true
          else is_ancestor fuel g pair.1 successor_node)
        pairs
      >>= λ found. ok (is_some found)

  unfoldable pub subgraph_contains_result : ℕ → Graph P → ℕ → Outcome QueryGraphError Bool
  subgraph_contains_result zero g node = panic
  subgraph_contains_result (suc fuel) g node =
      if is_result_node P g node
      then ok true
      else (find_ok
            (λ edge.
              edge_target P g edge >>= λ child_node. subgraph_contains_result fuel g child_node)
            (outgoing_edges P g node)
          >>= λ found. ok (is_some found))

  unfoldable pub is_direct_child : ℕ → Graph P → ℕ → ℕ → Outcome QueryGraphError Bool
  is_direct_child fuel g parent child =
      all_ok
        (λ edge. edge_source P g edge >>= λ ancestor.
          if nat_eq ancestor parent then ok true else is_ancestor fuel g ancestor parent)
        (incoming_edges P g child)

  unfoldable pub direct_child_pairs : ℕ → Graph P → ℕ → Outcome QueryGraphError (List (ℕ × ℕ))
  direct_child_pairs fuel g node =
      filter_map_ok
        (λ edge. edge_target P g edge >>= λ child_node.
          is_direct_child fuel g node child_node >>= λ direct.
          ok (if direct then some (edge, child_node) else none))
        (outgoing_edges P g node)
