-- ===== src/QueryGraph/Swap.antt =====
-- The nodes that are marked to change places, and the end of the building of a query graph
-- (query-engine/core/src/query_graph/mod.rs, query-engine/core/src/query_graph/invariance_rules.rs).
use mathlib.Core.List.{reverse}
use prisma_engine.Base.{
  and_with, ℕ, true, Option, none, some, List, [], ◌∷◌, if◌then◌else◌, Outcome, ok, ◌>>=◌, unwrap,
}
use prisma_engine.QueryGraph.Inner.{Petgraph}
use prisma_engine.QueryGraph.{
  Guard, Node, query, flow, QueryGraphDependency, execution_order, QueryGraphError,
}
use prisma_engine.QueryGraph.Edges.{
  Graph, Result, edge_source, node_content, incoming_edges, create_edge, remove_edge,
}

-- A result that only reads the graph, and `Option::expect` and `unwrap` in a chain.
abbrev pub reading : {S A : Type 0} → Outcome QueryGraphError A → S → Result S A
reading o s = (o, s)

module _ {Query ParentIdsFn : Type 0}
    (P : Petgraph (Guard (Node Query)) (Guard (QueryGraphDependency ParentIdsFn))) where
  -- The arms of the match on the content of a parent of the parent.
  unfoldable pub swap_parent_edge : ℕ → ℕ → ℕ → Node Query → Graph P → Result (Graph P) (Unit {0})
  swap_parent_edge child_node parent_edge parent_of_parent_node (flow f) g =
      and_with (remove_edge P g parent_edge) λ removed g.
        and_with (reading (unwrap removed) g) λ content g.
          and_with (create_edge P g parent_of_parent_node child_node content) λ _ g. (ok tt, g)
  swap_parent_edge child_node parent_edge parent_of_parent_node (query q) g =
      and_with (create_edge P g parent_of_parent_node child_node execution_order) λ _ g. (ok tt, g)

  -- The loop over the edges to the parent, as they were before the loop.
  unfoldable pub swap_parent_edges : ℕ → List ℕ → Graph P → Result (Graph P) (Unit {0})
  swap_parent_edges child_node [] g = (ok tt, g)
  swap_parent_edges child_node (parent_edge ∷ rest) g =
      and_with (reading (edge_source P g parent_edge) g) λ parent_of_parent_node g.
        and_with (reading (node_content P g parent_of_parent_node >>= unwrap) g) λ content g.
          and_with (swap_parent_edge child_node parent_edge parent_of_parent_node content g)
            λ _ g. swap_parent_edges child_node rest g

  -- The edge between the two nodes is put in again in reverse.
  unfoldable pub reverse_edge : ℕ → ℕ → Option ℕ → Graph P → Result (Graph P) (Unit {0})
  reverse_edge parent_node child_node none g = (ok tt, g)
  reverse_edge parent_node child_node (some edge) g = and_with (remove_edge P g edge) λ removed g.
      and_with (reading (unwrap removed) g)
        λ content g. and_with (create_edge P g child_node parent_node content) λ _ g. (ok tt, g)

  unfoldable pub swap_pairs : List (ℕ × ℕ) → Graph P → Result (Graph P) (Unit {0})
  swap_pairs [] g = (ok tt, g)
  swap_pairs ((parent_node, child_node) ∷ rest) g =
      and_with (swap_parent_edges child_node (incoming_edges P g parent_node) g) λ _ g.
        and_with
          (reverse_edge parent_node child_node (P.find_edge g.graph parent_node child_node) g)
          λ _ g. swap_pairs rest g

  unfoldable pub swap_marked : Graph P → Result (Graph P) (Unit {0})
  swap_marked g = swap_pairs (reverse g.marked_node_pairs) (record g { marked_node_pairs = [] })

  -- The rule on related parents is not written yet in the source, and allows every graph.
  unfoldable pub after_graph_completion : Graph P → Outcome QueryGraphError (Unit {0})
  after_graph_completion g = ok tt

  unfoldable pub finalize : Graph P → Result (Graph P) (Unit {0})
  finalize g =
      and_with
        (if g.finalized
          then (ok tt, g)
          else and_with (swap_marked g) λ _ g. (ok tt, record g { finalized = true }))
        λ _ g. (after_graph_completion g, g)
