-- ===== src/QueryGraph/Edges.antt =====
-- Nodes and edges of the query graph: how they are made, read, emptied and removed
-- (query-engine/core/src/query_graph/mod.rs), and the rules that a new edge has to keep
-- (query-engine/core/src/query_graph/invariance_rules.rs). Where a rule is broken, the edge stays in
-- the graph and the error is given.
use Prim.Native.String.{◌++◌}
use mathlib.Core.List.{◌++◌ as append}
use prisma_engine.Base.{
  traverse_ok, ℕ, Bool, true, false, Option, none, some, List, [], ◌∷◌, ◌==◌, ltb, nat_eq, length,
  if◌then◌else◌, Outcome, ok, err, panic, ◌>>=◌, unwrap, find?, is_some, filter_map,
}
use prisma_engine.QueryGraph.Inner.{Petgraph, Direction, outgoing, incoming}
use prisma_engine.QueryGraph.{
  Guard, guard, unset, Node, query, flow, if_flow, empty, QueryGraphDependency, execution_order,
  parent_ids, then_edge, else_edge, QueryGraphError, invariance_violation, dependency_text, id,
  QueryGraph,
}

-- What a function that changes the graph gives: its result, and the graph after it.
abbrev pub Result : Type 0 → Type 0 → Type 0
Result S A = Outcome QueryGraphError A × S

-- `[EdgeRef]::sort`, by the index.
unfoldable pub insert : ℕ → List ℕ → List ℕ
insert x [] = x ∷ []
insert x (y ∷ ys) = let rest = insert x ys in if ltb y x then y ∷ rest else x ∷ y ∷ ys

unfoldable pub sort : List ℕ → List ℕ
sort [] = []
sort (x ∷ xs) = insert x (sort xs)

abbrev pub is_if_node : {Q : Type 0} → Node Q → Bool
is_if_node (flow (if_flow c)) = true
is_if_node (flow empty) = false
is_if_node (query q) = false

abbrev pub is_branch : {F : Type 0} → QueryGraphDependency F → Bool
is_branch then_edge = true
is_branch else_edge = true
is_branch execution_order = false
is_branch (parent_ids f) = false

module _ {Query ParentIdsFn : Type 0}
    (P : Petgraph (Guard (Node Query)) (Guard (QueryGraphDependency ParentIdsFn))) where
  abbrev pub Graph : Type 0
  Graph = QueryGraph P

  unfoldable pub new : Graph
  new = record {
    graph = P.new;
    result_nodes = [];
    marked_node_pairs = [];
    finalized = false;
    needs_transaction = false;
  }

  unfoldable pub add_result_node : Graph → ℕ → Graph
  add_result_node g n = record g { result_nodes = append g.result_nodes (n ∷ []) }

  unfoldable pub is_result_node : Graph → ℕ → Bool
  is_result_node g n = is_some (find? (λ rn. nat_eq rn n) g.result_nodes)

  unfoldable pub mark_nodes : Graph → ℕ → ℕ → Graph
  mark_nodes g parent_node child_node = record g {
    marked_node_pairs = append g.marked_node_pairs ((parent_node, child_node) ∷ []);
  }

  unfoldable pub flag_transactional : Graph → Graph
  flag_transactional g = record g { needs_transaction = true }

  unfoldable pub root_nodes : Graph → List ℕ
  root_nodes g =
      filter_map (λ ix. elim (P.edges_directed g.graph ix incoming) [ [] ↦ some ix | _ ∷ _ ↦ none ])
        (P.node_indices g.graph)

  unfoldable pub create_node : Graph → Node Query → Graph × ℕ
  create_node g t =
      let added = P.add_node g.graph (guard t) in (record g { graph = added.0 }, added.1)

  -- `none` is a content that has been taken out.
  unfoldable pub node_content : Graph → ℕ → Outcome QueryGraphError (Option (Node Query))
  node_content g n = unwrap (P.node_weight g.graph n) >>= λ w. ok w.content

  unfoldable pub edge_content :
      Graph → ℕ → Outcome QueryGraphError (Option (QueryGraphDependency ParentIdsFn))
  edge_content g e = unwrap (P.edge_weight g.graph e) >>= λ w. ok w.content

  unfoldable pub edge_source : Graph → ℕ → Outcome QueryGraphError ℕ
  edge_source g e = unwrap (P.edge_endpoints g.graph e) >>= λ ends. ok ends.0

  unfoldable pub edge_target : Graph → ℕ → Outcome QueryGraphError ℕ
  edge_target g e = unwrap (P.edge_endpoints g.graph e) >>= λ ends. ok ends.1

  unfoldable pub collect_edges : Graph → ℕ → Direction → List ℕ
  collect_edges g n direction = sort (P.edges_directed g.graph n direction)

  unfoldable pub outgoing_edges : Graph → ℕ → List ℕ
  outgoing_edges g n = collect_edges g n outgoing

  unfoldable pub incoming_edges : Graph → ℕ → List ℕ
  incoming_edges g n = collect_edges g n incoming

  -- Each edge from the node, with the node that it points to.
  unfoldable pub child_pairs : Graph → ℕ → Outcome QueryGraphError (List (ℕ × ℕ))
  child_pairs g n =
      traverse_ok (λ edge. edge_target g edge >>= λ target. ok (edge, target)) (outgoing_edges g n)

  unfoldable pub zip_source_nodes : Graph → List ℕ → Outcome QueryGraphError (List (ℕ × ℕ))
  zip_source_nodes g edges =
      traverse_ok (λ edge. edge_source g edge >>= λ target. ok (edge, target)) edges

  unfoldable pub pluck_edge : Graph → ℕ → Result Graph (QueryGraphDependency ParentIdsFn)
  pluck_edge g e = elim (P.edge_weight g.graph e) [
    | none ↦ (panic, g)
    | some w ↦
        let taken = unset w in (taken.0, record g { graph = P.set_edge_weight g.graph e taken.1 })
  ]

  unfoldable pub pluck_node : Graph → ℕ → Result Graph (Node Query)
  pluck_node g n = elim (P.node_weight g.graph n) [
    | none ↦ (panic, g)
    | some w ↦
        let taken = unset w in (taken.0, record g { graph = P.set_node_weight g.graph n taken.1 })
  ]

  unfoldable pub remove_edge : Graph → ℕ → Result Graph (Option (QueryGraphDependency ParentIdsFn))
  remove_edge g e = elim (P.remove_edge g.graph e) [
    | none ↦ (panic, g)
    | some (w, rest) ↦ (ok w.content, record g { graph = rest })
  ]

  -- The match on the content of the edge, in the rule for `If` nodes.
  unfoldable pub branch_rule :
      ℕ → QueryGraphDependency ParentIdsFn → Outcome QueryGraphError (Unit {0})
  branch_rule source content =
      if is_branch content
      then ok tt
      else err (
          invariance_violation (
            "Invalid edge '"
            ++ (dependency_text content ++ ("' for If node " ++ (id source ++ ".")))))

  unfoldable pub children_rule : List (ℕ × ℕ) → Outcome QueryGraphError (Unit {0})
  children_rule pairs =
      if ltb 2 (length pairs)
      then err (invariance_violation "'If' node has invalid amound of children (min 1, max 2).")
      else ok tt

  -- The rule for the edge of an `If` node, with the content that the node has.
  unfoldable pub if_node_rules : Graph → ℕ → ℕ → Node Query → Outcome QueryGraphError (Unit {0})
  if_node_rules g edge source_node source_node_content =
      if is_if_node source_node_content
      then ((edge_content g edge >>= unwrap) >>= λ content. branch_rule source_node content >>= λ _.
          child_pairs g source_node >>= λ pairs. children_rule pairs)
      else ok tt

  unfoldable pub if_flow_edge_rules : Graph → ℕ → Outcome QueryGraphError (Unit {0})
  if_flow_edge_rules g edge = edge_source g edge >>= λ source_node.
      (node_content g source_node >>= unwrap) >>= λ source_node_content.
      if_node_rules g edge source_node source_node_content

  unfoldable pub disallow_self_edges : Graph → ℕ → Outcome QueryGraphError (Unit {0})
  disallow_self_edges g edge = edge_source g edge >>= λ source. edge_target g edge >>= λ target.
      if id source == id target
      then err (
          invariance_violation (
            "Edge "
            ++ (id edge
                ++ (" is an edge pointing to the same node it originated from (node "
                    ++ (id source ++ "). This is disallowed.")))))
      else ok tt

  unfoldable pub after_edge_creation : Graph → ℕ → Outcome QueryGraphError (Unit {0})
  after_edge_creation g edge = if_flow_edge_rules g edge >>= λ _. disallow_self_edges g edge

  unfoldable pub create_edge : Graph → ℕ → ℕ → QueryGraphDependency ParentIdsFn → Result Graph ℕ
  create_edge g from to content = elim (P.add_edge g.graph from to (guard content)) [
    | none ↦ (panic, g)
    | some (added, edge) ↦
        let h = record g { graph = added } in (after_edge_creation h edge >>= λ _. ok edge, h)
  ]
