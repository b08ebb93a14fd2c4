-- ===== src/QueryGraph/Results.antt =====
-- The search for a result node (query-engine/core/src/query_graph/mod.rs).
use mathlib.Core.Path.{subst}
use prisma_engine.Base.{
  ℕ, zero, suc, ◌<◌, ◌≡◌, sym, ap, ◌∙◌, ◌↔◌, ◌⊎◌, inl, inr, true, some, arith, ◌>>=◌,
}
use mathlib.Core.List.{Memᴰ}
use mathlib.Core.Option.{some-injective}
use prisma_engine.QueryGraph.Inner.{Petgraph, IsLawful, outgoing}
use prisma_engine.QueryGraph.{Guard, Node, QueryGraphDependency}
use prisma_engine.QueryGraph.Edges.{
  Graph, sort, edge_target, outgoing_edges, collect_edges, is_result_node,
}
use prisma_engine.QueryGraph.Walks.{subgraph_contains_result}
use prisma_engine.QueryGraph.Decisions.{
  Decides, Decides-cong, find_ok-Decides, mem-sort, Decides-if,
}
use prisma_engine.QueryGraph.Ancestors.{Walk, last, more, IsRanked, edge_target_of}

module _ {Query ParentIdsFn : Type 0}
    (P : Petgraph (Guard (Node Query)) (Guard (QueryGraphDependency ParentIdsFn))) where
  -- Whether a node or one that can be reached from it is a result.
  abbrev pub LeadsToResult : Graph P → ℕ → Type 0
  LeadsToResult g n =
      (is_result_node P g n ≡ true) ⊎ ((r : ℕ) × Walk P g n r × (is_result_node P g r ≡ true))

module _ {Query ParentIdsFn : Type 0}
    (P : Petgraph (Guard (Node Query)) (Guard (QueryGraphDependency ParentIdsFn)))
    (law : IsLawful P) where
  -- Over any lawful graph type: if every edge goes down in height, the search for a result node with
  -- more fuel than the height of its node ends with a result, which is true exactly when the node or
  -- one at the end of a walk from it is a result node.
  pub subgraph_contains_result-Decides :
      (g : Graph P) (height : ℕ → ℕ)
      → IsRanked P g height
      → (fuel node : ℕ) → height node < fuel
      → Decides (subgraph_contains_result P fuel g node) (LeadsToResult P g node)
  unfolding subgraph_contains_result outgoing_edges collect_edges
  subgraph_contains_result-Decides g height down zero n enough = absurd (omega arith)
  subgraph_contains_result-Decides g height down (suc fuel) n enough = Decides-cong _ _ _ leads (
      Decides-if (is_result_node P g n) _ (is_result_node P g n ≡ true) _ ((λ h. h), (λ h. h))
        (find_ok-Decides (λ edge. edge_target P g edge >>= λ t. subgraph_contains_result P fuel g t)
          (λ edge. (t : ℕ) × (P.edge_endpoints g.graph edge ≡ some (n, t)) × LeadsToResult P g t)
          (sort (P.edges_directed g.graph n outgoing))
          (λ edge m.
            let (t, h) = (law.outgoing_iff g.graph n edge).0 ((mem-sort edge _).0 m) in
            test edge t h
              (subgraph_contains_result-Decides g height down fuel t (below edge t h)))))
    where
      below : (edge t : ℕ) → P.edge_endpoints g.graph edge ≡ some (n, t) → height t < fuel
      below edge t h = let lower = down n t (edge, h) in omega (arith, lower, enough)

      same_target :
          (edge t u : ℕ)
          → P.edge_endpoints g.graph edge ≡ some (n, t)
          → P.edge_endpoints g.graph edge ≡ some (n, u)
          → u ≡ t
      same_target edge t u h k = ap (λ (z : ℕ × ℕ). z.1) (some-injective (n, u) (n, t) (sym k ∙ h))

      test :
          (edge t : ℕ)
          → P.edge_endpoints g.graph edge ≡ some (n, t)
          → Decides (subgraph_contains_result P fuel g t) (LeadsToResult P g t)
          → Decides
              (edge_target P g edge >>= λ t. subgraph_contains_result P fuel g t)
              ((t : ℕ) × (P.edge_endpoints g.graph edge ≡ some (n, t)) × LeadsToResult P g t)
      test edge t h d = rw (edge_target_of P g edge n t h) (
          Decides-cong _ _ _
            (
              (λ w. (t, h, w)),
              (λ (u, k, w). subst (LeadsToResult P g) (same_target edge t u h k) w),
            )
            d)

      onward :
          (edge t : ℕ)
          → P.edge_endpoints g.graph edge ≡ some (n, t)
          → LeadsToResult P g t
          → LeadsToResult P g n
      onward edge t h (inl r) = inr (t, last (edge, h), r)
      onward edge t h (inr (r, w, k)) = inr (r, more (edge, h) w, k)

      mem :
          (edge t : ℕ)
          → P.edge_endpoints g.graph edge ≡ some (n, t)
          → Memᴰ edge (sort (P.edges_directed g.graph n outgoing))
      mem edge t h = (mem-sort edge _).1 ((law.outgoing_iff g.graph n edge).1 (t, h))

      first_edge :
          (r : ℕ)
          → Walk P g n r
          → is_result_node P g r ≡ true
          → (edge : ℕ) × Memᴰ edge (sort (P.edges_directed g.graph n outgoing))
            × ((t : ℕ) × (P.edge_endpoints g.graph edge ≡ some (n, t)) × LeadsToResult P g t)
      first_edge r (last (i, h)) k = (i, mem i r h, (r, h, inl k))
      first_edge r (more {t = t} (i, h) w) k = (i, mem i t h, (t, h, inr (r, w, k)))

      leads :
          ((is_result_node P g n ≡ true)
            ⊎ ((edge : ℕ) × Memᴰ edge (sort (P.edges_directed g.graph n outgoing))
                × ((t : ℕ) × (P.edge_endpoints g.graph edge ≡ some (n, t)) × LeadsToResult P g t)))
          ↔ LeadsToResult P g n
      leads = (
        (λ w. elim w [ inl r ↦ inl r | inr (edge, m, (t, h, k)) ↦ onward edge t h k ]),
        (λ w. elim w [ inl r ↦ inl r | inr (r, w, k) ↦ inr (first_edge r w k) ]),
      )
