-- ===== src/QueryGraph/Ancestors.antt =====
-- The searches through the query graph decide what they are for, and end on a graph without cycles
-- (query-engine/core/src/query_graph/mod.rs).
use mathlib.Core.Path.{subst}
use prisma_engine.Base.{
  ℕ, zero, suc, ◌<◌, ◌≡◌, refl, ap, ◌∙◌, ◌↔◌, ◌⊎◌, inl, inr, true, some, List, arith, nat_eq,
  if◌then◌else◌, ok, ◌>>=◌,
}
use mathlib.Core.List.{Memᴰ}
use prisma_engine.QueryGraph.Inner.{Petgraph, IsLawful, outgoing}
use prisma_engine.QueryGraph.{Guard, Node, QueryGraphDependency}
use prisma_engine.QueryGraph.Edges.{
  Graph, sort, edge_source, edge_target, outgoing_edges, collect_edges, child_pairs,
}
use prisma_engine.QueryGraph.Walks.{is_ancestor}
use prisma_engine.QueryGraph.Decisions.{
  Decides, Decides-cong, find_ok-Decides, mem-sort, traverse_ok-mem, ok_injective, nat_eq_iff,
  Decides-if,
}

module _ {Query ParentIdsFn : Type 0}
    (P : Petgraph (Guard (Node Query)) (Guard (QueryGraphDependency ParentIdsFn))) where
  -- There is an edge from the one node to the other.
  abbrev pub Edge : Graph P → ℕ → ℕ → Type 0
  Edge g s t = (e : ℕ) × (P.edge_endpoints g.graph e ≡ some (s, t))

  -- The walks of at least one edge.
  pub data Walk (g : Graph P) : ℕ → ℕ → Type 0 where
    last : {s t : ℕ} → Edge g s t → Walk g s t
    more : {s t u : ℕ} → Edge g s t → Walk g t u → Walk g s u

  -- Every edge goes down, so that there are no cycles.
  abbrev pub IsRanked : Graph P → (ℕ → ℕ) → Type 0
  IsRanked g height = (s t : ℕ) → Edge g s t → height t < height s

  pub edge_target_of :
      (g : Graph P) (e s t : ℕ)
      → P.edge_endpoints g.graph e ≡ some (s, t)
      → edge_target P g e ≡ ok t
  unfolding edge_target
  edge_target_of g e s t h = rw h refl

  pub edge_source_of :
      (g : Graph P) (e s t : ℕ)
      → P.edge_endpoints g.graph e ≡ some (s, t)
      → edge_source P g e ≡ ok s
  unfolding edge_source
  edge_source_of g e s t h = rw h refl

module _ {Query ParentIdsFn : Type 0}
    (P : Petgraph (Guard (Node Query)) (Guard (QueryGraphDependency ParentIdsFn)))
    (law : IsLawful P) where
  -- The children are given, each with an edge to it.
  children :
      (g : Graph P) (n : ℕ)
      → (ps : List (ℕ × ℕ)) × (child_pairs P g n ≡ ok ps)
        × ((pair : ℕ × ℕ) → Memᴰ pair ps ↔ (P.edge_endpoints g.graph pair.0 ≡ some (n, pair.1)))
  unfolding child_pairs outgoing_edges collect_edges
  children g n =
      let es = sort (P.edges_directed g.graph n outgoing) in
      let (ps, e, iff) =
        traverse_ok-mem (λ edge. edge_target P g edge >>= λ target. ok (edge, target)) es
          (λ i m. found i m) in
      (ps, e, λ pair. ((λ m. to pair ((iff pair).0 m)), (λ h. (iff pair).1 (from pair h))))
    where
      found :
          (i : ℕ)
          → Memᴰ i (sort (P.edges_directed g.graph n outgoing))
          → (y : ℕ × ℕ) × ((edge_target P g i >>= λ target. ok (i, target)) ≡ ok y)
      found i m =
          let (t, h) = (law.outgoing_iff g.graph n i).0 ((mem-sort i _).0 m) in
          ((i, t), rw (edge_target_of P g i n t h) refl)

      to :
          (pair : ℕ × ℕ)
          → (i : ℕ) × Memᴰ i (sort (P.edges_directed g.graph n outgoing))
            × ((edge_target P g i >>= λ target. ok (i, target)) ≡ ok pair)
          → P.edge_endpoints g.graph pair.0 ≡ some (n, pair.1)
      to pair (i, m, r) =
          let (t, h) = (law.outgoing_iff g.graph n i).0 ((mem-sort i _).0 m) in
          subst (λ (z : ℕ × ℕ). P.edge_endpoints g.graph z.0 ≡ some (n, z.1))
            (ok_injective (rw (edge_target_of P g i n t h) at r)) h

      from :
          (pair : ℕ × ℕ)
          → P.edge_endpoints g.graph pair.0 ≡ some (n, pair.1)
          → (i : ℕ) × Memᴰ i (sort (P.edges_directed g.graph n outgoing))
            × ((edge_target P g i >>= λ target. ok (i, target)) ≡ ok pair)
      from (i, t) h = (
        i,
        (mem-sort i _).1 ((law.outgoing_iff g.graph n i).1 (t, h)),
        rw (edge_target_of P g i n t h) refl,
      )

  -- Over any lawful graph type: if every edge goes down in height, the search for an ancestor with
  -- more fuel than the height of its first node ends with a result, which is true exactly when there
  -- is a walk of at least one edge from the first node to the second.
  pub is_ancestor-Decides :
      (g : Graph P) (height : ℕ → ℕ)
      → IsRanked P g height
      → (fuel ancestor successor_node : ℕ) → height ancestor < fuel
      → Decides (is_ancestor P fuel g ancestor successor_node) (Walk P g ancestor successor_node)
  unfolding is_ancestor
  is_ancestor-Decides g height down zero a s enough = absurd (omega arith)
  is_ancestor-Decides g height down (suc fuel) a s enough =
      let (ps, e, iff) = children g a in
      rw e (
        Decides-cong _ _ _ (walk ps iff) (
          find_ok-Decides
            (λ pair. if nat_eq pair.1 s then ok true else is_ancestor P fuel g pair.1 s)
            (λ pair. (pair.1 ≡ s) ⊎ Walk P g pair.1 s) ps
            (λ pair m.
              test pair ((iff pair).0 m)
                (is_ancestor-Decides g height down fuel pair.1 s (below pair ((iff pair).0 m))))))
    where
      below :
          (pair : ℕ × ℕ) → P.edge_endpoints g.graph pair.0 ≡ some (a, pair.1) → height pair.1 < fuel
      below (i, t) h = let lower = down a t (i, h) in omega (arith, lower, enough)

      test :
          (pair : ℕ × ℕ)
          → P.edge_endpoints g.graph pair.0 ≡ some (a, pair.1)
          → Decides (is_ancestor P fuel g pair.1 s) (Walk P g pair.1 s)
          → Decides
              (if nat_eq pair.1 s then ok true else is_ancestor P fuel g pair.1 s)
              ((pair.1 ≡ s) ⊎ Walk P g pair.1 s)
      test pair edge d = Decides-if (nat_eq pair.1 s) _ _ _ (nat_eq_iff pair.1 s) d

      to :
          (pair : ℕ × ℕ)
          → P.edge_endpoints g.graph pair.0 ≡ some (a, pair.1)
          → (pair.1 ≡ s) ⊎ Walk P g pair.1 s
          → Walk P g a s
      to (i, t) h (inl q) = last (i, h ∙ ap (λ u. some (a, u)) q)
      to (i, t) h (inr w) = more (i, h) w

      from :
          (ps : List (ℕ × ℕ))
          → ((pair : ℕ × ℕ) → P.edge_endpoints g.graph pair.0 ≡ some (a, pair.1) → Memᴰ pair ps)
          → Walk P g a s
          → (pair : ℕ × ℕ) × Memᴰ pair ps × ((pair.1 ≡ s) ⊎ Walk P g pair.1 s)
      from ps m (last (i, h)) = ((i, s), m (i, s) h, inl refl)
      from ps m (more {t = t} (i, h) w) = ((i, t), m (i, t) h, inr w)

      walk :
          (ps : List (ℕ × ℕ))
          → ((pair : ℕ × ℕ) → Memᴰ pair ps ↔ (P.edge_endpoints g.graph pair.0 ≡ some (a, pair.1)))
          → ((pair : ℕ × ℕ) × Memᴰ pair ps × ((pair.1 ≡ s) ⊎ Walk P g pair.1 s)) ↔ Walk P g a s
      walk ps iff = (
        (λ (pair, m, w). to pair ((iff pair).0 m) w),
        (λ w. from ps (λ pair h. (iff pair).1 h) w),
      )
