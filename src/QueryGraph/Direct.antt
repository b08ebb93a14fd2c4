-- ===== src/QueryGraph/Direct.antt =====
-- The test for a direct child (query-engine/core/src/query_graph/mod.rs).
use mathlib.Core.Path.{subst}
use prisma_engine.Base.{
  ℕ, ◌<◌, ◌≡◌, sym, ap, ◌∙◌, ◌↔◌, ◌⊎◌, true, false, some, none, Option, List, refl, Outcome, nat_eq,
  if◌then◌else◌, ok, ◌>>=◌,
}
use mathlib.Core.List.{Memᴰ}
use mathlib.Core.Option.{some-injective}
use prisma_engine.QueryGraph.Inner.{Petgraph, IsLawful, incoming, outgoing}
use prisma_engine.QueryGraph.{Guard, Node, QueryGraphDependency, QueryGraphError}
use prisma_engine.QueryGraph.Edges.{
  Graph, sort, edge_source, incoming_edges, outgoing_edges, edge_target, collect_edges,
}
use prisma_engine.QueryGraph.Walks.{is_ancestor, is_direct_child, direct_child_pairs}
use prisma_engine.QueryGraph.Decisions.{
  Decides, Decides-cong, all_ok-Decides, filter_map_ok-mem, mem-sort, nat_eq_iff, ok_injective,
  none-ne-some, false-ne-true, Decides-if,
}
use prisma_engine.QueryGraph.Ancestors.{
  Edge, Walk, IsRanked, edge_source_of, edge_target_of, is_ancestor-Decides,
}

module _ {Query ParentIdsFn : Type 0}
    (P : Petgraph (Guard (Node Query)) (Guard (QueryGraphDependency ParentIdsFn)))
    (law : IsLawful P) where
  -- Over any lawful graph type: if every edge goes down in height, the test for a direct child with
  -- more fuel than any height ends with a result, which is true exactly when every parent of the child
  -- is the given parent or has a walk to it. That the child has the parent is for the caller to know.
  pub is_direct_child-Decides :
      (g : Graph P) (height : ℕ → ℕ)
      → IsRanked P g height
      → (fuel : ℕ) → ((n : ℕ) → height n < fuel)
      → (parent child : ℕ)
      → Decides
          (is_direct_child P fuel g parent child)
          ((s : ℕ) → Edge P g s child → (s ≡ parent) ⊎ Walk P g s parent)
  unfolding is_direct_child incoming_edges collect_edges
  is_direct_child-Decides g height down fuel enough parent child = Decides-cong _ _ _ parents (
      all_ok-Decides
        (λ edge. edge_source P g edge >>= λ ancestor.
          if nat_eq ancestor parent then ok true else is_ancestor P fuel g ancestor parent)
        (λ edge.
          (s : ℕ)
          → P.edge_endpoints g.graph edge ≡ some (s, child)
          → (s ≡ parent) ⊎ Walk P g s parent)
        (sort (P.edges_directed g.graph child incoming))
        (λ edge m.
          let (s, h) = (law.incoming_iff g.graph child edge).0 ((mem-sort edge _).0 m) in
          test edge s h))
    where
      same_source :
          (edge s u : ℕ)
          → P.edge_endpoints g.graph edge ≡ some (s, child)
          → P.edge_endpoints g.graph edge ≡ some (u, child)
          → s ≡ u
      same_source edge s u h k =
          ap (λ (z : ℕ × ℕ). z.0) (some-injective (s, child) (u, child) (sym h ∙ k))

      test :
          (edge s : ℕ)
          → P.edge_endpoints g.graph edge ≡ some (s, child)
          → Decides
              (edge_source P g edge >>= λ ancestor.
                if nat_eq ancestor parent then ok true else is_ancestor P fuel g ancestor parent)
              ((s : ℕ)
                → P.edge_endpoints g.graph edge ≡ some (s, child)
                → (s ≡ parent) ⊎ Walk P g s parent)
      test edge s h = rw (edge_source_of P g edge s child h) (
          Decides-cong _ _ _
            (
              (λ w u k. subst (λ v. (v ≡ parent) ⊎ Walk P g v parent) (same_source edge s u h k) w),
              (λ f. f s h),
            )
            (Decides-if (nat_eq s parent) _ _ _ (nat_eq_iff s parent)
              (is_ancestor-Decides P law g height down fuel s parent (enough s))))

      parents :
          ((edge : ℕ)
            → Memᴰ edge (sort (P.edges_directed g.graph child incoming))
            → (s : ℕ) → P.edge_endpoints g.graph edge ≡ some (s, child)
            → (s ≡ parent) ⊎ Walk P g s parent)
          ↔ ((s : ℕ) → Edge P g s child → (s ≡ parent) ⊎ Walk P g s parent)
      parents = (
        (λ f s (edge, h).
            f edge ((mem-sort edge _).1 ((law.incoming_iff g.graph child edge).1 (s, h))) s h),
        (λ f edge m s h. f s (edge, h)),
      )

  -- Over any lawful graph type: if every edge goes down in height, then the search for the direct
  -- children of a node with more fuel than any height ends with a list, which has an edge with a node
  -- exactly when the edge leads from the one to the other, and every other parent of the child has a
  -- walk to the node.
  pub direct_child_pairs_iff :
      (g : Graph P) (height : ℕ → ℕ)
      → IsRanked P g height
      → (fuel : ℕ) → ((n : ℕ) → height n < fuel)
      → (node : ℕ)
      → (pairs : List (ℕ × ℕ)) × (direct_child_pairs P fuel g node ≡ ok pairs)
        × ((edge child : ℕ)
            → Memᴰ (edge, child) pairs ↔ (
                (P.edge_endpoints g.graph edge ≡ some (node, child))
                × ((s : ℕ) → Edge P g s child → (s ≡ node) ⊎ Walk P g s node)))
  unfolding direct_child_pairs outgoing_edges collect_edges
  direct_child_pairs_iff g height down fuel enough node =
      let (pairs, e, iff) =
        filter_map_ok-mem taken (sort (P.edges_directed g.graph node outgoing)) (λ edge m.
          let (t, h) = (law.outgoing_iff g.graph node edge).0 ((mem-sort edge _).0 m) in
          let (o, e, _, _) = step edge t h in (o, e)) in
      (
        pairs,
        e,
        λ edge child. (
          (λ m. found edge child ((iff (edge, child)).0 m)),
          (λ (h, above). (iff (edge, child)).1 (
            edge,
            (mem-sort edge _).1 ((law.outgoing_iff g.graph node edge).1 (child, h)),
            let (_, _, _, from) = step edge child h in from above,
          )),
        ),
      )
    where
      Above : ℕ → Type 0
      Above child = (s : ℕ) → Edge P g s child → (s ≡ node) ⊎ Walk P g s node

      taken : ℕ → Outcome QueryGraphError (Option (ℕ × ℕ))
      taken edge = edge_target P g edge >>= λ child_node.
          is_direct_child P fuel g node child_node >>= λ direct.
          ok (if direct then some (edge, child_node) else none)

      Step : ℕ → ℕ → Type 0
      Step edge t =
          (o : Option (ℕ × ℕ)) × (taken edge ≡ ok o)
          × ((z : ℕ × ℕ) → o ≡ some z → (z ≡ (edge, t)) × Above t)
          × (Above t → taken edge ≡ ok (some (edge, t)))

      by_test :
          (edge t : ℕ)
          → P.edge_endpoints g.graph edge ≡ some (node, t)
          → Decides (is_direct_child P fuel g node t) (Above t)
          → Step edge t
      by_test edge t h (true, e, (to, from)) =
          let same : taken edge ≡ ok (some (edge, t)) =
            rw (edge_target_of P g edge node t h, e) refl in
          (
            some (edge, t),
            same,
            (λ z k. (sym (some-injective (edge, t) z k), to refl)),
            (λ _. same),
          )
      by_test edge t h (false, e, (to, from)) =
          let same : taken edge ≡ ok none = rw (edge_target_of P g edge node t h, e) refl in
          (
            none,
            same,
            (λ z k. absurd (none-ne-some k)),
            (λ above. absurd (false-ne-true (from above))),
          )

      step : (edge t : ℕ) → P.edge_endpoints g.graph edge ≡ some (node, t) → Step edge t
      step edge t h = by_test edge t h (is_direct_child-Decides g height down fuel enough node t)

      found :
          (edge child : ℕ)
          → (edge' : ℕ) × Memᴰ edge' (sort (P.edges_directed g.graph node outgoing))
            × (taken edge' ≡ ok (some (edge, child)))
          → (P.edge_endpoints g.graph edge ≡ some (node, child)) × Above child
      found edge child (edge', m, r) =
          let (t, h) = (law.outgoing_iff g.graph node edge').0 ((mem-sort edge' _).0 m) in
          let (o, e, only, _) = step edge' t h in
          let (same, above) = only (edge, child) (ok_injective (sym e ∙ r)) in
          subst (λ (z : ℕ × ℕ). (P.edge_endpoints g.graph z.0 ≡ some (node, z.1)) × Above z.1)
            (sym same) (h, above)
