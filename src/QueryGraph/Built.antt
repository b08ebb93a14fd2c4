-- ===== src/QueryGraph/Built.antt =====
-- Every graph that the operations of the query graph build keeps the rules, the swap of the marked
-- nodes included (query-engine/core/src/query_graph/mod.rs).
use mathlib.Core.List.{reverse}
use prisma_engine.Base.{
  and_with, ℕ, ◌≡◌, ◌≢◌, ◌⊎◌, refl, sym, ap, inl, inr, true, false, Option, none, some, List, [],
  ◌∷◌, arith, Bool-cases, Outcome, ok, err, panic, ◌>>=◌, unwrap,
}
use prisma_engine.QueryGraph.Inner.{Petgraph, IsLawful}
use prisma_engine.QueryGraph.{
  Guard, Node, query, flow, QueryGraphDependency, execution_order, QueryGraphError,
}
use prisma_engine.QueryGraph.Edges.{
  Graph, Result, new, create_node, create_edge, pluck_edge, pluck_node, remove_edge,
  add_result_node, mark_nodes, flag_transactional, edge_source, node_content, incoming_edges,
}
use prisma_engine.QueryGraph.Swap.{
  reading, swap_parent_edge, swap_parent_edges, reverse_edge, swap_pairs, swap_marked,
  after_graph_completion, finalize,
}
use prisma_engine.QueryGraph.Rules.{IsValid}
use prisma_engine.QueryGraph.Kept.{
  Keeps, and_with-Keeps, create_node-IsValid, create_edge-Keeps, remove_edge-Keeps,
  pluck_node-Keeps, pluck_edge-Keeps,
}

module _ {Query ParentIdsFn : Type 0}
    (P : Petgraph (Guard (Node Query)) (Guard (QueryGraphDependency ParentIdsFn))) where
  -- The graphs that are built by operations that do not fail.
  pub data Built : Graph P → Type 0 where
    start : Built (new P)
    with_node : {g : Graph P} (t : Node Query) → Built g → Built (create_node P g t).0
    with_edge :
        {g : Graph P} (from to : ℕ) (c : QueryGraphDependency ParentIdsFn) {e : ℕ}
        → Built g
        → (create_edge P g from to c).0 ≡ ok e
        → Built (create_edge P g from to c).1
    without_edge :
        {g : Graph P} (e : ℕ) {c : Option (QueryGraphDependency ParentIdsFn)}
        → Built g
        → (remove_edge P g e).0 ≡ ok c
        → Built (remove_edge P g e).1
    plucked_edge :
        {g : Graph P} (e : ℕ) {c : QueryGraphDependency ParentIdsFn}
        → Built g
        → (pluck_edge P g e).0 ≡ ok c
        → Built (pluck_edge P g e).1
    plucked_node :
        {g : Graph P} (n : ℕ) {c : Node Query}
        → Built g
        → (pluck_node P g n).0 ≡ ok c
        → Built (pluck_node P g n).1
    result_node : {g : Graph P} (n : ℕ) → Built g → Built (add_result_node P g n)
    marked : {g : Graph P} (parent child : ℕ) → Built g → Built (mark_nodes P g parent child)
    transactional : {g : Graph P} → Built g → Built (flag_transactional P g)
    final :
        {g : Graph P} {u : Unit {0}} → Built g → (finalize P g).0 ≡ ok u → Built (finalize P g).1

module _ {Query ParentIdsFn : Type 0}
    (P : Petgraph (Guard (Node Query)) (Guard (QueryGraphDependency ParentIdsFn)))
    (law : IsLawful P) where
  -- A result that only reads.
  reading-Keeps :
      {A : Type 0} (o : Outcome QueryGraphError A) (g : Graph P)
      → IsValid P g.graph
      → Keeps P law (reading o g)
  reading-Keeps o g valid = λ a h. valid

  done-Keeps : (g : Graph P) → IsValid P g.graph → Keeps P law {A = Unit {0}} (ok tt, g)
  done-Keeps g valid = λ a h. valid

  rewired-Keeps :
      (edge from to : ℕ) (g : Graph P)
      → IsValid P g.graph
      → Keeps P law (
          and_with (remove_edge P g edge) λ removed g.
            and_with
              (reading (unwrap removed) g)
              λ content g. and_with (create_edge P g from to content) λ _ g. (ok tt, g))
  rewired-Keeps edge from to g valid =
      and_with-Keeps P law _ _ (remove_edge-Keeps P law g edge valid) λ removed g valid.
        and_with-Keeps P law _ _ (reading-Keeps (unwrap removed) g valid) λ content g valid.
          and_with-Keeps P law _ _ (create_edge-Keeps P law g from to content valid)
            λ _ g valid. done-Keeps g valid

  swap_parent_edge-Keeps :
      (child edge parent : ℕ) (content : Node Query) (g : Graph P)
      → IsValid P g.graph
      → Keeps P law (swap_parent_edge P child edge parent content g)
  unfolding swap_parent_edge
  swap_parent_edge-Keeps child edge parent (flow f) g valid =
      rewired-Keeps edge parent child g valid
  swap_parent_edge-Keeps child edge parent (query q) g valid =
      and_with-Keeps P law _ _ (create_edge-Keeps P law g parent child execution_order valid)
        λ _ g valid. done-Keeps g valid

  swap_parent_edges-Keeps :
      (child : ℕ) (edges : List ℕ) (g : Graph P)
      → IsValid P g.graph
      → Keeps P law (swap_parent_edges P child edges g)
  unfolding swap_parent_edges
  swap_parent_edges-Keeps child [] g valid = done-Keeps g valid
  swap_parent_edges-Keeps child (edge ∷ rest) g valid =
      and_with-Keeps P law _ _ (reading-Keeps (edge_source P g edge) g valid) λ parent g valid.
        and_with-Keeps P law _ _ (reading-Keeps (node_content P g parent >>= unwrap) g valid)
          λ content g valid.
            and_with-Keeps P law _ _ (swap_parent_edge-Keeps child edge parent content g valid)
              λ _ g valid. swap_parent_edges-Keeps child rest g valid

  reverse_edge-Keeps :
      (parent child : ℕ) (edge : Option ℕ) (g : Graph P)
      → IsValid P g.graph
      → Keeps P law (reverse_edge P parent child edge g)
  unfolding reverse_edge
  reverse_edge-Keeps parent child none g valid = done-Keeps g valid
  reverse_edge-Keeps parent child (some edge) g valid = rewired-Keeps edge child parent g valid

  swap_pairs-Keeps :
      (pairs : List (ℕ × ℕ)) (g : Graph P) → IsValid P g.graph → Keeps P law (swap_pairs P pairs g)
  unfolding swap_pairs
  swap_pairs-Keeps [] g valid = done-Keeps g valid
  swap_pairs-Keeps ((parent, child) ∷ rest) g valid =
      and_with-Keeps P law _ _ (swap_parent_edges-Keeps child (incoming_edges P g parent) g valid)
        λ _ g valid.
          and_with-Keeps P law _ _
            (reverse_edge-Keeps parent child (P.find_edge g.graph parent child) g valid)
            λ _ g valid. swap_pairs-Keeps rest g valid

  finalize-Keeps : (g : Graph P) → IsValid P g.graph → Keeps P law (finalize P g)
  unfolding finalize swap_marked
  finalize-Keeps g valid =
      and_with-Keeps P law _ _
        (elim (Bool-cases g.finalized) [
          | inl e ↦ rw e (done-Keeps g valid)
          | inr e ↦ rw e (
              and_with-Keeps P law _ _ (swap_pairs-Keeps (reverse g.marked_node_pairs) _ valid)
                λ _ g valid. done-Keeps (record g { finalized = true }) valid)
        ])
        λ _ g valid. reading-Keeps (after_graph_completion P g) g valid

  empty-IsValid : IsValid P P.new
  empty-IsValid = record {
    no_self_edge = λ e s t at. let none_at = law.new_empty e in absurd (none-ne-some none_at at);
    if_edges_branch = λ e s t c at is_if weight.
        let none_at = law.new_empty e in absurd (none-ne-some none_at at);
    if_children = λ n is_if. let empty = law.new_no_edges n in omega (arith, empty);
  }
    where
      none-ne-some :
          {e : ℕ} {z : ℕ × ℕ}
          → P.edge_endpoints P.new e ≡ none
          → P.edge_endpoints P.new e ≡ some z
          → ⊥
      none-ne-some h k = cc

  -- Over any lawful graph type: a query graph that is built from the empty one, by operations that give
  -- no error and do not panic, has no edge to the node it starts at, and an `If` node whose content is
  -- there has at most two edges, each of them `Then` or `Else` where its content is there.
  pub Built-IsValid : {g : Graph P} → Built P g → IsValid P g.graph
  unfolding new add_result_node mark_nodes flag_transactional
  Built-IsValid start = empty-IsValid
  Built-IsValid (with_node {g = g} t b) = create_node-IsValid P law g t (Built-IsValid b)
  Built-IsValid (with_edge {g = g} from to c b h) =
      create_edge-Keeps P law g from to c (Built-IsValid b) _ h
  Built-IsValid (without_edge {g = g} e b h) = remove_edge-Keeps P law g e (Built-IsValid b) _ h
  Built-IsValid (plucked_edge {g = g} e b h) = pluck_edge-Keeps P law g e (Built-IsValid b) _ h
  Built-IsValid (plucked_node {g = g} n b h) = pluck_node-Keeps P law g n (Built-IsValid b) _ h
  Built-IsValid (result_node n b) = Built-IsValid b
  Built-IsValid (marked parent child b) = Built-IsValid b
  Built-IsValid (transactional b) = Built-IsValid b
  Built-IsValid (final {g = g} b h) = finalize-Keeps g (Built-IsValid b) _ h

  finalize_twice :
      (g : Graph P) (r : Result (Graph P) (Unit {0}))
      → and_with
          (and_with r λ _ g. (ok tt, record g { finalized = true }))
          (λ _ g. (after_graph_completion P g, g))
        ≡ (ok tt, g)
      → g.finalized ≡ true
  unfolding after_graph_completion
  finalize_twice g (ok _, s) h = ap (λ (z : Result (Graph P) (Unit {0})). z.1.finalized) (sym h)
  finalize_twice g (err e, s) h =
      absurd (err-ne-ok (ap (λ (z : Result (Graph P) (Unit {0})). z.0) h))
    where
      err-ne-ok : ◌≢◌ {A = Outcome QueryGraphError (Unit {0})} (err e) (ok tt)
      err-ne-ok k = cc
  finalize_twice g (panic, s) h =
      absurd (panic-ne-ok (ap (λ (z : Result (Graph P) (Unit {0})). z.0) h))
    where
      panic-ne-ok : ◌≢◌ {A = Outcome QueryGraphError (Unit {0})} panic (ok tt)
      panic-ne-ok k = cc

  -- A graph that finalizing has given without an error stays as it is when it is finalized again, even
  -- if nodes were marked in between.
  pub finalize-finalize :
      (g h : Graph P)
      → finalize P g ≡ (ok tt, h)
      → (parent child : ℕ)
      → finalize P (mark_nodes P h parent child) ≡ (ok tt, mark_nodes P h parent child)
  unfolding finalize mark_nodes after_graph_completion
  finalize-finalize g h e parent child = rw (is_final (Bool-cases g.finalized)) refl
    where
      is_final : (g.finalized ≡ true) ⊎ (g.finalized ≡ false) → h.finalized ≡ true
      is_final (inl was) =
          ap (λ (z : Result (Graph P) (Unit {0})). z.1.finalized) (sym (rw was at e))
      is_final (inr was) =
          finalize_twice h (swap_marked P (record g { finalized = false })) (rw was at e)
