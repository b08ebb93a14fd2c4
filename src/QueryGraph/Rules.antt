-- ===== src/QueryGraph/Rules.antt =====
-- The rules of the query graph (query-engine/core/src/query_graph/invariance_rules.rs) hold of every
-- graph that the operations build: no edge starts where it ends, and an `If` node has at most two
-- edges, each of them `Then` or `Else`. This module has the invariant, and what the checks of a new
-- edge tell.
use prisma_engine.Base.{
  traverse_ok, ℕ, suc, ◌≤◌, inl, inr, ◌≡◌, ◌≢◌, refl, sym, ap, ◌∙◌, true, some, List, [], ◌∷◌,
  arith, str_refl, length, Bool-cases, Outcome, ok, ◌>>=◌, >>=-eq-ok, unwrap,
}
use mathlib.Core.Path.{subst}
use prisma_engine.QueryGraph.Decisions.{ok_injective}
use prisma_engine.QueryGraph.Inner.{Petgraph, outgoing}
use prisma_engine.QueryGraph.{Guard, guard, Node, QueryGraphDependency, id}
use prisma_engine.QueryGraph.Edges.{
  Graph, is_if_node, is_branch, child_pairs, outgoing_edges, collect_edges, edge_source,
  edge_target, edge_content, node_content, sort, insert, branch_rule, children_rule, if_node_rules,
  if_flow_edge_rules, disallow_self_edges,
}

length-insert : (x : ℕ) (xs : List ℕ) → length (insert x xs) ≡ suc (length xs)
unfolding insert
length-insert x [] = refl
length-insert x (y ∷ ys) = let ih = length-insert x ys in ground (arith, ih)

length-sort : (xs : List ℕ) → length (sort xs) ≡ length xs
unfolding sort
length-sort [] = refl
length-sort (x ∷ xs) = length-insert x (sort xs) ∙ ap suc (length-sort xs)

length-traverse_ok :
    {E A B : Type 0} (f : A → Outcome E B) (xs : List A) (ys : List B)
    → traverse_ok f xs ≡ ok ys
    → length ys ≡ length xs
unfolding traverse_ok
length-traverse_ok f [] ys h = ap length (sym (ok_injective h))
length-traverse_ok f (x ∷ xs) ys h =
    let (y, _, rest) = >>=-eq-ok (f x) (λ y. traverse_ok f xs >>= λ ys. ok (y ∷ ys)) h in
    let (zs, e, last) = >>=-eq-ok (traverse_ok f xs) (λ ys. ok (y ∷ ys)) rest in
    ap length (sym (ok_injective last)) ∙ ap suc (length-traverse_ok f xs zs e)

module _ {Query ParentIdsFn : Type 0}
    (P : Petgraph (Guard (Node Query)) (Guard (QueryGraphDependency ParentIdsFn))) where
  -- The node has a content, and it is an `If` node.
  abbrev pub IsIf : P.Graph → ℕ → Type 0
  IsIf g n = (c : Node Query) × (P.node_weight g n ≡ some (guard c)) × (is_if_node c ≡ true)

  pub record IsValid (g : P.Graph) : Type 0 where
    pub no_self_edge : (e s t : ℕ) → P.edge_endpoints g e ≡ some (s, t) → s ≢ t
    pub if_edges_branch :
        (e s t : ℕ) (c : QueryGraphDependency ParentIdsFn)
        → P.edge_endpoints g e ≡ some (s, t)
        → IsIf g s
        → P.edge_weight g e ≡ some (guard c)
        → is_branch c ≡ true
    pub if_children : (n : ℕ) → IsIf g n → length (P.edges_directed g n outgoing) ≤ 2

  branch_rule-passed :
      (n : ℕ) (c : QueryGraphDependency ParentIdsFn) {u : Unit {0}}
      → branch_rule P n c ≡ ok u
      → is_branch c ≡ true
  unfolding branch_rule
  branch_rule-passed n c h = elim (Bool-cases (is_branch c)) [ inl e ↦ e | inr e ↦ absurd cc ]

  children_rule-passed :
      (pairs : List (ℕ × ℕ)) {u : Unit {0}} → children_rule P pairs ≡ ok u → length pairs ≤ 2
  unfolding children_rule
  children_rule-passed pairs h = ground arith

  pub disallow_self_edges-passed :
      (g : Graph P) (e s t : ℕ) {u : Unit {0}}
      → P.edge_endpoints g.graph e ≡ some (s, t)
      → disallow_self_edges P g e ≡ ok u
      → s ≢ t
  unfolding disallow_self_edges edge_source edge_target
  disallow_self_edges-passed g e s t at h q = let k = rw (at, q, str_refl (id t)) at h in absurd cc

  if_edge :
      (g : Graph P) (e s t : ℕ) {u : Unit {0}}
      → P.edge_endpoints g.graph e ≡ some (s, t)
      → if_flow_edge_rules P g e ≡ ok u
      → (c : Node Query) → P.node_weight g.graph s ≡ some (guard c)
      → is_if_node c ≡ true
      → ((edge_content P g e >>= unwrap) >>= λ content.
          branch_rule P s content >>= λ _. child_pairs P g s >>= λ pairs. children_rule P pairs)
        ≡ ok u
  unfolding if_flow_edge_rules edge_source node_content if_node_rules
  if_edge g e s t at h c weight is_if = rw (at, weight, is_if) at h

  pub if_flow_edge_rules-branch :
      (g : Graph P) (e s t : ℕ) {u : Unit {0}}
      → P.edge_endpoints g.graph e ≡ some (s, t)
      → if_flow_edge_rules P g e ≡ ok u
      → IsIf g.graph s
      → (c : QueryGraphDependency ParentIdsFn) → P.edge_weight g.graph e ≡ some (guard c)
      → is_branch c ≡ true
  unfolding edge_content
  if_flow_edge_rules-branch g e s t at h (n, weight, is_if) c content =
      let checks = if_edge g e s t at h n weight is_if in
      let (_, first, _) =
        >>=-eq-ok (branch_rule P s c) (λ _. child_pairs P g s >>= λ pairs. children_rule P pairs)
          (rw content at checks) in
      branch_rule-passed s c first

  pub if_flow_edge_rules-few :
      (g : Graph P) (e s t : ℕ) {u : Unit {0}}
      → P.edge_endpoints g.graph e ≡ some (s, t)
      → if_flow_edge_rules P g e ≡ ok u
      → IsIf g.graph s
      → length (P.edges_directed g.graph s outgoing) ≤ 2
  unfolding child_pairs outgoing_edges collect_edges
  if_flow_edge_rules-few g e s t at h (n, weight, is_if) =
      let (c, _, k) =
        >>=-eq-ok (edge_content P g e >>= unwrap)
          (λ content.
            branch_rule P s content >>= λ _. child_pairs P g s >>= λ pairs. children_rule P pairs)
          (if_edge g e s t at h n weight is_if) in
      let (_, _, l) =
        >>=-eq-ok (branch_rule P s c) (λ _. child_pairs P g s >>= λ pairs. children_rule P pairs)
          k in
      let (pairs, given, m) = >>=-eq-ok (child_pairs P g s) (λ pairs. children_rule P pairs) l in
      subst (λ n. n ≤ 2)
        (length-traverse_ok (λ edge. edge_target P g edge >>= λ target. ok (edge, target))
            (sort (P.edges_directed g.graph s outgoing)) pairs given
          ∙ length-sort (P.edges_directed g.graph s outgoing))
        (children_rule-passed pairs m)
