-- ===== src/QueryGraph/Kept.antt =====
-- The operations of the query graph keep its rules (query-engine/core/src/query_graph/mod.rs).
use prisma_engine.Base.{
  and_with, ℕ, ◌≤◌, ◌⊎◌, inl, inr, ◌≡◌, ◌≢◌, refl, sym, ap, ◌∙◌, true, false, Option, none, some,
  List, [], ◌∷◌, arith, nat_eq, nat_eq_refl, eq_of_nat_eq, length, Bool-cases, ok, err, panic,
  ◌>>=◌, >>=-eq-ok,
}
use mathlib.Core.Path.{subst}
use prisma_engine.QueryGraph.Inner.{Petgraph, IsLawful, outgoing}
use prisma_engine.QueryGraph.{Guard, guard, unset, Node, QueryGraphDependency, QueryGraphError}
use prisma_engine.QueryGraph.Edges.{
  Graph, Result, is_branch, create_node, create_edge, pluck_edge, pluck_node, remove_edge,
  if_flow_edge_rules, disallow_self_edges, after_edge_creation,
}
use mathlib.Core.List.{Memᴰ}
use mathlib.Core.List.Memᴰ.{head}
use prisma_engine.QueryGraph.Rules.{
  IsIf, IsValid, disallow_self_edges-passed, if_flow_edge_rules-branch, if_flow_edge_rules-few,
}

length-no_members : (xs : List ℕ) → ((e : ℕ) → Memᴰ e xs → ⊥) → length xs ≡ 0
length-no_members [] h = refl
length-no_members (x ∷ xs) h = absurd (h x (head refl))

abbrev no_content : {T : Type 0} → Guard T
no_content = record { content = none }

unset_content : (E : Type 0) {T : Type 0} (w : Guard T) → (unset {E = E} w).1 ≡ no_content
unfolding unset
unset_content E {T = T} w = cases w.content
  where
    cases : (o : Option T) → ◌≡◌ {A = Guard T} (unset {E = E} (record { content = o })).1 no_content
    cases none = refl
    cases (some c) = refl

guard-ne-no_content :
    {T : Type 0} (c : T) → ◌≢◌ {A = Option (Guard T)} (some (guard c)) (some no_content)
guard-ne-no_content c h = cc

module _ {Query ParentIdsFn : Type 0}
    (P : Petgraph (Guard (Node Query)) (Guard (QueryGraphDependency ParentIdsFn)))
    (law : IsLawful P) where
  -- No more edges than before, none with a content that it did not have, and no more `If` nodes
  -- among the nodes with edges.
  record Smaller (g h : P.Graph) : Type 0 where
    edges :
        (e : ℕ)
        → (k : ℕ) × (P.edge_endpoints h e ≡ P.edge_endpoints g k)
          × ((c : QueryGraphDependency ParentIdsFn)
              → P.edge_weight h e ≡ some (guard c)
              → P.edge_weight g k ≡ some (guard c))
    ifs : (n : ℕ) → IsIf P h n → IsIf P g n ⊎ ((e t : ℕ) → P.edge_endpoints g e ≢ some (n, t))
    fewer :
        (n : ℕ) → length (P.edges_directed h n outgoing) ≤ length (P.edges_directed g n outgoing)

  Smaller-IsValid : (g h : P.Graph) → Smaller g h → IsValid P g → IsValid P h
  Smaller-IsValid g h small valid = record {
    no_self_edge =
        λ e s t at. let (k, same, _) = small.edges e in valid.no_self_edge k s t (sym same ∙ at);
    if_edges_branch = λ e s t c at is_if weight.
        let (k, same, content) = small.edges e in
        branch k s t c (sym same ∙ at) (content c weight) (small.ifs s is_if);
    if_children = λ n is_if. children n (small.ifs n is_if);
  }
    where
      branch :
          (k s t : ℕ) (c : QueryGraphDependency ParentIdsFn)
          → P.edge_endpoints g k ≡ some (s, t)
          → P.edge_weight g k ≡ some (guard c)
          → IsIf P g s ⊎ ((e t : ℕ) → P.edge_endpoints g e ≢ some (s, t))
          → is_branch c ≡ true
      branch k s t c at weight (inl is_if) = valid.if_edges_branch k s t c at is_if weight
      branch k s t c at weight (inr none_starts) = absurd (none_starts k t at)

      children :
          (n : ℕ)
          → IsIf P g n ⊎ ((e t : ℕ) → P.edge_endpoints g e ≢ some (n, t))
          → length (P.edges_directed h n outgoing) ≤ 2
      children n (inl is_if) =
          let few = valid.if_children n is_if in
          let less = small.fewer n in omega (arith, few, less)
      children n (inr none_starts) =
          let empty =
            length-no_members (P.edges_directed g n outgoing)
              (λ e m. let (t, at) = (law.outgoing_iff g n e).0 m in none_starts e t at) in
          let less = small.fewer n in omega (arith, empty, less)

  -- A result that leaves a graph with the rules, unless it is an error or a panic.
  abbrev pub Keeps : {A : Type 0} → Result (Graph P) A → Type 0
  Keeps {A = A} r = (a : A) → r.0 ≡ ok a → IsValid P r.1.graph

  pub and_with-Keeps :
      {A B : Type 0} (r : Result (Graph P) A) (next : A → Graph P → Result (Graph P) B)
      → Keeps r
      → ((a : A) (g : Graph P) → IsValid P g.graph → Keeps (next a g))
      → Keeps (and_with r next)
  and_with-Keeps (ok a, g) next k each = each a g (k a refl)
  and_with-Keeps (err e, g) next k each = λ a h. absurd cc
  and_with-Keeps (panic, g) next k each = λ a h. absurd cc

  -- The node that is new has no edges.
  create_node-ifs :
      (g : P.Graph) (w : Guard (Node Query)) (n : ℕ)
      → IsIf P (P.add_node g w).0 n
      → IsIf P g n ⊎ ((e t : ℕ) → P.edge_endpoints g e ≢ some (n, t))
  create_node-ifs g w n (c, v, is_if) = elim (Bool-cases (nat_eq n (P.add_node g w).1)) [
    | inl same ↦ inr (λ e t at. fresh (law.source_exists g at) (eq_of_nat_eq n _ same))
    | inr other ↦ inl (c, sym (rw other at (law.node_weight-add_node g w n)) ∙ v, is_if)
  ]
    where
      fresh : (x : Guard (Node Query)) × (P.node_weight g n ≡ some x) → n ≡ (P.add_node g w).1 → ⊥
      fresh (x, old) same = let new = law.add_node_fresh g w in cc

  pub create_node-IsValid :
      (g : Graph P) (t : Node Query) → IsValid P g.graph → IsValid P (create_node P g t).0.graph
  unfolding create_node
  create_node-IsValid g t valid =
      Smaller-IsValid g.graph (P.add_node g.graph (guard t)).0
        (record {
          edges = λ e. (
            e,
            law.edge_endpoints-add_node g.graph (guard t) e,
            λ c w. sym (law.edge_weight-add_node g.graph (guard t) e) ∙ w,
          );
          ifs = create_node-ifs g.graph (guard t);
          fewer = λ n. rw (law.edges_directed-add_node g.graph (guard t) n) (omega arith);
        })
        valid

  pub remove_edge-Keeps : (g : Graph P) (e : ℕ) → IsValid P g.graph → Keeps (remove_edge P g e)
  unfolding remove_edge
  remove_edge-Keeps g e valid = cases (P.remove_edge g.graph e) refl
    where
      cases :
          (o : Option (Guard (QueryGraphDependency ParentIdsFn) × P.Graph))
          → P.remove_edge g.graph e ≡ o
          → Keeps {A = Option (QueryGraphDependency ParentIdsFn)} (elim o [
            | none ↦ (panic, g)
            | some (w, rest) ↦ (ok w.content, record g { graph = rest })
          ])
      cases none q = λ a h. absurd cc
      cases (some (w, rest)) q = λ a h.
          Smaller-IsValid g.graph rest
            (record {
              edges = λ i.
                  let (k, ends, weight) = law.edge-remove_edge q i in
                  (k, ends, λ c v. sym weight ∙ v);
              ifs = λ n (c, v, is_if). inl (c, sym (law.node_weight-remove_edge q n) ∙ v, is_if);
              fewer = λ n. law.edges_directed-remove_edge q n;
            })
            valid

  emptied_ifs :
      (g : P.Graph) (n : ℕ) (w : Guard (Node Query))
      → P.node_weight g n ≡ some w
      → (m : ℕ) → IsIf P (P.set_node_weight g n no_content) m
      → IsIf P g m
  emptied_ifs g n w q m (c, v, is_if) = elim (Bool-cases (nat_eq m n)) [
    | inl same ↦ absurd (
        guard-ne-no_content c
          (sym v ∙ rw same at (law.node_weight-set_node_weight g n w no_content q m)))
    | inr other ↦
        (c, sym (rw other at (law.node_weight-set_node_weight g n w no_content q m)) ∙ v, is_if)
  ]

  pub pluck_node-Keeps : (g : Graph P) (n : ℕ) → IsValid P g.graph → Keeps (pluck_node P g n)
  unfolding pluck_node
  pluck_node-Keeps g n valid = cases (P.node_weight g.graph n) refl
    where
      cases :
          (o : Option (Guard (Node Query)))
          → P.node_weight g.graph n ≡ o
          → Keeps {A = Node Query} (elim o [
            | none ↦ (panic, g)
            | some w ↦
                let taken = unset w in
                (taken.0, record g { graph = P.set_node_weight g.graph n taken.1 })
          ])
      cases none q = λ a h. absurd cc
      cases (some w) q = λ a h.
          subst (λ v. IsValid P (P.set_node_weight g.graph n v))
            (sym (unset_content QueryGraphError w))
            (Smaller-IsValid g.graph (P.set_node_weight g.graph n no_content)
              (record {
                edges = λ e. (
                  e,
                  law.edge_endpoints-set_node_weight g.graph n no_content e,
                  λ c v. sym (law.edge_weight-set_node_weight g.graph n no_content e) ∙ v,
                );
                ifs = λ m is_if. inl (emptied_ifs g.graph n w q m is_if);
                fewer = λ m.
                    rw (law.edges_directed-set_node_weight g.graph n no_content m) (omega arith);
              })
              valid)

  emptied_weight :
      (g : P.Graph) (e : ℕ) (w : Guard (QueryGraphDependency ParentIdsFn))
      → P.edge_weight g e ≡ some w
      → (i : ℕ) (c : QueryGraphDependency ParentIdsFn)
      → P.edge_weight (P.set_edge_weight g e no_content) i ≡ some (guard c)
      → P.edge_weight g i ≡ some (guard c)
  emptied_weight g e w q i c v = elim (Bool-cases (nat_eq i e)) [
    | inl same ↦ absurd (
        guard-ne-no_content c
          (sym v ∙ rw same at (law.edge_weight-set_edge_weight g e w no_content q i)))
    | inr other ↦ sym (rw other at (law.edge_weight-set_edge_weight g e w no_content q i)) ∙ v
  ]

  pub pluck_edge-Keeps : (g : Graph P) (e : ℕ) → IsValid P g.graph → Keeps (pluck_edge P g e)
  unfolding pluck_edge
  pluck_edge-Keeps g e valid = cases (P.edge_weight g.graph e) refl
    where
      cases :
          (o : Option (Guard (QueryGraphDependency ParentIdsFn)))
          → P.edge_weight g.graph e ≡ o
          → Keeps {A = QueryGraphDependency ParentIdsFn} (elim o [
            | none ↦ (panic, g)
            | some w ↦
                let taken = unset w in
                (taken.0, record g { graph = P.set_edge_weight g.graph e taken.1 })
          ])
      cases none q = λ a h. absurd cc
      cases (some w) q = λ a h.
          subst (λ v. IsValid P (P.set_edge_weight g.graph e v))
            (sym (unset_content QueryGraphError w))
            (Smaller-IsValid g.graph (P.set_edge_weight g.graph e no_content)
              (record {
                edges = λ i. (
                  i,
                  law.edge_endpoints-set_edge_weight g.graph e no_content i,
                  emptied_weight g.graph e w q i,
                );
                ifs = λ m (c, v, is_if).
                    inl
                      (c, sym (law.node_weight-set_edge_weight g.graph e no_content m) ∙ v, is_if);
                fewer = λ m.
                    rw (law.edges_directed-set_edge_weight g.graph e no_content m) (omega arith);
              })
              valid)

  -- The graph with the new edge, when the checks of the edge are passed.
  added-IsValid :
      (g : Graph P) (a b e : ℕ) (c : QueryGraphDependency ParentIdsFn) (added : P.Graph)
      {u : Unit {0}}
      → P.add_edge g.graph a b (guard c) ≡ some (added, e)
      → IsValid P g.graph
      → if_flow_edge_rules P (record g { graph = added }) e ≡ ok u
      → disallow_self_edges P (record g { graph = added }) e ≡ ok u
      → IsValid P added
  added-IsValid g a b e c added q valid rules distinct = record {
    no_self_edge = λ i s t at. elim (Bool-cases (nat_eq i e)) [
      | inl same ↦ disallow_self_edges-passed P h e s t (moved i same at) distinct
      | inr other ↦ valid.no_self_edge i s t (sym (old_ends i other) ∙ at)
    ];
    if_edges_branch = λ i s t d at is_if weight. elim (Bool-cases (nat_eq i e)) [
      | inl same ↦
          if_flow_edge_rules-branch P h e s t (moved i same at) rules is_if d
            (subst (λ j. P.edge_weight added j ≡ some (guard d)) (eq_of_nat_eq i e same) weight)
      | inr other ↦
          valid.if_edges_branch i s t d (sym (old_ends i other) ∙ at) (old_if s is_if)
            (sym (rw other at (law.edge_weight-add_edge q i)) ∙ weight)
    ];
    if_children = λ n is_if. elim (Bool-cases (nat_eq n a)) [
      | inl same ↦ if_flow_edge_rules-few P h e n b (new_ends n (eq_of_nat_eq n a same)) rules is_if
      | inr other ↦
          subst (λ k. k ≤ 2) (sym (law.edges_directed-add_edge q n other))
            (valid.if_children n (old_if n is_if))
    ];
  }
    where
      h : Graph P
      h = record g { graph = added }

      moved :
          (i : ℕ) {s t : ℕ}
          → nat_eq i e ≡ true
          → P.edge_endpoints added i ≡ some (s, t)
          → P.edge_endpoints added e ≡ some (s, t)
      moved i {s} {t} same at =
          subst (λ j. P.edge_endpoints added j ≡ some (s, t)) (eq_of_nat_eq i e same) at

      old_ends :
          (i : ℕ) → nat_eq i e ≡ false → P.edge_endpoints added i ≡ P.edge_endpoints g.graph i
      old_ends i other = rw other at (law.edge_endpoints-add_edge q i)

      old_if : (n : ℕ) → IsIf P added n → IsIf P g.graph n
      old_if n (c, v, is_if) = (c, sym (law.node_weight-add_edge q n) ∙ v, is_if)

      new_ends : (n : ℕ) → n ≡ a → P.edge_endpoints added e ≡ some (n, b)
      new_ends n same =
          rw (nat_eq_refl e) at (law.edge_endpoints-add_edge q e) ∙ ap (λ s. some (s, b)) (sym same)

  pub create_edge-Keeps :
      (g : Graph P) (a b : ℕ) (c : QueryGraphDependency ParentIdsFn)
      → IsValid P g.graph
      → Keeps (create_edge P g a b c)
  unfolding create_edge after_edge_creation
  create_edge-Keeps g a b c valid = cases (P.add_edge g.graph a b (guard c)) refl
    where
      cases :
          (o : Option (P.Graph × ℕ))
          → P.add_edge g.graph a b (guard c) ≡ o
          → Keeps {A = ℕ} (elim o [
            | none ↦ (panic, g)
            | some (added, edge) ↦
                let h = record g { graph = added } in
                (after_edge_creation P h edge >>= λ _. ok edge, h)
          ])
      cases none q = λ x k. absurd cc
      cases (some (added, e)) q = λ x k.
          let h : Graph P = record g { graph = added } in
          let (_, checks, _) = >>=-eq-ok (after_edge_creation P h e) (λ _. ok e) k in
          let (_, rules, distinct) =
            >>=-eq-ok (if_flow_edge_rules P h e) (λ _. disallow_self_edges P h e) checks in
          added-IsValid g a b e c added q valid rules distinct
