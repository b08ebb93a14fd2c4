-- ===== src/QueryGraph/Inner.antt =====
-- The graph type of the crate petgraph, as the query graph uses it
-- (query-engine/core/src/query_graph/mod.rs): its operations, and what its documentation says of
-- them. Nodes and edges are known by their indices.
pub mod Listed
pub mod Lawful
use prisma_engine.Base.{
  ℕ, ◌≡◌, ◌↔◌, ◌≤◌, Option, none, some, List, length, nat_eq, if◌then◌else◌, false,
}
use mathlib.Core.List.{Memᴰ}

pub data Direction : Type 0 where
  outgoing incoming : Direction

-- The index of an edge that `add_edge` gives is `none` where it panics, at an end that does not exist.
-- `set_node_weight` and `set_edge_weight` write through `node_weight_mut` and `edge_weight_mut`.
pub record Petgraph (N E : Type 0) : Type 1 where
  pub Graph : Type 0
  pub new : Graph
  pub add_node : Graph → N → Graph × ℕ
  pub add_edge : Graph → ℕ → ℕ → E → Option (Graph × ℕ)
  pub remove_edge : Graph → ℕ → Option (E × Graph)
  pub node_weight : Graph → ℕ → Option N
  pub set_node_weight : Graph → ℕ → N → Graph
  pub edge_weight : Graph → ℕ → Option E
  pub set_edge_weight : Graph → ℕ → E → Graph
  pub edge_endpoints : Graph → ℕ → Option (ℕ × ℕ)
  pub edges_directed : Graph → ℕ → Direction → List ℕ
  pub find_edge : Graph → ℕ → ℕ → Option ℕ
  pub node_indices : Graph → List ℕ

pub record IsLawful {N E : Type 0} (P : Petgraph N E) : Type 0 where
  pub new_empty : (e : ℕ) → P.edge_endpoints P.new e ≡ none
  pub new_no_edges : (n : ℕ) → length (P.edges_directed P.new n outgoing) ≡ 0
  -- A new node has an index of its own, and changes nothing else.
  pub add_node_fresh : (g : P.Graph) (w : N) → P.node_weight g (P.add_node g w).1 ≡ none
  pub node_weight-add_node :
      (g : P.Graph) (w : N) (n : ℕ)
      → P.node_weight (P.add_node g w).0 n
        ≡ (if nat_eq n (P.add_node g w).1 then some w else P.node_weight g n)
  pub edge_weight-add_node :
      (g : P.Graph) (w : N) (e : ℕ) → P.edge_weight (P.add_node g w).0 e ≡ P.edge_weight g e
  pub edge_endpoints-add_node :
      (g : P.Graph) (w : N) (e : ℕ) → P.edge_endpoints (P.add_node g w).0 e ≡ P.edge_endpoints g e
  pub edges_directed-add_node :
      (g : P.Graph) (w : N) (n : ℕ)
      → P.edges_directed (P.add_node g w).0 n outgoing ≡ P.edges_directed g n outgoing
  -- A new edge has an index of its own, and is an edge of its source only.
  pub node_weight-add_edge :
      {g h : P.Graph} {a b e : ℕ} {w : E}
      → P.add_edge g a b w ≡ some (h, e)
      → (n : ℕ) → P.node_weight h n ≡ P.node_weight g n
  pub edge_weight-add_edge :
      {g h : P.Graph} {a b e : ℕ} {w : E}
      → P.add_edge g a b w ≡ some (h, e)
      → (i : ℕ) → P.edge_weight h i ≡ (if nat_eq i e then some w else P.edge_weight g i)
  pub edge_endpoints-add_edge :
      {g h : P.Graph} {a b e : ℕ} {w : E}
      → P.add_edge g a b w ≡ some (h, e)
      → (i : ℕ) → P.edge_endpoints h i ≡ (if nat_eq i e then some (a, b) else P.edge_endpoints g i)
  pub edges_directed-add_edge :
      {g h : P.Graph} {a b e : ℕ} {w : E}
      → P.add_edge g a b w ≡ some (h, e)
      → (n : ℕ) → nat_eq n a ≡ false
      → length (P.edges_directed h n outgoing) ≡ length (P.edges_directed g n outgoing)
  -- Without one edge, the others are the same, though the last one takes the index that is free.
  pub node_weight-remove_edge :
      {g h : P.Graph} {i : ℕ} {w : E}
      → P.remove_edge g i ≡ some (w, h)
      → (n : ℕ) → P.node_weight h n ≡ P.node_weight g n
  pub edge-remove_edge :
      {g h : P.Graph} {i : ℕ} {w : E}
      → P.remove_edge g i ≡ some (w, h)
      → (e : ℕ)
      → (k : ℕ) × (P.edge_endpoints h e ≡ P.edge_endpoints g k)
        × (P.edge_weight h e ≡ P.edge_weight g k)
  pub edges_directed-remove_edge :
      {g h : P.Graph} {i : ℕ} {w : E}
      → P.remove_edge g i ≡ some (w, h)
      → (n : ℕ) → length (P.edges_directed h n outgoing) ≤ length (P.edges_directed g n outgoing)
  -- Another weight is written.
  pub node_weight-set_node_weight :
      (g : P.Graph) (i : ℕ) (v w : N)
      → P.node_weight g i ≡ some v
      → (n : ℕ)
      → P.node_weight (P.set_node_weight g i w) n
        ≡ (if nat_eq n i then some w else P.node_weight g n)
  pub edge_weight-set_node_weight :
      (g : P.Graph) (i : ℕ) (w : N) (e : ℕ)
      → P.edge_weight (P.set_node_weight g i w) e ≡ P.edge_weight g e
  pub edge_endpoints-set_node_weight :
      (g : P.Graph) (i : ℕ) (w : N) (e : ℕ)
      → P.edge_endpoints (P.set_node_weight g i w) e ≡ P.edge_endpoints g e
  pub edges_directed-set_node_weight :
      (g : P.Graph) (i : ℕ) (w : N) (n : ℕ)
      → length (P.edges_directed (P.set_node_weight g i w) n outgoing)
        ≡ length (P.edges_directed g n outgoing)
  pub node_weight-set_edge_weight :
      (g : P.Graph) (i : ℕ) (w : E) (n : ℕ)
      → P.node_weight (P.set_edge_weight g i w) n ≡ P.node_weight g n
  pub edge_weight-set_edge_weight :
      (g : P.Graph) (i : ℕ) (v w : E)
      → P.edge_weight g i ≡ some v
      → (e : ℕ)
      → P.edge_weight (P.set_edge_weight g i w) e
        ≡ (if nat_eq e i then some w else P.edge_weight g e)
  pub edge_endpoints-set_edge_weight :
      (g : P.Graph) (i : ℕ) (w : E) (e : ℕ)
      → P.edge_endpoints (P.set_edge_weight g i w) e ≡ P.edge_endpoints g e
  pub edges_directed-set_edge_weight :
      (g : P.Graph) (i : ℕ) (w : E) (n : ℕ)
      → length (P.edges_directed (P.set_edge_weight g i w) n outgoing)
        ≡ length (P.edges_directed g n outgoing)
  -- The edges of a node are those that start or end there.
  pub outgoing_iff :
      (g : P.Graph) (n e : ℕ)
      → Memᴰ e (P.edges_directed g n outgoing) ↔ ((t : ℕ) × (P.edge_endpoints g e ≡ some (n, t)))
  pub incoming_iff :
      (g : P.Graph) (n e : ℕ)
      → Memᴰ e (P.edges_directed g n incoming) ↔ ((s : ℕ) × (P.edge_endpoints g e ≡ some (s, n)))
  pub source_exists :
      (g : P.Graph) {e s t : ℕ}
      → P.edge_endpoints g e ≡ some (s, t)
      → (w : N) × (P.node_weight g s ≡ some w)
