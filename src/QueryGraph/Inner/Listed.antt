-- ===== src/QueryGraph/Inner/Listed.antt =====
-- A graph as the lists of its nodes and of its edges: an instance of the interface to petgraph that
-- the tests run on.
pub mod Lists
pub mod Indices
use prisma_engine.Base.{
  ℕ, zero, suc, ◌<◌, ◌≡◌, refl, ◌⊎◌, ◌++◌, inl, inr, Bool, true, false, ◌&&◌, Option, none, some,
  List, [], ◌∷◌, length, get_elem?, nat_eq, ltb, all, if◌then◌else◌, Bool-cases, arith,
}
use mathlib.Core.Option
use prisma_engine.QueryGraph.Inner.{Petgraph, Direction, outgoing, incoming}
use prisma_engine.QueryGraph.Inner.Listed.Lists.{
  update_at, swap_remove, indices, length-update_at, length-snoc, all-update_at, all-swap_remove,
  all-snoc,
}

pub record Arc (E : Type 0) : Type 0 where
  pub source : ℕ
  pub target : ℕ
  pub weight : E

abbrev pub sources_below : {E : Type 0} → ℕ → List (Arc E) → Bool
sources_below n arcs = all (λ a. ltb a.source n) arcs

pub record Listed (N E : Type 0) : Type 0 where
  pub nodes : List N
  pub arcs : List (Arc E)
  pub inside : sources_below (length nodes) arcs ≡ true

abbrev pub known : (b : Bool) → (b ≡ true) ⊎ (b ≡ false)
known true = inl refl
known false = inr refl

module _ {E : Type 0} where
  abbrev pub starts : ℕ → Arc E → Bool
  starts n a = nat_eq a.source n

  abbrev pub ends : ℕ → Arc E → Bool
  ends n a = nat_eq a.target n

  -- More nodes keep the sources inside.
  pub sources_grow :
      (n : ℕ) (arcs : List (Arc E))
      → sources_below n arcs ≡ true
      → sources_below (suc n) arcs ≡ true
  unfolding all
  sources_grow n [] h = refl
  sources_grow n (a ∷ arcs) h = let ih = sources_grow n arcs (ground arith) in ground (arith, ih)

module _ {N E : Type 0} where
  abbrev pub new : Listed N E
  unfolding all
  new = record { nodes = []; arcs = []; inside = refl }

  abbrev pub add_node : Listed N E → N → Listed N E × ℕ
  add_node g w = (
    record {
      nodes = g.nodes ++ (w ∷ []);
      arcs = g.arcs;
      inside = rw (length-snoc g.nodes w) (sources_grow (length g.nodes) g.arcs g.inside);
    },
    length g.nodes,
  )

  abbrev pub added :
      (g : Listed N E) (a : Arc E) → ltb a.source (length g.nodes) ≡ true → Listed N E
  added g a h = record {
    nodes = g.nodes;
    arcs = g.arcs ++ (a ∷ []);
    inside = all-snoc (λ a. ltb a.source (length g.nodes)) g.arcs a g.inside h;
  }

  abbrev pub add_edge_if :
      (g : Listed N E) (a : Arc E)
      → (ltb a.source (length g.nodes) ≡ true) ⊎ (ltb a.source (length g.nodes) ≡ false)
      → Option (Listed N E × ℕ)
  add_edge_if g a (inl h) =
      if ltb a.target (length g.nodes) then some (added g a h, length g.arcs) else none
  add_edge_if g a (inr h) = none

  abbrev pub add_edge : Listed N E → ℕ → ℕ → E → Option (Listed N E × ℕ)
  add_edge g s t w =
      add_edge_if g (record { source = s; target = t; weight = w }) (known (ltb s (length g.nodes)))

  abbrev pub removed : Listed N E → ℕ → Listed N E
  removed g i = record {
    nodes = g.nodes;
    arcs = swap_remove i g.arcs;
    inside = all-swap_remove (λ a. ltb a.source (length g.nodes)) i g.arcs g.inside;
  }

  abbrev pub remove_edge : Listed N E → ℕ → Option (E × Listed N E)
  remove_edge g i = Option.map (λ a. (a.weight, removed g i)) (get_elem? g.arcs i)

  abbrev pub set_node_weight : Listed N E → ℕ → N → Listed N E
  set_node_weight g i w = record {
    nodes = update_at i (λ _. w) g.nodes;
    arcs = g.arcs;
    inside = rw (length-update_at i (λ _. w) g.nodes) g.inside;
  }

  abbrev pub set_edge_weight : Listed N E → ℕ → E → Listed N E
  set_edge_weight g i w = record {
    nodes = g.nodes;
    arcs = update_at i (λ a. record a { weight = w }) g.arcs;
    inside =
        all-update_at (λ a. ltb a.source (length g.nodes)) i (λ a. record a { weight = w })
          (λ a. refl) g.arcs g.inside;
  }

  abbrev pub edges_directed : Listed N E → ℕ → Direction → List ℕ
  edges_directed g n outgoing = indices (starts n) 0 g.arcs
  edges_directed g n incoming = indices (ends n) 0 g.arcs

  abbrev pub edge_ends : Listed N E → ℕ → Option (ℕ × ℕ)
  edge_ends g e = Option.map (λ a. (a.source, a.target)) (get_elem? g.arcs e)

abbrev pub listed : (N E : Type 0) → Petgraph N E
listed N E = record {
  Graph = Listed N E;
  new = new;
  add_node = add_node;
  add_edge = add_edge;
  remove_edge = remove_edge;
  node_weight = λ g n. get_elem? g.nodes n;
  set_node_weight = set_node_weight;
  edge_weight = λ g e. Option.map (λ a. a.weight) (get_elem? g.arcs e);
  set_edge_weight = set_edge_weight;
  edge_endpoints = edge_ends;
  edges_directed = edges_directed;
  find_edge = λ g s t. get_elem? (indices (λ a. starts s a && ends t a) 0 g.arcs) 0;
  node_indices = λ g. indices (λ _. true) 0 g.nodes;
}
