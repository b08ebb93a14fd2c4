-- ===== src/QueryGraph/Inner/Lawful.antt =====
-- The graph of two lists keeps what the documentation of petgraph says.
use mathlib.Core.Path.{subst}
use mathlib.Core.Option
use mathlib.Core.Option.{some-injective}
use mathlib.Core.List.{Memᴰ}
use prisma_engine.Base.{
  ℕ, zero, suc, ◌≤◌, ◌≡◌, refl, ap, ◌∙◌, ◌⊎◌, inl, inr, Bool, true, false, Option, none, some, List,
  [], ◌∷◌, ◌++◌, arith, length, get_elem?, nat_eq, ltb, all, if◌then◌else◌, Bool-cases,
  Option-cases, eq_of_nat_eq,
}
use prisma_engine.QueryGraph.Inner.{IsLawful, outgoing}
use prisma_engine.QueryGraph.Inner.Listed.{
  Arc, Listed, listed, added, removed, add_edge, add_edge_if, remove_edge, set_edge_weight,
  edge_ends, starts, ends, known,
}
use prisma_engine.QueryGraph.Inner.Listed.Lists.{
  get_elem?-update_at, get_elem?-snoc, get_elem?-length, get_elem?-some, all-get, update_at,
  indices,
}
use prisma_engine.QueryGraph.Inner.Listed.Indices.{
  indices_sound, indices_complete, indices-snoc, indices-update_at, count-swap_remove,
  get-swap_remove,
}

-- What is true of one pair is true of an equal one.
some-pair :
    {A B : Type 0} (Q : A → B → Type 0) (a b : A) (x y : B)
    → ◌≡◌ {A = Option (A × B)} (some (a, x)) (some (b, y))
    → Q a x
    → Q b y
some-pair {A = A} {B = B} Q a b x y e q =
    subst (λ (z : A × B). Q z.0 z.1) (some-injective (a, x) (b, y) e) q

module _ {E : Type 0} where
  abbrev arc : ℕ → ℕ → E → Arc E
  arc s t w = record { source = s; target = t; weight = w }

  -- Through the list of the edges with another one at its end, and with one of them changed.
  map-snoc :
      {B : Type 0} (f : Arc E → B) (xs : List (Arc E)) (x : Arc E) (i : ℕ)
      → Option.map f (get_elem? (xs ++ (x ∷ [])) i)
        ≡ (if nat_eq i (length xs) then some (f x) else Option.map f (get_elem? xs i))
  map-snoc f xs x i =
      rw (get_elem?-snoc xs x i)
        (elim (Bool-cases (nat_eq i (length xs))) [ inl q ↦ rw q refl | inr q ↦ rw q refl ])

  map-update_at :
      {B : Type 0} (f : Arc E → B) (i : ℕ) (c : Arc E → Arc E)
      → ((a : Arc E) → f (c a) ≡ f a)
      → (xs : List (Arc E)) (j : ℕ)
      → Option.map f (get_elem? (update_at i c xs) j) ≡ Option.map f (get_elem? xs j)
  unfolding update_at
  map-update_at f i c same [] j = refl
  map-update_at f zero c same (x ∷ xs) zero = ap some (same x)
  map-update_at f zero c same (x ∷ xs) (suc j) = refl
  map-update_at f (suc i) c same (x ∷ xs) zero = refl
  map-update_at f (suc i) c same (x ∷ xs) (suc j) = map-update_at f i c same xs j

module _ {N E : Type 0} where
  -- What is true of the graph with the edge added is true of what `add_edge` gives.
  add_edge-holds :
      (g h : Listed N E) (s t e : ℕ) (w : E) (Q : Listed N E → ℕ → Type 0)
      → ((inside : ltb s (length g.nodes) ≡ true) → Q (added g (arc s t w) inside) (length g.arcs))
      → add_edge g s t w ≡ some (h, e)
      → Q h e
  add_edge-holds g h s t e w Q q eq = cases (known (ltb s (length g.nodes))) eq
    where
      inner :
          (b : Bool) (inside : ltb s (length g.nodes) ≡ true)
          → if◌then◌else◌ {A = Option (Listed N E × ℕ)} b
              (some (added g (arc s t w) inside, length g.arcs))
              none
            ≡ some (h, e)
          → Q h e
      inner true inside k = some-pair Q _ _ _ _ k (q inside)
      inner false inside k = absurd cc

      cases :
          (c : (ltb s (length g.nodes) ≡ true) ⊎ (ltb s (length g.nodes) ≡ false))
          → add_edge_if g (arc s t w) c ≡ some (h, e)
          → Q h e
      cases (inl inside) k = inner (ltb t (length g.nodes)) inside k
      cases (inr outside) k = absurd cc

  remove_edge-holds :
      (g h : Listed N E) (i : ℕ) (w : E) (Q : Listed N E → Type 0)
      → Q (removed g i)
      → remove_edge g i ≡ some (w, h)
      → Q h
  remove_edge-holds g h i w Q q eq = cases (get_elem? g.arcs i) eq
    where
      cases :
          (o : Option (Arc E))
          → Option.map {B = E × Listed N E} (λ a. (a.weight, removed g i)) o ≡ some (w, h)
          → Q h
      cases none k = absurd cc
      cases (some a) k = some-pair (λ _ h. Q h) _ _ _ _ k q

  ends_some :
      (g : Listed N E) (e : ℕ) (a : Arc E)
      → get_elem? g.arcs e ≡ some a
      → edge_ends g e ≡ some (a.source, a.target)
  ends_some g e a h = rw h refl

  ends_arc :
      (g : Listed N E) (e s t : ℕ)
      → edge_ends g e ≡ some (s, t)
      → (a : Arc E) × (get_elem? g.arcs e ≡ some a) × (a.source ≡ s) × (a.target ≡ t)
  ends_arc g e s t h = cases (get_elem? g.arcs e) refl h
    where
      cases :
          (o : Option (Arc E))
          → get_elem? g.arcs e ≡ o
          → Option.map {B = ℕ × ℕ} (λ a. (a.source, a.target)) o ≡ some (s, t)
          → (a : Arc E) × (get_elem? g.arcs e ≡ some a) × (a.source ≡ s) × (a.target ≡ t)
      cases none q k = absurd cc
      cases (some a) q k = (
        a,
        q,
        ap (λ (z : ℕ × ℕ). z.0) (some-injective (a.source, a.target) (s, t) k),
        ap (λ (z : ℕ × ℕ). z.1) (some-injective (a.source, a.target) (s, t) k),
      )

  weight-set_edge_weight :
      (g : Listed N E) (i : ℕ) (v w : E)
      → Option.map (λ a. a.weight) (get_elem? g.arcs i) ≡ some v
      → (e : ℕ)
      → Option.map (λ a. a.weight) (get_elem? (set_edge_weight g i w).arcs e)
        ≡ (if nat_eq e i then some w else Option.map (λ a. a.weight) (get_elem? g.arcs e))
  weight-set_edge_weight g i v w h e = elim (Option-cases (get_elem? g.arcs i)) [
    | inl q ↦ absurd (absent q h)
    | inr (a, q) ↦
        rw (get_elem?-update_at i (λ a. record a { weight = w }) g.arcs q e)
          (elim (Bool-cases (nat_eq e i)) [ inl q ↦ rw q refl | inr q ↦ rw q refl ])
  ]
    where
      absent :
          get_elem? g.arcs i ≡ none → Option.map (λ a. a.weight) (get_elem? g.arcs i) ≡ some v → ⊥
      absent q h = cc

  left_arc :
      (g : Listed N E) (i e : ℕ)
      → (k : ℕ) × (edge_ends (removed g i) e ≡ edge_ends g k)
        × (Option.map (λ a. a.weight) (get_elem? (removed g i).arcs e)
            ≡ Option.map (λ a. a.weight) (get_elem? g.arcs k))
  left_arc g i e =
      let (k, q) = get-swap_remove i g.arcs e in
      (k, ap (Option.map (λ a. (a.source, a.target))) q, ap (Option.map (λ a. a.weight)) q)

  starting :
      (g : Listed N E) (n e : ℕ)
      → Memᴰ e (indices (starts n) 0 g.arcs)
      → (t : ℕ) × (edge_ends g e ≡ some (n, t))
  starting g n e m =
      let (i, at, (a, found, passes)) = indices_sound (starts n) 0 g.arcs e m in
      (
        a.target,
        ends_some g e a (subst (λ j. get_elem? g.arcs j ≡ some a) (omega (arith, at)) found)
            ∙ ap (λ s. some (s, a.target)) (eq_of_nat_eq a.source n passes),
      )

  starting_back :
      (g : Listed N E) (n e : ℕ)
      → (t : ℕ) × (edge_ends g e ≡ some (n, t))
      → Memᴰ e (indices (starts n) 0 g.arcs)
  starting_back g n e (t, h) =
      let (a, found, s, _) = ends_arc g e n t h in
      subst (λ i. Memᴰ i (indices (starts n) 0 g.arcs)) (omega arith)
        (indices_complete (starts n) 0 g.arcs e (a, found, ground arith))

  ending :
      (g : Listed N E) (n e : ℕ)
      → Memᴰ e (indices (ends n) 0 g.arcs)
      → (s : ℕ) × (edge_ends g e ≡ some (s, n))
  ending g n e m =
      let (i, at, (a, found, passes)) = indices_sound (ends n) 0 g.arcs e m in
      (
        a.source,
        ends_some g e a (subst (λ j. get_elem? g.arcs j ≡ some a) (omega (arith, at)) found)
            ∙ ap (λ t. some (a.source, t)) (eq_of_nat_eq a.target n passes),
      )

  ending_back :
      (g : Listed N E) (n e : ℕ)
      → (s : ℕ) × (edge_ends g e ≡ some (s, n))
      → Memᴰ e (indices (ends n) 0 g.arcs)
  ending_back g n e (s, h) =
      let (a, found, _, t) = ends_arc g e s n h in
      subst (λ i. Memᴰ i (indices (ends n) 0 g.arcs)) (omega arith)
        (indices_complete (ends n) 0 g.arcs e (a, found, ground arith))

  source_node :
      (g : Listed N E) (e s t : ℕ)
      → edge_ends g e ≡ some (s, t)
      → (w : N) × (get_elem? g.nodes s ≡ some w)
  source_node g e s t h =
      let (a, found, q, _) = ends_arc g e s t h in
      get_elem?-some g.nodes s (
        subst (λ i. ltb i (length g.nodes) ≡ true) q
          (all-get (λ a. ltb a.source (length g.nodes)) g.arcs e g.inside found))

nat_eq_swap : (n a : ℕ) → nat_eq n a ≡ false → nat_eq a n ≡ false
nat_eq_swap n a h = ground arith

no_arcs :
    (N E : Type 0) (n : ℕ) → length ((listed N E).edges_directed (listed N E).new n outgoing) ≡ 0
unfolding indices all
no_arcs N E n = refl

no_ends : (N E : Type 0) (e : ℕ) → (listed N E).edge_endpoints (listed N E).new e ≡ none
unfolding all
no_ends N E e = refl

pub listed-IsLawful : (N E : Type 0) → IsLawful (listed N E)
listed-IsLawful N E = record {
  new_empty = no_ends N E;
  new_no_edges = no_arcs N E;
  add_node_fresh = λ g w. get_elem?-length g.nodes;
  node_weight-add_node = λ g w n. get_elem?-snoc g.nodes w n;
  edge_weight-add_node = λ g w e. refl;
  edge_endpoints-add_node = λ g w e. refl;
  edges_directed-add_node = λ g w n. refl;
  node_weight-add_edge = λ {g} {h} {a} {b} {e} {w} q n.
      add_edge-holds g h a b e w (λ h _. get_elem? h.nodes n ≡ get_elem? g.nodes n) (λ _. refl) q;
  edge_weight-add_edge = λ {g} {h} {a} {b} {e} {w} q i.
      add_edge-holds g h a b e w
        (λ h e.
          Option.map (λ a. a.weight) (get_elem? h.arcs i)
          ≡ (if nat_eq i e then some w else Option.map (λ a. a.weight) (get_elem? g.arcs i)))
        (λ _. map-snoc (λ a. a.weight) g.arcs (arc a b w) i) q;
  edge_endpoints-add_edge = λ {g} {h} {a} {b} {e} {w} q i.
      add_edge-holds g h a b e w
        (λ h e. edge_ends h i ≡ (if nat_eq i e then some (a, b) else edge_ends g i))
        (λ _. map-snoc (λ a. (a.source, a.target)) g.arcs (arc a b w) i) q;
  edges_directed-add_edge = λ {g} {h} {a} {b} {e} {w} q n other.
      add_edge-holds g h a b e w
        (λ h _. length (indices (starts n) 0 h.arcs) ≡ length (indices (starts n) 0 g.arcs))
        (λ _. ap length (indices-snoc (starts n) 0 g.arcs (arc a b w) (nat_eq_swap n a other))) q;
  node_weight-remove_edge = λ {g} {h} {i} {w} q n.
      remove_edge-holds g h i w (λ h. get_elem? h.nodes n ≡ get_elem? g.nodes n) refl q;
  edge-remove_edge = λ {g} {h} {i} {w} q e.
      remove_edge-holds g h i w
        (λ h.
          (k : ℕ) × (edge_ends h e ≡ edge_ends g k)
          × (Option.map (λ a. a.weight) (get_elem? h.arcs e)
              ≡ Option.map (λ a. a.weight) (get_elem? g.arcs k)))
        (left_arc g i e) q;
  edges_directed-remove_edge = λ {g} {h} {i} {w} q n.
      remove_edge-holds g h i w
        (λ h. length (indices (starts n) 0 h.arcs) ≤ length (indices (starts n) 0 g.arcs))
        (count-swap_remove (starts n) i g.arcs) q;
  node_weight-set_node_weight = λ g i v w h n. get_elem?-update_at i (λ _. w) g.nodes h n;
  edge_weight-set_node_weight = λ g i w e. refl;
  edge_endpoints-set_node_weight = λ g i w e. refl;
  edges_directed-set_node_weight = λ g i w n. refl;
  node_weight-set_edge_weight = λ g i w n. refl;
  edge_weight-set_edge_weight = λ g i v w h e. weight-set_edge_weight g i v w h e;
  edge_endpoints-set_edge_weight = λ g i w e.
      map-update_at (λ a. (a.source, a.target)) i (λ a. record a { weight = w }) (λ a. refl) g.arcs
        e;
  edges_directed-set_edge_weight = λ g i w n.
      ap length
        (indices-update_at (starts n) 0 i (λ a. record a { weight = w }) (λ a. refl) g.arcs);
  outgoing_iff = λ g n e. (starting g n e, starting_back g n e);
  incoming_iff = λ g n e. (ending g n e, ending_back g n e);
  source_exists = λ g {e} {s} {t} h. source_node g e s t h;
}
