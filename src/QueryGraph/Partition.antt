-- ===== src/QueryGraph/Partition.antt =====
-- The children of a query that lead to a result, where there is at most one of them
-- (query-engine/core/src/interpreter/expressionista.rs, build_query_expression).
use prisma_engine.Base.{
  ℕ, suc, ◌+◌, ◌≤◌, ◌≡◌, ◌⊎◌, inl, inr, refl, sym, ap, ◌∙◌, Bool, true, false, not, List, [], ◌∷◌,
  arith, length, filter, Bool-cases, ok,
}
use prisma_engine.QueryGraph.Split.{result_positions, remove_at, remove_all, split_results}

all_others :
    {A : Type 0} (p : A → Bool) (xs : List A) → filter p xs ≡ [] → filter (λ a. not (p a)) xs ≡ xs
unfolding filter
all_others p [] none_of = refl
all_others p (x ∷ xs) none_of = let ih = all_others p xs in ground (arith, ih)

filter-nil :
    {A : Type 0} (p : A → Bool) (x : A) (xs : List A)
    → filter p (x ∷ xs) ≡ []
    → (p x ≡ false) × (filter p xs ≡ [])
unfolding filter
filter-nil p x xs none_of = elim (Bool-cases (p x)) [
  | inl e ↦ ground arith
  | inr e ↦ (e, ground arith)
]

length-nil : {A : Type 0} (xs : List A) → length xs ≤ 0 → xs ≡ []
length-nil [] h = refl
length-nil (x ∷ xs) h = ground arith

module _ (E : Type 0) {A : Type 0} (p : A → Bool) where
  no_positions :
      (xs : List A)
      → filter p xs ≡ []
      → (ix : ℕ) → result_positions {E = E} (λ a. ok (p a)) ix xs ≡ ok []
  unfolding result_positions
  no_positions [] none_of ix = refl
  no_positions (x ∷ xs) none_of ix =
      let (fails, rest) = filter-nil p x xs none_of in
      rw (fails, no_positions xs rest (suc ix)) refl

  -- The position of the one child with a result, and what taking it out leaves.
  record One (xs : List A) : Type 0 where
    position : ℕ
    child : A
    positions_lem :
        (ix : ℕ) → result_positions {E = E} (λ a. ok (p a)) ix xs ≡ ok ((position + ix) ∷ [])
    removed_lem : remove_at {E = E} position xs ≡ ok (child, filter (λ a. not (p a)) xs)
    filter_lem : filter p xs ≡ child ∷ []

  here-One : (x : A) (xs : List A) → p x ≡ true → filter p xs ≡ [] → One (x ∷ xs)
  unfolding result_positions remove_at filter
  here-One x xs passes none_of = record {
    position = 0;
    child = x;
    positions_lem = λ ix.
        rw (passes, no_positions xs none_of (suc ix)) (ap (λ (n : ℕ). ok (n ∷ [])) (omega arith));
    removed_lem = ap (λ (ys : List A). ok (x, ys)) (sym (all_others p xs none_of) ∙ ground arith);
    filter_lem = ground arith;
  }

  later-One : (x : A) (xs : List A) → p x ≡ false → One xs → One (x ∷ xs)
  unfolding result_positions remove_at filter
  later-One x xs fails one = record {
    position = suc one.position;
    child = one.child;
    positions_lem =
        λ ix. rw (fails, one.positions_lem (suc ix)) (ap (λ (n : ℕ). ok (n ∷ [])) (omega arith));
    removed_lem = rw (one.removed_lem, fails) refl;
    filter_lem = let same = one.filter_lem in ground arith;
  }

  none_or_One : (xs : List A) → length (filter p xs) ≤ 1 → (filter p xs ≡ []) ⊎ One xs
  unfolding filter
  none_or_One [] few = inl refl
  none_or_One (x ∷ xs) few = elim (Bool-cases (p x)) [
    | inl e ↦ inr (here-One x xs e (length-nil (filter p xs) (ground arith)))
    | inr e ↦ elim (none_or_One xs (ground arith)) [
      | inl none_of ↦ inl (ground arith)
      | inr one ↦ inr (later-One x xs e one)
    ]
  ]

  -- If at most one child leads to a result, by a test that does not fail, then the split does not
  -- panic, and gives the children that lead to a result and those that do not, in their order.
  pub split_results_lem :
      (children : List A)
      → length (filter p children) ≤ 1
      → split_results {E = E} (λ a. ok (p a)) children
        ≡ ok (filter p children, filter (λ a. not (p a)) children)
  unfolding split_results remove_all
  split_results_lem children few = elim (none_or_One children few) [
    | inl none_of ↦
        rw (no_positions children none_of 0, none_of, all_others p children none_of) refl
    | inr one ↦
        let zero_lem : one.position + 0 ≡ one.position = omega arith in
        rw (one.positions_lem 0, zero_lem, one.removed_lem, one.filter_lem) refl
  ]
