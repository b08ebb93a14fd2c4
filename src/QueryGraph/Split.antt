-- ===== src/QueryGraph/Split.antt =====
-- How the children of a query that lead to a result are taken out of the list of its children
-- (query-engine/core/src/interpreter/expressionista.rs, build_query_expression): by their positions,
-- from low to high, each in the list that the one before has left.
use prisma_engine.Base.{ℕ, zero, suc, Bool, List, [], ◌∷◌, Outcome, ok, panic, ◌>>=◌, if◌then◌else◌}

module _ {E A : Type 0} where
  unfoldable pub result_positions : (A → Outcome E Bool) → ℕ → List A → Outcome E (List ℕ)
  result_positions is_result ix [] = ok []
  result_positions is_result ix (child ∷ rest) = is_result child >>= λ found.
      result_positions is_result (suc ix) rest >>= λ positions.
      ok (if found then ix ∷ positions else positions)

  -- `Vec::remove`.
  unfoldable pub remove_at : ℕ → List A → Outcome E (A × List A)
  remove_at n [] = panic
  remove_at zero (x ∷ xs) = ok (x, xs)
  remove_at (suc n) (x ∷ xs) = remove_at n xs >>= λ removed. ok (removed.0, x ∷ removed.1)

  unfoldable pub remove_all : List ℕ → List A → Outcome E (List A × List A)
  remove_all [] xs = ok ([], xs)
  remove_all (n ∷ ns) xs = remove_at n xs >>= λ removed.
      remove_all ns removed.1 >>= λ more. ok (removed.0 ∷ more.0, more.1)

  -- The children with a result, and the others.
  unfoldable pub split_results : (A → Outcome E Bool) → List A → Outcome E (List A × List A)
  split_results is_result children =
      result_positions is_result 0 children >>= λ positions. remove_all positions children
