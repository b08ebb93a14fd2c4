-- ===== src/Migration/Differ/Pairs.antt =====
-- How two lists are compared by a test for the same item, as each of the differs below
-- migration-engine/core/src/migration/datamodel_differ does it.
use mathlib.Core.Option
use prisma_engine.Base.{Bool, List, find?, filter, filter_map, is_none}

module _ {A : Type 0} (same : A → A → Bool) (previous next : List A) where
  -- The items of `next` with no match in `previous`.
  unfoldable pub created : List A
  created = filter (λ n. is_none (find? (λ p. same p n) previous)) next

  -- The items of `previous` with no match in `next`.
  unfoldable pub deleted : List A
  deleted = filter (λ p. is_none (find? (λ n. same p n) next)) previous

  -- The items of `previous` with their first match in `next`.
  unfoldable pub pairs : List (A × A)
  pairs = filter_map (λ p. Option.map (λ n. (p, n)) (find? (λ n. same p n) next)) previous
