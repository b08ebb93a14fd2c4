-- ===== src/Datamodel/Ast/Tops.antt =====
-- How the lookups of a schema see a new top-level node, and a filter over the nodes
-- (libs/datamodel/src/ast/mod.rs).
use mathlib.Core.Path.{subst}
use prisma_engine.Base.{
  String, true, not, none, some, [], ◌∷◌, ◌==◌, ◌≡◌, inl, inr, find?, filter, filter_map,
  if◌then◌else◌, arith, eq_iff, filter_map-append, filter_map-filter, filter_map-filter_all,
  find?-append, find?-filter-none, find?-filter-id, Bool-cases, Option-cases, append-nil,
  eq_of_str_eq,
}
use prisma_engine.Datamodel.Ast.{
  Top, Model, Enum, SchemaAst, as_model, as_enum, models, enums, find_model, find_enum, model_named,
  enum_named, push_top, is_other_model, is_other_enum,
}

is_other_model-as_model :
    (n : String) (t : Top) (x : Model)
    → as_model t ≡ some x
    → is_other_model n t ≡ not (model_named n x)
is_other_model-as_model n (Top.enum e) x h = ground arith
is_other_model-as_model n (Top.model e) x h = ground arith
is_other_model-as_model n (Top.source e) x h = cc
is_other_model-as_model n (Top.generator e) x h = cc
is_other_model-as_model n (Top.type e) x h = cc

is_other_model-as_enum :
    (n : String) (t : Top) (x : Enum) → as_enum t ≡ some x → is_other_model n t ≡ true
is_other_model-as_enum n (Top.enum e) x h = ground arith
is_other_model-as_enum n (Top.model e) x h = ground arith
is_other_model-as_enum n (Top.source e) x h = cc
is_other_model-as_enum n (Top.generator e) x h = cc
is_other_model-as_enum n (Top.type e) x h = cc

is_other_enum-as_enum :
    (n : String) (t : Top) (x : Enum)
    → as_enum t ≡ some x
    → is_other_enum n t ≡ not (enum_named n x)
is_other_enum-as_enum n (Top.enum e) x h = ground arith
is_other_enum-as_enum n (Top.model e) x h = ground arith
is_other_enum-as_enum n (Top.source e) x h = cc
is_other_enum-as_enum n (Top.generator e) x h = cc
is_other_enum-as_enum n (Top.type e) x h = cc

is_other_enum-as_model :
    (n : String) (t : Top) (x : Model) → as_model t ≡ some x → is_other_enum n t ≡ true
is_other_enum-as_model n (Top.enum e) x h = ground arith
is_other_enum-as_model n (Top.model e) x h = ground arith
is_other_enum-as_model n (Top.source e) x h = cc
is_other_enum-as_model n (Top.generator e) x h = cc
is_other_enum-as_model n (Top.type e) x h = cc

module _ (s : SchemaAst) where
  pub find_model-push_model :
      (x : Model) (k : String)
      → find_model s x.name.name ≡ none
      → find_model (push_top s (Top.model x)) k
        ≡ (if x.name.name == k then some x else find_model s k)
  unfolding find_model models filter_map find?
  find_model-push_model x k h =
      rw (filter_map-append as_model s.tops (Top.model x ∷ []), find?-append)
        (elim (Bool-cases (x.name.name == k)) [
          | inl e ↦
              let absent = subst (λ n. find_model s n ≡ none) (eq_of_str_eq x.name.name k e) h in
              ground arith
          | inr e ↦ elim (Option-cases (find_model s k)) [
            | inl r ↦ ground arith
            | inr (y, r) ↦ ground arith
          ]
        ])

  pub find_enum-push_model :
      (x : Model) (k : String) → find_enum (push_top s (Top.model x)) k ≡ find_enum s k
  unfolding find_enum enums filter_map
  find_enum-push_model x k = rw (filter_map-append as_enum s.tops (Top.model x ∷ []), append-nil)

  abbrev pub without_model : String → SchemaAst
  without_model n = record { tops = filter (is_other_model n) s.tops }

  pub find_model-without_model :
      (n k : String) → find_model (without_model n) k ≡ (if n == k then none else find_model s k)
  unfolding find_model models
  find_model-without_model n k =
      rw
        (filter_map-filter as_model (is_other_model n) (λ x. not (model_named n x))
          (is_other_model-as_model n) s.tops)
        (elim (Bool-cases (n == k)) [
          | inl e ↦ rw e (
              find?-filter-none (λ x. not (model_named n x)) (model_named k)
                (λ x h. ground (arith, eq_iff x.name.name n, eq_iff x.name.name k, eq_iff n k))
                (models s))
          | inr e ↦ rw e (
              find?-filter-id (λ x. not (model_named n x)) (model_named k)
                (λ x h. ground (arith, eq_iff x.name.name n, eq_iff x.name.name k, eq_iff n k))
                (models s))
        ])

  pub find_enum-without_model : (n k : String) → find_enum (without_model n) k ≡ find_enum s k
  unfolding find_enum enums
  find_enum-without_model n k =
      rw (filter_map-filter_all as_enum (is_other_model n) (is_other_model-as_enum n) s.tops)

module _ (s : SchemaAst) where
  pub find_enum-push_enum :
      (x : Enum) (k : String)
      → find_enum s x.name.name ≡ none
      → find_enum (push_top s (Top.enum x)) k ≡ (if x.name.name == k then some x else find_enum s k)
  unfolding find_enum enums filter_map find?
  find_enum-push_enum x k h =
      rw (filter_map-append as_enum s.tops (Top.enum x ∷ []), find?-append)
        (elim (Bool-cases (x.name.name == k)) [
          | inl e ↦
              let absent = subst (λ n. find_enum s n ≡ none) (eq_of_str_eq x.name.name k e) h in
              ground arith
          | inr e ↦ elim (Option-cases (find_enum s k)) [
            | inl r ↦ ground arith
            | inr (y, r) ↦ ground arith
          ]
        ])

  pub find_model-push_enum :
      (x : Enum) (k : String) → find_model (push_top s (Top.enum x)) k ≡ find_model s k
  unfolding find_model models filter_map
  find_model-push_enum x k = rw (filter_map-append as_model s.tops (Top.enum x ∷ []), append-nil)

  abbrev pub without_enum : String → SchemaAst
  without_enum n = record { tops = filter (is_other_enum n) s.tops }

  pub find_enum-without_enum :
      (n k : String) → find_enum (without_enum n) k ≡ (if n == k then none else find_enum s k)
  unfolding find_enum enums
  find_enum-without_enum n k =
      rw
        (filter_map-filter as_enum (is_other_enum n) (λ x. not (enum_named n x))
          (is_other_enum-as_enum n) s.tops)
        (elim (Bool-cases (n == k)) [
          | inl e ↦ rw e (
              find?-filter-none (λ x. not (enum_named n x)) (enum_named k)
                (λ x h. ground (arith, eq_iff x.name.name n, eq_iff x.name.name k, eq_iff n k))
                (enums s))
          | inr e ↦ rw e (
              find?-filter-id (λ x. not (enum_named n x)) (enum_named k)
                (λ x h. ground (arith, eq_iff x.name.name n, eq_iff x.name.name k, eq_iff n k))
                (enums s))
        ])

  pub find_model-without_enum : (n k : String) → find_model (without_enum n) k ≡ find_model s k
  unfolding find_model models
  find_model-without_enum n k =
      rw (filter_map-filter_all as_model (is_other_enum n) (is_other_enum-as_model n) s.tops)
