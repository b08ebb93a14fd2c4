-- ===== src/Migration/Calculator/Guards.antt =====
-- When a step on models, fields or enums succeeds
-- (migration-engine/core/src/migration/datamodel_calculator.rs).
use prisma_engine.Base.{
  sym, ◌∙◌, is_some-map, is_some-modify_first, modify_first, ◌>>=◌, String, Bool, true, false,
  Option, none, some, ◌&&◌, ◌≡◌, refl, and_then, is_none, is_some, inl, inr, arith, ok, err, panic,
  ok_or, unwrap, Option-cases, Bool-cases, find?,
}
use mathlib.Core.Option
use mathlib.Core.Bool.{and-true, and-false}
use prisma_engine.Datamodel.Ast.{
  SchemaAst, Model, Field, find_model, find_enum, find_field, find_field_mut, field_named,
}
use prisma_engine.Datamodel.Ast.Lookup.{is_some-find_model_mut, is_some-find_enum_mut}
use prisma_engine.Datamodel.Ast.Render.{ExpressionText}
use prisma_engine.Migration.Steps.{MigrationStep}
use prisma_engine.Migration.Calculator.{apply_step}
use prisma_engine.Migration.Calculator.Common.{Calculation, CalculatorError}
use prisma_engine.Migration.Calculator.Enums.{
  apply_create_enum, apply_update_enum, apply_delete_enum,
}
use prisma_engine.Migration.Calculator.Models.{
  apply_create_model, apply_update_model, apply_delete_model,
}
use prisma_engine.Migration.Calculator.Fields.{
  apply_create_field, apply_update_field, apply_delete_field, remove_fields, push_field, new_field,
  update_field,
}

-- What the lookups must say for the step to be possible. Steps on directives are not described.
abbrev pub is_applicable : SchemaAst → MigrationStep → Bool
is_applicable s (MigrationStep.create_model c) = is_none (find_model s c.model)
is_applicable s (MigrationStep.update_model c) = is_some (find_model s c.model)
is_applicable s (MigrationStep.delete_model c) = is_some (find_model s c.model)
is_applicable s (MigrationStep.create_field c) =
    is_some (find_model s c.model) && is_none (find_field s c.model c.field)
is_applicable s (MigrationStep.update_field c) = is_some (find_field s c.model c.field)
is_applicable s (MigrationStep.delete_field c) = is_some (find_field s c.model c.field)
is_applicable s (MigrationStep.create_enum c) = is_none (find_enum s c.enum)
is_applicable s (MigrationStep.update_enum c) = is_some (find_enum s c.enum)
is_applicable s (MigrationStep.delete_enum c) = is_some (find_enum s c.enum)
is_applicable s _ = false

abbrev pub IsStructural : MigrationStep → Type 0
IsStructural (MigrationStep.create_directive c) = ⊥
IsStructural (MigrationStep.delete_directive c) = ⊥
IsStructural (MigrationStep.create_directive_argument c) = ⊥
IsStructural (MigrationStep.update_directive_argument c) = ⊥
IsStructural (MigrationStep.delete_directive_argument c) = ⊥
IsStructural _ = Unit

-- A new schema where the test holds, an error where it does not, and never a panic.
abbrev pub Answers : Bool → Calculation → Type 0
Answers b (ok s) = b ≡ true
Answers b (err e) = b ≡ false
Answers b panic = ⊥

-- An outcome of `ok_or` is no panic, and is known by whether there is a value.
ok_or-Answers :
    (e : CalculatorError) (o : Option SchemaAst) (b : Bool) → is_some o ≡ b → Answers b (ok_or e o)
ok_or-Answers e none b h = sym h
ok_or-Answers e (some s) b h = sym h

unwrap-Answers : (o : Option SchemaAst) → is_some o ≡ true → Answers true (unwrap o)
unwrap-Answers none h = cc
unwrap-Answers (some s) h = refl

is_some-and_then {ℓ κ} :
    {A : Type ℓ} {B : Type κ} (o : Option A) (f : A → B)
    → is_some (and_then o (λ a. some (f a))) ≡ is_some o
is_some-and_then none f = refl
is_some-and_then (some a) f = refl

module _ (text : ExpressionText) (s : SchemaAst) where
  is_some-find_field_mut :
      (m x : String) (f : Field → Field)
      → is_some (find_field_mut s m x (λ y. some (f y))) ≡ is_some (find_field s m x)
  unfolding find_field_mut find_field
  is_some-find_field_mut m x f = is_some-find_model_mut s m _ ∙ within (find_model s m)
    where
      within :
          (o : Option Model)
          → is_some (
              and_then o (λ found.
                Option.map
                  (λ fs. record found { fields = fs })
                  (modify_first (field_named x) (λ y. some (f y)) found.fields)))
            ≡ is_some (and_then o (λ found. find? (field_named x) found.fields))
      within none = refl
      within (some m) =
          is_some-map _ _
          ∙ (is_some-modify_first (field_named x) (λ y. some (f y)) m.fields
              ∙ is_some-and_then (find? (field_named x) m.fields) f)

  -- No field is found in a model that is not.
  find_field-absent :
      (m x : String) → is_some (find_model s m) ≡ false → is_some (find_field s m x) ≡ false
  unfolding find_field
  find_field-absent m x h = ground arith

  -- A step on a model, a field or an enum gives a new schema if the lookups allow it, an error if they
  -- do not, and never a panic.
  pub apply_step-Answers :
      (step : MigrationStep)
      → IsStructural step
      → Answers (is_applicable s step) (apply_step text s step)
  unfolding apply_step apply_create_model apply_update_model apply_delete_model apply_create_enum
      apply_update_enum apply_delete_enum apply_create_field apply_update_field apply_delete_field
  apply_step-Answers (MigrationStep.create_model c) u = elim (Option-cases (find_model s c.model)) [
    | inl e ↦ rw (e, ◌>>=◌) refl
    | inr (m, e) ↦ rw (e, ◌>>=◌) refl
  ]
  apply_step-Answers (MigrationStep.update_model c) u =
      ok_or-Answers _ _ _
        (is_some-find_model_mut s c.model _ ∙ is_some-and_then (find_model s c.model) _)
  apply_step-Answers (MigrationStep.delete_model c) u = elim (Option-cases (find_model s c.model)) [
    | inl e ↦ rw (e, ◌>>=◌) refl
    | inr (m, e) ↦ rw (e, ◌>>=◌) refl
  ]
  apply_step-Answers (MigrationStep.create_field c) u =
      elim (Option-cases (find_field s c.model c.field)) [
        | inl e ↦
            rw (e, ◌>>=◌)
              (ok_or-Answers _ _ _ (
                is_some-find_model_mut s c.model (λ m. some (push_field (new_field c) m))
                ∙ (is_some-and_then (find_model s c.model) (push_field (new_field c))
                    ∙ sym (and-true (is_some (find_model s c.model))))))
        | inr (x, e) ↦ rw (e, ◌>>=◌) (and-false (is_some (find_model s c.model)))
      ]
  apply_step-Answers (MigrationStep.update_field c) u =
      elim (Bool-cases (is_some (find_model s c.model))) [
        | inl e ↦
            rw (e, ◌>>=◌)
              (ok_or-Answers _ _ _ (is_some-find_field_mut c.model c.field (update_field c)))
        | inr e ↦ rw (e, ◌>>=◌) (find_field-absent c.model c.field e)
      ]
  apply_step-Answers (MigrationStep.delete_field c) u = elim (Option-cases (find_model s c.model)) [
    | inl e ↦ rw (e, ◌>>=◌) (find_field-absent c.model c.field (rw e refl))
    | inr (m, e) ↦ elim (Option-cases (find_field s c.model c.field)) [
      | inl k ↦ rw (e, k, ◌>>=◌) refl
      | inr (x, k) ↦
          rw (e, k, ◌>>=◌)
            (unwrap-Answers _
              (is_some-find_model_mut s c.model (λ y. some (remove_fields c.field y)) ∙ rw e refl))
    ]
  ]
  apply_step-Answers (MigrationStep.create_enum c) u = elim (Option-cases (find_enum s c.enum)) [
    | inl e ↦ rw (e, ◌>>=◌) refl
    | inr (m, e) ↦ rw (e, ◌>>=◌) refl
  ]
  apply_step-Answers (MigrationStep.update_enum c) u =
      ok_or-Answers _ _ _
        (is_some-find_enum_mut s c.enum _ ∙ is_some-and_then (find_enum s c.enum) _)
  apply_step-Answers (MigrationStep.delete_enum c) u = elim (Option-cases (find_enum s c.enum)) [
    | inl e ↦ rw (e, ◌>>=◌) refl
    | inr (m, e) ↦ rw (e, ◌>>=◌) refl
  ]
  apply_step-Answers (MigrationStep.create_directive c) u = elim u [ ]
  apply_step-Answers (MigrationStep.delete_directive c) u = elim u [ ]
  apply_step-Answers (MigrationStep.create_directive_argument c) u = elim u [ ]
  apply_step-Answers (MigrationStep.update_directive_argument c) u = elim u [ ]
  apply_step-Answers (MigrationStep.delete_directive_argument c) u = elim u [ ]
