-- ===== src/Migration/Calculator/Outputs.antt =====
-- What a step of the calculator that succeeds has found, and the schema that it leaves.
use prisma_engine.Base.{none, some, [], ◌∷◌, ◌++◌, ◌≡◌, inl, inr, arith, ok, Option-cases}
use prisma_engine.Datamodel.Ast.{
  Top, Directive, SchemaAst, find_model, find_enum, find_field, find_model_mut, find_field_mut,
  push_top,
}
use prisma_engine.Datamodel.Ast.Tops.{without_model, without_enum}
use prisma_engine.Datamodel.Ast.Render.{ExpressionText}
use prisma_engine.Migration.Steps
use prisma_engine.Migration.Steps.{MigrationStep, DirectiveType}
use prisma_engine.Migration.Calculator.Enums.{apply_create_enum, apply_delete_enum, new_enum}
use prisma_engine.Migration.Calculator.Models.{apply_create_model, apply_delete_model, new_model}
use prisma_engine.Migration.Calculator.Fields.{
  apply_create_field, apply_update_field, apply_delete_field, remove_fields, push_field, new_field,
  update_field,
}
use prisma_engine.Migration.Calculator.Directives.{
  find_directives_mut, apply_create_directive, new_directive,
}

-- What a step that succeeds has found, and the schema that it leaves.
module _ (s : SchemaAst) {s' : SchemaAst} where
  pub create_model_out :
      (c : Steps.CreateModel)
      → apply_create_model s c ≡ ok s'
      → (find_model s c.model ≡ none) × (push_top s (Top.model (new_model c)) ≡ s')
  unfolding apply_create_model
  create_model_out c h = ground arith

  pub create_enum_out :
      (c : Steps.CreateEnum)
      → apply_create_enum s c ≡ ok s'
      → (find_enum s c.enum ≡ none) × (push_top s (Top.enum (new_enum c)) ≡ s')
  unfolding apply_create_enum
  create_enum_out c h = ground arith

  pub delete_model_out :
      (c : Steps.DeleteModel) → apply_delete_model s c ≡ ok s' → without_model s c.model ≡ s'
  unfolding apply_delete_model
  delete_model_out c h = ground arith

  pub delete_enum_out :
      (c : Steps.DeleteEnum) → apply_delete_enum s c ≡ ok s' → without_enum s c.enum ≡ s'
  unfolding apply_delete_enum
  delete_enum_out c h = ground arith

  pub create_field_out :
      (c : Steps.CreateField)
      → apply_create_field s c ≡ ok s'
      → (find_field s c.model c.field ≡ none)
        × (find_model_mut s c.model (λ m. some (push_field (new_field c) m)) ≡ some s')
  unfolding apply_create_field
  create_field_out c h = ground arith

  pub update_field_out :
      (c : Steps.UpdateField)
      → apply_update_field s c ≡ ok s'
      → find_field_mut s c.model c.field (λ f. some (update_field c f)) ≡ some s'
  unfolding apply_update_field
  update_field_out c h = ground arith

  pub delete_field_out :
      (c : Steps.DeleteField)
      → apply_delete_field s c ≡ ok s'
      → find_model_mut s c.model (λ m. some (remove_fields c.field m)) ≡ some s'
  unfolding apply_delete_field
  delete_field_out c h = ground arith

  pub create_directive_out :
      (text : ExpressionText) (c : Steps.CreateDirective)
      → apply_create_directive text s c ≡ ok s'
      → (d : Directive) × (new_directive text c.locator ≡ some d)
        × (find_directives_mut s c.locator.location (λ ds. some (ds ++ d ∷ [])) ≡ some s')
  unfolding apply_create_directive
  create_directive_out text c h = elim (Option-cases (new_directive text c.locator)) [
    | inl e ↦ absurd (ground arith)
    | inr (d, e) ↦ (d, e, ground arith)
  ]
