-- ===== src/Migration/Calculator/StepFrame.antt =====
-- A step of the calculator changes only the models and the enums that it names.
use prisma_engine.Base.{
  String, some, ◌≡◌, ◌≢◌, refl, ap, arith, ok, map-eq-some, ok_or-eq-ok, unwrap-eq-ok, str_eq_of_ne,
}
use prisma_engine.Datamodel.Ast.{Model, Enum, SchemaAst, find_model, find_enum, find_field_mut}
use prisma_engine.Datamodel.Ast.Lookup.{
  find_model-find_model_mut_other, find_enum-find_enum_mut_other,
}
use prisma_engine.Datamodel.Ast.Tops.{
  find_model-push_model, find_enum-push_model, find_enum-push_enum, find_model-push_enum,
  find_model-without_model, find_enum-without_model, find_enum-without_enum,
  find_model-without_enum,
}
use prisma_engine.Datamodel.Ast.Render.{ExpressionText}
use prisma_engine.Migration.Steps
use prisma_engine.Migration.Steps.{MigrationStep, DirectiveType}
use prisma_engine.Migration.Calculator.{apply_step}
use prisma_engine.Migration.Calculator.Common.{apply_update}
use prisma_engine.Migration.Calculator.Enums.{apply_update_enum, update_enum, new_enum}
use prisma_engine.Migration.Calculator.Models.{apply_update_model, update_model_name, new_model}
use prisma_engine.Migration.Calculator.Fields.{remove_fields, push_field, new_field}
use prisma_engine.Migration.Calculator.Directives.{
  find_directive_mut, apply_create_directive, apply_delete_directive,
  apply_create_directive_argument, apply_delete_directive_argument, apply_update_directive_argument,
}
use prisma_engine.Migration.Calculator.Outputs.{
  create_model_out, create_enum_out, delete_model_out, delete_enum_out, create_field_out,
  update_field_out, delete_field_out, create_directive_out,
}
use prisma_engine.Migration.Calculator.Spares.{
  SparesModel, SparesEnum, location_model, location_enum, find_model_mut-frame_enum,
  find_model_mut-frame_model, find_enum_mut-frame_model, find_directives_mut-frame_model,
  find_directives_mut-frame_enum,
}

-- A model that is renamed does not become the one that the step spares.
renamed_apart :
    {k : String} (c : Steps.UpdateModel)
    → SparesModel k (MigrationStep.update_model c)
    → (x y : Model) → some (apply_update c.new_name update_model_name x) ≡ some y
    → x.name.name ≡ c.model
    → y.name.name ≢ k
renamed_apart c spares x y e named same = ground arith

module _ (text : ExpressionText) (s : SchemaAst) {s' : SchemaAst} (k : String) where
  create_directive_frame :
      (c : Steps.CreateDirective)
      → apply_create_directive text s c ≡ ok s'
      → location_model c.locator.location ≢ some k
      → find_model s' k ≡ find_model s k
  create_directive_frame c h ne =
      let (d, _, e) = create_directive_out s text c h in
      find_directives_mut-frame_model s k _ _ ne e

  delete_directive_frame :
      (c : Steps.DeleteDirective)
      → apply_delete_directive text s c ≡ ok s'
      → location_model c.locator.location ≢ some k
      → find_model s' k ≡ find_model s k
  unfolding apply_delete_directive
  delete_directive_frame c h ne = find_directives_mut-frame_model s k _ _ ne (ok_or-eq-ok _ _ h)

  pub apply_step-frame_model :
      (step : MigrationStep)
      → apply_step text s step ≡ ok s'
      → SparesModel k step
      → find_model s' k ≡ find_model s k
  unfolding apply_step apply_update_model apply_update_enum apply_create_directive_argument
      apply_update_directive_argument apply_delete_directive_argument remove_fields find_field_mut
      find_directive_mut
  apply_step-frame_model (MigrationStep.create_model c) h spares =
      let (absent, out) = create_model_out s c h in
      rw (← out) (
        rw (
          find_model-push_model s (new_model c) k absent,
          str_eq_of_ne c.model k (λ e. spares.0 (ap some e)),
        ))
  apply_step-frame_model (MigrationStep.update_model c) h spares =
      find_model-find_model_mut_other s c.model k _ (λ e. spares.0 (ap some e))
        (renamed_apart c spares) (ok_or-eq-ok _ _ h)
  apply_step-frame_model (MigrationStep.delete_model c) h spares = rw (← delete_model_out s c h) (
      rw (find_model-without_model s c.model k, str_eq_of_ne c.model k (λ e. spares.0 (ap some e))))
  apply_step-frame_model (MigrationStep.create_directive c) h spares =
      create_directive_frame c h spares.0
  apply_step-frame_model (MigrationStep.delete_directive c) h spares =
      delete_directive_frame c h spares.0
  apply_step-frame_model (MigrationStep.create_directive_argument c) h spares =
      find_directives_mut-frame_model s k _ _ spares.0 (unwrap-eq-ok _ h)
  apply_step-frame_model (MigrationStep.update_directive_argument c) h spares =
      find_directives_mut-frame_model s k _ _ spares.0 (unwrap-eq-ok _ h)
  apply_step-frame_model (MigrationStep.delete_directive_argument c) h spares =
      find_directives_mut-frame_model s k _ _ spares.0 (unwrap-eq-ok _ h)
  apply_step-frame_model (MigrationStep.create_field c) h spares =
      find_model_mut-frame_model s k c.model (λ m. some (push_field (new_field c) m))
        (λ e. spares.0 (ap some e)) (λ x y e. ground arith) (create_field_out s c h).1
  apply_step-frame_model (MigrationStep.delete_field c) h spares =
      find_model_mut-frame_model s k c.model (λ m. some (remove_fields c.field m))
        (λ e. spares.0 (ap some e)) (λ x y e. ground arith) (delete_field_out s c h)
  apply_step-frame_model (MigrationStep.update_field c) h spares =
      find_model_mut-frame_model s k c.model _ (λ e. spares.0 (ap some e))
        (λ x y fx. let (_, _, out) = map-eq-some _ _ fx in rw out refl) (update_field_out s c h)
  apply_step-frame_model (MigrationStep.create_enum c) h spares =
      let (absent, out) = create_enum_out s c h in
      rw (← out) (find_model-push_enum s (new_enum c) k)
  apply_step-frame_model (MigrationStep.update_enum c) h spares =
      find_enum_mut-frame_model s k c.enum _ (ok_or-eq-ok _ _ h)
  apply_step-frame_model (MigrationStep.delete_enum c) h spares =
      rw (← delete_enum_out s c h) (find_model-without_enum s c.enum k)

renamed_apart_enum :
    {k : String} (c : Steps.UpdateEnum)
    → SparesEnum k (MigrationStep.update_enum c)
    → (x y : Enum) → some (update_enum c x) ≡ some y
    → x.name.name ≡ c.enum
    → y.name.name ≢ k
unfolding update_enum
renamed_apart_enum c spares x y e named same = ground arith

module _ (text : ExpressionText) (s : SchemaAst) {s' : SchemaAst} (k : String) where
  create_directive_frame_enum :
      (c : Steps.CreateDirective)
      → apply_create_directive text s c ≡ ok s'
      → location_enum c.locator.location ≢ some k
      → find_enum s' k ≡ find_enum s k
  create_directive_frame_enum c h ne =
      let (d, _, e) = create_directive_out s text c h in find_directives_mut-frame_enum s k _ _ ne e

  delete_directive_frame_enum :
      (c : Steps.DeleteDirective)
      → apply_delete_directive text s c ≡ ok s'
      → location_enum c.locator.location ≢ some k
      → find_enum s' k ≡ find_enum s k
  unfolding apply_delete_directive
  delete_directive_frame_enum c h ne = find_directives_mut-frame_enum s k _ _ ne (ok_or-eq-ok _ _ h)

  pub apply_step-frame_enum :
      (step : MigrationStep)
      → apply_step text s step ≡ ok s'
      → SparesEnum k step
      → find_enum s' k ≡ find_enum s k
  unfolding apply_step apply_update_model apply_update_enum apply_create_directive_argument
      apply_update_directive_argument apply_delete_directive_argument remove_fields find_field_mut
      find_directive_mut
  apply_step-frame_enum (MigrationStep.create_enum c) h spares =
      let (absent, out) = create_enum_out s c h in
      rw (← out) (
        rw (
          find_enum-push_enum s (new_enum c) k absent,
          str_eq_of_ne c.enum k (λ e. spares.0 (ap some e)),
        ))
  apply_step-frame_enum (MigrationStep.update_enum c) h spares =
      find_enum-find_enum_mut_other s c.enum k _ (λ e. spares.0 (ap some e))
        (renamed_apart_enum c spares) (ok_or-eq-ok _ _ h)
  apply_step-frame_enum (MigrationStep.delete_enum c) h spares =
      rw (← delete_enum_out s c h)
        (rw (find_enum-without_enum s c.enum k, str_eq_of_ne c.enum k (λ e. spares.0 (ap some e))))
  apply_step-frame_enum (MigrationStep.create_directive c) h spares =
      create_directive_frame_enum c h spares.0
  apply_step-frame_enum (MigrationStep.delete_directive c) h spares =
      delete_directive_frame_enum c h spares.0
  apply_step-frame_enum (MigrationStep.create_directive_argument c) h spares =
      find_directives_mut-frame_enum s k _ _ spares.0 (unwrap-eq-ok _ h)
  apply_step-frame_enum (MigrationStep.update_directive_argument c) h spares =
      find_directives_mut-frame_enum s k _ _ spares.0 (unwrap-eq-ok _ h)
  apply_step-frame_enum (MigrationStep.delete_directive_argument c) h spares =
      find_directives_mut-frame_enum s k _ _ spares.0 (unwrap-eq-ok _ h)
  apply_step-frame_enum (MigrationStep.create_field c) h spares =
      find_model_mut-frame_enum s k c.model (λ m. some (push_field (new_field c) m))
        (create_field_out s c h).1
  apply_step-frame_enum (MigrationStep.delete_field c) h spares =
      find_model_mut-frame_enum s k c.model (λ m. some (remove_fields c.field m))
        (delete_field_out s c h)
  apply_step-frame_enum (MigrationStep.update_field c) h spares =
      find_model_mut-frame_enum s k c.model _ (update_field_out s c h)
  apply_step-frame_enum (MigrationStep.create_model c) h spares =
      let (absent, out) = create_model_out s c h in
      rw (← out) (find_enum-push_model s (new_model c) k)
  apply_step-frame_enum (MigrationStep.update_model c) h spares =
      find_model_mut-frame_enum s k c.model
        (λ m. some (apply_update c.new_name update_model_name m)) (ok_or-eq-ok _ _ h)
  apply_step-frame_enum (MigrationStep.delete_model c) h spares =
      rw (← delete_model_out s c h) (find_enum-without_model s c.model k)
