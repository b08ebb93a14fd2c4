-- ===== src/Migration/Differ.antt =====
-- The migration steps from one schema to another
-- (migration-engine/core/src/migration/datamodel_differ.rs). A function that pushes steps gives the list
-- of what it pushes.
pub mod Pairs
pub mod Items
pub mod Directives
pub mod Same
pub mod Unchanged
use prisma_engine.Base.{
  String, Bool, true, false, Option, none, some, List, [], ◌∷◌, ◌++◌, ◌==◌, map, flat_map,
  if◌then◌else◌,
}
use prisma_engine.Datamodel.Ast.{
  SchemaAst, Model, Enum, EnumValue, Field, FieldArity, Directive, Argument, required, optional,
  list,
}
use prisma_engine.Datamodel.Ast.Render.{ExpressionText}
use prisma_engine.Migration.Steps
use prisma_engine.Migration.Steps.{
  MigrationStep, DirectiveType, DirectiveLocation, from_ast_argument, update_enum_is_any_option_set,
  update_field_is_any_option_set,
}
use Items.{
  deleted_arguments, created_arguments, argument_pairs, created_field_directives,
  deleted_field_directives, field_directive_pairs, created_values, deleted_values,
  created_enum_directives, deleted_enum_directives, enum_directive_pairs, created_fields,
  deleted_fields, field_pairs, created_regular_directives, deleted_regular_directives,
  regular_directive_pairs, created_repeated_directives, deleted_repeated_directives, model_pairs,
  created_models, deleted_models, enum_pairs, created_enums, deleted_enums,
}
use Directives.{
  push_created_directives, push_updated_directives, push_deleted_directives,
  push_created_directive_with_arguments, push_deleted_directive_with_arguments,
}

unfoldable pub diff_value : {T : Type 0} → (T → T → Bool) → T → T → Option T
diff_value eq current updated = if eq current updated then none else some updated

-- The derived `PartialEq` of `FieldArity`.
abbrev pub arity_eq : FieldArity → FieldArity → Bool
arity_eq required required = true
arity_eq optional optional = true
arity_eq list list = true
arity_eq _ _ = false

-- A step is pushed only if the test holds.
abbrev pub push_if : Bool → MigrationStep → List MigrationStep
push_if test step = if test then step ∷ [] else []

module _ (text : ExpressionText) where
  -- ---------------------------------------------------------------- fields

  abbrev pub create_field_step : String → Field → MigrationStep
  create_field_step model_name field = MigrationStep.create_field (record {
    model = model_name;
    field = field.name.name;
    tpe = field.field_type.name;
    arity = field.arity;
  })

  unfoldable pub push_created_field : String → Field → List MigrationStep
  push_created_field model_name field =
      create_field_step model_name field
      ∷ push_created_directives text (DirectiveType.field model_name field.name.name)
          field.directives

  unfoldable pub push_created_fields : String → List Field → List MigrationStep
  unfolding push_created_field
  push_created_fields model_name = flat_map (push_created_field model_name)

  unfoldable pub push_deleted_fields : String → List Field → List MigrationStep
  push_deleted_fields model_name =
      map (λ field.
        MigrationStep.delete_field (record { model = model_name; field = field.name.name }))

  unfoldable pub update_field_step : String → Field × Field → Steps.UpdateField
  unfolding diff_value
  update_field_step model_name (previous, next) = record {
    model = model_name;
    field = previous.name.name;
    new_name = diff_value ◌==◌ previous.name.name next.name.name;
    tpe = diff_value ◌==◌ previous.field_type.name next.field_type.name;
    arity = diff_value arity_eq previous.arity next.arity;
  }

  unfoldable pub push_updated_field : String → Field × Field → List MigrationStep
  unfolding update_field_step update_field_is_any_option_set
  push_updated_field model_name (previous, next) =
      let step = update_field_step model_name (previous, next) in
      let location = DirectiveType.field model_name previous.name.name in
      push_if (update_field_is_any_option_set step) (MigrationStep.update_field step)
      ++ (push_created_directives text location (created_field_directives previous next)
          ++ (push_updated_directives text location (field_directive_pairs previous next)
              ++ push_deleted_directives text location (deleted_field_directives previous next)))

  unfoldable pub push_updated_fields : String → List (Field × Field) → List MigrationStep
  unfolding push_updated_field
  push_updated_fields model_name = flat_map (push_updated_field model_name)

  -- ---------------------------------------------------------------- enums

  abbrev pub value_names : List EnumValue → List String
  value_names = map (λ v. v.name)

  unfoldable pub push_created_enum : Enum → List MigrationStep
  push_created_enum enum =
      MigrationStep.create_enum (record { enum = enum.name.name; values = value_names enum.values })
      ∷ push_created_directives text (DirectiveType.enum enum.name.name) enum.directives

  unfoldable pub push_created_enums : List Enum → List MigrationStep
  unfolding push_created_enum
  push_created_enums = flat_map push_created_enum

  unfoldable pub push_deleted_enums : List Enum → List MigrationStep
  push_deleted_enums = map (λ enum. MigrationStep.delete_enum (record { enum = enum.name.name }))

  unfoldable pub update_enum_step : Enum × Enum → Steps.UpdateEnum
  unfolding diff_value created_values deleted_values
  update_enum_step (previous, next) = record {
    enum = previous.name.name;
    new_name = diff_value ◌==◌ previous.name.name next.name.name;
    created_values = value_names (created_values previous next);
    deleted_values = value_names (deleted_values previous next);
  }

  unfoldable pub push_updated_enum : Enum × Enum → List MigrationStep
  unfolding update_enum_step update_enum_is_any_option_set
  push_updated_enum (previous, next) =
      let step = update_enum_step (previous, next) in
      let location = DirectiveType.enum previous.name.name in
      push_if (update_enum_is_any_option_set step) (MigrationStep.update_enum step)
      ++ (push_created_directives text location (created_enum_directives previous next)
          ++ (push_updated_directives text location (enum_directive_pairs previous next)
              ++ push_deleted_directives text location (deleted_enum_directives previous next)))

  unfoldable pub push_updated_enums : List (Enum × Enum) → List MigrationStep
  unfolding push_updated_enum
  push_updated_enums = flat_map push_updated_enum

  unfoldable pub push_enums : SchemaAst → SchemaAst → List MigrationStep
  unfolding push_created_enums push_deleted_enums push_updated_enums
  push_enums previous next =
      push_created_enums (created_enums previous next)
      ++ (push_deleted_enums (deleted_enums previous next)
          ++ push_updated_enums (enum_pairs previous next))

  -- ---------------------------------------------------------------- models

  unfoldable pub push_created_model : Model → List MigrationStep
  unfolding push_created_fields
  push_created_model model =
      MigrationStep.create_model (record { model = model.name.name })
      ∷ (push_created_fields model.name.name model.fields
          ++ push_created_directives text (DirectiveType.model model.name.name) model.directives)

  unfoldable pub push_created_models : List Model → List MigrationStep
  unfolding push_created_model
  push_created_models = flat_map push_created_model

  unfoldable pub push_deleted_models : List Model → List MigrationStep
  push_deleted_models =
      map (λ model. MigrationStep.delete_model (record { model = model.name.name }))

  unfoldable pub push_updated_model : Model × Model → List MigrationStep
  unfolding push_created_fields push_deleted_fields push_updated_fields
  push_updated_model (previous, next) =
      let name = previous.name.name in
      let location = DirectiveType.model name in
      push_created_fields name (created_fields previous next)
      ++ (push_deleted_fields name (deleted_fields previous next)
          ++ (push_updated_fields name (field_pairs previous next)
              ++ (push_created_directives text location (created_regular_directives previous next)
                  ++ (push_updated_directives text location (regular_directive_pairs previous next)
                      ++ (push_deleted_directives text location
                            (deleted_regular_directives previous next)
                          ++ (flat_map (push_created_directive_with_arguments text location)
                                (created_repeated_directives previous next text)
                              ++ flat_map (push_deleted_directive_with_arguments text location)
                                  (deleted_repeated_directives previous next text)))))))

  unfoldable pub push_updated_models : List (Model × Model) → List MigrationStep
  unfolding push_updated_model
  push_updated_models = flat_map push_updated_model

  unfoldable pub push_models : SchemaAst → SchemaAst → List MigrationStep
  unfolding push_created_models push_deleted_models push_updated_models
  push_models previous next =
      push_created_models (created_models previous next)
      ++ (push_deleted_models (deleted_models previous next)
          ++ push_updated_models (model_pairs previous next))

  -- `DataModelMigrationStepsInferrer::infer` is `diff`.
  unfoldable pub diff : SchemaAst → SchemaAst → List MigrationStep
  unfolding push_enums push_models
  diff previous next = push_enums previous next ++ push_models previous next
