-- ===== src/Migration/Differ/Items.antt =====
-- What two versions of a directive, a field, an enum, a model or a schema have in common, and what each
-- has alone (migration-engine/core/src/migration/datamodel_differ/*.rs).
use prisma_engine.Base.{
  String, Bool, not, List, [], ◌∷◌, ◌==◌, ◌&&◌, all, find?, filter, is_some, any, length, nat_eq,
}
use prisma_engine.Datamodel.Ast.{
  SchemaAst, Model, Enum, EnumValue, Field, Directive, Argument, models, enums,
}
use prisma_engine.Datamodel.Ast.Render.{ExpressionText}
use prisma_engine.Migration.Differ.Pairs.{created, deleted, pairs}

-- directives.rs
abbrev pub arguments_match : Argument → Argument → Bool
arguments_match previous next = previous.name.name == next.name.name

abbrev pub directives_match : Directive → Directive → Bool
directives_match previous next = previous.name.name == next.name.name

unfoldable pub deleted_arguments : Directive → Directive → List Argument
unfolding deleted
deleted_arguments previous next = deleted arguments_match previous.arguments next.arguments

unfoldable pub created_arguments : Directive → Directive → List Argument
unfolding created
created_arguments previous next = created arguments_match previous.arguments next.arguments

unfoldable pub argument_pairs : Directive → Directive → List (Argument × Argument)
unfolding pairs
argument_pairs previous next = pairs arguments_match previous.arguments next.arguments

module _ (text : ExpressionText) where
  unfoldable pub arguments_are_identical : Argument → Argument → Bool
  arguments_are_identical previous next =
      previous.name.name == next.name.name && text.render previous.value == text.render next.value

  unfoldable pub directives_are_identical : Directive → Directive → Bool
  unfolding arguments_are_identical
  directives_are_identical previous next =
      previous.name.name == next.name.name
      && (nat_eq (length previous.arguments) (length next.arguments)
          && all (λ p. is_some (find? (arguments_are_identical p) next.arguments))
              previous.arguments)

-- fields.rs
module _ (previous next : Field) where
  unfoldable pub created_field_directives : List Directive
  unfolding created
  created_field_directives = created directives_match previous.directives next.directives

  unfoldable pub deleted_field_directives : List Directive
  unfolding deleted
  deleted_field_directives = deleted directives_match previous.directives next.directives

  unfoldable pub field_directive_pairs : List (Directive × Directive)
  unfolding pairs
  field_directive_pairs = pairs directives_match previous.directives next.directives

-- enums.rs
abbrev pub values_match : EnumValue → EnumValue → Bool
values_match previous next = previous.name == next.name

abbrev pub enum_directives_match : Directive → Directive → Bool
enum_directives_match previous next = previous.name.name == next.name.name

module _ (previous next : Enum) where
  unfoldable pub created_values : List EnumValue
  unfolding created
  created_values = created values_match previous.values next.values

  unfoldable pub deleted_values : List EnumValue
  unfolding deleted
  deleted_values = deleted values_match previous.values next.values

  unfoldable pub created_enum_directives : List Directive
  unfolding created
  created_enum_directives = created enum_directives_match previous.directives next.directives

  unfoldable pub deleted_enum_directives : List Directive
  unfolding deleted
  deleted_enum_directives = deleted enum_directives_match previous.directives next.directives

  unfoldable pub enum_directive_pairs : List (Directive × Directive)
  unfolding pairs
  enum_directive_pairs = pairs enum_directives_match previous.directives next.directives

-- models.rs
abbrev pub fields_match : Field → Field → Bool
fields_match previous next = previous.name.name == next.name.name

-- `REPEATED_MODEL_DIRECTIVES`
abbrev pub repeated_model_directives : List String
repeated_model_directives = "unique" ∷ "index" ∷ []

unfoldable pub is_repeated : Directive → Bool
is_repeated directive = any (λ r. r == directive.name.name) repeated_model_directives

unfoldable pub is_regular : Directive → Bool
unfolding is_repeated
is_regular directive = not (is_repeated directive)

abbrev pub regular_directives : Model → List Directive
regular_directives m = filter is_regular m.directives

abbrev pub repeated_directives : Model → List Directive
repeated_directives m = filter is_repeated m.directives

module _ (previous next : Model) where
  unfoldable pub created_fields : List Field
  unfolding created
  created_fields = created fields_match previous.fields next.fields

  unfoldable pub deleted_fields : List Field
  unfolding deleted
  deleted_fields = deleted fields_match previous.fields next.fields

  unfoldable pub field_pairs : List (Field × Field)
  unfolding pairs
  field_pairs = pairs fields_match previous.fields next.fields

  unfoldable pub created_regular_directives : List Directive
  unfolding created
  created_regular_directives =
      created directives_match (regular_directives previous) (regular_directives next)

  unfoldable pub deleted_regular_directives : List Directive
  unfolding deleted
  deleted_regular_directives =
      deleted directives_match (regular_directives previous) (regular_directives next)

  unfoldable pub regular_directive_pairs : List (Directive × Directive)
  unfolding pairs
  regular_directive_pairs =
      pairs directives_match (regular_directives previous) (regular_directives next)

  unfoldable pub created_repeated_directives : ExpressionText → List Directive
  unfolding created
  created_repeated_directives text =
      created (directives_are_identical text) (repeated_directives previous)
        (repeated_directives next)

  unfoldable pub deleted_repeated_directives : ExpressionText → List Directive
  unfolding deleted
  deleted_repeated_directives text =
      deleted (directives_are_identical text) (repeated_directives previous)
        (repeated_directives next)

-- top_level.rs
abbrev pub models_match : Model → Model → Bool
models_match previous next = previous.name.name == next.name.name

abbrev pub enums_match : Enum → Enum → Bool
enums_match previous next = previous.name.name == next.name.name

module _ (previous next : SchemaAst) where
  unfoldable pub model_pairs : List (Model × Model)
  unfolding pairs
  model_pairs = pairs models_match (models previous) (models next)

  unfoldable pub created_models : List Model
  unfolding created
  created_models = created models_match (models previous) (models next)

  unfoldable pub deleted_models : List Model
  unfolding deleted
  deleted_models = deleted models_match (models previous) (models next)

  unfoldable pub enum_pairs : List (Enum × Enum)
  unfolding pairs
  enum_pairs = pairs enums_match (enums previous) (enums next)

  unfoldable pub created_enums : List Enum
  unfolding created
  created_enums = created enums_match (enums previous) (enums next)

  unfoldable pub deleted_enums : List Enum
  unfolding deleted
  deleted_enums = deleted enums_match (enums previous) (enums next)
