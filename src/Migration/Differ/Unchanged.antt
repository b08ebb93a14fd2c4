-- ===== src/Migration/Differ/Unchanged.antt =====
-- The differ on a schema that has not changed (migration-engine/core/src/migration/datamodel_differ.rs).
use prisma_engine.Base.{
  String, Bool, true, List, [], ◌++◌, ◌&&◌, ◌≡◌, refl, arith, flat_map, map, all, are_new, str_refl,
  nat_eq_refl, length,
}
use prisma_engine.Datamodel.Ast.{
  SchemaAst, Model, Enum, Field, Directive, Argument, models, enums, FieldArity, required, optional,
  list,
}
use prisma_engine.Datamodel.Ast.Render.{ExpressionText}
use prisma_engine.Migration.Steps.{
  MigrationStep, DirectiveType, update_enum_is_any_option_set, update_field_is_any_option_set,
}
use prisma_engine.Migration.Differ.{
  diff, diff_value, arity_eq, push_enums, push_models, push_created_enums, push_deleted_enums,
  push_updated_enums, push_created_models, push_deleted_models, push_updated_models,
  push_updated_model, push_updated_enum, push_updated_field, push_created_fields,
  push_deleted_fields, push_updated_fields, update_field_step, update_enum_step,
}
use prisma_engine.Migration.Differ.Directives.{
  push_updated_directive, push_updated_directives, push_created_directives, push_deleted_directives,
  push_updated_directive_argument, locator_of,
}
use prisma_engine.Migration.Differ.Items
use prisma_engine.Migration.Differ.Items.{
  arguments_match, directives_match, arguments_are_identical, directives_are_identical, is_regular,
  regular_directives, repeated_directives, created_arguments, deleted_arguments, argument_pairs,
  created_field_directives, deleted_field_directives, field_directive_pairs,
}
use prisma_engine.Migration.Differ.Pairs.{created, deleted, pairs}
use prisma_engine.Migration.Differ.Same.{
  flat_map-map_none, created_self, deleted_self, pairs_self, all-find_self, flat_map-map_nil,
}

-- No two of the arguments have one name, nor two of the directives.
unfoldable pub is_distinct_directive : Directive → Bool
unfolding are_new
is_distinct_directive d = are_new [] (map (λ a. a.name.name) d.arguments)

unfoldable pub are_distinct_directives : List Directive → Bool
unfolding are_new all is_distinct_directive
are_distinct_directives ds = are_new [] (map (λ d. d.name.name) ds) && all is_distinct_directive ds

are_distinct_directives-parts :
    (ds : List Directive)
    → are_distinct_directives ds ≡ true
    → (are_new [] (map (λ d. d.name.name) ds) ≡ true) × (all is_distinct_directive ds ≡ true)
unfolding are_distinct_directives
are_distinct_directives-parts ds h = ground arith

module _ (text : ExpressionText) (location : DirectiveType) where
  push_updated_directive_argument_self :
      (d : Directive) (a : Argument)
      → push_updated_directive_argument text (locator_of text location d) (a, a) ≡ []
  unfolding push_updated_directive_argument
  push_updated_directive_argument_self d a = rw (str_refl (text.render a.value)) refl

  push_updated_directive_self :
      (d : Directive)
      → is_distinct_directive d ≡ true
      → push_updated_directive text location (d, d) ≡ []
  unfolding push_updated_directive is_distinct_directive created_arguments deleted_arguments
      argument_pairs flat_map
  push_updated_directive_self d h =
      rw
        (
          created_self arguments_match (λ a. str_refl a.name.name) d.arguments,
          deleted_self arguments_match (λ a. str_refl a.name.name) d.arguments,
          pairs_self (λ (a : Argument). a.name.name) d.arguments h,
          flat_map-map_none (push_updated_directive_argument text (locator_of text location d))
              (push_updated_directive_argument_self d) d.arguments,
        )
        refl

  -- The three kinds of steps on the directives at a place.
  abbrev pub directive_steps :
      List Directive → List Directive → List (Directive × Directive) → List MigrationStep
  directive_steps created_ones deleted_ones paired =
      push_created_directives text location created_ones
      ++ (push_updated_directives text location paired
          ++ push_deleted_directives text location deleted_ones)

  directive_steps_self :
      (ds : List Directive)
      → are_distinct_directives ds ≡ true
      → directive_steps
          (created directives_match ds ds)
          (deleted directives_match ds ds)
          (pairs directives_match ds ds)
        ≡ []
  unfolding push_created_directives push_updated_directives push_deleted_directives flat_map
  directive_steps_self ds h =
      let (names, each) = are_distinct_directives-parts ds h in
      rw
        (
          created_self directives_match (λ d. str_refl d.name.name) ds,
          deleted_self directives_match (λ d. str_refl d.name.name) ds,
          pairs_self (λ (d : Directive). d.name.name) ds names,
          flat_map-map_nil (push_updated_directive text location) is_distinct_directive
              push_updated_directive_self ds each,
        )
        refl

arity_eq_self : (a : FieldArity) → arity_eq a a ≡ true
arity_eq_self required = refl
arity_eq_self optional = refl
arity_eq_self list = refl

unfoldable pub is_distinct_field : Field → Bool
unfolding are_distinct_directives
is_distinct_field x = are_distinct_directives x.directives

unfoldable pub is_distinct_enum : Enum → Bool
unfolding are_distinct_directives
is_distinct_enum e = are_distinct_directives e.directives

module _ (text : ExpressionText) where
  push_updated_field_self :
      (n : String) (x : Field) → is_distinct_field x ≡ true → push_updated_field text n (x, x) ≡ []
  unfolding push_updated_field is_distinct_field update_field_step diff_value
      update_field_is_any_option_set created_field_directives deleted_field_directives
      field_directive_pairs
  push_updated_field_self n x h =
      rw (str_refl x.name.name, str_refl x.field_type.name, arity_eq_self x.arity)
        (directive_steps_self text (DirectiveType.field n x.name.name) x.directives h)

  push_updated_enum_self :
      (e : Enum) → is_distinct_enum e ≡ true → push_updated_enum text (e, e) ≡ []
  unfolding push_updated_enum is_distinct_enum update_enum_step diff_value
      update_enum_is_any_option_set Items.created_values Items.deleted_values
      Items.created_enum_directives Items.deleted_enum_directives Items.enum_directive_pairs
  push_updated_enum_self e h =
      rw
        (
          str_refl e.name.name,
          created_self Items.values_match (λ v. str_refl v.name) e.values,
          deleted_self Items.values_match (λ v. str_refl v.name) e.values,
        )
        (directive_steps_self text (DirectiveType.enum e.name.name) e.directives h)

-- The names are all different: those of the fields, and those of the directives of each field and of the
-- model, but for the directives that may be repeated.
unfoldable pub is_distinct_model : Model → Bool
unfolding are_new all is_distinct_field are_distinct_directives
is_distinct_model m =
    are_new [] (map (λ x. x.name.name) m.fields)
    && (all is_distinct_field m.fields && are_distinct_directives (regular_directives m))

is_distinct_model-parts :
    (m : Model)
    → is_distinct_model m ≡ true
    → (are_new [] (map (λ x. x.name.name) m.fields) ≡ true)
      × (all is_distinct_field m.fields ≡ true)
      × (are_distinct_directives (regular_directives m) ≡ true)
unfolding is_distinct_model
is_distinct_model-parts m h = ground arith

module _ (text : ExpressionText) where
  arguments_are_identical_self : (a : Argument) → arguments_are_identical text a a ≡ true
  unfolding arguments_are_identical
  arguments_are_identical_self a = rw (str_refl a.name.name, str_refl (text.render a.value)) refl

  directives_are_identical_self : (d : Directive) → directives_are_identical text d d ≡ true
  unfolding directives_are_identical
  directives_are_identical_self d =
      rw (str_refl d.name.name, nat_eq_refl (length d.arguments))
        (all-find_self (arguments_are_identical text) arguments_are_identical_self d.arguments)

  push_updated_model_self :
      (m : Model) → is_distinct_model m ≡ true → push_updated_model text (m, m) ≡ []
  unfolding push_updated_model Items.created_fields Items.deleted_fields Items.field_pairs
      Items.created_regular_directives Items.deleted_regular_directives
      Items.regular_directive_pairs Items.created_repeated_directives
      Items.deleted_repeated_directives push_created_fields push_deleted_fields push_updated_fields
      push_created_directives push_updated_directives push_deleted_directives flat_map
  push_updated_model_self m h =
      let (names, fields, directives) = is_distinct_model-parts m h in
      let (directive_names, each) =
        are_distinct_directives-parts (regular_directives m) directives in
      let n = m.name.name in
      let location = DirectiveType.model n in
      rw
        (
          created_self Items.fields_match (λ x. str_refl x.name.name) m.fields,
          deleted_self Items.fields_match (λ x. str_refl x.name.name) m.fields,
          pairs_self (λ (x : Field). x.name.name) m.fields names,
          flat_map-map_nil (push_updated_field text n) is_distinct_field
              (push_updated_field_self text n) m.fields fields,
          created_self directives_match (λ d. str_refl d.name.name) (regular_directives m),
          deleted_self directives_match (λ d. str_refl d.name.name) (regular_directives m),
          pairs_self (λ (d : Directive). d.name.name) (regular_directives m) directive_names,
          flat_map-map_nil (push_updated_directive text location) is_distinct_directive
              (push_updated_directive_self text location) (regular_directives m) each,
          created_self (directives_are_identical text) directives_are_identical_self
              (repeated_directives m),
          deleted_self (directives_are_identical text) directives_are_identical_self
              (repeated_directives m),
        )
        refl

  -- There are no steps from a schema to itself, if the names in it are all different: those of its
  -- models and of its enums, those of the fields of a model, those of the directives at one place, where
  -- the directives that a model may repeat are left out, and those of the arguments of a directive.
  pub diff_self :
      (s : SchemaAst)
      → are_new [] (map (λ m. m.name.name) (models s)) ≡ true
      → are_new [] (map (λ e. e.name.name) (enums s)) ≡ true
      → all is_distinct_model (models s) ≡ true
      → all is_distinct_enum (enums s) ≡ true
      → diff text s s ≡ []
  unfolding diff push_enums push_models Items.created_models Items.deleted_models Items.model_pairs
      Items.created_enums Items.deleted_enums Items.enum_pairs push_created_enums push_deleted_enums
      push_updated_enums push_created_models push_deleted_models push_updated_models flat_map
  diff_self s model_names enum_names each_model each_enum =
      rw
        (
          created_self Items.models_match (λ x. str_refl x.name.name) (models s),
          deleted_self Items.models_match (λ x. str_refl x.name.name) (models s),
          pairs_self (λ (x : Model). x.name.name) (models s) model_names,
          flat_map-map_nil (push_updated_model text) is_distinct_model push_updated_model_self
              (models s) each_model,
          created_self Items.enums_match (λ x. str_refl x.name.name) (enums s),
          deleted_self Items.enums_match (λ x. str_refl x.name.name) (enums s),
          pairs_self (λ (x : Enum). x.name.name) (enums s) enum_names,
          flat_map-map_nil (push_updated_enum text) is_distinct_enum (push_updated_enum_self text)
              (enums s) each_enum,
        )
        refl
