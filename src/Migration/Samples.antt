-- ===== src/Migration/Samples.antt =====
-- Small schemas, and a reader of expressions, for the tests of the migration engine.
use prisma_engine.Base.{
  zero, suc, ℕ, String, none, some, List, [], ◌∷◌, ◌≡◌, refl, unwrap_or, Outcome, ok, err,
}
use prisma_engine.Datamodel.Ast.{
  SchemaAst, Top, Model, Enum, Field, Directive, Argument, Expression, constant_value, required,
  new_ident, empty_span,
}
use prisma_engine.Datamodel.Ast.Render.{ExpressionText, render_value}
use prisma_engine.Migration.Persistence.{Migration, MigrationStatus}
use prisma_engine.Base.{map, find?, filter, filter_map, modify_first, any, all, flat_map}
use prisma_engine.Datamodel.Ast.{
  find_model, find_enum, find_field, find_model_mut, find_enum_mut, find_field_mut,
}
use prisma_engine.Migration.Steps.{into_ast_argument, matches_ast_directive, matches_ast_argument}
use prisma_engine.Migration.Calculator.{apply}
use prisma_engine.Migration.Calculator.Common.{traverse}
use prisma_engine.Migration.Calculator.Enums.{
  apply_create_enum, apply_update_enum, apply_delete_enum,
}
use prisma_engine.Migration.Calculator.Models.{
  apply_create_model, apply_update_model, apply_delete_model,
}
use prisma_engine.Migration.Calculator.Fields.{
  apply_create_field, apply_update_field, apply_delete_field,
}
use prisma_engine.Migration.Calculator.Directives.{
  apply_create_directive, apply_delete_directive, apply_create_directive_argument,
  apply_update_directive_argument, apply_delete_directive_argument,
}
use prisma_engine.Migration.Differ.{diff}
use prisma_engine.Migration.Differ.Directives.{
  push_created_directives, push_updated_directives, push_deleted_directives,
  push_created_directive_with_arguments, push_deleted_directive_with_arguments,
}
use prisma_engine.Migration.Differ.Items.{
  is_regular, is_repeated, created_fields, deleted_fields, field_pairs, created_models,
  deleted_models, model_pairs, created_enums, deleted_enums, enum_pairs, created_regular_directives,
  deleted_regular_directives, regular_directive_pairs, created_repeated_directives,
  deleted_repeated_directives, created_field_directives, deleted_field_directives,
  field_directive_pairs, created_enum_directives, deleted_enum_directives, enum_directive_pairs,
  directives_are_identical,
}

pub sample_renders :
    (e : Expression) (s : String) → render_value e ≡ some s → unwrap_or (render_value e) "" ≡ s
sample_renders e s h = rw h refl

-- Every text is read as a constant.
abbrev pub sample_text : ExpressionText
sample_text = record {
  render = λ e. unwrap_or (render_value e) "";
  parse = λ s. some (constant_value s empty_span);
  renders = sample_renders;
}

abbrev pub arg : String → String → Argument
arg name value = record {
  name = new_ident name;
  value = constant_value value empty_span;
  span = empty_span;
}

abbrev pub dir : String → List Argument → Directive
dir name arguments = record { name = new_ident name; arguments = arguments; span = empty_span }

abbrev pub field : String → String → List Directive → Field
field name tpe directives = record {
  field_type = new_ident tpe;
  name = new_ident name;
  arity = required;
  default_value = none;
  directives = directives;
  documentation = none;
  span = empty_span;
}

abbrev pub model_node : String → List Field → List Directive → Model
model_node name fields directives = record {
  name = new_ident name;
  fields = fields;
  directives = directives;
  documentation = none;
  span = empty_span;
}

abbrev pub model : String → List Field → List Directive → Top
model name fields directives = Top.model (model_node name fields directives)

abbrev pub enum_node : String → List String → Enum
enum_node name values = record {
  name = new_ident name;
  values = map (λ v. record { name = v; span = empty_span }) values;
  directives = [];
  documentation = none;
  span = empty_span;
}

abbrev pub enum : String → List String → Top
enum name values = Top.enum (enum_node name values)

abbrev pub blog : SchemaAst
blog = record {
  tops =
      enum "Mood" ("happy" ∷ "sad" ∷ [])
      ∷ model "User" (field "id" "Int" (dir "id" [] ∷ []) ∷ field "name" "String" [] ∷ []) []
      ∷ model "Post" (field "id" "Int" (dir "id" [] ∷ []) ∷ [])
          (dir "map" (arg "" "posts" ∷ []) ∷ [])
      ∷ [];
}

-- A migration of the history; the datamodel and the JSON value are left empty.
abbrev pub migration : String → ℕ → MigrationStatus → Migration (Unit {0}) (Unit {0})
migration name revision status = record {
  name = name;
  revision = revision;
  status = status;
  applied = 0;
  rolled_back = 0;
  datamodel_string = "";
  datamodel = tt;
  datamodel_steps = [];
  database_migration = tt;
  errors = [];
  started_at = 0;
  finished_at = none;
}

-- A database that is the list of its statements. The statement 0 is refused.
abbrev pub run_sample : ℕ → List ℕ → Outcome String (Unit {0}) × List ℕ
run_sample zero db = (err "refused", db)
run_sample (suc n) db = (ok tt, suc n ∷ db)

-- A test names this to compute with the calculator and the differ.
unfoldable pub program : Unit {0}
unfolding apply apply_create_enum apply_update_enum apply_delete_enum apply_create_model
    apply_update_model apply_delete_model apply_create_field apply_update_field apply_delete_field
    apply_create_directive apply_delete_directive apply_create_directive_argument
    apply_update_directive_argument apply_delete_directive_argument find_model find_enum find_field
    find_model_mut find_enum_mut find_field_mut find? filter filter_map modify_first any all
    flat_map traverse into_ast_argument matches_ast_directive matches_ast_argument render_value diff
    push_created_directives push_updated_directives push_deleted_directives
    push_created_directive_with_arguments push_deleted_directive_with_arguments is_regular
    is_repeated created_fields deleted_fields field_pairs created_models deleted_models model_pairs
    created_enums deleted_enums enum_pairs created_regular_directives deleted_regular_directives
    regular_directive_pairs created_repeated_directives deleted_repeated_directives
    created_field_directives deleted_field_directives field_directive_pairs created_enum_directives
    deleted_enum_directives enum_directive_pairs directives_are_identical
program = tt
