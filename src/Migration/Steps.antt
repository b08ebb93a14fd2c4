-- ===== src/Migration/Steps.antt =====
-- Migration steps (migration-engine/connectors/migration-connector/src/steps.rs).
use prisma_engine.Base.{
  String, Bool, true, Option, none, some, List, ◌||◌, ◌&&◌, ◌==◌, nat_eq, ltb, length, find?, all,
  is_some,
}
use prisma_engine.Datamodel.Ast
use prisma_engine.Datamodel.Ast.{FieldArity, Identifier, empty_span, new_ident}
use prisma_engine.Datamodel.Ast.Render.{ExpressionText}
use mathlib.Core.Option

-- The text of an expression.
abbrev pub MigrationExpression : Type 0
MigrationExpression = String

pub record CreateModel : Type 0 where
  pub model : String

pub record UpdateModel : Type 0 where
  pub model : String
  pub new_name : Option String

pub record DeleteModel : Type 0 where
  pub model : String

pub record CreateField : Type 0 where
  pub model : String
  pub field : String
  pub tpe : String
  pub arity : FieldArity

pub record UpdateField : Type 0 where
  pub model : String
  pub field : String
  pub new_name : Option String
  pub tpe : Option String
  pub arity : Option FieldArity

pub record DeleteField : Type 0 where
  pub model : String
  pub field : String

pub record CreateEnum : Type 0 where
  pub enum : String
  pub values : List String

pub record UpdateEnum : Type 0 where
  pub enum : String
  pub new_name : Option String
  pub created_values : List String
  pub deleted_values : List String

pub record DeleteEnum : Type 0 where
  pub enum : String

pub record Argument : Type 0 where
  pub name : String
  pub value : MigrationExpression

pub data DirectiveType : Type 0 where
  field : (model field : String) → DirectiveType
  model : (model : String) → DirectiveType
  enum : (enum : String) → DirectiveType

pub record DirectiveLocation : Type 0 where
  pub location : DirectiveType
  pub directive : String
  pub arguments : Option (List Argument)

pub record CreateDirective : Type 0 where
  pub locator : DirectiveLocation

pub record DeleteDirective : Type 0 where
  pub locator : DirectiveLocation

pub record CreateDirectiveArgument : Type 0 where
  pub directive_location : DirectiveLocation
  pub argument : String
  pub value : MigrationExpression

pub record DeleteDirectiveArgument : Type 0 where
  pub directive_location : DirectiveLocation
  pub argument : String

pub record UpdateDirectiveArgument : Type 0 where
  pub directive_location : DirectiveLocation
  pub argument : String
  pub new_value : MigrationExpression

pub data MigrationStep : Type 0 where
  create_model : CreateModel → MigrationStep
  update_model : UpdateModel → MigrationStep
  delete_model : DeleteModel → MigrationStep
  create_directive : CreateDirective → MigrationStep
  delete_directive : DeleteDirective → MigrationStep
  create_directive_argument : CreateDirectiveArgument → MigrationStep
  update_directive_argument : UpdateDirectiveArgument → MigrationStep
  delete_directive_argument : DeleteDirectiveArgument → MigrationStep
  create_field : CreateField → MigrationStep
  delete_field : DeleteField → MigrationStep
  update_field : UpdateField → MigrationStep
  create_enum : CreateEnum → MigrationStep
  update_enum : UpdateEnum → MigrationStep
  delete_enum : DeleteEnum → MigrationStep

-- `is_any_option_set` of the three kinds of update.
unfoldable pub update_model_is_any_option_set : UpdateModel → Bool
update_model_is_any_option_set u = is_some u.new_name

unfoldable pub update_field_is_any_option_set : UpdateField → Bool
update_field_is_any_option_set u = is_some u.new_name || is_some u.tpe || is_some u.arity

unfoldable pub update_enum_is_any_option_set : UpdateEnum → Bool
update_enum_is_any_option_set u =
    is_some u.new_name || (ltb 0 (length u.created_values) || ltb 0 (length u.deleted_values))

module _ (text : ExpressionText) where
  -- `From<&ast::Argument> for Argument`
  abbrev pub from_ast_argument : Ast.Argument → Argument
  from_ast_argument arg = record { name = arg.name.name; value = text.render arg.value }

  -- `Into<ast::Argument> for &Argument`; `none` is the panic of `to_ast_expression`, whose text
  -- does not parse.
  unfoldable pub into_ast_argument : Argument → Option Ast.Argument
  into_ast_argument arg =
      Option.map (λ e. record { name = new_ident arg.name; value = e; span = empty_span })
        (text.parse arg.value)

  unfoldable pub matches_ast_argument : Argument → Ast.Argument → Bool
  matches_ast_argument arg found =
      arg.name == found.name.name && arg.value == text.render found.value

  -- Directives that can be repeated are told apart by their arguments.
  unfoldable pub arguments_match_ast : Option (List Argument) → List Ast.Argument → Bool
  unfolding matches_ast_argument
  arguments_match_ast none found = true
  arguments_match_ast (some arguments) found =
      nat_eq (length found) (length arguments)
      && all (λ f. is_some (find? (λ a. matches_ast_argument a f) arguments)) found

  unfoldable pub matches_ast_directive : DirectiveLocation → Ast.Directive → Bool
  unfolding arguments_match_ast
  matches_ast_directive locator directive =
      locator.directive == directive.name.name
      && arguments_match_ast locator.arguments directive.arguments
