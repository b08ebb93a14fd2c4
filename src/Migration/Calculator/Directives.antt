-- ===== src/Migration/Calculator/Directives.antt =====
-- The steps on directives and their arguments
-- (migration-engine/core/src/migration/datamodel_calculator.rs).
use prisma_engine.Base.{
  String, Bool, not, Option, some, List, [], ◌∷◌, ◌++◌, ◌==◌, filter, modify_first, ◌>>=◌, ok_or,
  unwrap, unwrap_or, if◌then◌else◌,
}
use mathlib.Core.Option
use prisma_engine.Datamodel.Ast.{
  SchemaAst, Model, Enum, Field, Directive, Argument, new_ident, empty_span, find_model_mut,
  find_enum_mut, find_field_mut,
}
use prisma_engine.Datamodel.Ast.Render.{ExpressionText}
use prisma_engine.Migration.Steps
use prisma_engine.Migration.Steps.{
  DirectiveType, DirectiveLocation, MigrationExpression, into_ast_argument, matches_ast_directive,
}
use prisma_engine.Migration.Calculator.Common.{
  Calculation, create_directive_on_absent_target, delete_directive_on_absent_target, traverse,
}

abbrev pub on_field_directives : (List Directive → Option (List Directive)) → Field → Option Field
on_field_directives f x = Option.map (λ ds. record x { directives = ds }) (f x.directives)

abbrev pub on_model_directives : (List Directive → Option (List Directive)) → Model → Option Model
on_model_directives f x = Option.map (λ ds. record x { directives = ds }) (f x.directives)

abbrev pub on_enum_directives : (List Directive → Option (List Directive)) → Enum → Option Enum
on_enum_directives f x = Option.map (λ ds. record x { directives = ds }) (f x.directives)

-- The directives of the field, model or enum at a location are changed by `f`.
unfoldable pub find_directives_mut :
    SchemaAst → DirectiveType → (List Directive → Option (List Directive)) → Option SchemaAst
find_directives_mut s (DirectiveType.field model field) f =
    find_field_mut s model field (on_field_directives f)
find_directives_mut s (DirectiveType.model model) f = find_model_mut s model (on_model_directives f)
find_directives_mut s (DirectiveType.enum enum) f = find_enum_mut s enum (on_enum_directives f)

abbrev pub directive_named : String → Directive → Bool
directive_named n d = d.name.name == n

-- The first directive of that name at the location is changed by `f`.
unfoldable pub find_directive_mut :
    SchemaAst → DirectiveLocation → (Directive → Option Directive) → Option SchemaAst
unfolding find_directives_mut
find_directive_mut s locator f =
    find_directives_mut s locator.location (modify_first (directive_named locator.directive) f)

abbrev pub argument_named : String → Argument → Bool
argument_named n a = a.name.name == n

module _ (text : ExpressionText) where
  unfoldable pub new_directive : DirectiveLocation → Option Directive
  unfolding traverse
  new_directive locator =
      Option.map
        (λ args. record { name = new_ident locator.directive; arguments = args; span = empty_span })
        (traverse (into_ast_argument text) (unwrap_or locator.arguments []))

  unfoldable pub apply_create_directive : SchemaAst → Steps.CreateDirective → Calculation
  unfolding find_directives_mut new_directive
  apply_create_directive s step = do
    _ ←
        ok_or (create_directive_on_absent_target step.locator)
          (find_directives_mut s step.locator.location some)
    d ← unwrap (new_directive step.locator)
    unwrap (find_directives_mut s step.locator.location (λ ds. some (ds ++ d ∷ [])))

  unfoldable pub apply_delete_directive : SchemaAst → Steps.DeleteDirective → Calculation
  unfolding find_directives_mut
  apply_delete_directive s step = ok_or (delete_directive_on_absent_target step.locator) (
      find_directives_mut s step.locator.location
        (λ ds. some (filter (λ d. not (matches_ast_directive text step.locator d)) ds)))

  abbrev pub push_argument : String → MigrationExpression → Directive → Option Directive
  push_argument name value d =
      Option.map
        (λ e. record d {
          arguments =
              d.arguments ++ record { name = new_ident name; value = e; span = empty_span } ∷ [];
        })
        (text.parse value)

  unfoldable pub apply_create_directive_argument :
      SchemaAst → Steps.CreateDirectiveArgument → Calculation
  unfolding find_directive_mut
  apply_create_directive_argument s step =
      unwrap (find_directive_mut s step.directive_location (push_argument step.argument step.value))

  -- Only an argument of that name has the text parsed for it.
  abbrev pub set_argument : String → MigrationExpression → Argument → Option Argument
  set_argument name value a =
      if argument_named name a
      then Option.map (λ e. record a { value = e }) (text.parse value)
      else some a

  unfoldable pub set_arguments : String → MigrationExpression → Directive → Option Directive
  unfolding traverse
  set_arguments name value d =
      Option.map (λ args. record d { arguments = args })
        (traverse (set_argument name value) d.arguments)

  unfoldable pub apply_update_directive_argument :
      SchemaAst → Steps.UpdateDirectiveArgument → Calculation
  unfolding find_directive_mut set_arguments
  apply_update_directive_argument s step =
      unwrap
        (find_directive_mut s step.directive_location (set_arguments step.argument step.new_value))

  unfoldable pub apply_delete_directive_argument :
      SchemaAst → Steps.DeleteDirectiveArgument → Calculation
  unfolding find_directive_mut
  apply_delete_directive_argument s step = unwrap (
      find_directive_mut s step.directive_location λ d.
        some
          (record d { arguments = filter (λ a. not (argument_named step.argument a)) d.arguments }))
