-- ===== src/Migration/Differ/Directives.antt =====
-- The steps on directives and their arguments (migration-engine/core/src/migration/datamodel_differ.rs).
-- A function that pushes steps gives the list of what it pushes.
use prisma_engine.Base.{none, some, List, [], ◌∷◌, ◌++◌, ◌==◌, map, flat_map, if◌then◌else◌}
use prisma_engine.Datamodel.Ast.{Directive, Argument}
use prisma_engine.Datamodel.Ast.Render.{ExpressionText}
use prisma_engine.Migration.Steps.{
  MigrationStep, DirectiveType, DirectiveLocation, from_ast_argument,
}
use prisma_engine.Migration.Differ.Items.{deleted_arguments, created_arguments, argument_pairs}

module _ (text : ExpressionText) where
  unfoldable pub push_created_directive_argument : DirectiveLocation → Argument → List MigrationStep
  push_created_directive_argument directive_location argument =
      MigrationStep.create_directive_argument (record {
        directive_location = directive_location;
        argument = argument.name.name;
        value = text.render argument.value;
      })
      ∷ []

  -- The text is compared, not the expression.
  unfoldable pub push_updated_directive_argument :
      DirectiveLocation → Argument × Argument → List MigrationStep
  push_updated_directive_argument directive_location (previous, next) =
      if text.render previous.value == text.render next.value
      then []
      else MigrationStep.update_directive_argument (record {
        directive_location = directive_location;
        argument = next.name.name;
        new_value = text.render next.value;
      })
        ∷ []

  unfoldable pub push_deleted_directive_argument : DirectiveLocation → Argument → List MigrationStep
  push_deleted_directive_argument directive_location argument =
      MigrationStep.delete_directive_argument
        (record { directive_location = directive_location; argument = argument.name.name })
      ∷ []

  -- `DirectiveLocation` of a directive by its name, and by its name and arguments.
  abbrev pub locator_of : DirectiveType → Directive → DirectiveLocation
  locator_of location directive = record {
    location = location;
    directive = directive.name.name;
    arguments = none;
  }

  abbrev pub exact_locator_of : DirectiveType → Directive → DirectiveLocation
  exact_locator_of location directive = record {
    location = location;
    directive = directive.name.name;
    arguments = some (map (from_ast_argument text) directive.arguments);
  }

  unfoldable pub push_created_directive_with_arguments :
      DirectiveType → Directive → List MigrationStep
  push_created_directive_with_arguments location directive =
      MigrationStep.create_directive (record { locator = exact_locator_of location directive }) ∷ []

  unfoldable pub push_created_directive : DirectiveType → Directive → List MigrationStep
  unfolding push_created_directive_argument
  push_created_directive location directive =
      MigrationStep.create_directive (record { locator = locator_of location directive })
      ∷ flat_map (push_created_directive_argument (locator_of location directive))
          directive.arguments

  unfoldable pub push_deleted_directive : DirectiveType → Directive → List MigrationStep
  push_deleted_directive location directive =
      MigrationStep.delete_directive (record { locator = locator_of location directive }) ∷ []

  unfoldable pub push_deleted_directive_with_arguments :
      DirectiveType → Directive → List MigrationStep
  push_deleted_directive_with_arguments location directive =
      MigrationStep.delete_directive (record { locator = exact_locator_of location directive }) ∷ []

  unfoldable pub push_updated_directive : DirectiveType → Directive × Directive → List MigrationStep
  unfolding push_updated_directive_argument push_deleted_directive_argument
      push_created_directive_argument created_arguments argument_pairs deleted_arguments
  push_updated_directive location (previous, next) =
      let locator = locator_of location previous in
      flat_map (push_created_directive_argument locator) (created_arguments previous next)
      ++ (flat_map (push_updated_directive_argument locator) (argument_pairs previous next)
          ++ flat_map (push_deleted_directive_argument locator) (deleted_arguments previous next))

  unfoldable pub push_created_directives : DirectiveType → List Directive → List MigrationStep
  unfolding push_created_directive
  push_created_directives location = flat_map (push_created_directive location)

  unfoldable pub push_deleted_directives : DirectiveType → List Directive → List MigrationStep
  unfolding push_deleted_directive
  push_deleted_directives location = flat_map (push_deleted_directive location)

  unfoldable pub push_updated_directives :
      DirectiveType → List (Directive × Directive) → List MigrationStep
  unfolding push_updated_directive
  push_updated_directives location = flat_map (push_updated_directive location)
