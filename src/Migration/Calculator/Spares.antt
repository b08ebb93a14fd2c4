-- ===== src/Migration/Calculator/Spares.antt =====
-- Which model and which enum a step of the calculator names, and the changes that leave the others.
use prisma_engine.Base.{String, Option, none, some, List, ◌≡◌, ◌≢◌, refl, sym, ap, ◌∙◌, map-eq-some}
use prisma_engine.Datamodel.Ast.{
  Model, Enum, Directive, SchemaAst, find_model, find_enum, find_model_mut, find_enum_mut,
  find_field_mut,
}
use prisma_engine.Datamodel.Ast.Lookup.{
  KeepsModelName, KeepsEnumName, find_model-find_model_mut_other, find_enum-find_enum_mut_other,
  enums-find_model_mut, models-find_enum_mut,
}
use prisma_engine.Migration.Steps.{MigrationStep, DirectiveType}
use prisma_engine.Migration.Calculator.Directives.{find_directives_mut}

-- The model and the enum that a directive's location lies in.
abbrev pub location_model : DirectiveType → Option String
location_model (DirectiveType.field model field) = some model
location_model (DirectiveType.model model) = some model
location_model (DirectiveType.enum enum) = none

abbrev pub location_enum : DirectiveType → Option String
location_enum (DirectiveType.field model field) = none
location_enum (DirectiveType.model model) = none
location_enum (DirectiveType.enum enum) = some enum

-- The model that a step changes, and the name that it leaves the model with.
abbrev pub step_model : MigrationStep → Option String
step_model (MigrationStep.create_model c) = some c.model
step_model (MigrationStep.update_model c) = some c.model
step_model (MigrationStep.delete_model c) = some c.model
step_model (MigrationStep.create_directive c) = location_model c.locator.location
step_model (MigrationStep.delete_directive c) = location_model c.locator.location
step_model (MigrationStep.create_directive_argument c) =
    location_model c.directive_location.location
step_model (MigrationStep.update_directive_argument c) =
    location_model c.directive_location.location
step_model (MigrationStep.delete_directive_argument c) =
    location_model c.directive_location.location
step_model (MigrationStep.create_field c) = some c.model
step_model (MigrationStep.delete_field c) = some c.model
step_model (MigrationStep.update_field c) = some c.model
step_model (MigrationStep.create_enum c) = none
step_model (MigrationStep.update_enum c) = none
step_model (MigrationStep.delete_enum c) = none

abbrev pub step_enum : MigrationStep → Option String
step_enum (MigrationStep.create_directive c) = location_enum c.locator.location
step_enum (MigrationStep.delete_directive c) = location_enum c.locator.location
step_enum (MigrationStep.create_directive_argument c) = location_enum c.directive_location.location
step_enum (MigrationStep.update_directive_argument c) = location_enum c.directive_location.location
step_enum (MigrationStep.delete_directive_argument c) = location_enum c.directive_location.location
step_enum (MigrationStep.create_enum c) = some c.enum
step_enum (MigrationStep.update_enum c) = some c.enum
step_enum (MigrationStep.delete_enum c) = some c.enum
step_enum _ = none

abbrev pub new_model_name : MigrationStep → Option String
new_model_name (MigrationStep.update_model c) = c.new_name
new_model_name _ = none

abbrev pub new_enum_name : MigrationStep → Option String
new_enum_name (MigrationStep.update_enum c) = c.new_name
new_enum_name _ = none

-- A step that keeps clear of the model, or of the enum, named `k`.
abbrev pub SparesModel : String → MigrationStep → Type 0
SparesModel k step = (step_model step ≢ some k) × (new_model_name step ≢ some k)

abbrev pub SparesEnum : String → MigrationStep → Type 0
SparesEnum k step = (step_enum step ≢ some k) × (new_enum_name step ≢ some k)

module _ (s : SchemaAst) (k : String) where
  -- A change of a model through any of the paths of the calculator.
  pub find_model_mut-frame_enum :
      (n : String) (f : Model → Option Model) {s' : SchemaAst}
      → find_model_mut s n f ≡ some s'
      → find_enum s' k ≡ find_enum s k
  unfolding find_enum
  find_model_mut-frame_enum n f h = rw (enums-find_model_mut s n f h)

  pub find_enum_mut-frame_model :
      (n : String) (f : Enum → Option Enum) {s' : SchemaAst}
      → find_enum_mut s n f ≡ some s'
      → find_model s' k ≡ find_model s k
  unfolding find_model
  find_enum_mut-frame_model n f h = rw (models-find_enum_mut s n f h)

  pub find_model_mut-frame_model :
      (n : String) (f : Model → Option Model) {s' : SchemaAst}
      → n ≢ k
      → KeepsModelName f
      → find_model_mut s n f ≡ some s'
      → find_model s' k ≡ find_model s k
  find_model_mut-frame_model n f ne keeps h =
      find_model-find_model_mut_other s n k f ne
        (λ x y fx named same. ne (sym named ∙ (sym (keeps x y fx) ∙ same))) h

  pub find_enum_mut-frame_enum :
      (n : String) (f : Enum → Option Enum) {s' : SchemaAst}
      → n ≢ k
      → KeepsEnumName f
      → find_enum_mut s n f ≡ some s'
      → find_enum s' k ≡ find_enum s k
  find_enum_mut-frame_enum n f ne keeps h =
      find_enum-find_enum_mut_other s n k f ne
        (λ x y fx named same. ne (sym named ∙ (sym (keeps x y fx) ∙ same))) h

  pub find_directives_mut-frame_model :
      (l : DirectiveType) (f : List Directive → Option (List Directive)) {s' : SchemaAst}
      → location_model l ≢ some k
      → find_directives_mut s l f ≡ some s'
      → find_model s' k ≡ find_model s k
  unfolding find_directives_mut find_field_mut
  find_directives_mut-frame_model (DirectiveType.field m x) f ne h =
      find_model_mut-frame_model m _ (λ e. ne (ap some e))
        (λ x y fx. let (_, _, out) = map-eq-some _ _ fx in rw out refl) h
  find_directives_mut-frame_model (DirectiveType.model m) f ne h =
      find_model_mut-frame_model m _ (λ e. ne (ap some e))
        (λ x y fx. let (_, _, out) = map-eq-some _ _ fx in rw out refl) h
  find_directives_mut-frame_model (DirectiveType.enum e) f ne h = find_enum_mut-frame_model e _ h

  pub find_directives_mut-frame_enum :
      (l : DirectiveType) (f : List Directive → Option (List Directive)) {s' : SchemaAst}
      → location_enum l ≢ some k
      → find_directives_mut s l f ≡ some s'
      → find_enum s' k ≡ find_enum s k
  unfolding find_directives_mut find_field_mut
  find_directives_mut-frame_enum (DirectiveType.field m x) f ne h = find_model_mut-frame_enum m _ h
  find_directives_mut-frame_enum (DirectiveType.model m) f ne h = find_model_mut-frame_enum m _ h
  find_directives_mut-frame_enum (DirectiveType.enum e) f ne h =
      find_enum_mut-frame_enum e _ (λ e. ne (ap some e))
        (λ x y fx. let (_, _, out) = map-eq-some _ _ fx in rw out refl) h
