-- ===== src/Migration/Calculator/Common.antt =====
-- What the steps of the calculator share (migration-engine/core/src/migration/datamodel_calculator.rs).
use prisma_engine.Base.{String, Option, none, some, List, [], ◌∷◌, Outcome, and_then}
use mathlib.Core.Option
use prisma_engine.Datamodel.Ast.{SchemaAst}
use prisma_engine.Migration.Steps.{DirectiveLocation}

-- The messages of the errors, by what they say.
pub data CalculatorError : Type 0 where
  enum_already_exists : (enum : String) → CalculatorError
  field_already_exists : (field model : String) → CalculatorError
  create_field_on_unknown_model : (model : String) → CalculatorError
  model_already_exists : (model : String) → CalculatorError
  model_does_not_exist : (model : String) → CalculatorError
  field_does_not_exist : (field model : String) → CalculatorError
  enum_does_not_exist : (enum : String) → CalculatorError
  create_directive_on_absent_target : DirectiveLocation → CalculatorError
  delete_directive_on_absent_target : DirectiveLocation → CalculatorError

-- A step's effect: the new schema, an error, or a panic.
abbrev pub Calculation : Type 0
Calculation = Outcome CalculatorError SchemaAst

-- `apply_model_update`, `apply_field_update` and `apply_enum_update` are one function but for the
-- type of the node.
abbrev pub apply_update : {A T : Type 0} → Option T → (T → A → A) → A → A
apply_update none f a = a
apply_update (some t) f a = f t a

-- `iter().map(f).collect()` where `f` may panic.
unfoldable pub traverse : {A B : Type 0} → (A → Option B) → List A → Option (List B)
traverse f [] = some []
traverse f (x ∷ xs) =
    let rest = traverse f xs in and_then (f x) (λ y. Option.map (λ ys. y ∷ ys) rest)
