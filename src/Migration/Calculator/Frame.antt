-- ===== src/Migration/Calculator/Frame.antt =====
-- A step of the calculator changes only the models and the enums that it names.
use prisma_engine.Base.{String, List, [], ◌∷◌, ◌≡◌, ◌∙◌, arith, ok, >>=-eq-ok}
use prisma_engine.Datamodel.Ast.{SchemaAst, find_model, find_enum}
use prisma_engine.Datamodel.Ast.Render.{ExpressionText}
use prisma_engine.Migration.Steps.{MigrationStep}
use prisma_engine.Migration.Calculator.{apply_step, apply}
use prisma_engine.Migration.Calculator.Spares.{SparesModel, SparesEnum}
use prisma_engine.Migration.Calculator.StepFrame.{apply_step-frame_model, apply_step-frame_enum}

-- Every step of a run keeps clear of the model, or of the enum.
abbrev pub AllSpareModel : String → List MigrationStep → Type 0
AllSpareModel k [] = Unit
AllSpareModel k (step ∷ steps) = SparesModel k step × AllSpareModel k steps

abbrev pub AllSpareEnum : String → List MigrationStep → Type 0
AllSpareEnum k [] = Unit
AllSpareEnum k (step ∷ steps) = SparesEnum k step × AllSpareEnum k steps

-- A run of steps that succeeds leaves each model that no step of it names, by its old or its new
-- name, as it was.
pub apply-frame_model :
    (text : ExpressionText) (s s' : SchemaAst) (steps : List MigrationStep) (k : String)
    → apply text s steps ≡ ok s'
    → AllSpareModel k steps
    → find_model s' k ≡ find_model s k
unfolding apply
apply-frame_model text s s' [] k h spare = ground arith
apply-frame_model text s s' (step ∷ steps) k h spare =
    let (t, e, rest) = >>=-eq-ok (apply_step text s step) (λ t. apply text t steps) h in
    apply-frame_model text t s' steps k rest spare.1
    ∙ apply_step-frame_model text s k step e spare.0

-- A run of steps that succeeds leaves each enum that no step of it names, by its old or its new
-- name, as it was.
pub apply-frame_enum :
    (text : ExpressionText) (s s' : SchemaAst) (steps : List MigrationStep) (k : String)
    → apply text s steps ≡ ok s'
    → AllSpareEnum k steps
    → find_enum s' k ≡ find_enum s k
unfolding apply
apply-frame_enum text s s' [] k h spare = ground arith
apply-frame_enum text s s' (step ∷ steps) k h spare =
    let (t, e, rest) = >>=-eq-ok (apply_step text s step) (λ t. apply text t steps) h in
    apply-frame_enum text t s' steps k rest spare.1 ∙ apply_step-frame_enum text s k step e spare.0
