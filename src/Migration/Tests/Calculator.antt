-- ===== src/Migration/Tests/Calculator.antt =====
-- Tests of the datamodel calculator (migration-engine/core/src/migration/datamodel_calculator.rs).
use prisma_engine.Base.{some-ne-some, [], ◌∷◌, ◌≡◌, refl, ok}
use prisma_engine.Datamodel.Ast.{SchemaAst, find_model, find_enum, required}
use prisma_engine.Migration.Steps.{MigrationStep}
use prisma_engine.Migration.Samples.{program, sample_text, blog, model, enum, field, dir, arg}
use prisma_engine.Migration.Calculator.{apply, apply_step}
use prisma_engine.Migration.Calculator.Frame.{apply-frame_model, apply-frame_enum}
use prisma_engine.Migration.Calculator.Guards.{Answers, is_applicable, apply_step-Answers}
use prisma_engine.Migration.Calculator.Undo.{apply-create_delete_model, apply-create_delete_enum}

abbrev add_email : MigrationStep
add_email =
    MigrationStep.create_field
      (record { model = "User"; field = "email"; tpe = "String"; arity = required })

abbrev grown : SchemaAst
grown = record {
  tops =
      enum "Mood" ("happy" ∷ "sad" ∷ [])
      ∷ model "User"
          (field "id" "Int" (dir "id" [] ∷ [])
            ∷ field "name" "String" []
            ∷ field "email" "String" []
            ∷ [])
          []
      ∷ model "Post" (field "id" "Int" (dir "id" [] ∷ []) ∷ [])
          (dir "map" (arg "" "posts" ∷ []) ∷ [])
      ∷ [];
}

add_email_runs : apply sample_text blog (add_email ∷ []) ≡ ok grown
unfolding program
add_email_runs = refl

apply-frame_model_example : find_model grown "Post" ≡ find_model blog "Post"
apply-frame_model_example =
    apply-frame_model sample_text blog grown (add_email ∷ []) "Post" add_email_runs
      ((some-ne-some "User" "Post" refl, λ e. cc), tt)

apply-frame_enum_example : find_enum grown "Mood" ≡ find_enum blog "Mood"
apply-frame_enum_example =
    apply-frame_enum sample_text blog grown (add_email ∷ []) "Mood" add_email_runs
      ((λ e. cc, λ e. cc), tt)

apply_step-Answers_example :
    Answers (is_applicable blog add_email) (apply_step sample_text blog add_email)
apply_step-Answers_example = apply_step-Answers sample_text blog add_email tt

apply-create_delete_model_example :
    apply sample_text blog (
      MigrationStep.create_model (record { model = "Tag" })
      ∷ (MigrationStep.delete_model (record { model = "Tag" }) ∷ []))
    ≡ ok blog
unfolding program
apply-create_delete_model_example = apply-create_delete_model sample_text blog "Tag" refl

apply-create_delete_enum_example :
    apply sample_text blog (
      MigrationStep.create_enum (record { enum = "Role"; values = "admin" ∷ [] })
      ∷ (MigrationStep.delete_enum (record { enum = "Role" }) ∷ []))
    ≡ ok blog
unfolding program
apply-create_delete_enum_example =
    apply-create_delete_enum sample_text blog "Role" ("admin" ∷ []) refl
