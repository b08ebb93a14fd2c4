-- ===== src/Migration/Tests/Roundtrip.antt =====
-- Tests of the differ with the calculator (migration-engine/core/src/migration).
use prisma_engine.Base.{
  List, [], ◌∷◌, ◌++◌, ◌≡◌, refl, ok, are_new, any, all, filter, filter_map, find?,
}
use prisma_engine.Datamodel.Ast.{
  SchemaAst, Top, Model, Enum, Directive, models, enums, empty, find_model,
}
use prisma_engine.Datamodel.Ast.Render.{render_value}
use prisma_engine.Migration.Steps.{DirectiveType}
use prisma_engine.Migration.Calculator.{apply}
use prisma_engine.Migration.Calculator.Common.{traverse}
use prisma_engine.Migration.Differ.{
  diff, push_created_models, push_created_enums, push_deleted_models,
}
use prisma_engine.Migration.Differ.Directives.{push_created_directive}
use prisma_engine.Migration.Differ.Items.{is_regular}
use prisma_engine.Migration.Differ.Unchanged.{
  diff_self, is_distinct_model, is_distinct_enum, is_distinct_field, is_distinct_directive,
  are_distinct_directives,
}
use prisma_engine.Migration.Roundtrip.Reread.{
  reread_argument, reread_directive, reread_field, reread_model, reread_enum,
}
use prisma_engine.Migration.Roundtrip.Models.{is_plain_model, is_plain_enum}
use prisma_engine.Migration.Roundtrip.Tops.{last_model, model_directives}
use prisma_engine.Migration.Roundtrip.First.{
  apply-diff-empty, apply-push_created_models, apply-push_created_enums,
}
use prisma_engine.Migration.Roundtrip.Deleted.{apply-push_deleted_models, without_models}
use prisma_engine.Migration.Roundtrip.DeletedEnums.{without_enums}
use prisma_engine.Migration.Roundtrip.Emptied.{apply-diff-to_empty}
use prisma_engine.Migration.Roundtrip.Repeated.{apply-push_created_directive_repeated}
use prisma_engine.Migration.Samples.{
  sample_text, blog, model, model_node, enum_node, field, dir, arg,
}

abbrev mood : Enum
mood = enum_node "Mood" ("happy" ∷ "sad" ∷ [])

abbrev user : Model
user = model_node "User" (field "id" "Int" (dir "id" [] ∷ []) ∷ field "name" "String" [] ∷ []) []

abbrev post : Model
post =
    model_node "Post" (field "id" "Int" (dir "id" [] ∷ []) ∷ [])
      (dir "map" (arg "" "posts" ∷ []) ∷ [])

apply-diff-empty_example :
    apply sample_text empty (diff sample_text empty blog)
    ≡ ok (record { tops = Top.enum mood ∷ Top.model user ∷ Top.model post ∷ [] })
unfolding are_new any all is_plain_model is_plain_enum traverse reread_argument reread_directive
    reread_field reread_model reread_enum models enums filter_map render_value
apply-diff-empty_example =
    apply-diff-empty sample_text blog (mood ∷ []) (user ∷ post ∷ []) refl refl refl refl refl refl

diff_self_example : diff sample_text blog blog ≡ []
unfolding are_new any all is_distinct_model is_distinct_enum is_distinct_field is_distinct_directive
    are_distinct_directives is_regular filter models enums filter_map
diff_self_example = diff_self sample_text blog refl refl refl refl

abbrev tag : Model
tag = model_node "Tag" (field "id" "Int" (dir "id" [] ∷ []) ∷ []) []

apply-push_created_models_example :
    apply sample_text blog (push_created_models sample_text (tag ∷ []))
    ≡ ok (record { tops = blog.tops ++ Top.model tag ∷ [] })
unfolding are_new any all is_plain_model traverse reread_argument reread_directive reread_field
    reread_model models filter_map render_value
apply-push_created_models_example =
    apply-push_created_models sample_text blog (tag ∷ []) refl refl refl

abbrev role : Enum
role = enum_node "Role" ("admin" ∷ [])

apply-push_created_enums_example :
    apply sample_text blog (push_created_enums sample_text (role ∷ []))
    ≡ ok (record { tops = blog.tops ++ Top.enum role ∷ [] })
unfolding are_new any all is_plain_enum traverse reread_directive reread_enum enums filter_map
apply-push_created_enums_example =
    apply-push_created_enums sample_text blog (role ∷ []) refl refl refl

abbrev on_a : Directive
on_a = dir "unique" (arg "" "a" ∷ [])

-- A model `Pair` at the end of the empty schema.
abbrev pair_with : List Directive → SchemaAst
pair_with ds = record { tops = model "Pair" [] ds ∷ [] }

apply-push_created_directive_repeated_example :
    apply sample_text (pair_with (on_a ∷ [])) (
      push_created_directive sample_text
        (DirectiveType.model "Pair")
        (dir "unique" (arg "" "b" ∷ [])))
    ≡ ok (pair_with (dir "unique" (arg "" "a" ∷ arg "" "b" ∷ []) ∷ dir "unique" [] ∷ []))
unfolding traverse reread_argument render_value find_model find? filter_map
apply-push_created_directive_repeated_example =
    apply-push_created_directive_repeated sample_text (DirectiveType.model "Pair")
      (model_directives "Pair" (last_model empty "Pair" refl) (model_node "Pair" [] []) refl) on_a
      [] (dir "unique" (arg "" "b" ∷ [])) refl refl

apply-push_deleted_models_example :
    apply sample_text blog (push_deleted_models sample_text (user ∷ []))
    ≡ ok (without_models ("User" ∷ []) blog)
unfolding are_new any all find_model models filter_map find?
apply-push_deleted_models_example = apply-push_deleted_models sample_text blog (user ∷ []) refl refl

kept_run : without_models ("User" ∷ []) blog ≡ record { tops = Top.enum mood ∷ Top.model post ∷ [] }
unfolding filter all
kept_run = refl

apply-diff-to_empty_example :
    apply sample_text blog (diff sample_text blog empty)
    ≡ ok (without_models ("User" ∷ "Post" ∷ []) (without_enums ("Mood" ∷ []) blog))
unfolding are_new any all models enums filter_map
apply-diff-to_empty_example = apply-diff-to_empty sample_text blog refl refl

emptied_run : without_models ("User" ∷ "Post" ∷ []) (without_enums ("Mood" ∷ []) blog) ≡ empty
unfolding filter all
emptied_run = refl
