-- ===== src/Migration/Tests/Differ.antt =====
-- Tests of the datamodel differ (migration-engine/core/src/migration/datamodel_differ.rs).
use prisma_engine.Base.{[], ◌∷◌, ◌≡◌, refl, ok}
use prisma_engine.Datamodel.Ast.{SchemaAst}
use prisma_engine.Migration.Calculator.{apply}
use prisma_engine.Migration.Differ.{diff}
use prisma_engine.Migration.Samples.{program, sample_text, blog, model, dir, arg}

-- A new model with two `@@unique` directives: the arguments of both are given to the first.
abbrev with_uniques : SchemaAst
with_uniques = record {
  tops =
      model "Pair" [] (dir "unique" (arg "" "a" ∷ []) ∷ dir "unique" (arg "" "b" ∷ []) ∷ []) ∷ [];
}

uniques_run :
    apply sample_text (record { tops = [] }) (diff sample_text (record { tops = [] }) with_uniques)
    ≡ ok (record {
      tops =
          model "Pair" [] (dir "unique" (arg "" "a" ∷ arg "" "b" ∷ []) ∷ dir "unique" [] ∷ []) ∷ [];
    })
unfolding program
uniques_run = refl

blog_run :
    apply sample_text (record { tops = [] }) (diff sample_text (record { tops = [] }) blog)
    ≡ ok blog
unfolding program
blog_run = refl
