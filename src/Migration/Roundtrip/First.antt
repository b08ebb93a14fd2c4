-- ===== src/Migration/Roundtrip/First.antt =====
-- The first migration: from the empty schema (migration-engine/core/src/migration).
use mathlib.Core.Option.{some-injective}
use mathlib.Core.List.{map-append}
use prisma_engine.Base.{
  filter-all, true, some, List, [], ◌∷◌, ◌++◌, ◌≡◌, refl, ◌∙◌, arith, ok, flat_map, map, all,
  append_assoc, append-nil, filter, filter_map, filter_map-append, find?,
}
use prisma_engine.Datamodel.Ast.{
  SchemaAst, Top, Model, Enum, models, enums, as_model, as_enum, find_model, find_enum, push_top,
  empty,
}
use prisma_engine.Datamodel.Ast.Render.{ExpressionText}
use prisma_engine.Migration.Calculator.{apply}
use prisma_engine.Migration.Calculator.Common.{traverse}
use prisma_engine.Migration.Differ.{
  push_created_model, push_created_models, push_created_enum, push_created_enums, push_enums,
  push_models, diff, push_deleted_enums, push_deleted_models, push_updated_enums,
  push_updated_models,
}
use prisma_engine.Migration.Differ.Pairs.{created, deleted, pairs}
use prisma_engine.Migration.Differ.Items.{
  created_models, deleted_models, model_pairs, created_enums, deleted_enums, enum_pairs,
}
use prisma_engine.Base.{are_new, are_new-cons}
use prisma_engine.Migration.Roundtrip.Fresh.{find?-absent, traverse-cons}
use prisma_engine.Migration.Roundtrip.Reread.{
  reread_model, reread_enum, reread_model-name, reread_enum-name,
}
use prisma_engine.Migration.Roundtrip.Directives.{apply-append}
use prisma_engine.Migration.Roundtrip.Models.{
  is_plain_model, is_plain_enum, apply-push_created_model, apply-push_created_enum,
}

module _ (text : ExpressionText) where
  -- The steps that the differ gives for new models add them in order to the end of any schema, as far as
  -- the steps hold them. The names of the models must be new and each different, and so must those of the
  -- fields and of the directives at one place in a model; the texts of the arguments must read.
  pub apply-push_created_models :
      (s : SchemaAst) (new : List Model) {new' : List Model}
      → are_new (map (λ m. m.name.name) (models s)) (map (λ m. m.name.name) new) ≡ true
      → all is_plain_model new ≡ true
      → traverse (reread_model text) new ≡ some new'
      → apply text s (push_created_models text new)
        ≡ ok (record { tops = s.tops ++ map Top.model new' })
  unfolding push_created_models flat_map traverse apply all models filter_map find_model
  apply-push_created_models s [] fresh plain h = rw (← some-injective _ _ h, append-nil) refl
  apply-push_created_models s (m ∷ new) fresh plain h =
      let (m', rest', e, r, out) = traverse-cons (reread_model text) m new h in
      let (absent, later) = are_new-cons (map (λ m. m.name.name) (models s)) m.name.name _ fresh in
      let s' : SchemaAst = push_top s (Top.model m') in
      let fresh' : are_new (map (λ m. m.name.name) (models s')) (map (λ m. m.name.name) new)
          ≡ true =
        rw
          (
            filter_map-append as_model s.tops (Top.model m' ∷ []),
            map-append (λ (y : Model). y.name.name) (models s) (m' ∷ []),
            reread_model-name text m m' e,
          )
          later in
      apply-append text s (push_created_model text m) (push_created_models text new) (
        apply-push_created_model text s m
          (find?-absent (λ (y : Model). y.name.name) m.name.name (models s) absent) (ground arith)
          e)
      ∙ (apply-push_created_models s' new fresh' (ground arith) r
          ∙ rw (out, append_assoc s.tops (Top.model m' ∷ []) (map Top.model rest')) refl)

  -- The steps that the differ gives for new enums add them in order to the end of any schema, as far as
  -- the steps hold them. The names of the enums must be new and each different, and so must those of the
  -- directives of an enum; the texts of the arguments must read.
  pub apply-push_created_enums :
      (s : SchemaAst) (new : List Enum) {new' : List Enum}
      → are_new (map (λ e. e.name.name) (enums s)) (map (λ e. e.name.name) new) ≡ true
      → all is_plain_enum new ≡ true
      → traverse (reread_enum text) new ≡ some new'
      → apply text s (push_created_enums text new)
        ≡ ok (record { tops = s.tops ++ map Top.enum new' })
  unfolding push_created_enums flat_map traverse apply all enums filter_map find_enum
  apply-push_created_enums s [] fresh plain h = rw (← some-injective _ _ h, append-nil) refl
  apply-push_created_enums s (m ∷ new) fresh plain h =
      let (m', rest', e, r, out) = traverse-cons (reread_enum text) m new h in
      let (absent, later) = are_new-cons (map (λ m. m.name.name) (enums s)) m.name.name _ fresh in
      let s' : SchemaAst = push_top s (Top.enum m') in
      let fresh' : are_new (map (λ m. m.name.name) (enums s')) (map (λ m. m.name.name) new) ≡ true =
        rw
          (
            filter_map-append as_enum s.tops (Top.enum m' ∷ []),
            map-append (λ (y : Enum). y.name.name) (enums s) (m' ∷ []),
            reread_enum-name text m m' e,
          )
          later in
      apply-append text s (push_created_enum text m) (push_created_enums text new) (
        apply-push_created_enum text s m
          (find?-absent (λ (y : Enum). y.name.name) m.name.name (enums s) absent) (ground arith) e)
      ∙ (apply-push_created_enums s' new fresh' (ground arith) r
          ∙ rw (out, append_assoc s.tops (Top.enum m' ∷ []) (map Top.enum rest')) refl)

models-map_enum : (es : List Enum) → filter_map as_model (map Top.enum es) ≡ []
unfolding filter_map
models-map_enum [] = refl
models-map_enum (e ∷ es) = models-map_enum es

module _ (text : ExpressionText) where
  diff-empty :
      (n : SchemaAst)
      → diff text empty n ≡ push_created_enums text (enums n) ++ push_created_models text (models n)
  unfolding diff push_enums push_models created_enums deleted_enums enum_pairs created_models
      deleted_models model_pairs created deleted pairs enums models filter filter_map find? flat_map
      push_deleted_enums push_deleted_models push_updated_enums push_updated_models
      push_created_enums push_created_models
  diff-empty n = λ i.
      append-nil (flat_map (push_created_enum text) (filter-all (filter_map as_enum n.tops) i)) i
      ++ append-nil (flat_map (push_created_model text) (filter-all (filter_map as_model n.tops) i))
          i

  -- Applying the steps from the empty schema to a schema gives that schema, the enums first and then the
  -- models, as far as the steps hold it: names, types, arities, directives, and the arguments as their
  -- texts read. The names of models, of enums, of the fields of a model and of the directives at one
  -- place must each be different, and the texts of the arguments must read.
  pub apply-diff-empty :
      (n : SchemaAst) (es : List Enum) (ms : List Model)
      → are_new [] (map (λ e. e.name.name) (enums n)) ≡ true
      → are_new [] (map (λ m. m.name.name) (models n)) ≡ true
      → all is_plain_enum (enums n) ≡ true
      → all is_plain_model (models n) ≡ true
      → traverse (reread_enum text) (enums n) ≡ some es
      → traverse (reread_model text) (models n) ≡ some ms
      → apply text empty (diff text empty n)
        ≡ ok (record { tops = map Top.enum es ++ map Top.model ms })
  unfolding enums models filter_map
  apply-diff-empty n es ms new_es new_ms plain_es plain_ms read_es read_ms =
      let s : SchemaAst = record { tops = map Top.enum es } in
      rw (diff-empty n) (
        apply-append text empty (push_created_enums text (enums n))
          (push_created_models text (models n))
          (apply-push_created_enums text empty (enums n) new_es plain_es read_es)
        ∙ apply-push_created_models text s (models n) (rw (models-map_enum es) new_ms) plain_ms
            read_ms)
