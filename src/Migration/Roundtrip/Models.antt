-- ===== src/Migration/Roundtrip/Models.antt =====
-- The steps that create models and enums, applied to a schema that has none of their names
-- (migration-engine/core/src/migration).
use prisma_engine.Base.{
  Bool, true, none, some, [], ◌&&◌, ◌≡◌, refl, ◌∙◌, arith, ok, ◌>>=◌, map, all, map-eq-some,
  and_then-eq-some,
}
use prisma_engine.Datamodel.Ast.{SchemaAst, Top, Model, Enum, find_model, find_enum, push_top}
use prisma_engine.Datamodel.Ast.Render.{ExpressionText}
use prisma_engine.Migration.Steps.{DirectiveType}
use prisma_engine.Migration.Calculator.{apply, apply_step}
use prisma_engine.Migration.Calculator.Common.{traverse}
use prisma_engine.Migration.Calculator.Models.{apply_create_model}
use prisma_engine.Migration.Calculator.Enums.{apply_create_enum}
use prisma_engine.Migration.Differ.{push_created_model, push_created_enum, push_created_fields}
use prisma_engine.Migration.Differ.Directives.{push_created_directives}
use prisma_engine.Base.{are_new}
use prisma_engine.Migration.Roundtrip.Reread.{
  reread_model, reread_enum, reread_field, plain_model, plain_enum,
}
use prisma_engine.Migration.Roundtrip.Directives.{apply-append, apply-push_created_directives}
use prisma_engine.Migration.Roundtrip.Fields.{apply-push_created_fields}
use prisma_engine.Migration.Roundtrip.Tops.{last_model, last_enum, model_directives}

-- The names in a model are all different: those of its fields, those of the directives of a field, and
-- those of its own directives.
unfoldable pub is_plain_model : Model → Bool
unfolding are_new all
is_plain_model m =
    are_new [] (map (λ x. x.name.name) m.fields)
    && (all (λ x. are_new [] (map (λ d. d.name.name) x.directives)) m.fields
        && are_new [] (map (λ d. d.name.name) m.directives))

unfoldable pub is_plain_enum : Enum → Bool
unfolding are_new
is_plain_enum e = are_new [] (map (λ d. d.name.name) e.directives)

is_plain_model-parts :
    (m : Model)
    → is_plain_model m ≡ true
    → (are_new [] (map (λ x. x.name.name) m.fields) ≡ true)
      × (all (λ x. are_new [] (map (λ d. d.name.name) x.directives)) m.fields ≡ true)
      × (are_new [] (map (λ d. d.name.name) m.directives) ≡ true)
unfolding is_plain_model
is_plain_model-parts m h = ground arith

module _ (text : ExpressionText) (s : SchemaAst) where
  -- The steps that the differ gives for a new model add it to any schema without one of that name.
  pub apply-push_created_model :
      (m : Model) {m' : Model}
      → find_model s m.name.name ≡ none
      → is_plain_model m ≡ true
      → reread_model text m ≡ some m'
      → apply text s (push_created_model text m) ≡ ok (push_top s (Top.model m'))
  unfolding apply apply_step push_created_model apply_create_model reread_model
  apply-push_created_model m absent plain h =
      let (fs, fields_read, rest) = and_then-eq-some (traverse (reread_field text) m.fields) _ h in
      let (ds, directives_read, out) = map-eq-some _ _ rest in
      let (fields_new, each, directives_new) = is_plain_model-parts m plain in
      let n = m.name.name in
      let place = last_model s n absent in
      let location = DirectiveType.model n in
      rw (absent, ◌>>=◌)
        (apply-append text (place.put (plain_model m [] [])) (push_created_fields text n m.fields)
            (push_created_directives text location m.directives)
            (apply-push_created_fields text n place (plain_model m [] []) m.fields refl fields_new
              each fields_read)
          ∙ (apply-push_created_directives text location
                (model_directives n place (plain_model m fs []) refl) [] m.directives directives_new
                directives_read
              ∙ rw out refl))

  -- The steps that the differ gives for a new enum add it to any schema without one of that name.
  pub apply-push_created_enum :
      (e : Enum) {e' : Enum}
      → find_enum s e.name.name ≡ none
      → is_plain_enum e ≡ true
      → reread_enum text e ≡ some e'
      → apply text s (push_created_enum text e) ≡ ok (push_top s (Top.enum e'))
  unfolding apply apply_step push_created_enum apply_create_enum reread_enum is_plain_enum
  apply-push_created_enum e absent plain h =
      let (ds, read, out) = map-eq-some _ _ h in
      let place = last_enum s e.name.name absent (plain_enum e []) refl in
      rw (absent, ◌>>=◌)
        (apply-push_created_directives text (DirectiveType.enum e.name.name) place [] e.directives
            plain read
          ∙ rw out refl)
