-- ===== src/Migration/Roundtrip/Fields.antt =====
-- The steps that create fields with their directives, applied where a model stands.
use mathlib.Core.Option
use mathlib.Core.Option.{some-injective}
use mathlib.Core.List.{map-append}
use prisma_engine.Base.{
  all, String, true, Option, none, some, List, [], ◌∷◌, ◌++◌, ◌≡◌, refl, ◌∙◌, arith, ok, ◌>>=◌,
  flat_map, map, find?, append_assoc, append-nil, str_refl, map-eq-some,
}
use prisma_engine.Datamodel.Ast.{
  SchemaAst, Model, Field, Directive, find_model, find_field, find_model_mut, find_field_mut,
  field_named,
}
use prisma_engine.Datamodel.Ast.Render.{ExpressionText}
use prisma_engine.Migration.Steps.{DirectiveType}
use prisma_engine.Migration.Calculator.{apply, apply_step}
use prisma_engine.Migration.Calculator.Common.{traverse}
use prisma_engine.Migration.Calculator.Fields.{apply_create_field, push_field}
use prisma_engine.Migration.Calculator.Directives.{find_directives_mut, on_field_directives}
use prisma_engine.Migration.Differ.{push_created_field, push_created_fields}
use prisma_engine.Base.{are_new, are_new-cons}
use prisma_engine.Migration.Roundtrip.Fresh.{find?-absent, modify_first-snoc, traverse-cons}
use prisma_engine.Migration.Roundtrip.Reread.{reread_field, reread_field-name, plain_field}
use prisma_engine.Migration.Roundtrip.Directives.{
  Place, apply-append, apply-push_created_directives,
}

-- Schemas that differ in the one model of a name.
pub record ModelPlace (n : String) : Type 0 where
  pub put : Model → SchemaAst
  pub seen : (m : Model) → m.name.name ≡ n → find_model (put m) n ≡ some m
  pub found :
      (m : Model) (f : Model → Option Model)
      → m.name.name ≡ n
      → find_model_mut (put m) n f ≡ Option.map put (f m)

module _ (n : String) (place : ModelPlace n) (m : Model) (named : m.name.name ≡ n) where
  -- The model with some fields, the last of which has some directives.
  abbrev with_last : List Field → Field → List Directive → SchemaAst
  with_last fs x ds = place.put (record m { fields = fs ++ (record x { directives = ds }) ∷ [] })

  last_field-found :
      (fs : List Field) (x : Field)
      → find? (field_named x.name.name) fs ≡ none
      → (ds : List Directive) (f : List Directive → Option (List Directive))
      → find_directives_mut (with_last fs x ds) (DirectiveType.field n x.name.name) f
        ≡ Option.map (with_last fs x) (f ds)
  unfolding find_directives_mut find_field_mut
  last_field-found fs x absent ds f =
      place.found (record m { fields = fs ++ (record x { directives = ds }) ∷ [] }) _ named
      ∙ rw
          (modify_first-snoc (field_named x.name.name) (on_field_directives f) fs
            (record x { directives = ds }) absent (str_refl x.name.name))
          (by_answer (f ds))
    where
      by_answer :
          (o : Option (List Directive))
          → Option.map place.put (
              Option.map
                (λ ys. record m { fields = ys })
                (Option.map
                  (λ y. fs ++ y ∷ [])
                  (Option.map (λ es. record x { directives = es }) o)))
            ≡ Option.map (with_last fs x) o
      by_answer none = refl
      by_answer (some es) = refl

  abbrev last_field :
      (fs : List Field) (x : Field)
      → find? (field_named x.name.name) fs ≡ none
      → Place (DirectiveType.field n x.name.name)
  last_field fs x absent = record { put = with_last fs x; found = last_field-found fs x absent }

module _ (text : ExpressionText) (n : String) (place : ModelPlace n) where
  one_field :
      (m : Model) (x x' : Field)
      → m.name.name ≡ n
      → find? (field_named x.name.name) m.fields ≡ none
      → are_new [] (map (λ d. d.name.name) x.directives) ≡ true
      → reread_field text x ≡ some x'
      → apply text (place.put m) (push_created_field text n x)
        ≡ ok (place.put (record m { fields = m.fields ++ x' ∷ [] }))
  unfolding apply apply_step push_created_field apply_create_field reread_field find_field
  one_field m x x' named absent fresh h =
      let (ds, read, out) = map-eq-some _ _ h in
      let spot = last_field n place m named m.fields (plain_field x []) absent in
      rw
        (
          place.seen m named,
          absent,
          place.found m (λ y. some (push_field (plain_field x []) y)) named,
          ◌>>=◌,
        )
        (apply-push_created_directives text (DirectiveType.field n x.name.name) spot [] x.directives
            fresh read
          ∙ rw out refl)

  -- New fields are added behind those that the model has.
  pub apply-push_created_fields :
      (m : Model) (new : List Field) {new' : List Field}
      → m.name.name ≡ n
      → are_new (map (λ x. x.name.name) m.fields) (map (λ x. x.name.name) new) ≡ true
      → all (λ x. are_new [] (map (λ d. d.name.name) x.directives)) new ≡ true
      → traverse (reread_field text) new ≡ some new'
      → apply text (place.put m) (push_created_fields text n new)
        ≡ ok (place.put (record m { fields = m.fields ++ new' }))
  unfolding push_created_fields flat_map traverse apply all
  apply-push_created_fields m [] named fresh each h = rw (← some-injective _ _ h, append-nil) refl
  apply-push_created_fields m (x ∷ new) named fresh each h =
      let (x', rest', e, r, out) = traverse-cons (reread_field text) x new h in
      let (absent, later) = are_new-cons (map (λ x. x.name.name) m.fields) x.name.name _ fresh in
      let m' : Model = record m { fields = m.fields ++ x' ∷ [] } in
      let fresh' : are_new (map (λ y. y.name.name) m'.fields) (map (λ y. y.name.name) new) ≡ true =
        rw
          (
            map-append (λ (y : Field). y.name.name) m.fields (x' ∷ []),
            reread_field-name text x x' e,
          )
          later in
      apply-append text (place.put m) (push_created_field text n x) (push_created_fields text n new)
        (one_field m x x' named
          (find?-absent (λ (y : Field). y.name.name) x.name.name m.fields absent) (ground arith) e)
      ∙ (apply-push_created_fields m' new named fresh' (ground arith) r
          ∙ rw (out, append_assoc m.fields (x' ∷ []) rest') refl)
